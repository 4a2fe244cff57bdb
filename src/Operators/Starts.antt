-- ===== src/Operators/Starts.antt =====
-- What the start of an operator does (Common/MongoOperator_cpp.cgt and Common/MongoInit_h.cgt): when it
-- succeeds, what it sends, and which TLS mode the driver is initialised with.
use streamsx_mongo_db.Prelude.{
  none, some, Option, ◌≡◌, refl, Bool, true, false, List, ◌∙◌, ap, Bytes,
}
use streamsx_mongo_db.Operators.Driver.{Driver, State, Reply, raised, Outcome, done, Request}
use streamsx_mongo_db.Operators.Connection.{Config}
use streamsx_mongo_db.Operators.Startup

abbrev pub is_raised : Reply → Bool
is_raised (raised e) = true
is_raised _ = false

abbrev pub is_done : {A : Type 0} → Outcome A → Bool
is_done (done a) = true
is_done _ = false

module _ {D : Driver} {T : Type 0} (cfg : Config) where
  -- The outcome and the state `r`, where the start succeeds exactly if `b` holds, the requests are
  -- `qs`, and the thread's connection, the metric and what was submitted are as in `s`.
  abbrev pub Started : Bool → List Request → State D T → Outcome (Unit {0}) × State D T → Type 0
  Started b qs s r =
      (is_done r.0 ≡ b)
      × (r.1.requests ≡ qs)
      × (r.1.has_connection ≡ s.has_connection)
      × (r.1.metric ≡ s.metric)
      × (r.1.submitted ≡ s.submitted)

-- What init.h and options.h say of the setters: each sets its own option, and so only `setSSLMode`
-- touches the mode, which is off at first.
pub record SetsOwnOption (C : Startup.ClientLibrary) : Type 0 where
  pub default_mode : C.ssl_mode_of C.default_options ≡ Startup.ssl_disabled
  pub mode_set : (m : Startup.SslMode) (o : C.Options) → C.ssl_mode_of (C.set_ssl_mode m o) ≡ m
  pub ca_file_kept :
      (t : Bytes) (o : C.Options) → C.ssl_mode_of (C.set_ssl_ca_file t o) ≡ C.ssl_mode_of o
  pub pem_key_file_kept :
      (t : Bytes) (o : C.Options) → C.ssl_mode_of (C.set_ssl_pem_key_file t o) ≡ C.ssl_mode_of o
  pub pem_key_password_kept :
      (t : Bytes) (o : C.Options) → C.ssl_mode_of (C.set_ssl_pem_key_password t o) ≡ C.ssl_mode_of o
  pub crl_file_kept :
      (t : Bytes) (o : C.Options) → C.ssl_mode_of (C.set_ssl_crl_file t o) ≡ C.ssl_mode_of o
  pub certificates_kept :
      (b : Bool) (o : C.Options)
      → C.ssl_mode_of (C.set_ssl_allow_invalid_certificates b o) ≡ C.ssl_mode_of o
  pub hostnames_kept :
      (b : Bool) (o : C.Options)
      → C.ssl_mode_of (C.set_ssl_allow_invalid_hostnames b o) ≡ C.ssl_mode_of o

abbrev wants_ssl : Option Startup.SslOptions → Bool
wants_ssl none = false
wants_ssl (some t) = t.ssl_mode

is_enabled-ssl_mode_of_bool : (b : Bool) → Startup.is_enabled (Startup.ssl_mode_of_bool b) ≡ b
unfolding Startup.is_enabled Startup.ssl_mode_of_bool
is_enabled-ssl_mode_of_bool true = refl
is_enabled-ssl_mode_of_bool false = refl

-- The driver is initialised with TLS exactly if the parameter `sslOptions` is given with a true
-- `sslMode`, whatever its files, password and switches.
ssl_enabled-client_options :
    (C : Startup.ClientLibrary)
    → SetsOwnOption C
    → (t : Option Startup.SslOptions)
    → Startup.ssl_enabled C (Startup.client_options C t) ≡ wants_ssl t
unfolding Startup.ssl_enabled Startup.client_options Startup.is_enabled
ssl_enabled-client_options C h none = ap Startup.is_enabled h.default_mode
ssl_enabled-client_options C h (some t) =
    ap Startup.is_enabled (
      h.hostnames_kept _ _
      ∙ (h.certificates_kept _ _
          ∙ (h.crl_file_kept _ _
              ∙ (h.pem_key_password_kept _ _
                  ∙ (h.pem_key_file_kept _ _ ∙ (h.ca_file_kept _ _ ∙ h.mode_set _ _))))))
    ∙ is_enabled-ssl_mode_of_bool t.ssl_mode
