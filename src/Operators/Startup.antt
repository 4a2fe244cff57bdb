-- ===== src/Operators/Startup.antt =====
-- The operator's life outside `process` (Common/MongoInit_h.cgt and Common/MongoOperator_cpp.cgt under
-- com.ibm.streamsx.mongodb/com.ibm.streamsx.mongodb): the driver's one initialisation with the TLS
-- options of Types.spl, the constructor, the start, and the shutdown; and the driver's `Status`
-- (impl/include/mongo/base/status.h and status-inl.h), whose counted references are values here.
use streamsx_mongo_db.Prelude.{
  ℕ, Bool, Option, none, some, Bytes, bytes, ◌==◌, if◌then◌else◌, false, true,
}
use streamsx_mongo_db.Prelude.Int.{ℤ, pos}
use streamsx_mongo_db.Operators.Driver.{Driver, M, ◌>>◌, pure, throw, operator_error}
use streamsx_mongo_db.Operators.Connection.{Config, all_ports_ready}

pub record ErrorInfo : Type 0 where
  pub code : ℕ
  pub reason : Bytes
  pub location : ℤ

-- A null `_error` is success.
pub record Status : Type 0 where
  pub error : Option ErrorInfo

unfoldable pub status_code : Option ErrorInfo → ℕ
status_code none = 0
status_code (some e) = e.code

unfoldable pub status_reason : Option ErrorInfo → Bytes
status_reason none = bytes ""
status_reason (some e) = e.reason

unfoldable pub status_location : Option ErrorInfo → ℤ
status_location none = pos 0
status_location (some e) = e.location

unfoldable pub is_ok : Status → Bool
unfolding status_code
is_ok status = status_code status.error == 0

pub data SslMode : Type 0 where
  ssl_disabled ssl_required : SslMode

-- `SSLOptions_t`
pub record SslOptions : Type 0 where
  pub ssl_mode : Bool
  pub ca_file : Bytes
  pub pem_key_file : Bytes
  pub pem_key_password : Bytes
  pub crl_file : Bytes
  pub allow_invalid_certificates : Bool
  pub allow_invalid_hostnames : Bool

-- The driver's options and its two global calls, compiled elsewhere.
pub record ClientLibrary : Type 1 where
  pub Options : Type 0
  pub default_options : Options
  pub set_ssl_mode : SslMode → Options → Options
  pub ssl_mode_of : Options → SslMode
  pub set_ssl_ca_file : Bytes → Options → Options
  pub set_ssl_pem_key_file : Bytes → Options → Options
  pub set_ssl_pem_key_password : Bytes → Options → Options
  pub set_ssl_crl_file : Bytes → Options → Options
  pub set_ssl_allow_invalid_certificates : Bool → Options → Options
  pub set_ssl_allow_invalid_hostnames : Bool → Options → Options
  pub Global : Type 0
  pub initialize : Options → Global → Status × Global
  pub shutdown : Global → Status × Global

-- `(client::Options::SSLModes)(int)`, where a Boolean is 0 or 1.
unfoldable pub ssl_mode_of_bool : Bool → SslMode
ssl_mode_of_bool b = if b then ssl_required else ssl_disabled

unfoldable pub is_enabled : SslMode → Bool
is_enabled ssl_disabled = false
is_enabled ssl_required = true

module _ (C : ClientLibrary) where
  unfoldable pub ssl_enabled : C.Options → Bool
  unfolding is_enabled
  ssl_enabled o = is_enabled (C.ssl_mode_of o)

  -- The chain of setters that the generator prints where the parameter `sslOptions` is given.
  unfoldable pub client_options : Option SslOptions → C.Options
  unfolding ssl_mode_of_bool
  client_options none = C.default_options
  client_options (some t) =
      let modes = C.set_ssl_mode (ssl_mode_of_bool t.ssl_mode) C.default_options in
      let keys = C.set_ssl_pem_key_file t.pem_key_file (C.set_ssl_ca_file t.ca_file modes) in
      let lists =
        C.set_ssl_crl_file t.crl_file (C.set_ssl_pem_key_password t.pem_key_password keys) in
      C.set_ssl_allow_invalid_hostnames t.allow_invalid_hostnames
        (C.set_ssl_allow_invalid_certificates t.allow_invalid_certificates lists)

  -- `MongoInit::init`
  unfoldable pub init : Option SslOptions → C.Global → Status × C.Global
  unfolding client_options
  init t g = C.initialize (client_options t) g

  -- The status is dropped.
  unfoldable pub prepare_to_shutdown : C.Global → C.Global
  prepare_to_shutdown g = (C.shutdown g).1

module _ {D : Driver} {T : Type 0} (cfg : Config) where
  -- The constructor, given `MongoInit<void>::status_`.
  unfoldable pub create : Status → M D T (Unit {0})
  unfolding is_ok
  create status =
      if is_ok status
      then pure tt
      else throw (operator_error (bytes "MongoDB initialization failed"))

  -- What the runtime calls before the first tuple.
  unfoldable pub start : Status → M D T (Unit {0})
  unfolding create all_ports_ready
  start status = do create status; all_ports_ready cfg
