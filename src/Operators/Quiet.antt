-- ===== src/Operators/Quiet.antt =====
-- Code that may raise an exception but writes no document, counts nothing, submits nothing and
-- follows no null pointer: the part of `process` around an operation's own request.
use streamsx_mongo_db.Prelude.{
  ◌≡◌, refl, ◌∙◌, Bool, true, false, not, Option, none, some, Bytes, if◌then◌else◌,
}
use streamsx_mongo_db.Operators.Driver.{
  Profiling, Request, connect, auth_document, auth_password, Reply, returned, refused, raised,
  Driver, State, Outcome, done, thrown, fault, M, ◌>>=◌, ◌>>◌, pure, modify, when, ask, perform,
  write_log, continue_with, raise_reply,
}
use streamsx_mongo_db.Operators.Driver
use streamsx_mongo_db.Operators.Connection.{
  Config, Credentials, no_credentials, authentication, user, prepare, get_db_client_connection,
  check_connection, profile, connection_lost, open_connection, reconnect_or_abort, connect_failed,
  authenticate, failure_of, failure_of_user, connected, try_connect,
}
use streamsx_mongo_db.Operators.Requests.{is_write, writes}

module _ {D : Driver} {T : Type 0} where
  abbrev pub Silent : State D T → State D T → Type 0
  Silent s s' =
      (s'.metric ≡ s.metric)
      × (s'.submitted ≡ s.submitted)
      × (writes s'.requests ≡ writes s.requests)

  pub Silent-trans : (s s' s'' : State D T) → Silent s s' → Silent s' s'' → Silent s s''
  Silent-trans s s' s'' (a, b, c) (a', b', c') = (a' ∙ a, b' ∙ b, c' ∙ c)

  abbrev pub QuietResult : {A : Type 0} → State D T → Outcome A × State D T → Type 0
  QuietResult s (done a, s') = Silent s s'
  QuietResult s (thrown x, s') = Silent s s'
  QuietResult s (fault, s') = ⊥

  pub record Quiet {A : Type 0} (m : M D T A) : Type 0 where
    pub run : (s : State D T) → QuietResult s (m s)

  QuietResult-later :
      {A : Type 0} (s s' : State D T) (r : Outcome A × State D T)
      → Silent s s'
      → QuietResult s' r
      → QuietResult s r
  QuietResult-later s s' (done a, s'') h h' = Silent-trans s s' s'' h h'
  QuietResult-later s s' (thrown x, s'') h h' = Silent-trans s s' s'' h h'
  QuietResult-later s s' (fault, s'') h h' = h'

  QuietResult-continue :
      {A B : Type 0} (s : State D T) (r : Outcome A × State D T) (f : A → M D T B)
      → QuietResult s r
      → ((a : A) → Quiet (f a))
      → QuietResult s (continue_with r f)
  QuietResult-continue s (done a, s') f h k = QuietResult-later s s' (f a s') h ((k a).run s')
  QuietResult-continue s (thrown x, s') f h k = h
  QuietResult-continue s (fault, s') f h k = h

  pub Quiet-bind :
      {A B : Type 0} {m : M D T A} {f : A → M D T B}
      → Quiet m
      → ((a : A) → Quiet (f a))
      → Quiet (m >>= f)
  Quiet-bind {m = m} {f = f} hm hf = record {
    run = λ s. QuietResult-continue s (m s) f (hm.run s) hf;
  }

  Quiet-pure : {A : Type 0} (a : A) → Quiet (pure a)
  Quiet-pure a = record { run = λ s. (refl, refl, refl) }

  Quiet-ask : (q : Request) → is_write q ≡ false → Quiet (ask q)
  unfolding ask
  Quiet-ask q e = record { run = λ s. (refl, refl, rw e) }

  Quiet-raise_reply : (r : Reply) → Quiet (raise_reply r)
  unfolding raise_reply
  Quiet-raise_reply (returned t) = Quiet-pure t
  Quiet-raise_reply (refused t) = Quiet-pure t
  Quiet-raise_reply (raised x) = record { run = λ s. (refl, refl, refl) }

  pub Quiet-perform : (q : Request) → is_write q ≡ false → Quiet (perform q)
  unfolding perform
  Quiet-perform q e = Quiet-bind (Quiet-ask q e) Quiet-raise_reply

  Quiet-write_log : (x : Bytes) → Quiet (write_log x)
  unfolding write_log
  Quiet-write_log x = record { run = λ s. (refl, refl, refl) }

  Quiet-when : {m : M D T (Unit {0})} (b : Bool) → Quiet m → Quiet (when b m)
  Quiet-when true h = h
  Quiet-when false h = Quiet-pure tt

module _ {D : Driver} {T : Type 0} (cfg : Config) (db : Bytes) where
  Quiet-if :
      (b : Bool) (m : M D T (Unit {0})) (x : Driver.Exception)
      → Quiet m
      → Quiet (if b then m else Driver.throw x)
  Quiet-if true m x h = h
  Quiet-if false m x h = record { run = λ s. (refl, refl, refl) }

  Quiet-connect_failed : (o : Option Bytes) → Quiet (connect_failed {D = D} {T = T} cfg o)
  unfolding connect_failed
  Quiet-connect_failed none = Quiet-pure tt
  Quiet-connect_failed (some e) = Quiet-if cfg.auto_reconnect _ _ (Quiet-write_log e)

  Quiet-authenticate : (c : Credentials) → Quiet (authenticate {D = D} {T = T} cfg db c)
  unfolding authenticate
  Quiet-authenticate no_credentials = Quiet-pure none
  Quiet-authenticate (authentication d) =
      Quiet-bind (Quiet-ask _ refl) λ r. Quiet-pure (failure_of r)
  Quiet-authenticate (user n p) = Quiet-bind (Quiet-ask _ refl) λ r. Quiet-pure (failure_of_user r)

  Quiet-connected : (r : Reply) → Quiet (connected {D = D} {T = T} cfg db r)
  unfolding connected
  Quiet-connected (returned t) = Quiet-authenticate cfg.credentials
  Quiet-connected (refused e) = Quiet-authenticate cfg.credentials
  Quiet-connected (raised e) = Quiet-pure (some e)

  Quiet-try_connect : Quiet (try_connect {D = D} {T = T} cfg db)
  unfolding try_connect
  Quiet-try_connect = Quiet-bind (Quiet-ask _ refl) Quiet-connected

  Quiet-set_connection : Quiet (modify {D = D} {T = T} (λ s. record s { has_connection = true }))
  Quiet-set_connection = record { run = λ s. (refl, refl, refl) }

  Quiet-open : Quiet (open_connection {D = D} {T = T} cfg db)
  unfolding open_connection
  Quiet-open =
      Quiet-bind Quiet-set_connection λ _. Quiet-bind Quiet-try_connect Quiet-connect_failed

  Quiet-get : Quiet (get_db_client_connection {D = D} {T = T} cfg db)
  unfolding get_db_client_connection
  Quiet-get = record { run = λ s. (Quiet-when (not s.has_connection) Quiet-open).run s }

  Quiet-reconnect : (b : Bool) → Quiet (reconnect_or_abort {D = D} {T = T} cfg b)
  unfolding reconnect_or_abort
  Quiet-reconnect true =
      Quiet-bind (Quiet-write_log _)
        λ _. Quiet-bind (Quiet-ask Driver.is_still_connected refl) λ _. Quiet-pure tt
  Quiet-reconnect false = record { run = λ s. (refl, refl, refl) }

  Quiet-check : Quiet (check_connection {D = D} {T = T} cfg)
  unfolding check_connection connection_lost
  Quiet-check = record {
    run = λ s. (Quiet-when (D.is_failed s.world) (Quiet-reconnect cfg.auto_reconnect)).run s;
  }

  Quiet-profile : (level : Option Profiling) → Quiet (profile {D = D} {T = T} cfg db level)
  unfolding profile
  Quiet-profile none = Quiet-pure tt
  Quiet-profile (some level) = Quiet-bind (Quiet-perform _ refl) λ _. Quiet-pure tt

  pub Quiet-prepare : Quiet (prepare {D = D} {T = T} cfg db)
  unfolding prepare
  Quiet-prepare = Quiet-bind Quiet-get λ _. Quiet-bind Quiet-check λ _. Quiet-profile cfg.profiling
