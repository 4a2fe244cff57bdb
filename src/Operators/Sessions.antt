-- ===== src/Operators/Sessions.antt =====
-- How often a thread connects and logs in (getDBClientConnection of Common/ThreadCommon_cpp.cgt): the
-- requests for it that are made and those that an unset connection still allows.
use mathlib.Core.Path.{subst, sym}
use streamsx_mongo_db.Prelude.{
  ℕ, ◌+◌, ◌≤◌, ◌≡◌, refl, Bool, true, false, not, Option, none, some, List, ◌∷◌, Bytes,
  if◌then◌else◌, All, arith, ◌∙◌, suc,
}
use streamsx_mongo_db.Operators.Driver.{
  connect, Request, Reply, returned, refused, raised, Driver, State, Outcome, done, thrown, fault,
  M, when, ask, write_log, throw, operator_error, continue_with,
}
use streamsx_mongo_db.Operators.Requests.{is_login, logins, IsWrite}
use streamsx_mongo_db.Operators.Connection.{
  Config, Credentials, no_credentials, authentication, user, get_db_client_connection,
  open_connection, build_conn_url, try_connect, connected, connect_failed, authenticate,
}
use streamsx_mongo_db.Operators.Process.{Output, Step, process_all}
use streamsx_mongo_db.Operators.Keeps.{Tracks, Keeps-process_all}

-- The connection is as it was, and at most `n` more connection and login requests were made.
abbrev Within : {D : Driver} → ℕ → State D Output → State D Output → Type 0
Within n s s' =
    (s'.has_connection ≡ s.has_connection) × (logins s'.requests ≤ logins s.requests + n)

module _ {D : Driver} (cfg : Config) where
  Within-continue :
      {A : Type 0} (n : ℕ) (s : State D Output) (r : Outcome A × State D Output)
      (f : A → M D Output (Unit {0}))
      → Within n s r.1
      → ((a : A) (s' : State D Output) → Within 0 s' (f a s').1)
      → Within n s (continue_with r f).1
  Within-continue n s (done a, s') f h k =
      let later = (k a s').1 in ((k a s').0 ∙ h.0, (let so_far = h.1 in omega arith))
  Within-continue n s (thrown x, s') f h k = h
  Within-continue n s (fault, s') f h k = h

  authenticate-Within :
      (db : Bytes) (c : Credentials) (s : State D Output) → Within 1 s (authenticate cfg db c s).1
  unfolding authenticate ask
  authenticate-Within db no_credentials s = (refl, omega arith)
  authenticate-Within db (authentication d) s = (refl, omega arith)
  authenticate-Within db (user name password) s = (refl, omega arith)

  connected-Within :
      (db : Bytes) (r : Reply) (s : State D Output) → Within 1 s (connected cfg db r s).1
  unfolding connected
  connected-Within db (returned t) s = authenticate-Within db cfg.credentials s
  connected-Within db (refused e) s = authenticate-Within db cfg.credentials s
  connected-Within db (raised e) s = (refl, omega arith)

  log_or_throw-Within :
      (b : Bool) (e : Bytes) (s : State D Output)
      → Within 0 s ((if b then write_log e else throw (operator_error e)) s).1
  unfolding write_log
  log_or_throw-Within true e s = (refl, omega arith)
  log_or_throw-Within false e s = (refl, omega arith)

  connect_failed-Within :
      (f : Option Bytes) (s : State D Output) → Within 0 s (connect_failed cfg f s).1
  unfolding connect_failed
  connect_failed-Within none s = (refl, omega arith)
  connect_failed-Within (some e) s = log_or_throw-Within cfg.auto_reconnect e s

  -- Opening sets the connection and makes at most two such requests.
  open_connection-Within :
      (db : Bytes) (s : State D Output)
      → let s' = (open_connection cfg db s).1 in
        (s'.has_connection ≡ true) × (logins s'.requests ≤ logins s.requests + 2)
  unfolding open_connection try_connect ask
  open_connection-Within db s =
      let q = connect (build_conn_url cfg.db_host cfg.db_port) in
      let r = (D.respond q s.world).0 in
      let s' = record s {
        has_connection = true;
        world = (D.respond q s.world).1;
        requests = q ∷ s.requests;
      } in
      let h =
        Within-continue 1 s' (connected cfg db r s') (connect_failed cfg) (connected-Within db r s')
          connect_failed-Within in
      (h.0, (let bound = h.1 in omega arith))

-- The requests made so far and those that may still come.
abbrev budget : Bool → List Request → ℕ
budget b qs = logins qs + (if b then 0 else 2)

abbrev Spends : {D : Driver} → State D Output → State D Output → Type 0
Spends s s' = budget s'.has_connection s'.requests ≤ budget s.has_connection s.requests

Spends-asked :
    (b b' : Bool) (q : Request) (qs qs' : List Request)
    → is_login q ≡ false
    → b' ≡ b
    → qs' ≡ q ∷ qs
    → budget b' qs' ≤ budget b qs
Spends-asked b b' q qs qs' l c e =
    subst (λ x. budget x qs' ≤ budget b qs) (sym c)
      (subst (λ x. budget b x ≤ budget b qs) (sym e)
        (subst
          (λ x. (if x then suc (logins qs) else logins qs) + (if b then 0 else 2) ≤ budget b qs)
          (sym l) (omega arith)))

Spends-open :
    {D : Driver} (cfg : Config) (db : Bytes) (b : Bool) (s : State D Output)
    → s.has_connection ≡ b
    → Spends s (when (not b) (open_connection cfg db) s).1
Spends-open cfg db true s h = omega arith
Spends-open cfg db false s h =
    let o = open_connection-Within cfg db s in
    let s' = (open_connection cfg db s).1 in
    subst (λ x. budget x s'.requests ≤ budget s.has_connection s.requests) (sym o.0)
      (subst (λ x. budget true s'.requests ≤ budget x s.requests) (sym h)
        (let bound = o.1 in omega arith))

Spends-opened :
    {D : Driver} (cfg : Config) (db : Bytes) (s : State D Output)
    → Spends s (get_db_client_connection cfg db s).1
unfolding get_db_client_connection
Spends-opened cfg db s = Spends-open cfg db s.has_connection s refl

Spends-Tracks : {D : Driver} (cfg : Config) → Tracks {D = D} cfg Spends
Spends-Tracks cfg = record {
  still = λ s s' c e.
      subst (λ x. budget x s'.requests ≤ budget s.has_connection s.requests) (sym c)
        (subst (λ x. budget s.has_connection x ≤ budget s.has_connection s.requests) (sym e)
          (omega arith));
  composed = λ s s' s'' a b. omega arith;
  asked = λ q s s' l c e. Spends-asked _ _ q _ _ l c e;
  opened = Spends-opened cfg;
}

-- Over any stream of writes and whatever the driver answers, a thread without a connection asks at most
-- twice to connect or log in, and a thread with one never does.
pub logins-process_all :
    {D : Driver} (cfg : Config) (stream : List (List Step)) (s : State D Output)
    → All (All IsWrite) stream
    → logins (process_all cfg stream s).1.requests
      ≤ logins s.requests + (if s.has_connection then 0 else 2)
logins-process_all cfg stream s w =
    let s' = (process_all cfg stream s).1 in
    let h = (Keeps-process_all (Spends-Tracks cfg) stream w).run s in omega arith
