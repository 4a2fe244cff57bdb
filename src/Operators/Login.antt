-- ===== src/Operators/Login.antt =====
-- The connection's life in a thread (Common/ThreadCommon_cpp.cgt): it is opened and logged in to at
-- most once, whatever became of the attempt.
use mathlib.Core.Path.{subst, sym}
use mathlib.Core.Bool.{false≢true}
use streamsx_mongo_db.Operators.Requests.{logins, IsWrite}
use streamsx_mongo_db.Prelude.{
  ap, suc, ◌≡◌, refl, ◌∙◌, Bool, true, false, not, List, ◌∷◌, Bytes, if◌then◌else◌, All,
}
use streamsx_mongo_db.Operators.Driver.{
  connect, raised, Driver, State, Outcome, done, thrown, fault, M, ◌>>◌, when, ask, write_log,
  continue_with, throw, operator_error,
}
use streamsx_mongo_db.Operators.Connection.{
  Config, get_db_client_connection, open_connection, build_conn_url, try_connect, connected,
  connect_failed,
}
use streamsx_mongo_db.Operators.Process.{Output, Step, process_all}
use streamsx_mongo_db.Operators.Keeps.{Keeps, Tracks, Keeps-process_all}

-- An open connection stays open, and no login is asked for.
abbrev Same : {D : Driver} → State D Output → State D Output → Type 0
Same s s' =
    s.has_connection ≡ true → (s'.has_connection ≡ true) × (logins s'.requests ≡ logins s.requests)

Same-opened :
    {D : Driver} (cfg : Config) (db : Bytes) (s : State D Output)
    → Same s (get_db_client_connection cfg db s).1
unfolding get_db_client_connection
Same-opened cfg db s h =
    subst
      (λ b.
        ((when (not b) (open_connection cfg db) s).1.has_connection ≡ true)
        × (logins (when (not b) (open_connection cfg db) s).1.requests ≡ logins s.requests))
      (sym h) (h, refl)

Same-Tracks : {D : Driver} (cfg : Config) → Tracks {D = D} cfg Same
Same-Tracks cfg = record {
  still = λ s s' c q h. (c ∙ h, ap logins q);
  composed = λ s s' s'' a b h. ((b (a h).0).0, (b (a h).0).1 ∙ (a h).1);
  asked = λ q s s' l c e h. (c ∙ h, ap logins e ∙ rw l);
  opened = Same-opened cfg;
}

module _ {D : Driver} (cfg : Config) where
  -- Where the connection is set, no tuple of a stream of writes makes the operator connect or log in.
  pub connected_for_good :
      (stream : List (List Step)) (s : State D Output)
      → All (All IsWrite) stream
      → s.has_connection ≡ true
      → let s' = (process_all cfg stream s).1 in
        (s'.has_connection ≡ true) × (logins s'.requests ≡ logins s.requests)
  connected_for_good stream s w h = (Keeps-process_all (Same-Tracks cfg) stream w).run s h

  -- The attempt to connect returned, set the connection and asked for one login.
  abbrev Attempted : State D Output → Outcome (Unit {0}) × State D Output → Type 0
  Attempted s (done a, s') =
      (s'.has_connection ≡ true) × (logins s'.requests ≡ suc (logins s.requests))
  Attempted s (thrown x, s') = ⊥
  Attempted s (fault, s') = ⊥

  -- What the code does with a failed attempt.
  connect_failed-Attempted :
      (b : Bool) (e : Bytes) (s s' : State D Output)
      → b ≡ true
      → (s'.has_connection ≡ true) × (logins s'.requests ≡ suc (logins s.requests))
      → Attempted s ((if b then write_log e else throw (operator_error e)) s')
  unfolding write_log
  connect_failed-Attempted true e s s' auto h = h
  connect_failed-Attempted false e s s' auto h = absurd (false≢true auto)

  open_connection-Attempted :
      (db e : Bytes) (s : State D Output)
      → cfg.auto_reconnect ≡ true
      → (D.respond (connect (build_conn_url cfg.db_host cfg.db_port)) s.world).0 ≡ raised e
      → Attempted s (open_connection cfg db s)
  unfolding open_connection try_connect ask connected connect_failed
  open_connection-Attempted db e s auto fails =
      let q = connect (build_conn_url cfg.db_host cfg.db_port) in
      let s' = record s {
        has_connection = true;
        world = (D.respond q s.world).1;
        requests = q ∷ s.requests;
      } in
      subst (λ r. Attempted s (continue_with (connected cfg db r s') (connect_failed cfg)))
        (sym fails) (connect_failed-Attempted cfg.auto_reconnect e s s' auto (refl, refl))

  then-logins :
      (k : M D Output (Unit {0})) (s : State D Output) (r : Outcome (Unit {0}) × State D Output)
      → Attempted s r
      → Keeps Same k
      → logins (continue_with r λ _. k).1.requests ≡ suc (logins s.requests)
  then-logins k s (done a, s') (c, e) h = (h.run s' c).1 ∙ e
  then-logins k s (thrown x, s') h hk = absurd h
  then-logins k s (fault, s') h hk = absurd h

  -- With `autoReconnect`, a thread whose first connection attempt fails sends that one request and
  -- then never authenticates: over all later writes the connection and login requests stay at one.
  pub failed_connect_never_logs_in :
      (db e : Bytes) (stream : List (List Step)) (s : State D Output)
      → All (All IsWrite) stream
      → cfg.auto_reconnect ≡ true
      → s.has_connection ≡ false
      → (D.respond (connect (build_conn_url cfg.db_host cfg.db_port)) s.world).0 ≡ raised e
      → let s' = ((get_db_client_connection cfg db >> process_all cfg stream) s).1 in
        logins s'.requests ≡ suc (logins s.requests)
  unfolding get_db_client_connection
  failed_connect_never_logs_in db e stream s w auto fresh fails =
      then-logins (process_all cfg stream) s _
        (subst (λ b. Attempted s (when (not b) (open_connection cfg db) s)) (sym fresh)
          (open_connection-Attempted db e s auto fails))
        (Keeps-process_all (Same-Tracks cfg) stream w)
