-- ===== src/Operators/Keeps.antt =====
-- Code judged by what it does to the connection and to the requests: a relation of states that a part
-- of `process` respects wherever its pieces do, for every relation with the laws of `Tracks`.
use streamsx_mongo_db.Operators.Requests.{is_login, is_login-is_write, IsWrite}
use streamsx_mongo_db.Prelude.{
  ◌≡◌, refl, Bool, true, false, Option, none, some, List, [], ◌∷◌, Bytes, if◌then◌else◌, All,
}
use streamsx_mongo_db.Bson.Builder
use streamsx_mongo_db.Operators.Driver
use streamsx_mongo_db.Operators.Driver.{
  Profiling, Request, Reply, returned, refused, raised, Driver, State, Outcome, done, thrown, fault,
  M, ◌>>=◌, pure, when, ask, perform, write_log, continue_with, raise_reply,
}
use streamsx_mongo_db.Operators.Connection.{
  Config, prepare, get_db_client_connection, check_connection, profile, connection_lost,
  reconnect_or_abort,
}
use streamsx_mongo_db.Operators.Process.{
  Output, Step, skip, as_is, operation, Locals, set_as_is, record_result, run_step, run_steps,
  submit_found, process_steps, no_locals, process_all,
}

-- A relation of a state and a later one that looks at the connection and the requests only, may be
-- composed, and holds where a request that is no login is made, and where the connection is opened.
pub record Tracks {D : Driver} (cfg : Config) (R : State D Output → State D Output → Type 0)
    : Type 0 where
  pub still :
      (s s' : State D Output)
      → s'.has_connection ≡ s.has_connection
      → s'.requests ≡ s.requests
      → R s s'
  pub composed : (s s' s'' : State D Output) → R s s' → R s' s'' → R s s''
  pub asked :
      (q : Request) (s s' : State D Output)
      → is_login q ≡ false
      → s'.has_connection ≡ s.has_connection
      → s'.requests ≡ q ∷ s.requests
      → R s s'
  pub opened : (db : Bytes) (s : State D Output) → R s (get_db_client_connection cfg db s).1

-- The code leads to related states.
pub record Keeps {D : Driver} (R : State D Output → State D Output → Type 0) {A : Type 0}
    (m : M D Output A) : Type 0 where
  pub run : (s : State D Output) → R s (m s).1

module _ {D : Driver} {cfg : Config} {R : State D Output → State D Output → Type 0}
    (L : Tracks cfg R) where
  Keeps-continue :
      {A B : Type 0} (s : State D Output) (r : Outcome A × State D Output) (f : A → M D Output B)
      → R s r.1
      → ((a : A) → Keeps R (f a))
      → R s (continue_with r f).1
  Keeps-continue s (done a, s') f h k = L.composed s s' _ h ((k a).run s')
  Keeps-continue s (thrown x, s') f h k = h
  Keeps-continue s (fault, s') f h k = h

  Keeps-bind :
      {A B : Type 0} {m : M D Output A} {f : A → M D Output B}
      → Keeps R m
      → ((a : A) → Keeps R (f a))
      → Keeps R (m >>= f)
  Keeps-bind {m = m} {f = f} hm hf = record { run = λ s. Keeps-continue s (m s) f (hm.run s) hf }

  -- The connection and the requests are as they were.
  Keeps-still :
      {A : Type 0} {m : M D Output A}
      → ((s : State D Output)
          → ((m s).1.has_connection ≡ s.has_connection) × ((m s).1.requests ≡ s.requests))
      → Keeps R m
  Keeps-still e = record { run = λ s. L.still s _ (e s).0 (e s).1 }

  Keeps-pure : {A : Type 0} (a : A) → Keeps R (pure a)
  Keeps-pure a = Keeps-still λ s. (refl, refl)

  Keeps-ask : (q : Request) → is_login q ≡ false → Keeps R (ask q)
  unfolding ask
  Keeps-ask q e = record { run = λ s. L.asked q s _ e refl refl }

  Keeps-raise_reply : (r : Reply) → Keeps R (raise_reply r)
  unfolding raise_reply
  Keeps-raise_reply (returned t) = Keeps-pure t
  Keeps-raise_reply (refused t) = Keeps-pure t
  Keeps-raise_reply (raised x) = Keeps-still λ s. (refl, refl)

  Keeps-perform : (q : Request) → is_login q ≡ false → Keeps R (perform q)
  unfolding perform
  Keeps-perform q e = Keeps-bind (Keeps-ask q e) Keeps-raise_reply

  Keeps-write_log : (x : Bytes) → Keeps R (write_log x)
  unfolding write_log
  Keeps-write_log x = Keeps-still λ s. (refl, refl)

  Keeps-if :
      {A : Type 0} {m n : M D Output A} (b : Bool)
      → Keeps R m
      → Keeps R n
      → Keeps R (if b then m else n)
  Keeps-if true hm hn = hm
  Keeps-if false hm hn = hn

  Keeps-when : {m : M D Output (Unit {0})} (b : Bool) → Keeps R m → Keeps R (when b m)
  Keeps-when true h = h
  Keeps-when false h = Keeps-pure tt

  Keeps-reconnect : (b : Bool) → Keeps R (reconnect_or_abort cfg b)
  unfolding reconnect_or_abort
  Keeps-reconnect true =
      Keeps-bind (Keeps-write_log _)
        λ _. Keeps-bind (Keeps-ask Driver.is_still_connected refl) λ _. Keeps-pure tt
  Keeps-reconnect false = Keeps-still λ s. (refl, refl)

  Keeps-check : Keeps R (check_connection cfg)
  unfolding check_connection connection_lost
  Keeps-check = record {
    run = λ s. (Keeps-when (D.is_failed s.world) (Keeps-reconnect cfg.auto_reconnect)).run s;
  }

  Keeps-profile : (db : Bytes) (level : Option Profiling) → Keeps R (profile cfg db level)
  unfolding profile
  Keeps-profile db none = Keeps-pure tt
  Keeps-profile db (some level) = Keeps-bind (Keeps-perform _ refl) λ _. Keeps-pure tt

  Keeps-prepare : (db : Bytes) → Keeps R (prepare cfg db)
  unfolding prepare
  Keeps-prepare db =
      Keeps-bind (record { run = L.opened db })
        λ _. Keeps-bind Keeps-check λ _. Keeps-profile db cfg.profiling

  Keeps-record_result : (n : Bytes) (l : Locals) (e : Bytes) → Keeps R (record_result cfg n l e)
  unfolding record_result
  Keeps-record_result n l [] = Keeps-still λ s. (refl, refl)
  Keeps-record_result n l (c ∷ e) = Keeps-still λ s. (refl, refl)

  Keeps-set_as_is : (n v : Bytes) (l : Locals) (o : Option Output) → Keeps R (set_as_is n v l o)
  unfolding set_as_is
  Keeps-set_as_is n v l none = Keeps-still λ s. (refl, refl)
  Keeps-set_as_is n v l (some o) = Keeps-pure _

  Keeps-run_step : (st : Step) (l : Locals) → IsWrite st → Keeps R (run_step cfg st l)
  unfolding run_step
  Keeps-run_step skip l w = Keeps-pure l
  Keeps-run_step (as_is n v) l w = Keeps-set_as_is n v l l.otuple
  Keeps-run_step (operation n db (Builder.err x)) l w = Keeps-still λ s. (refl, refl)
  Keeps-run_step (operation n db (Builder.ok q)) l w = Keeps-bind (Keeps-prepare db) λ _.
      Keeps-bind (Keeps-perform q (is_login-is_write q w))
        λ _. Keeps-bind (Keeps-perform _ refl) λ e. Keeps-record_result n l e

  Keeps-run_steps : (sts : List Step) (l : Locals) → All IsWrite sts → Keeps R (run_steps cfg sts l)
  unfolding run_steps
  Keeps-run_steps [] l w = Keeps-pure l
  Keeps-run_steps (st ∷ sts) l w =
      Keeps-bind (Keeps-run_step st l w.0) λ l'. Keeps-run_steps sts l' w.1

  Keeps-submit_found : (l : Locals) (o : Option Output) → Keeps R (submit_found cfg l o)
  unfolding submit_found
  Keeps-submit_found l none = Keeps-if l.error_found (Keeps-still λ s. (refl, refl)) (Keeps-pure tt)
  Keeps-submit_found l (some o) =
      Keeps-if l.error_found (Keeps-still λ s. (refl, refl)) (Keeps-pure tt)

  Keeps-process : (sts : List Step) → All IsWrite sts → Keeps R (process_steps cfg sts)
  unfolding process_steps
  Keeps-process sts w =
      Keeps-bind (Keeps-run_steps sts no_locals w) λ l. Keeps-submit_found l l.otuple

  pub Keeps-process_all :
      (stream : List (List Step)) → All (All IsWrite) stream → Keeps R (process_all cfg stream)
  unfolding process_all
  Keeps-process_all [] w = Keeps-pure tt
  Keeps-process_all (sts ∷ rest) w =
      Keeps-bind (Keeps-process sts w.0) λ _. Keeps-process_all rest w.1
