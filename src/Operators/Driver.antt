-- ===== src/Operators/Driver.antt =====
-- The driver's connection as the operators use it, the state of an operator in one thread, and the
-- monad of its code: exceptions, and the state that they leave behind.
use streamsx_mongo_db.Prelude.{ℕ, ◌+◌, Bool, true, false, List, ◌∷◌, Bytes}
use streamsx_mongo_db.Bson.Document.{Fields}
use streamsx_mongo_db.Bson.Builder
use streamsx_mongo_db.Bson.Builder.{Failure}

pub data Profiling : Type 0 where
  slow all : Profiling

-- What the operators ask of `DBClientConnection`.
pub data Request : Type 0 where
  connect : Bytes → Request
  auth_document : Fields → Request
  auth_password : Bytes → Bytes → Bytes → Request
  is_still_connected : Request
  set_profiling : Bytes → Profiling → Request
  insert : Bytes → Fields → Request
  update : Bytes → Fields → Fields → Bool → Bool → Request
  remove : Bytes → Fields → Bool → Request
  query : Bytes → Fields → ℕ → Fields → Request
  get_last_error : Request

-- A call returns, `auth` may return false with a message, and any may raise a `DBException`.
pub data Reply : Type 0 where
  returned : Bytes → Reply
  refused raised : Bytes → Reply

-- The connection: how it answers a call, `isFailed`, and the documents that a cursor would hand out.
pub record Driver : Type 1 where
  pub World : Type 0
  pub respond : Request → World → Reply × World
  pub is_failed : World → Bool
  pub documents : World → List Fields

-- An exception that leaves `process`.
pub data Exception : Type 0 where
  operator_error : Bytes → Exception
  driver_error : Bytes → Exception
  build_error : Failure → Exception

-- `fault`: a null pointer is followed.
pub data Outcome (A : Type 0) : Type 0 where
  done : A → Outcome A
  thrown : Exception → Outcome A
  fault : Outcome A

-- One thread's view: whether `connPtr_` is set, the connection's world, the requests made and the
-- messages logged (latest first), the operator's metric, and what was submitted (latest first).
pub record State (D : Driver) (T : Type 0) : Type 0 where
  pub has_connection : Bool
  pub world : D.World
  pub requests : List Request
  pub log : List Bytes
  pub metric : ℕ
  pub submitted : List T

abbrev pub M : Driver → Type 0 → Type 0 → Type 0
M D T A = State D T → Outcome A × State D T

module _ {D : Driver} {T : Type 0} where
  abbrev pub continue_with :
      {A B : Type 0} → Outcome A × State D T → (A → M D T B) → Outcome B × State D T
  continue_with (done a, s) f = f a s
  continue_with (thrown e, s) f = (thrown e, s)
  continue_with (fault, s) f = (fault, s)

  infixl 5 ◌>>=◌ ◌>>◌
  abbrev pub ◌>>=◌ : {A B : Type 0} → M D T A → (A → M D T B) → M D T B
  ◌>>=◌ m f s = continue_with (m s) f

  abbrev pub ◌>>◌ : {B : Type 0} → M D T (Unit {0}) → M D T B → M D T B
  m >> k = m >>= λ _. k

  abbrev pub pure : {A : Type 0} → A → M D T A
  pure a s = (done a, s)

  abbrev pub throw : {A : Type 0} → Exception → M D T A
  throw e s = (thrown e, s)

  abbrev pub follow_null : {A : Type 0} → M D T A
  follow_null s = (fault, s)

  abbrev pub gets : {A : Type 0} → (State D T → A) → M D T A
  gets f s = (done (f s), s)

  abbrev pub modify : (State D T → State D T) → M D T (Unit {0})
  modify f s = (done tt, f s)

  abbrev pub when : Bool → M D T (Unit {0}) → M D T (Unit {0})
  when true m = m
  when false m = pure tt

  -- A document or query that could not be built raises the builder's exception.
  abbrev pub built : {A : Type 0} → Builder.Result A → M D T A
  built (Builder.ok a) = pure a
  built (Builder.err e) = throw (build_error e)

  unfoldable pub ask : Request → M D T Reply
  ask q s =
      let (r, w) = D.respond q s.world in
      (done r, record s { world = w; requests = q ∷ s.requests })

  -- `SPLAPPLOG`
  unfoldable pub write_log : Bytes → M D T (Unit {0})
  write_log e = modify (λ s. record s { log = e ∷ s.log })

  unfoldable pub submit : T → M D T (Unit {0})
  submit t = modify (λ s. record s { submitted = t ∷ s.submitted })

  -- `Metric::incrementValue`
  unfoldable pub increment : M D T (Unit {0})
  increment = modify (λ s. record s { metric = s.metric + 1 })

  unfoldable pub raise_reply : Reply → M D T Bytes
  raise_reply (returned t) = pure t
  raise_reply (refused t) = pure t
  raise_reply (raised e) = throw (driver_error e)

  -- A call whose exception leaves `process`.
  unfoldable pub perform : Request → M D T Bytes
  unfolding ask raise_reply
  perform q = do r ← ask q; raise_reply r
