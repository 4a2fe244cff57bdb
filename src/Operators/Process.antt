-- ===== src/Operators/Process.antt =====
-- The body of `process` that the Insert, Update and Delete templates share (Insert/Insert_cpp.cgt,
-- Update/Update_cpp.cgt and Delete/Delete_cpp.cgt): a step for each output attribute, and the error
-- tuple. A step's expressions are evaluated at the input tuple.
use streamsx_mongo_db.Prelude.{
  Bool, true, false, Option, none, some, List, [], ◌∷◌, Bytes, bytes_eq, if◌then◌else◌,
}
use streamsx_mongo_db.Bson.Builder.{Result}
use streamsx_mongo_db.Operators.Driver.{
  Request, get_last_error, Driver, M, ◌>>=◌, ◌>>◌, pure, perform, write_log, submit, increment,
  built, follow_null,
}
use streamsx_mongo_db.Operators.Connection.{Config, prepare}

-- An output tuple, by the attributes that were set.
abbrev pub Output : Type 0
Output = List (Bytes × Bytes)

unfoldable pub set_attribute : Bytes → Bytes → Output → Output
set_attribute n v [] = (n, v) ∷ []
set_attribute n v ((m, w) ∷ o) = if bytes_eq m n then (n, v) ∷ o else (m, w) ∷ set_attribute n v o

unfoldable pub attribute_of : Bytes → Output → Option Bytes
attribute_of n [] = none
attribute_of n ((m, w) ∷ o) = if bytes_eq m n then some w else attribute_of n o

-- `skip`: an attribute with no output function, or one whose guard `port == …` fails.
pub data Step : Type 0 where
  skip : Step
  as_is : Bytes → Bytes → Step
  operation : Bytes → Bytes → Result Request → Step

-- The local variables `otuplePtr` and `errorFound`.
pub record Locals : Type 0 where
  pub otuple : Option Output
  pub error_found : Bool

abbrev pub no_locals : Locals
no_locals = record { otuple = none; error_found = false }

-- `if (!otuplePtr) otuplePtr = …(new OPort0Type())`
unfoldable pub or_new : Option Output → Output
or_new none = []
or_new (some o) = o

unfoldable pub set_as_is : {D : Driver} → Bytes → Bytes → Locals → Option Output → M D Output Locals
unfolding set_attribute
set_as_is n v l none = follow_null
set_as_is n v l (some o) = pure (record l { otuple = some (set_attribute n v o) })

module _ {D : Driver} (cfg : Config) where
  unfoldable pub last_error : M D Output Bytes
  unfolding perform
  last_error = perform get_last_error

  unfoldable pub record_result : Bytes → Locals → Bytes → M D Output Locals
  unfolding set_attribute or_new write_log increment
  record_result n l [] = do increment; pure l
  record_result n l (c ∷ e) = do
    write_log (c ∷ e)
    pure (record { otuple = some (set_attribute n (c ∷ e) (or_new l.otuple)); error_found = true })

  unfoldable pub run_step : Step → Locals → M D Output Locals
  unfolding set_as_is prepare perform last_error record_result
  run_step skip l = pure l
  run_step (as_is n v) l = set_as_is n v l l.otuple
  run_step (operation n db request) l = do
    q ← built request
    prepare cfg db
    r ← perform q
    e ← last_error
    record_result n l e

  unfoldable pub run_steps : List Step → Locals → M D Output Locals
  unfolding run_step
  run_steps [] l = pure l
  run_steps (st ∷ sts) l = do l' ← run_step st l; run_steps sts l'

  -- `if (errorFound) submit(*otuplePtr, 0);`
  unfoldable pub submit_found : Locals → Option Output → M D Output (Unit {0})
  unfolding submit
  submit_found l none = if l.error_found then follow_null else pure tt
  submit_found l (some o) = if l.error_found then submit o else pure tt

  unfoldable pub process_steps : List Step → M D Output (Unit {0})
  unfolding run_steps submit_found
  process_steps sts = do l ← run_steps sts no_locals; submit_found l l.otuple

  -- The tuples of a stream, one after the other, up to an exception.
  unfoldable pub process_all : List (List Step) → M D Output (Unit {0})
  unfolding process_steps
  process_all [] = pure tt
  process_all (sts ∷ rest) = do process_steps sts; process_all rest
