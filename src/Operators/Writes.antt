-- ===== src/Operators/Writes.antt =====
-- Insert/Insert_cpp.cgt, Update/Update_cpp.cgt, Delete/Delete_cpp.cgt and the `buildFindQueryBO` of
-- Common/QueryCommon_cpp.cgt: what each output attribute of the three writing operators makes the
-- operator do. (C++ refuses a Delete operator with two removals: their local names clash.)
use streamsx_mongo_db.Prelude.{
  ℕ, suc, Bool, true, false, ◌&&◌, ◌||◌, Option, none, some, List, [], ◌∷◌, Bytes, bytes, ◌==◌,
  bytes_eq, map, if◌then◌else◌,
}
use streamsx_mongo_db.Spl.Types.{SplType, Value, prim, rstring}
use streamsx_mongo_db.Spl.Runtime.{Runtime}
use streamsx_mongo_db.Bson.Document
use streamsx_mongo_db.Bson.Document.{Fields}
use streamsx_mongo_db.Bson.Builder.{Result, ok, err, invalid_json, no_overload}
use streamsx_mongo_db.Bson.Element.{Library}
use streamsx_mongo_db.BsonCommon.{
  Built, build_bson_object, build_bson_object_with_key, build_bson_object_from_json, with_key,
  as_object,
}
use streamsx_mongo_db.Operators.Driver.{Request, Driver, M}
use streamsx_mongo_db.Operators.Driver
use streamsx_mongo_db.Operators.Connection.{Config, build_db_collection}
use streamsx_mongo_db.Operators.Process.{Output, Step, skip, as_is, operation, process_steps}

-- Perl's matches of an output function's name.
unfoldable pub starts_with : Bytes → Bytes → Bool
starts_with [] s = true
starts_with (c ∷ p) [] = false
starts_with (c ∷ p) (d ∷ s) = (c == d) && starts_with p s

unfoldable pub occurs_in : Bytes → Bytes → Bool
unfolding starts_with
occurs_in p [] = starts_with p []
occurs_in p (d ∷ s) = starts_with p (d ∷ s) || occurs_in p s

unfoldable pub ends_with : Bytes → Bytes → Bool
ends_with p [] = bytes_eq p []
ends_with p (d ∷ s) = bytes_eq p (d ∷ s) || ends_with p s

unfoldable pub is_json : Bytes → Bool
unfolding ends_with
is_json name = ends_with (bytes "AsJson") name

unfoldable pub is_upsert : Bytes → Bool
unfolding starts_with
is_upsert name = starts_with (bytes "Upsert") name

unfoldable pub is_multi : Bytes → Bool
unfolding occurs_in
is_multi name = occurs_in (bytes "Documents") name

unfoldable pub is_just_one : Bytes → Bool
unfolding ends_with
is_just_one name = ends_with (bytes "Document") name

unfoldable pub from_json : Library → Bytes → Result Built
unfolding build_bson_object_from_json
from_json L text = elim (build_bson_object_from_json L text) [
  | none ↦ err invalid_json
  | some b ↦ ok b
]

-- The text of a JSON expression, which is of type `rstring`.
unfoldable pub json_text : (t : SplType) → Value t → Result Bytes
json_text (prim rstring) v = ok v
json_text _ v = err no_overload

unfoldable pub from_json_text : Library → Result Bytes → Result Built
unfolding from_json
from_json_text L (ok text) = from_json L text
from_json_text L (err e) = err e

-- The stored document: parsed from JSON if the operation's name says so, or built.
unfoldable pub document_of :
    Library → Runtime → Bytes → Option Bytes → (t : SplType) → Value t → Result Fields
unfolding is_json from_json_text json_text with_key build_bson_object_with_key
document_of L R name key t v =
    if is_json name
    then with_key key (from_json_text L (json_text t v))
    else build_bson_object_with_key R t key v

-- The `findQuery` parameter: absent, JSON text, or an SPL value.
pub data FindQuery : Type 0 where
  no_query : FindQuery
  json_query : Bytes → FindQuery
  spl_query : (t : SplType) → Value t → FindQuery

unfoldable pub json_fields : Option Fields → Result Fields
json_fields none = err invalid_json
json_fields (some fs) = ok fs

unfoldable pub query_object : Result Built → Result Fields
unfolding as_object
query_object (err e) = err e
query_object (ok b) = as_object b.1

unfoldable pub build_find_query_bo : Library → Runtime → FindQuery → Result Fields
unfolding json_fields query_object build_bson_object
build_find_query_bo L R no_query = ok Document.nil
build_find_query_bo L R (json_query text) = json_fields (L.from_json text)
build_find_query_bo L R (spl_query t v) = query_object (build_bson_object R t v)

-- The port that the expression's attributes belong to, given whether each input port's tuple is
-- named in it; two ports are an error, and none leaves -1, which as a `uint32_t` is no port.
unfoldable pub port_number_from : ℕ → List Bool → Option ℕ → Option (Option ℕ)
port_number_from i [] found = some found
port_number_from i (false ∷ bs) found = port_number_from (suc i) bs found
port_number_from i (true ∷ bs) none = port_number_from (suc i) bs (some i)
port_number_from i (true ∷ bs) (some j) = none

-- An output attribute of an operator that stores documents: an `AsIs`, or an operation on a
-- collection with an optional key, the guard on the port and the expression.
pub data Assignment : Type 0 where
  no_function : Assignment
  as_is_value : Bytes → Bytes → Assignment
  store :
      (attribute_name operation_name db collection : Bytes) (key : Option Bytes)
      (ports : Option (List Bool)) (t : SplType)
      → Value t
      → Assignment

-- An output attribute of Delete.
pub data Removal : Type 0 where
  no_function : Removal
  as_is_value : Bytes → Bytes → Removal
  remove_from : (attribute_name operation_name db collection : Bytes) → Removal

-- Whether the guard on the port lets the step run.
unfoldable pub port_matches : ℕ → Option (List Bool) → Bool
unfolding port_number_from
port_matches port none = true
port_matches port (some named) = elim (port_number_from 0 named none) [
  | none ↦ false
  | some found ↦ elim found [ none ↦ false | some i ↦ port == i ]
]

unfoldable pub insert_request : Bytes → Result Fields → Result Request
insert_request ns (err e) = err e
insert_request ns (ok d) = ok (Driver.insert ns d)

unfoldable pub update_request : Bytes → Bytes → Result Fields → Result Fields → Result Request
unfolding is_upsert is_multi
update_request name ns (err e) q = err e
update_request name ns (ok d) (err e) = err e
update_request name ns (ok d) (ok q) = ok (Driver.update ns q d (is_upsert name) (is_multi name))

unfoldable pub remove_request : Bytes → Bytes → Result Fields → Result Request
unfolding is_just_one
remove_request name ns (err e) = err e
remove_request name ns (ok q) = ok (Driver.remove ns q (is_just_one name))

module _ (L : Library) (R : Runtime) where
  unfoldable pub insert_step : ℕ → Assignment → Step
  unfolding document_of insert_request port_matches build_db_collection
  insert_step port Assignment.no_function = skip
  insert_step port (Assignment.as_is_value n v) = as_is n v
  insert_step port (store n name db collection key ports t v) =
      if port_matches port ports
      then operation n db
          (insert_request (build_db_collection db collection) (document_of L R name key t v))
      else skip

  unfoldable pub update_step : FindQuery → ℕ → Assignment → Step
  unfolding document_of update_request port_matches build_find_query_bo build_db_collection
  update_step fq port Assignment.no_function = skip
  update_step fq port (Assignment.as_is_value n v) = as_is n v
  update_step fq port (store n name db collection key ports t v) =
      if port_matches port ports
      then operation n db (
          update_request name (build_db_collection db collection) (document_of L R name key t v)
            (build_find_query_bo L R fq))
      else skip

  unfoldable pub delete_step : FindQuery → Removal → Step
  unfolding remove_request build_find_query_bo build_db_collection
  delete_step fq Removal.no_function = skip
  delete_step fq (Removal.as_is_value n v) = as_is n v
  delete_step fq (remove_from n name db collection) =
      operation n db
        (remove_request name (build_db_collection db collection) (build_find_query_bo L R fq))

  -- `process` of the three operators, at a tuple that arrived on a port.
  module _ {D : Driver} (cfg : Config) where
    unfoldable pub insert_process : ℕ → List Assignment → M D Output (Unit {0})
    unfolding insert_step process_steps
    insert_process port ats = process_steps cfg (map (insert_step port) ats)

    unfoldable pub update_process : FindQuery → ℕ → List Assignment → M D Output (Unit {0})
    unfolding update_step process_steps
    update_process fq port ats = process_steps cfg (map (update_step fq port) ats)

    unfoldable pub delete_process : FindQuery → List Removal → M D Output (Unit {0})
    unfolding delete_step process_steps
    delete_process fq rs = process_steps cfg (map (delete_step fq) rs)
