-- ===== src/Operators/Queries.antt =====
-- Query/Query_cpp.cgt: `process` of the Query operator. The cursor's documents are those that the
-- connection's world hands out after the query; batches that the cursor fetches later are among them.
use streamsx_mongo_db.Prelude.{
  ℕ, Bool, true, false, not, Option, none, some, List, [], ◌∷◌, Bytes, ◌==◌, if◌then◌else◌,
  is_empty,
}
use streamsx_mongo_db.Spl.Types.{SplType, Attributes, Value, Record}
use streamsx_mongo_db.Spl.Runtime.{Runtime, initial_record}
use streamsx_mongo_db.Bson.Document
use streamsx_mongo_db.Bson.Document.{Fields}
use streamsx_mongo_db.Bson.Builder
use streamsx_mongo_db.Bson.Builder.{Result}
use streamsx_mongo_db.Bson.Element.{Conversions, Library}
use streamsx_mongo_db.BsonCommon.{build_bson_object}
use streamsx_mongo_db.QueryCommon.Row.{Fillings, set_expressions, fill_row}
use streamsx_mongo_db.Operators.Driver.{
  query, get_last_error, Driver, M, ◌>>=◌, ◌>>◌, pure, gets, perform, write_log, submit, increment,
  built,
}
use streamsx_mongo_db.Operators.Connection.{Config, prepare, build_db_collection}
use streamsx_mongo_db.Operators.Writes.{FindQuery, build_find_query_bo, query_object}

-- What is submitted: a tuple or a window marker.
pub data Emitted (A : Type 0) : Type 0 where
  emit_tuple : A → Emitted A
  window_marker : Emitted A

-- The `findFields` parameter: absent, or an SPL value.
pub data FindFields : Type 0 where
  no_fields : FindFields
  spl_fields : (t : SplType) → Value t → FindFields

unfoldable pub build_find_fields_bo : Runtime → FindFields → Result Fields
unfolding query_object build_bson_object
build_find_fields_bo R no_fields = Builder.ok Document.nil
build_find_fields_bo R (spl_fields t v) = query_object (build_bson_object R t v)

-- The parameters at an input tuple.
pub record QueryParameters : Type 0 where
  pub db_name : Bytes
  pub collection : Bytes
  pub find_fields : FindFields
  pub find_query : FindQuery
  pub n_to_return : ℕ

-- `getOutputTuple`: the thread's tuple, made and cleared at the first call.
unfoldable pub get_output_tuple : Runtime → (ats : Attributes) → Option (Record ats) → Record ats
unfolding initial_record
get_output_tuple R ats none = initial_record R ats
get_output_tuple R ats (some r) = r

module _ {D : Driver} (C : Conversions) (L : Library) (R : Runtime) (ats : Attributes)
    (hash_code : Record ats → ℕ) (cfg : Config) where
  -- `if(otuple.hashCode() != tupleHash) submit(otuple, 0);`
  unfoldable pub submit_changed : Record ats → Record ats → M D (Emitted (Record ats)) (Unit {0})
  unfolding submit
  submit_changed base otuple =
      if hash_code otuple == hash_code base then pure tt else submit (emit_tuple otuple)

  unfoldable pub submit_rows :
      Fillings ats → Record ats → List Fields → M D (Emitted (Record ats)) (Unit {0})
  unfolding submit_changed fill_row
  submit_rows fs base [] = pure tt
  submit_rows fs base (doc ∷ docs) = do
    submit_changed base (fill_row C L R ats fs doc base)
    submit_rows fs base docs

  -- After the loop: a window marker, or the tuple of the expressions if no document was found.
  unfoldable pub submit_end : Bool → Record ats → M D (Emitted (Record ats)) (Unit {0})
  unfolding submit
  submit_end true base = submit window_marker
  submit_end false base = submit (emit_tuple base)

  unfoldable pub answer :
      Fillings ats → Record ats → List Fields → Bytes → M D (Emitted (Record ats)) (Unit {0})
  unfolding write_log increment submit_rows submit_end
  answer fs base docs (c ∷ e) = write_log (c ∷ e)
  answer fs base docs [] = do
    increment
    submit_rows fs base docs
    submit_end (not (is_empty docs)) base

  -- The thread's tuple is returned, for the next call.
  unfoldable pub query_process :
      QueryParameters → Fillings ats → Option (Record ats) → M D (Emitted (Record ats)) (Record ats)
  unfolding get_output_tuple set_expressions build_find_fields_bo build_find_query_bo prepare
      perform build_db_collection answer
  query_process p fs thread_tuple = do
    let base = set_expressions ats fs (get_output_tuple R ats thread_tuple)
    fields ← built (build_find_fields_bo R p.find_fields)
    q ← built (build_find_query_bo L R p.find_query)
    prepare cfg p.db_name
    r ← perform (query (build_db_collection p.db_name p.collection) q p.n_to_return fields)
    docs ← gets (λ s. D.documents s.world)
    e ← perform get_last_error
    answer fs base docs e
    pure base
