-- ===== src/Examples/Retrievals.antt =====
-- Two values that one operator inserts and another one reads, at concrete connections.
use streamsx_mongo_db.Prelude.{ℕ, ◌+◌, ◌≡◌, refl, none, List, [], ◌∷◌, ◌++◌, map, bytes, length}
use streamsx_mongo_db.Spl.Types.{SplType, Value, Record, prim, rstring, list}
use streamsx_mongo_db.Bson.Document
use streamsx_mongo_db.Bson.Document.{Fields, field}
use streamsx_mongo_db.Examples.{
  a_runtime, a_runtime-AddsFresh, a_library, a_library-FindsFields, a_conversion, a_config, false,
}
use streamsx_mongo_db.Operators.Driver.{Driver, State, returned}
use streamsx_mongo_db.Operators.Process.{process_all}
use streamsx_mongo_db.Operators.Requests.{writes}
use streamsx_mongo_db.Operators.Writes.{no_query, is_json}
use streamsx_mongo_db.Operators.Queries.{QueryParameters, no_fields, query_process}
use streamsx_mongo_db.Operators.Inserts.{
  Insertion, IsKeyed, inserted_onto, namespace_of, insert_stream, Leaves,
}
use streamsx_mongo_db.Operators.Returned.{AreReturned, found_type, found_fillings}
use streamsx_mongo_db.Operators.Retrieval.{RetrievedResult, process_all-query_process}

abbrev words : SplType
words = list (prim rstring)

abbrev two_lists : List (Value words)
two_lists = (bytes "a" ∷ bytes "b" ∷ []) ∷ [] ∷ []

abbrev insertion : Insertion
insertion = record {
  attribute_name = bytes "error";
  operation_name = bytes "Insert";
  db = bytes "shop";
  collection = bytes "words";
  key = bytes "words";
}

insertion-IsKeyed : IsKeyed insertion
unfolding is_json
insertion-IsKeyed = record { no_json = refl; clean_key = refl; no_id = refl }

-- A connection whose calls all succeed, to a server with these documents.
abbrev server : List Fields → Driver
server docs = record {
  World = ℕ;
  respond = λ q w. (returned [], w + 1);
  is_failed = λ w. false;
  documents = λ w. docs;
}

abbrev idle : {T : Type 0} (docs : List Fields) → State (server docs) T
idle docs = record {
  has_connection = false;
  world = 0;
  requests = [];
  log = [];
  metric = 0;
  submitted = [];
}

abbrev with_id : Fields → Fields
with_id doc = field (bytes "_id") (Document.jst_oid (bytes "0123456789ab")) doc

AreReturned-with_id : (docs : List Fields) → AreReturned docs (map with_id docs)
AreReturned-with_id [] = tt
AreReturned-with_id (doc ∷ docs) =
    ((Document.jst_oid (bytes "0123456789ab"), refl), AreReturned-with_id docs)

abbrev all_words : QueryParameters
all_words = record {
  db_name = bytes "shop";
  collection = bytes "words";
  find_fields = no_fields;
  find_query = no_query;
  n_to_return = 0;
}

abbrev inserted : List Fields
inserted =
    inserted_onto (namespace_of a_library a_runtime insertion words)
      (writes
        (process_all a_config (insert_stream a_library a_runtime insertion words two_lists)
          (idle [])).1.requests)
      []

abbrev word_count : Record (found_type a_conversion a_library a_runtime insertion words) → ℕ
word_count r = length r.0

process_all-query_process_example :
    (kept : List (Value words)) × (rest : List (Value words)) × (two_lists ≡ kept ++ rest)
    × Leaves a_library a_runtime insertion words
        (process_all a_config
          (insert_stream a_library a_runtime insertion words two_lists)
          (idle [])).0
        rest
    × RetrievedResult a_conversion a_library a_runtime insertion words a_config all_words word_count
        kept
        (idle (map with_id inserted))
        (query_process a_conversion a_library a_runtime
          (found_type a_conversion a_library a_runtime insertion words)
          word_count
          a_config
          all_words
          (found_fillings a_conversion a_library a_runtime insertion words)
          none
          (idle (map with_id inserted)))
process_all-query_process_example =
    process_all-query_process a_conversion a_library a_runtime insertion words a_config a_config
      all_words word_count two_lists (idle []) (idle (map with_id inserted)) a_library-FindsFields
      a_runtime-AddsFresh insertion-IsKeyed ((tt, (tt, tt)), (tt, tt)) ((tt, (tt, tt)), (tt, tt))
      refl refl (λ q fields w. AreReturned-with_id inserted)
