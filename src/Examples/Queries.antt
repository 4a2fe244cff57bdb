-- ===== src/Examples/Queries.antt =====
-- The theorems on the Query operator at a concrete collection.
use streamsx_mongo_db.Prelude.{ℕ, ◌+◌, ◌≡◌, true, false, none, List, [], ◌∷◌, bytes}
use streamsx_mongo_db.Prelude.Int.{pos}
use streamsx_mongo_db.Prelude.Words.{w32}
use streamsx_mongo_db.Spl.Types.{
  Attributes, Record, prim, rstring, float64, list, map, signed, nil, attribute,
}
use streamsx_mongo_db.Spl.Runtime.{initial}
use streamsx_mongo_db.RoundTrip.Pruned.{pruned}
use streamsx_mongo_db.Bson.Document
use streamsx_mongo_db.Bson.Document.{Fields, field}
use streamsx_mongo_db.Bson.Builder.{ok}
use streamsx_mongo_db.Examples.{
  a_runtime, a_runtime-AddsFresh, a_library, a_library-FindsFields, a_conversion, order_type,
  an_order, an_order-IsBuildable, an_order-IsReadable,
}
use streamsx_mongo_db.BsonCommon.{build_bson_object_with_key}
use streamsx_mongo_db.QueryCommon.Row.{Fillings, expression, reading, read_attribute}
use streamsx_mongo_db.RoundTrip.Rows.{read_attribute-stored_tuple}
use streamsx_mongo_db.Operators.Driver.{Driver, State, returned}
use streamsx_mongo_db.Operators.Writes.{no_query}
use streamsx_mongo_db.Operators.Queries.{Emitted, QueryParameters, no_fields}

-- { rstring asked; int32 id; }
abbrev reply_type : Attributes
reply_type =
    attribute (bytes "asked") (prim rstring) (attribute (bytes "id") (prim (signed w32)) nil)

abbrev fillings : Fillings reply_type
fillings = (expression (bytes "ids"), (reading false none, tt))

abbrev two_documents : List Fields
two_documents =
    field (bytes "id") (Document.number_int (pos 4)) Document.nil
    ∷ field (bytes "other") (Document.number_int (pos 5)) Document.nil
    ∷ []

abbrev collection : Driver
collection = record {
  World = ℕ;
  respond = λ q w. (returned [], w + 1);
  is_failed = λ w. false;
  documents = λ w. two_documents;
}

abbrev parameters : QueryParameters
parameters = record {
  db_name = bytes "shop";
  collection = bytes "orders";
  find_fields = no_fields;
  find_query = no_query;
  n_to_return = 0;
}

abbrev fresh_thread : State collection (Emitted (Record reply_type))
fresh_thread = record {
  has_connection = false;
  world = 0;
  requests = [];
  log = [];
  metric = 0;
  submitted = [];
}

abbrev id_hash : Record reply_type → ℕ
id_hash (asked, (pos n, r)) = n
id_hash _ = 0

read_attribute-stored_tuple_example :
    (fs : Fields) × (build_bson_object_with_key a_runtime order_type none an_order ≡ ok fs)
    × (read_attribute a_conversion a_library a_runtime true none
          (bytes "all")
          order_type
          fs
          (initial a_runtime order_type)
        ≡ an_order)
unfolding pruned
read_attribute-stored_tuple_example =
    read_attribute-stored_tuple a_conversion a_library a_runtime
      (attribute (bytes "id") (prim (signed w32)) (
        attribute (bytes "tags") (list (prim rstring))
          (attribute (bytes "prices") (map (prim rstring) (prim float64)) nil)))
      (bytes "all") an_order a_library-FindsFields a_runtime-AddsFresh an_order-IsBuildable
      an_order-IsReadable
