-- ===== src/Client/QuerySpecs.antt =====
-- client/dbclientinterface.h: Query and QuerySpec, on documents as data. What is compiled is a
-- parameter: `makeComplex`, `sort` and `where` on a pattern and a scope, and the modifiers of a query.
use streamsx_mongo_db.Prelude.{Bool, Bytes, is_empty}
use streamsx_mongo_db.Prelude.Int.{ℤ}
use streamsx_mongo_db.Bson.Document
use streamsx_mongo_db.Bson.Document.{Fields, BsonValue, append_fields}

pub record Query : Type 0 where
  pub obj : Fields

unfoldable pub empty_query : Query
empty_query = record { obj = Document.nil }

unfoldable pub query_of : Fields → Query
query_of b = record { obj = b }

-- `sort` on one field: the pattern is `BSON(field << asc)`.
unfoldable pub sort_field : (Fields → Query → Query) → Bytes → ℤ → Query → Query
sort_field sort field asc q = sort (Document.field field (Document.number_int asc) Document.nil) q

unfoldable pub where_code : (Bytes → Fields → Query → Query) → Bytes → Query → Query
where_code where_scope js_code q = where_scope js_code Document.nil q

unfoldable pub append_complex : (Fields → Fields) → Bytes → BsonValue → Query → Query
unfolding append_fields
append_complex make_complex name val q =
    let complex = make_complex q.obj in
    record { obj = append_fields complex (Document.field name val Document.nil) }

pub record QuerySpec : Type 0 where
  pub spec_ns : Bytes
  pub spec_to_skip : ℤ
  pub spec_to_return : ℤ
  pub spec_options : ℤ
  pub spec_query : Fields
  pub spec_fields : Fields
  pub query_obj : Query

-- An owned copy of a document is the document.
unfoldable pub query_spec : Bytes → Fields → Fields → ℤ → ℤ → ℤ → QuerySpec
unfolding query_of
query_spec ns query fields to_skip to_return options = record {
  spec_ns = ns;
  spec_to_skip = to_skip;
  spec_to_return = to_return;
  spec_options = options;
  spec_query = query;
  spec_fields = fields;
  query_obj = query_of query;
}

unfoldable pub is_empty_spec : QuerySpec → Bool
is_empty_spec s = is_empty s.spec_ns

unfoldable pub ns_of : QuerySpec → Bytes
ns_of s = s.spec_ns

unfoldable pub fields_of : QuerySpec → Fields
fields_of s = s.spec_fields

unfoldable pub set_fields : Fields → QuerySpec → QuerySpec
set_fields o s = record s { spec_fields = o }

-- The modifiers of the query object, over what is compiled.
module _ (is_explain : Query → Bool) (get_filter get_sort : Query → Fields)
    (get_hint : Query → BsonValue) where
  unfoldable pub explain_of : QuerySpec → Bool
  explain_of s = is_explain s.query_obj

  unfoldable pub filter_of : QuerySpec → Fields
  filter_of s = get_filter s.query_obj

  unfoldable pub sort_of : QuerySpec → Fields
  sort_of s = get_sort s.query_obj

  unfoldable pub hint_of : QuerySpec → BsonValue
  hint_of s = get_hint s.query_obj
