-- ===== src/QueryCommon/Row.antt =====
-- initBSONObject, endBSONObject and handleBSONObjectAsJson of Common/QueryCommon.pm, and the loop
-- over the output attributes that prints them (Query/Query_cpp.cgt): a document becomes a tuple.
use streamsx_mongo_db.Prelude.{Bool, false, Option, none, some, Bytes, if◌then◌else◌}
use streamsx_mongo_db.Spl.Types.{
  SplType, Attributes, Value, Record, rstring, ustring, prim, nil, attribute,
}
use streamsx_mongo_db.Spl.Runtime.{Runtime}
use streamsx_mongo_db.Bson.Document
use streamsx_mongo_db.Bson.Document.{BsonValue, Fields, field}
use streamsx_mongo_db.Bson.Element.{Conversions, Library, embedded_object}
use streamsx_mongo_db.QueryCommon.{handle_bson_object, handle_named, if_found}

-- What fills an output attribute: nothing, an expression over the input (`AsIs` or a plain
-- assignment), the document's JSON text, or a reading of the document, from a path in it if there is
-- one. `multiple_fields`: the attribute itself is no field of the document
-- (QueryDocumentMultipleFields).
pub data Filling {ℓ} (A : Type ℓ) : Type ℓ where
  no_assignment as_json : Filling A
  expression : A → Filling A
  reading : (multiple_fields : Bool) → Option Bytes → Filling A

abbrev pub Fillings : Attributes → Type 0
Fillings nil = Unit
Fillings (attribute n t ats) = Filling (Value t) × Fillings ats

-- `otuplePtr->set_…` for every attribute with an expression.
unfoldable pub set_expression {ℓ} : {A : Type ℓ} → Filling A → A → A
set_expression (expression v) a = v
set_expression _ a = a

unfoldable pub set_expressions : (ats : Attributes) → Fillings ats → Record ats → Record ats
unfolding set_expression
set_expressions nil fs r = r
set_expressions (attribute n t ats) (f, fs) (a, r) = (set_expression f a, set_expressions ats fs r)

-- The inner `queryResultBO` of a path.
unfoldable pub object_at_path : BsonValue → Fields
unfolding embedded_object
object_at_path (Document.object fs) = embedded_object (Document.object fs)
object_at_path _ = Document.nil

-- `bo0` at a path where there is an element, by `wrap` if the attribute is no field.
unfoldable pub bo_at_path : Bool → Bytes → BsonValue → Fields
unfolding object_at_path
bo_at_path multiple name be = if multiple then field name be Document.nil else object_at_path be

-- `bo0` of a document with no path.
unfoldable pub bo_of_document : Bool → Bytes → Fields → Fields
bo_of_document multiple name doc =
    if multiple then field name (Document.object doc) Document.nil else doc

-- A JSON text as the attribute's value; C++ refuses the assignment to another type.
unfoldable pub handle_bson_object_as_json : Runtime → (t : SplType) → Bytes → Value t → Value t
handle_bson_object_as_json R (prim rstring) text a = text
handle_bson_object_as_json R (prim ustring) text a = R.ustring_of_string text
handle_bson_object_as_json R _ text a = a

module _ (C : Conversions) (L : Library) (R : Runtime) where
  -- The block that initBSONObject opens and endBSONObject closes; an absent path leaves it.
  unfoldable pub read_attribute :
      Bool → Option Bytes → Bytes → (t : SplType) → Fields → Value t → Value t
  unfolding handle_named if_found bo_of_document bo_at_path
  read_attribute multiple none name t doc a =
      (handle_named L (bo_of_document multiple name doc) name (handle_bson_object C L R t) a
        false).0
  read_attribute multiple (some path) name t doc a =
      (if_found (L.get_field_dotted doc path)
        (λ be a' applied.
          handle_named L (bo_at_path multiple name be) name (handle_bson_object C L R t) a' applied)
        a false).0

  unfoldable pub fill : Bytes → (t : SplType) → Filling (Value t) → Fields → Value t → Value t
  unfolding read_attribute handle_bson_object_as_json
  fill name t as_json doc a = handle_bson_object_as_json R t (L.json_string doc) a
  fill name t (reading multiple path) doc a = read_attribute multiple path name t doc a
  fill name t _ doc a = a

  -- The body of the loop over the cursor: `otuple`, copied from `*otuplePtr`, filled.
  unfoldable pub fill_row : (ats : Attributes) → Fillings ats → Fields → Record ats → Record ats
  unfolding fill
  fill_row nil fs doc r = r
  fill_row (attribute n t ats) (f, fs) doc (a, r) = (fill n t f doc a, fill_row ats fs doc r)
