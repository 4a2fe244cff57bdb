-- ===== src/BsonCommon/Reference.antt =====
-- An independent description of the document that stands for an SPL value, by maps over the value,
-- and of the values for which the generated code succeeds.
use streamsx_mongo_db.Prelude.{ℕ, suc, ◌≡◌, false, List, [], ◌∷◌, Bytes, All, has_nul}
use streamsx_mongo_db.Prelude.Words.{w8, w16, w32, w64, wrap_signed}
use streamsx_mongo_db.Spl.Types.{
  Primitive, SplType, Attributes, Value, Record, PrimValue, boolean, float32, float64, decimal,
  complex, timestamp, rstring, ustring, blob, xml, «enum», signed, unsigned, prim, list, blist, set,
  bset, map, bmap, tuple, nil, attribute,
}
use streamsx_mongo_db.Spl.Runtime.{Runtime}
use streamsx_mongo_db.Bson.Document
use streamsx_mongo_db.Bson.Document.{
  BsonValue, Fields, number_double, string, object, array, bin_data, bool, date, jst_null,
  number_int, number_long, field,
}
use streamsx_mongo_db.Bson.Builder.{num_str}
use streamsx_mongo_db.BsonCommon.{millis_of}

-- The items of an array, named by their positions.
unfoldable pub items {ℓ} : {A : Type ℓ} → (A → BsonValue) → ℕ → List A → Fields
items g i [] = Document.nil
items g i (x ∷ xs) = field (num_str i) (g x) (items g (suc i) xs)

unfoldable pub key_name : (k : SplType) → Value k → Bytes
key_name (prim rstring) v = v
key_name _ v = []

unfoldable pub pairs {ℓ κ} :
    {K : Type ℓ} {V : Type κ} → (K → Bytes) → (V → BsonValue) → List (K × V) → Fields
pairs h g [] = Document.nil
pairs h g ((k, v) ∷ kvs) = field (h k) (g v) (pairs h g kvs)

-- Integers of up to 32 bits are int32 elements, of 64 bits int64 elements, both by their bits. (A
-- complex number has no document.)
unfoldable pub primitive_document : Runtime → (p : Primitive) → PrimValue p → BsonValue
primitive_document R complex v = jst_null
primitive_document R boolean v = bool v
primitive_document R float32 v = number_double (R.double_of_float32 v)
primitive_document R float64 v = number_double v
primitive_document R decimal v = number_double (R.double_of_decimal v)
primitive_document R timestamp v = date (millis_of v)
primitive_document R rstring v = string v
primitive_document R ustring v = string (R.rstring_of_ustring v)
primitive_document R xml v = string (R.rstring_of_xml v)
primitive_document R blob v = bin_data 0 v
primitive_document R («enum» names) v = string v
primitive_document R (signed w64) v = number_long (wrap_signed w64 v)
primitive_document R (signed w8) v = number_int v
primitive_document R (signed w16) v = number_int v
primitive_document R (signed w32) v = number_int v
primitive_document R (unsigned w64) v = number_long (wrap_signed w64 v)
primitive_document R (unsigned w32) v = number_int (wrap_signed w32 v)
primitive_document R (unsigned w16) v = number_int v
primitive_document R (unsigned w8) v = number_int v

module _ (R : Runtime) where
  unfoldable mutual
    unfolding primitive_document items pairs key_name

    pub document : (t : SplType) → Value t → BsonValue
    document (prim p) v = primitive_document R p v
    document (list t) vs = array (items (document t) 0 vs)
    document (blist b t) vs = array (items (document t) 0 vs)
    document (set t) vs = array (items (document t) 0 vs)
    document (bset b t) vs = array (items (document t) 0 vs)
    document (map k t) m = object (pairs (key_name k) (document t) m)
    document (bmap b k t) m = object (pairs (key_name k) (document t) m)
    document (tuple ats) r = object (attributes ats r)

    pub attributes : (ats : Attributes) → Record ats → Fields
    attributes nil r = Document.nil
    attributes (attribute n t ats) (v, r) = field n (document t v) (attributes ats r)

abbrev pub IsKey : (k : SplType) → Value k → Type 0
IsKey (prim rstring) v = has_nul v ≡ false
IsKey _ v = ⊥

abbrev pub IsPrimitive : Primitive → Type 0
IsPrimitive complex = ⊥
IsPrimitive _ = Unit

-- No complex number, every map key a byte string, and no field name with a zero byte.
abbrev mutual
  pub IsBuildable : (t : SplType) → Value t → Type 0
  IsBuildable (prim p) v = IsPrimitive p
  IsBuildable (list t) vs = All (IsBuildable t) vs
  IsBuildable (blist b t) vs = All (IsBuildable t) vs
  IsBuildable (set t) vs = All (IsBuildable t) vs
  IsBuildable (bset b t) vs = All (IsBuildable t) vs
  IsBuildable (map k t) m = All (λ (e : Value k × Value t). IsKey k e.0 × IsBuildable t e.1) m
  IsBuildable (bmap b k t) m = All (λ (e : Value k × Value t). IsKey k e.0 × IsBuildable t e.1) m
  IsBuildable (tuple ats) r = AreBuildable ats r

  pub AreBuildable : (ats : Attributes) → Record ats → Type 0
  AreBuildable nil r = Unit
  AreBuildable (attribute n t ats) (v, r) =
      (has_nul n ≡ false) × IsBuildable t v × AreBuildable ats r
