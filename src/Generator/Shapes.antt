-- ===== src/Generator/Shapes.antt =====
-- The documents that a value of an SPL type can become, by the type alone.
use streamsx_mongo_db.Prelude.{ℕ, suc, ◌≡◌, refl, List, [], ◌∷◌, Bytes}
use streamsx_mongo_db.Prelude.Words.{w8, w64}
use streamsx_mongo_db.Spl.Types.{
  Primitive, SplType, Attributes, Value, Record, PrimValue, boolean, float32, float64, decimal,
  complex, timestamp, rstring, ustring, blob, xml, «enum», signed, unsigned, prim, list, blist, set,
  bset, map, bmap, tuple, nil, attribute,
}
use streamsx_mongo_db.Spl.Runtime.{Runtime}
use streamsx_mongo_db.Bson.Types.{BsonType}
use streamsx_mongo_db.Bson.Document
use streamsx_mongo_db.Bson.Document.{BsonValue, Fields, type_of}
use streamsx_mongo_db.Bson.Builder.{num_str}
use streamsx_mongo_db.BsonCommon.Reference.{
  document, attributes, items, pairs, primitive_document, key_name,
}

-- The type of element that each primitive type is stored as.
abbrev pub stored_type : Primitive → BsonType
stored_type boolean = BsonType.bool
stored_type float32 = BsonType.number_double
stored_type float64 = BsonType.number_double
stored_type decimal = BsonType.number_double
stored_type complex = BsonType.jst_null
stored_type timestamp = BsonType.date
stored_type rstring = BsonType.string
stored_type ustring = BsonType.string
stored_type xml = BsonType.string
stored_type blob = BsonType.bin_data
stored_type («enum» names) = BsonType.string
stored_type (signed w64) = BsonType.number_long
stored_type (signed _) = BsonType.number_int
stored_type (unsigned w64) = BsonType.number_long
stored_type (unsigned _) = BsonType.number_int

-- Items named by their positions.
abbrev pub ItemsOf : (BsonValue → Type 0) → ℕ → Fields → Type 0
ItemsOf P i Document.nil = Unit
ItemsOf P i (Document.field n v fs) = (n ≡ num_str i) × P v × ItemsOf P (suc i) fs

abbrev pub ArrayOf : (BsonValue → Type 0) → BsonValue → Type 0
ArrayOf P (Document.array fs) = ItemsOf P 0 fs
ArrayOf P _ = ⊥

abbrev pub FieldsOf : (BsonValue → Type 0) → Fields → Type 0
FieldsOf P Document.nil = Unit
FieldsOf P (Document.field n v fs) = P v × FieldsOf P fs

abbrev pub ObjectOf : (BsonValue → Type 0) → BsonValue → Type 0
ObjectOf P (Document.object fs) = FieldsOf P fs
ObjectOf P _ = ⊥

abbrev pub RecordOf : (Fields → Type 0) → BsonValue → Type 0
RecordOf P (Document.object fs) = P fs
RecordOf P _ = ⊥

abbrev mutual
  pub HasShape : SplType → BsonValue → Type 0
  HasShape (prim p) d = type_of d ≡ stored_type p
  HasShape (list t) d = ArrayOf (HasShape t) d
  HasShape (blist b t) d = ArrayOf (HasShape t) d
  HasShape (set t) d = ArrayOf (HasShape t) d
  HasShape (bset b t) d = ArrayOf (HasShape t) d
  HasShape (map k t) d = ObjectOf (HasShape t) d
  HasShape (bmap b k t) d = ObjectOf (HasShape t) d
  HasShape (tuple ats) d = RecordOf (HaveShapes ats) d

  pub HaveShapes : Attributes → Fields → Type 0
  HaveShapes nil Document.nil = Unit
  HaveShapes nil (Document.field m v fs) = ⊥
  HaveShapes (attribute n t ats) Document.nil = ⊥
  HaveShapes (attribute n t ats) (Document.field m v fs) =
      (m ≡ n) × HasShape t v × HaveShapes ats fs

primitive_document-shape :
    (R : Runtime) (p : Primitive) (v : PrimValue p)
    → type_of (primitive_document R p v) ≡ stored_type p
unfolding primitive_document
primitive_document-shape R (signed w8) v = refl
primitive_document-shape R (signed w64) v = refl
primitive_document-shape R (signed _) v = refl
primitive_document-shape R (unsigned w8) v = refl
primitive_document-shape R (unsigned w64) v = refl
primitive_document-shape R (unsigned _) v = refl
primitive_document-shape R _ v = refl

items-ItemsOf {ℓ} :
    {A : Type ℓ} (P : BsonValue → Type 0) (g : A → BsonValue) (i : ℕ) (xs : List A)
    → ((x : A) → P (g x))
    → ItemsOf P i (items g i xs)
unfolding items
items-ItemsOf P g i [] h = tt
items-ItemsOf P g i (x ∷ xs) h = (refl, h x, items-ItemsOf P g (suc i) xs h)

pairs-FieldsOf {ℓ κ} :
    {K : Type ℓ} {V : Type κ} (P : BsonValue → Type 0) (name : K → Bytes) (g : V → BsonValue)
    (kvs : List (K × V))
    → ((v : V) → P (g v))
    → FieldsOf P (pairs name g kvs)
unfolding pairs
pairs-FieldsOf P name g [] h = tt
pairs-FieldsOf P name g ((k, v) ∷ kvs) h = (h v, pairs-FieldsOf P name g kvs h)

module _ (R : Runtime) where
  mutual
    unfolding document

    pub document-HasShape : (t : SplType) (v : Value t) → HasShape t (document R t v)
    document-HasShape (prim p) v = primitive_document-shape R p v
    document-HasShape (list t) v =
        items-ItemsOf (HasShape t) (document R t) 0 v (document-HasShape t)
    document-HasShape (blist b t) v =
        items-ItemsOf (HasShape t) (document R t) 0 v (document-HasShape t)
    document-HasShape (set t) v =
        items-ItemsOf (HasShape t) (document R t) 0 v (document-HasShape t)
    document-HasShape (bset b t) v =
        items-ItemsOf (HasShape t) (document R t) 0 v (document-HasShape t)
    document-HasShape (map k t) v =
        pairs-FieldsOf (HasShape t) (key_name k) (document R t) v (document-HasShape t)
    document-HasShape (bmap b k t) v =
        pairs-FieldsOf (HasShape t) (key_name k) (document R t) v (document-HasShape t)
    document-HasShape (tuple ats) v = attributes-HaveShapes ats v

    attributes-HaveShapes :
        (ats : Attributes) (r : Record ats) → HaveShapes ats (attributes R ats r)
    attributes-HaveShapes nil r = tt
    attributes-HaveShapes (attribute n t ats) (v, r) =
        (refl, document-HasShape t v, attributes-HaveShapes ats r)
