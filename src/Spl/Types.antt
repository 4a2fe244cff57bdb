-- ===== src/Spl/Types.antt =====
-- The types and values of the stream processing language that the generated operators handle. A
-- set or a map is the list of its members in the order of insertion; a bounded collection's type has
-- its bound.
use streamsx_mongo_db.Prelude.{ℕ, Bool, List, Bytes}
use streamsx_mongo_db.Prelude.Int.{ℤ}
use streamsx_mongo_db.Prelude.Words.{Width}

pub record SplTimestamp : Type 0 where
  pub seconds : ℤ
  pub nanoseconds : ℕ
  pub machine_id : ℤ

-- The primitive types of SPL that the operators tell apart.
pub data Primitive : Type 0 where
  boolean float32 float64 decimal complex timestamp rstring ustring blob xml : Primitive
  «enum» : List Bytes → Primitive
  signed unsigned : Width → Primitive

mutual
  pub data SplType : Type 0 where
    prim : Primitive → SplType
    list set : SplType → SplType
    blist bset : ℕ → SplType → SplType
    map : SplType → SplType → SplType
    bmap : ℕ → SplType → SplType → SplType
    tuple : Attributes → SplType

  pub data Attributes : Type 0 where
    nil : Attributes
    attribute : Bytes → SplType → Attributes → Attributes

abbrev pub PrimValue : Primitive → Type 0
PrimValue Primitive.boolean = Bool
PrimValue timestamp = SplTimestamp
PrimValue (signed w) = ℤ
PrimValue (unsigned w) = ℤ
PrimValue float32 = ℕ
PrimValue float64 = ℕ
PrimValue decimal = ℕ
PrimValue complex = ℕ × ℕ
PrimValue _ = Bytes

abbrev mutual
  pub Value : SplType → Type 0
  Value (prim p) = PrimValue p
  Value (list t) = List (Value t)
  Value (blist b t) = List (Value t)
  Value (set t) = List (Value t)
  Value (bset b t) = List (Value t)
  Value (map k v) = List (Value k × Value v)
  Value (bmap b k v) = List (Value k × Value v)
  Value (tuple ats) = Record ats

  pub Record : Attributes → Type 0
  Record nil = Unit
  Record (attribute n t ats) = Value t × Record ats
