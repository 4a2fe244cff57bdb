-- ===== src/Spl/Runtime.antt =====
-- What the operators use of the SPL runtime, which is not part of the repository.
use streamsx_mongo_db.Prelude.{ℕ, List, [], Bytes}
use streamsx_mongo_db.Prelude.Int.{ℤ}
use streamsx_mongo_db.Spl.Types.{
  Primitive, SplType, Attributes, Value, Record, PrimValue, SplTimestamp, prim, tuple, nil,
  attribute,
}

-- `spl_cast`, `createTimestamp`, the `add` methods of collections, the values of default
-- constructors and the hash of a tuple. Bit patterns stand for floats and decimals.
pub record Runtime : Type 0 where
  pub double_of_float32 : ℕ → ℕ
  pub float32_of_double : ℕ → ℕ
  pub double_of_decimal : ℕ → ℕ
  pub decimal_of_double : ℕ → ℕ
  pub cast_integral : Primitive → ℕ → ℤ
  pub rstring_of_ustring : Bytes → Bytes
  pub ustring_of_string : Bytes → Bytes
  pub rstring_of_xml : Bytes → Bytes
  pub xml_of_string : Bytes → Bytes
  pub create_timestamp : ℤ → ℤ → SplTimestamp
  pub bounded_add : ℕ → (t : SplType) → List (Value t) → Value t → List (Value t)
  pub bounded_set_add : ℕ → (t : SplType) → List (Value t) → Value t → List (Value t)
  pub set_add : (t : SplType) → List (Value t) → Value t → List (Value t)
  pub bounded_map_add :
      ℕ → (v : SplType) → List (Bytes × Value v) → Bytes → Value v → List (Bytes × Value v)
  pub map_add : (v : SplType) → List (Bytes × Value v) → Bytes → Value v → List (Bytes × Value v)
  pub initial_primitive : (p : Primitive) → PrimValue p

module _ (R : Runtime) where
  -- The value of a default constructor: an empty collection, a tuple of such values.
  unfoldable mutual
    pub initial : (t : SplType) → Value t
    initial (prim p) = R.initial_primitive p
    initial (tuple ats) = initial_record ats
    initial _ = []

    pub initial_record : (ats : Attributes) → Record ats
    initial_record nil = tt
    initial_record (attribute n t ats) = (initial t, initial_record ats)
