-- ===== src/Bson/Element.antt =====
-- com.ibm.streamsx.mongodb/impl/include/mongo/bson/bsonelement.h and bsonobjiterator.h: the
-- inline accessors of an element, and the iteration over an object. C++'s conversions to and from
-- `double`, and the look-ups of the compiled driver, are parameters.
use streamsx_mongo_db.Prelude.{
  drop, ◌==◌, if◌then◌else◌, [], ℕ, ◌≡◌, Bool, true, false, Option, none, some, Bytes,
}
use streamsx_mongo_db.Prelude.Int.{ℤ, pos}
use streamsx_mongo_db.Prelude.Words.{w32, wrap_signed}
use streamsx_mongo_db.Bson.Types.{BsonType}
use streamsx_mongo_db.Bson.Document.{
  BsonValue, Fields, type_of, number_double, string, object, array, bool, number_int, number_long,
  nil, field, first_field,
}

-- C++ conversions between integers and doubles, a double being its bit pattern.
pub record Conversions : Type 0 where
  pub to_double : ℤ → ℕ
  pub to_int : ℕ → ℤ
  pub to_long_long : ℕ → ℤ

-- The compiled driver's look-ups in an object, its JSON parser and its JSON printer. The parser
-- raises an exception at invalid text.
pub record Library : Type 0 where
  pub get_field : Fields → Bytes → Option BsonValue
  pub get_field_dotted : Fields → Bytes → Option BsonValue
  pub from_json : Bytes → Option Fields
  pub json_string : Fields → Bytes

-- `getField` is documented to return the field of the name, or an end-of-object element.
abbrev pub FindsFields : Library → Type 0
FindsFields L = (fs : Fields) (n : Bytes) → L.get_field fs n ≡ first_field fs n

unfoldable pub is_boolean : BsonValue → Bool
is_boolean (bool b) = true
is_boolean _ = false

unfoldable pub is_number : BsonValue → Bool
is_number v = elim (type_of v) [
  | BsonType.number_long ↦ true
  | BsonType.number_double ↦ true
  | BsonType.number_int ↦ true
  | _ ↦ false
]

unfoldable pub is_simple_type : BsonValue → Bool
is_simple_type v = elim (type_of v) [
  | BsonType.number_long ↦ true
  | BsonType.number_double ↦ true
  | BsonType.number_int ↦ true
  | BsonType.string ↦ true
  | BsonType.bool ↦ true
  | BsonType.date ↦ true
  | BsonType.jst_oid ↦ true
  | _ ↦ false
]

-- `numberDouble`, and `number`, which calls it. (The pattern 0 is the double 0.)
unfoldable pub number : Conversions → BsonValue → ℕ
number C (number_double d) = d
number C (number_int n) = C.to_double n
number C (number_long n) = C.to_double n
number C _ = 0

-- `numberInt` and `numberLong` convert any other number.
unfoldable pub number_int_of : Conversions → BsonValue → ℤ
number_int_of C (number_double d) = C.to_int d
number_int_of C (number_int n) = n
number_int_of C (number_long n) = wrap_signed w32 n
number_int_of C _ = pos 0

unfoldable pub number_long_of : Conversions → BsonValue → ℤ
number_long_of C (number_double d) = C.to_long_long d
number_long_of C (number_int n) = n
number_long_of C (number_long n) = n
number_long_of C _ = pos 0

unfoldable pub str : BsonValue → Bytes
str (string s) = s
str _ = []

-- The object that an object or an array holds; the code asks for it at no other element.
unfoldable pub embedded_object : BsonValue → Fields
embedded_object (object fs) = fs
embedded_object (array fs) = fs
embedded_object _ = nil

-- `BSONObjIterator`, by the fields that are left.
unfoldable pub more : Fields → Bool
more nil = false
more (field n v fs) = true

unfoldable pub next : Fields → Option (Bytes × BsonValue × Fields)
next nil = none
next (field n v fs) = some (n, v, fs)

-- `binDataClean` skips the second length that the deprecated subtype 2 carries.
unfoldable pub bin_data_clean : ℕ → Bytes → Bytes
bin_data_clean k bs = if k == 2 then drop 4 bs else bs
