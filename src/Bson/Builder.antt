-- ===== src/Bson/Builder.antt =====
-- com.ibm.streamsx.mongodb/impl/include/mongo/bson/bsonobjbuilder.h: the builders of objects and
-- arrays, by the fields appended so far.
use streamsx_mongo_db.Prelude.{
  ℕ, suc, Bool, Bytes, has_nul, decimal, if◌then◌else◌, ◌≡◌, false, has_nul-decimal,
}
use streamsx_mongo_db.Prelude.Int.{ℤ}
use streamsx_mongo_db.Prelude.Words.{w32, wrap_signed}
use streamsx_mongo_db.Bson.Document.{
  BsonValue, Fields, number_double, string, object, array, bin_data, bool, date, number_int,
  number_long, nil, field, append_fields,
}

-- `uassert` of `checkFieldName`; the generator's two error reports; a call that C++ refuses; and the
-- exception of the JSON parser.
pub data Failure : Type 0 where
  null_in_field_name unsupported_type key_not_string no_overload invalid_json : Failure

pub data Result {ℓ} (A : Type ℓ) : Type ℓ where
  ok : A → Result A
  err : Failure → Result A

-- The exception of the first call that raises one.
abbrev pub ◌>>=◌ {ℓ κ} : {A : Type ℓ} {B : Type κ} → Result A → (A → Result B) → Result B
err failure >>= next = err failure
ok value >>= next = next value

abbrev pub ◌>>◌ {κ} : {B : Type κ} → Result (Unit {0}) → Result B → Result B
first >> second = first >>= λ _. second

infixl 5 ◌>>=◌ ◌>>◌
unfoldable pub check_field_name : Bytes → Result (Unit {0})
check_field_name n = if has_nul n then err null_in_field_name else ok tt

-- The argument of a call of `append`, by the C++ type that picks the overload.
pub data Argument : Type 0 where
  sub_object bson_array : Fields → Argument
  bool_arg : Bool → Argument
  int_arg unsigned_arg long_long_arg : ℤ → Argument
  double_arg : ℕ → Argument
  date_arg : ℤ → Argument
  string_arg : Bytes → Argument
  bin_data_arg : ℕ → Bytes → Argument

-- The element that the overload writes under the name. A `BSONArray` goes to `appendArray`, and an
-- `unsigned` is cast to `int`.
unfoldable pub stored : Argument → BsonValue
stored (sub_object fs) = object fs
stored (bson_array fs) = array fs
stored (bool_arg b) = bool b
stored (int_arg n) = number_int n
stored (unsigned_arg n) = number_int (wrap_signed w32 n)
stored (long_long_arg n) = number_long n
stored (double_arg d) = number_double d
stored (date_arg ms) = date ms
stored (string_arg s) = string s
stored (bin_data_arg k bs) = bin_data k bs

unfoldable pub append_argument : Bytes → Argument → Fields → Result Fields
unfolding check_field_name stored
append_argument n a b = do check_field_name n; ok (append_fields b (field n (stored a) nil))

-- `appendArray` takes any object.
unfoldable pub append_array : Bytes → Fields → Fields → Result Fields
unfolding check_field_name
append_array n obj b = do check_field_name n; ok (append_fields b (field n (array obj) nil))

-- `BSONArrayBuilder`: `_i` and `_b`.
pub record ArrayBuilder : Type 0 where
  pub index : ℕ
  pub builder : Fields

abbrev pub empty_array : ArrayBuilder
empty_array = record { index = 0; builder = nil }

-- `BSONObjBuilder::numStr`.
unfoldable pub num_str : ℕ → Bytes
num_str i = decimal i

pub has_nul-num_str : (i : ℕ) → has_nul (num_str i) ≡ false
unfolding num_str
has_nul-num_str i = has_nul-decimal i

unfoldable pub append_item : Argument → ArrayBuilder → Result ArrayBuilder
unfolding append_argument
append_item a b = do
  fs ← append_argument (num_str b.index) a b.builder
  ok (record { index = suc b.index; builder = fs })
