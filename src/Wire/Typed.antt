-- ===== src/Wire/Typed.antt =====
-- The checked accessors of bson/bsonelement.h on the elements that bson/bsonobjbuilder.h wrote.
use streamsx_mongo_db.Prelude.{◌≡◌, refl, ap, false, Bytes, has_nul, if◌then◌else◌}
use streamsx_mongo_db.Prelude.Int.{ℤ, eq_ℤ}
use streamsx_mongo_db.Prelude.Words.{w64, residue, modulus}
use streamsx_mongo_db.Bson.Types.{type_byte}
use streamsx_mongo_db.Bson.Document
use streamsx_mongo_db.Bson.Document.{BsonValue, type_of}
use streamsx_mongo_db.Wire.Numbers.{write_signed, write_le}
use streamsx_mongo_db.Wire.Reader.{is_type, is_null_element}
use streamsx_mongo_db.Wire.Readback.{element_at}
use streamsx_mongo_db.Wire.Accessors.{InRange, element_at-IsReadBack}
use streamsx_mongo_db.Wire.Checked.{
  found, wrong_type, then_get, then_text, oid_of, check_type, check_that, mismatch_text, string_of,
  date_of, double_of, long_of, int_of, bool_of, timestamp_of, null_of,
}

-- The number of a value's type.
abbrev pub type_number : BsonValue → ℤ
type_number v = type_byte (type_of v)

-- What the checked accessor of the value's type returns, of the types that have one here.
abbrev pub IsCheckedBack : BsonValue → Bytes → Type 0
IsCheckedBack (Document.number_double d) raw = double_of raw ≡ found d
IsCheckedBack (Document.string s) raw = string_of raw ≡ found s
IsCheckedBack (Document.bool b) raw = bool_of raw ≡ found b
IsCheckedBack (Document.date ms) raw = date_of raw ≡ found (residue (modulus w64) ms)
IsCheckedBack (Document.number_int z) raw = int_of raw ≡ found z
IsCheckedBack (Document.number_long z) raw = long_of raw ≡ found z
IsCheckedBack (Document.timestamp s i) raw = timestamp_of raw ≡ found (s, i)
IsCheckedBack (Document.jst_oid o) raw = oid_of raw ≡ found o
IsCheckedBack Document.jst_null raw = null_of raw ≡ found tt
IsCheckedBack _ raw = Unit

type_is_checked :
    (t : ℤ) (n : Bytes) (v : BsonValue) (rest : Bytes)
    → check_type t (element_at n v rest) ≡ (
        if eq_ℤ (type_number v) t
        then found tt
        else wrong_type (mismatch_text t (element_at n v rest)))
unfolding check_type is_type write_signed write_le type_byte
type_is_checked t n (Document.number_double d) rest = refl
type_is_checked t n _ rest = refl

value_is_checked :
    (n : Bytes) (v : BsonValue) (rest : Bytes)
    → has_nul n ≡ false
    → InRange v
    → IsCheckedBack v (element_at n v rest)
unfolding check_type check_that then_get then_text oid_of is_type string_of date_of double_of
    long_of int_of bool_of timestamp_of null_of is_null_element write_signed write_le type_byte
value_is_checked n (Document.number_double d) rest h r =
    ap found (element_at-IsReadBack n (Document.number_double d) rest h r).1
value_is_checked n (Document.string s) rest h r =
    ap (then_text (found tt)) (element_at-IsReadBack n (Document.string s) rest h r).1
value_is_checked n (Document.bool b) rest h r =
    ap found (element_at-IsReadBack n (Document.bool b) rest h r).1
value_is_checked n (Document.date ms) rest h r =
    ap found (element_at-IsReadBack n (Document.date ms) rest h r).1
value_is_checked n (Document.number_int z) rest h r =
    ap found (element_at-IsReadBack n (Document.number_int z) rest h r).1
value_is_checked n (Document.number_long z) rest h r =
    ap found (element_at-IsReadBack n (Document.number_long z) rest h r).1
value_is_checked n (Document.timestamp s i) rest h r =
    ap found (element_at-IsReadBack n (Document.timestamp s i) rest h r).1
value_is_checked n (Document.jst_oid o) rest h r =
    ap found (element_at-IsReadBack n (Document.jst_oid o) rest h r).1
value_is_checked n Document.jst_null rest h r = refl
value_is_checked n _ rest h r = tt

-- On an element that was written under a name without a zero byte, the check for a type passes exactly
-- for the number of the value's own type (-1 for MinKey) and else throws the exception 13111; and the
-- checked accessor returns the value of a double, text, object id, boolean, date, 32-bit or 64-bit
-- integer or timestamp, and accepts a null, for a value in the range of its machine type and, for an
-- object id, of twelve bytes.
pub element_at-IsCheckedBack :
    (t : ℤ) (n : Bytes) (v : BsonValue) (rest : Bytes)
    → has_nul n ≡ false
    → InRange v
    → (check_type t (element_at n v rest) ≡ (
        if eq_ℤ (type_number v) t
        then found tt
        else wrong_type (mismatch_text t (element_at n v rest))))
      × IsCheckedBack v (element_at n v rest)
element_at-IsCheckedBack t n v rest h r =
    (type_is_checked t n v rest, value_is_checked n v rest h r)
