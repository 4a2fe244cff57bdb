-- ===== src/Wire/Checked.antt =====
-- bson/bsonelement.h: the accessors that check the type of an element, and the rest of its inline
-- methods, on the bytes from its first one on. The comparison of elements is compiled, a parameter.
use streamsx_mongo_db.Prelude.{
  ℕ, zero, ◌+◌, Bool, true, false, not, ◌||◌, Option, none, some, ◌++◌, Bytes, bytes, drop, decimal,
  length, if◌then◌else◌, ◌&&◌,
}
use streamsx_mongo_db.Prelude.Int.{ℤ, pos, negsuc, pos_part}
use streamsx_mongo_db.Prelude.Words.{w32}
use streamsx_mongo_db.Wire.Numbers.{read_signed}
use streamsx_mongo_db.Wire.Reader.{
  type_byte_at, is_type, eoo, field_name, value_at, boolean_at, date_at, raw_number_double,
  raw_number_int, raw_number_long, oid_at, str_at, valuestr, valuestrsize, counted_text,
  timestamp_at, is_null_element, c_string, take_bytes,
}

-- A value, or the exception 13111 with its text, or 13118, or `length_error`.
pub data Checked {ℓ} (A : Type ℓ) : Type ℓ where
  found : A → Checked A
  wrong_type : Bytes → Checked A
  unexpected_type length_error : Checked A

unfoldable pub then_get {ℓ κ} : {A : Type ℓ} {B : Type κ} → Checked A → B → Checked B
then_get (found a) b = found b
then_get (wrong_type text) b = wrong_type text
then_get unexpected_type b = unexpected_type
then_get length_error b = length_error

-- A text that may be refused.
unfoldable pub then_text : Checked (Unit {0}) → Option Bytes → Checked Bytes
then_text (found a) none = length_error
then_text (found a) (some text) = found text
then_text (wrong_type text) t = wrong_type text
then_text unexpected_type t = unexpected_type
then_text length_error t = length_error

abbrev signed_text : ℤ → Bytes
signed_text (pos n) = decimal n
signed_text (negsuc n) = bytes "-" ++ decimal (n + 1)

unfoldable pub mismatch_text : ℤ → Bytes → Bytes
unfolding eoo field_name type_byte_at decimal
mismatch_text t raw =
    if eoo raw
    then bytes "field not found, expected type " ++ signed_text t
    else bytes "wrong type for field ("
      ++ (field_name raw
          ++ (bytes ") " ++ (signed_text (type_byte_at raw) ++ (bytes " != " ++ signed_text t))))

-- `chk` of a type, and of a condition.
unfoldable pub check_type : ℤ → Bytes → Checked (Unit {0})
unfolding is_type mismatch_text
check_type t raw = if is_type t raw then found tt else wrong_type (mismatch_text t raw)

unfoldable pub check_that : Bool → Checked (Unit {0})
check_that true = found tt
check_that false = unexpected_type

unfoldable pub string_of : Bytes → Checked Bytes
unfolding check_type then_text str_at
string_of raw = then_text (check_type (pos 2) raw) (str_at raw)

-- None for the StringData that has the length that no text has.
unfoldable pub value_string_data : Bytes → Option Bytes
unfolding counted_text valuestrsize valuestr
value_string_data raw = counted_text (valuestrsize raw) (valuestr raw)

unfoldable pub check_and_get_string_data : Bytes → Checked (Option Bytes)
unfolding check_type then_get value_string_data
check_and_get_string_data raw = then_get (check_type (pos 2) raw) (value_string_data raw)

unfoldable pub date_of : Bytes → Checked ℕ
unfolding check_type then_get date_at
date_of raw = then_get (check_type (pos 9) raw) (date_at raw)

unfoldable pub is_number_at : Bytes → Bool
unfolding is_type
is_number_at raw = is_type (pos 1) raw || (is_type (pos 16) raw || is_type (pos 18) raw)

-- `numberDouble`, over C++'s conversion to double.
unfoldable pub number_at : (ℤ → ℕ) → Bytes → ℕ
unfolding is_type raw_number_double raw_number_int raw_number_long
number_at to_double raw =
    if is_type (pos 1) raw
    then raw_number_double raw
    else if is_type (pos 16) raw
    then to_double (raw_number_int raw)
    else if is_type (pos 18) raw
    then to_double (raw_number_long raw)
    else 0

unfoldable pub number_of : (ℤ → ℕ) → Bytes → Checked ℕ
unfolding check_that then_get is_number_at number_at
number_of to_double raw = then_get (check_that (is_number_at raw)) (number_at to_double raw)

-- `numberLong` and `safeNumberLong`, over C++'s conversion from double, and its comparisons with the
-- ends of the range of `long long`.
module _ (to_long_long : ℕ → ℤ) where
  unfoldable pub number_long_at : Bytes → ℤ
  unfolding is_type raw_number_double raw_number_int raw_number_long
  number_long_at raw =
      if is_type (pos 1) raw
      then to_long_long (raw_number_double raw)
      else if is_type (pos 16) raw
      then raw_number_int raw
      else if is_type (pos 18) raw
      then raw_number_long raw
      else pos 0

  unfoldable pub safe_number_long : (ℕ → Bool) → (ℕ → Bool) → (ℕ → Bool) → Bytes → ℤ
  unfolding is_type raw_number_double number_long_at
  safe_number_long is_nan above_max below_min raw =
      let d = raw_number_double raw in
      if is_type (pos 1) raw && is_nan d
      then pos 0
      else if is_type (pos 1) raw && above_max d
      then pos 9_223_372_036_854_775_807
      else if is_type (pos 1) raw && below_min d
      then negsuc 9_223_372_036_854_775_807
      else number_long_at raw

unfoldable pub double_of : Bytes → Checked ℕ
unfolding check_type then_get raw_number_double
double_of raw = then_get (check_type (pos 1) raw) (raw_number_double raw)

unfoldable pub long_of : Bytes → Checked ℤ
unfolding check_type then_get raw_number_long
long_of raw = then_get (check_type (pos 18) raw) (raw_number_long raw)

unfoldable pub int_of : Bytes → Checked ℤ
unfolding check_type then_get raw_number_int
int_of raw = then_get (check_type (pos 16) raw) (raw_number_int raw)

unfoldable pub bool_of : Bytes → Checked Bool
unfolding check_type then_get boolean_at
bool_of raw = then_get (check_type (pos 8) raw) (boolean_at raw)

unfoldable pub oid_of : Bytes → Checked Bytes
unfolding check_type then_get oid_at
oid_of raw = then_get (check_type (pos 7) raw) (oid_at raw)

unfoldable pub timestamp_of : Bytes → Checked (ℕ × ℕ)
unfolding check_type then_get timestamp_at
timestamp_of raw = then_get (check_type (pos 17) raw) (timestamp_at raw)

unfoldable pub null_of : Bytes → Checked (Unit {0})
unfolding check_that is_null_element
null_of raw = check_that (is_null_element raw)

unfoldable pub is_there : Bytes → Bool
unfolding eoo
is_there raw = not (eoo raw)

unfoldable pub check_there : Bytes → Checked (Unit {0})
unfolding check_that is_there
check_there raw = check_that (is_there raw)

unfoldable pub may_encapsulate : Bytes → Bool
unfolding is_type
may_encapsulate raw = is_type (pos 3) raw || (is_type (pos 4) raw || is_type (pos 15) raw)

unfoldable pub is_a_bson_obj : Bytes → Bool
unfolding is_type
is_a_bson_obj raw = is_type (pos 3) raw || is_type (pos 4) raw

-- The options follow the pattern and its zero byte; none where `verify` fails.
unfoldable pub regex_flags_at : Bytes → Option Bytes
unfolding is_type value_at c_string
regex_flags_at raw =
    let p = value_at raw in
    if is_type (pos 11) raw then some (c_string (drop (length (c_string p) + 1) p)) else none

-- The scope of a code element: after the code's first zero byte, or after the code by its length.
unfoldable pub scope_data_unsafe : Bytes → Option Bytes
unfolding is_type value_at c_string
scope_data_unsafe raw =
    let code = drop 8 (value_at raw) in
    if is_type (pos 15) raw then some (drop (length (c_string code) + 1) code) else none

unfoldable pub scope_data : Bytes → Option Bytes
unfolding is_type value_at read_signed
scope_data raw =
    let size = read_signed w32 (drop 4 (value_at raw)) in
    if is_type (pos 15) raw then some (drop (pos_part size) (drop 8 (value_at raw))) else none

unfoldable pub db_ref_oid : Bytes → Option Bytes
unfolding is_type value_at read_signed take_bytes
db_ref_oid raw =
    let start = value_at raw in
    if is_type (pos 12) raw
    then some (take_bytes 12 (drop (4 + pos_part (read_signed w32 start)) start))
    else none

module _ (wo_compare : Bytes → Bytes → Bool → ℤ) where
  unfoldable pub values_equal : Bytes → Bytes → Bool
  values_equal l r = is_zero (wo_compare l r false)
    where
      is_zero : ℤ → Bool
      is_zero (pos zero) = true
      is_zero z = false

  unfoldable pub elements_equal : Bytes → Bytes → Bool
  elements_equal l r = is_zero (wo_compare l r true)
    where
      is_zero : ℤ → Bool
      is_zero (pos zero) = true
      is_zero z = false

  unfoldable pub elements_unequal : Bytes → Bytes → Bool
  unfolding elements_equal
  elements_unequal l r = not (elements_equal l r)
