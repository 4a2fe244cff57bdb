-- ===== src/Wire/Reader.antt =====
-- bson/bsonelement.h: the accessors of an element, on the bytes from its first one on.
use streamsx_mongo_db.Prelude.{
  ℕ, zero, suc, ◌+◌, ◌-◌, ◌==◌, Bool, false, not, ◌&&◌, Option, none, some, [], ◌∷◌, Bytes, drop,
  length, if◌then◌else◌,
}
use streamsx_mongo_db.Prelude.Int.{ℤ, pos, negsuc, eq_ℤ}
use streamsx_mongo_db.Prelude.Words.{w8, w32, w64, wrap_signed}
use streamsx_mongo_db.Wire.Numbers.{read_le, read_signed}

-- `type`, as the signed type byte.
unfoldable pub type_byte_at : Bytes → ℤ
unfolding read_signed
type_byte_at raw = read_signed w8 raw

-- Whether the type byte, as a signed number, is the one of the type with this number.
unfoldable pub is_type : ℤ → Bytes → Bool
unfolding wrap_signed
is_type t [] = false
is_type t (b ∷ bs) = eq_ℤ (wrap_signed w8 (pos b)) t

unfoldable pub eoo : Bytes → Bool
unfolding is_type
eoo raw = is_type (pos 0) raw

unfoldable pub is_null_element : Bytes → Bool
unfolding is_type
is_null_element raw = is_type (pos 10) raw

-- The bytes up to the first zero byte.
unfoldable pub c_string : Bytes → Bytes
c_string [] = []
c_string (b ∷ bs) = let rest = c_string bs in if b == 0 then [] else b ∷ rest

unfoldable pub take_bytes : ℕ → Bytes → Bytes
take_bytes zero bs = []
take_bytes (suc k) [] = []
take_bytes (suc k) (b ∷ bs) = b ∷ take_bytes k bs

unfoldable pub field_name : Bytes → Bytes
unfolding eoo c_string
field_name raw = if eoo raw then [] else c_string (drop 1 raw)

-- The constructor sets the size of an end of object to 0.
unfoldable pub field_name_size : Bytes → ℕ
unfolding eoo c_string
field_name_size raw = if eoo raw then 0 else length (c_string (drop 1 raw)) + 1

unfoldable pub value_at : Bytes → Bytes
unfolding field_name_size
value_at raw = drop (field_name_size raw + 1) raw

unfoldable pub boolean_at : Bytes → Bool
unfolding value_at read_le
boolean_at raw = not (read_le 1 (value_at raw) == 0)

unfoldable pub boolean_safe : Bytes → Bool
unfolding is_type boolean_at
boolean_safe raw = is_type (pos 8) raw && boolean_at raw

unfoldable pub date_at : Bytes → ℕ
unfolding value_at read_le
date_at raw = read_le 8 (value_at raw)

unfoldable pub raw_number_double : Bytes → ℕ
unfolding value_at read_le
raw_number_double raw = read_le 8 (value_at raw)

unfoldable pub raw_number_int : Bytes → ℤ
unfolding value_at read_signed
raw_number_int raw = read_signed w32 (value_at raw)

unfoldable pub raw_number_long : Bytes → ℤ
unfolding value_at read_signed
raw_number_long raw = read_signed w64 (value_at raw)

unfoldable pub oid_at : Bytes → Bytes
unfolding value_at take_bytes
oid_at raw = take_bytes 12 (value_at raw)

unfoldable pub valuestrsize : Bytes → ℤ
unfolding value_at read_signed
valuestrsize raw = read_signed w32 (value_at raw)

unfoldable pub objsize : Bytes → ℕ
unfolding value_at read_le
objsize raw = read_le 4 (value_at raw)

unfoldable pub valuestr : Bytes → Bytes
unfolding value_at
valuestr raw = drop 4 (value_at raw)

unfoldable pub valuestrsafe : Bytes → Bytes
unfolding is_type valuestr c_string
valuestrsafe raw = if is_type (pos 2) raw then c_string (valuestr raw) else []

-- The text of `valuestrsize() - 1` bytes. C++ takes the length as unsigned, so that a size of 0 or
-- below makes one that no text has, which `std::string` refuses with `length_error`: none.
unfoldable pub counted_text : ℤ → Bytes → Option Bytes
unfolding take_bytes
counted_text (pos zero) text = none
counted_text (pos (suc k)) text = some (take_bytes k text)
counted_text (negsuc k) text = none

unfoldable pub str_at : Bytes → Option Bytes
unfolding is_type counted_text valuestrsize valuestr
str_at raw = if is_type (pos 2) raw then counted_text (valuestrsize raw) (valuestr raw) else some []

unfoldable pub bin_data_type_at : Bytes → ℕ
unfolding value_at read_le
bin_data_type_at raw = read_le 1 (drop 4 (value_at raw))

-- `binData` and `binDataClean`, with the length that they hand out; none where `verify` fails.
unfoldable pub bin_data_at : Bytes → Option (ℤ × Bytes)
unfolding is_type valuestrsize value_at
bin_data_at raw =
    if is_type (pos 5) raw then some (valuestrsize raw, drop 5 (value_at raw)) else none

unfoldable pub less_four : ℤ → ℤ
less_four (pos (suc (suc (suc (suc k))))) = pos k
less_four (pos k) = negsuc (3 - k)
less_four (negsuc k) = negsuc (k + 4)

unfoldable pub bin_data_clean_at : Bytes → Option (ℤ × Bytes)
unfolding is_type bin_data_type_at bin_data_at valuestrsize value_at less_four
bin_data_clean_at raw =
    if not (is_type (pos 5) raw)
    then none
    else if bin_data_type_at raw == 2
    then some (less_four (valuestrsize raw), drop 9 (value_at raw))
    else bin_data_at raw

unfoldable pub regex_at : Bytes → Option Bytes
unfolding is_type c_string value_at
regex_at raw = if is_type (pos 11) raw then some (c_string (value_at raw)) else none

-- The seconds and the increment; the increment comes first in the bytes.
unfoldable pub timestamp_at : Bytes → ℕ × ℕ
unfolding value_at read_le
timestamp_at raw = (read_le 4 (drop 4 (value_at raw)), read_le 4 (value_at raw))

unfoldable pub code_w_scope_code_at : Bytes → Option Bytes
unfolding is_type value_at c_string
code_w_scope_code_at raw =
    if is_type (pos 15) raw then some (c_string (drop 8 (value_at raw))) else none

unfoldable pub code_w_scope_code_len : Bytes → Option ℤ
unfolding is_type value_at read_signed
code_w_scope_code_len raw =
    if is_type (pos 15) raw then some (read_signed w32 (drop 4 (value_at raw))) else none

unfoldable pub db_ref_ns : Bytes → Option Bytes
unfolding is_type value_at c_string
db_ref_ns raw = if is_type (pos 12) raw then some (c_string (drop 4 (value_at raw))) else none
