-- ===== src/Wire/Objects.antt =====
-- bson/bsonobj.h: BSONObj, a pointer to the bytes of an object and the buffer that it may own. The
-- pointer stands for the bytes from it on. What the compiled driver defines is a parameter: getField,
-- woCompare, equal and _okForStorage.
use streamsx_mongo_db.Prelude.{
  ℕ, zero, suc, Bool, true, false, not, ◌&&◌, Option, none, some, [], ◌∷◌, Bytes, drop, decimal,
  bytes_eq, if◌then◌else◌,
}
use streamsx_mongo_db.Prelude.Int.{ℤ, pos, negsuc, ltb_ℤ}
use streamsx_mongo_db.Prelude.Words.{w8, w32}
use streamsx_mongo_db.Wire.Numbers.{read_signed}
use streamsx_mongo_db.Wire.Buffer.{Buffer, Written, failed, bad_size, append_buf}
use streamsx_mongo_db.Wire.Reader.{take_bytes, eoo, is_type, c_string}

pub record BsonObj : Type 0 where
  pub objdata : Bytes
  pub owns_buffer : Bool

abbrev pub unowned : Bytes → BsonObj
unowned bs = record { objdata = bs; owns_buffer = false }

-- The default constructor: `{}`, in memory that nobody owns.
unfoldable pub empty_object : BsonObj
empty_object = unowned (5 ∷ 0 ∷ 0 ∷ 0 ∷ 0 ∷ [])

-- 16 MB for the user's objects and 16 KB more.
abbrev pub object_max_size : ℕ
object_max_size = 16_793_600

unfoldable pub object_size : BsonObj → ℤ
unfolding read_signed
object_size o = read_signed w32 o.objdata

unfoldable pub is_valid_size : BsonObj → Bool
unfolding object_size
is_valid_size o = ltb_ℤ (pos 0) (object_size o) && not (ltb_ℤ (pos object_max_size) (object_size o))

-- The constructor from data of another owner; none where `_assertInvalid` throws.
unfoldable pub from_data : Bytes → Option BsonObj
unfolding is_valid_size
from_data data_of_object =
    let o = unowned data_of_object in if is_valid_size o then some o else none

-- The constructor from a buffer to own, none for a null one.
unfoldable pub from_owned_buffer : Option Bytes → BsonObj
unfolding empty_object
from_owned_buffer none = empty_object
from_owned_buffer (some buffer) = record { objdata = buffer; owns_buffer = true }

-- The data of the holder follow its prefix of this many bytes.
unfoldable pub take_ownership : ℕ → Bytes → BsonObj
unfolding from_owned_buffer
take_ownership holder prefixed = from_owned_buffer (some (drop holder prefixed))

-- The move constructor: the new object, and what remains of the other.
unfoldable pub move_from : BsonObj → BsonObj × BsonObj
unfolding empty_object
move_from other = (other, record other { objdata = empty_object.objdata; owns_buffer = false })

unfoldable pub swap_objects : BsonObj → BsonObj → BsonObj × BsonObj
swap_objects o other = (other, o)

-- Assignment from a copy: this object afterwards.
unfoldable pub assign : BsonObj → BsonObj → BsonObj
unfolding swap_objects
assign o other_copy = (swap_objects o other_copy).0

unfoldable pub is_owned : BsonObj → Bool
is_owned o = o.owns_buffer

unfoldable pub is_empty_object : BsonObj → Bool
unfolding object_size
is_empty_object o = not (ltb_ℤ (pos 5) (object_size o))

-- `memcmp`, on a size that is not negative.
unfoldable pub same_bytes : ℤ → Bytes → Bytes → Bool
unfolding take_bytes
same_bytes (pos k) xs ys = bytes_eq (take_bytes k xs) (take_bytes k ys)
same_bytes (negsuc k) xs ys = bytes_eq xs ys

infix 50 ◌==ℤ◌
abbrev pub ◌==ℤ◌ : ℤ → ℤ → Bool
a ==ℤ b = not (ltb_ℤ a b) && not (ltb_ℤ b a)

unfoldable pub binary_equal : BsonObj → BsonObj → Bool
unfolding object_size same_bytes
binary_equal o r =
    let size = object_size o in
    if size ==ℤ object_size r then same_bytes size o.objdata r.objdata else false

unfoldable pub first_element : BsonObj → Bytes
first_element o = drop 4 o.objdata

unfoldable pub first_element_field_name : BsonObj → Bytes
unfolding is_type c_string
first_element_field_name o =
    let p = drop 4 o.objdata in if is_type (pos 0) p then [] else c_string (drop 1 p)

-- As the signed type byte.
unfoldable pub first_element_type : BsonObj → ℤ
unfolding read_signed
first_element_type o = read_signed w8 (drop 4 o.objdata)

-- `verify` refuses the size 0; a negative size, which no checked object has, is refused here too.
unfoldable pub append_sized : ℤ → Bytes → Buffer → Written Buffer
unfolding append_buf take_bytes
append_sized (pos zero) bs b = failed bad_size
append_sized (pos (suc k)) bs b = append_buf (take_bytes (suc k) bs) b
append_sized (negsuc k) bs b = failed bad_size

unfoldable pub append_self_to_buf_builder : BsonObj → Buffer → Written Buffer
unfolding append_sized object_size
append_self_to_buf_builder o b = append_sized (object_size o) o.objdata b

-- Look-ups by name, over the compiled `getField`, which returns the bytes of the element that it finds.
module _ (get_field : BsonObj → Bytes → Bytes) where
  unfoldable pub field_at : BsonObj → Bytes → Bytes
  field_at o field = get_field o field

  unfoldable pub field_at_index : BsonObj → ℕ → Bytes
  unfolding decimal
  field_at_index o field = get_field o (decimal field)

  unfoldable pub has_field : BsonObj → Bytes → Bool
  unfolding eoo
  has_field o name = not (eoo (get_field o name))

  unfoldable pub has_element : BsonObj → Bytes → Bool
  unfolding has_field
  has_element o name = has_field o name

-- Comparisons, over the compiled `woCompare`.
module _ (wo_compare : BsonObj → BsonObj → ℤ) where
  unfoldable pub less_object : BsonObj → BsonObj → Bool
  less_object o other = ltb_ℤ (wo_compare o other) (pos 0)

  unfoldable pub less_or_equal_object : BsonObj → BsonObj → Bool
  less_or_equal_object o other = not (ltb_ℤ (pos 0) (wo_compare o other))

  unfoldable pub greater_object : BsonObj → BsonObj → Bool
  greater_object o other = ltb_ℤ (pos 0) (wo_compare o other)

  unfoldable pub greater_or_equal_object : BsonObj → BsonObj → Bool
  greater_or_equal_object o other = not (ltb_ℤ (wo_compare o other) (pos 0))

module _ (equal : BsonObj → BsonObj → Bool) where
  unfoldable pub equal_object : BsonObj → BsonObj → Bool
  equal_object o other = equal o other

  unfoldable pub unequal_object : BsonObj → BsonObj → Bool
  unfolding equal_object
  unequal_object o other = not (equal_object o other)

-- The checks for storage, over the compiled `_okForStorage` of a root or not, deep or not.
module _ {ℓ} {Status : Type ℓ} (check_storage : Bool → Bool → BsonObj → Status) where
  unfoldable pub storage_valid_embedded : Bool → BsonObj → Status
  storage_valid_embedded deep o = check_storage false deep o

  unfoldable pub storage_valid : Bool → BsonObj → Status
  storage_valid deep o = check_storage true deep o

  module _ (is_ok : Status → Bool) where
    unfoldable pub ok_for_storage : BsonObj → Bool
    ok_for_storage o = is_ok (check_storage false true o)

    unfoldable pub ok_for_storage_as_root : BsonObj → Bool
    ok_for_storage_as_root o = is_ok (check_storage true true o)
