-- ===== src/Bson/Ordering.antt =====
-- com.ibm.streamsx.mongodb/impl/include/mongo/bson/ordering.h: the directions of the keys of a
-- compound key pattern, packed into the bits of an `unsigned`.
use streamsx_mongo_db.Prelude.{
  ℕ, zero, suc, ◌+◌, ◌*◌, ◌/◌, ◌%◌, Bool, not, ◌&&◌, Option, none, some, ltb, leb, ◌==◌,
  if◌then◌else◌,
}
use streamsx_mongo_db.Prelude.Int.{ℤ, pos, negsuc}
use streamsx_mongo_db.Bson.Document.{Fields, nil, field}
use streamsx_mongo_db.Bson.Element.{Conversions, number}

-- `x < 0` for a double, by its bits: the sign is set, and it is neither zero nor no number at all.
unfoldable pub is_negative_double : ℕ → Bool
is_negative_double d = ltb 9_223_372_036_854_775_808 d && leb d 18_442_240_474_082_181_120

-- `(1 << i) & bits`, as a test.
unfoldable pub test_bit : ℕ → ℕ → Bool
test_bit zero bits = bits % 2 == 1
test_bit (suc i) bits = test_bit i (bits / 2)

-- `bits | (1 << i)`.
unfoldable pub set_bit : ℕ → ℕ → ℕ
set_bit zero bits = bits / 2 * 2 + 1
set_bit (suc i) bits = bits % 2 + 2 * set_bit i (bits / 2)

-- `a & b`, on the low bits, as many as the first argument says.
unfoldable pub and_bits : ℕ → ℕ → ℕ → ℕ
and_bits zero a b = 0
and_bits (suc w) a b =
    (if (a % 2 == 1) && (b % 2 == 1) then 1 else 0) + 2 * and_bits w (a / 2) (b / 2)

pub record Ordering : Type 0 where
  pub bits : ℕ

-- None where the shift of a 32-bit `int` is undefined.
unfoldable pub get : Ordering → ℕ → Option ℤ
unfolding test_bit
get o i = if ltb i 32 then some (if test_bit i o.bits then negsuc 0 else pos 1) else none

unfoldable pub descending : Ordering → ℕ → ℕ
unfolding and_bits
descending o mask = and_bits 32 o.bits mask

-- The loop of `make`, with the bits so far and the number of the next key; none where there are too
-- many keys.
unfoldable pub make_from : Conversions → Fields → ℕ → ℕ → Option Ordering
unfolding number is_negative_double set_bit
make_from C nil n b = some (record { bits = b })
make_from C (field name v fs) n b =
    let rest =
      make_from C fs (suc n) (if is_negative_double (number C v) then set_bit n b else b) in
    if not (leb n 31) then none else rest

unfoldable pub make : Conversions → Fields → Option Ordering
unfolding make_from
make C fs = make_from C fs 0 0
