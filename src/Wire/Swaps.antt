-- ===== src/Wire/Swaps.antt =====
-- platform/endian.h: the swaps of each width, and the bytes of a swapped number.
use streamsx_mongo_db.Prelude.{ℕ, ◌<◌, ◌≡◌, [], arith, reverse_onto, refl}
use streamsx_mongo_db.Prelude.Words.{Width, w8, w16, w32, w64, modulus}
use streamsx_mongo_db.Wire.Endian.{
  ByteOrder, little_endian, big_endian, bswap_slow16, bswap_slow32, bswap_slow64,
}
use streamsx_mongo_db.Wire.Numbers.{write_le, byte_count}
use streamsx_mongo_db.Wire.Host.{memory_bytes}

-- The swap of a width.
unfoldable pub swap : Width → ℕ → ℕ
unfolding bswap_slow16 bswap_slow32 bswap_slow64
swap w8 v = v
swap w16 v = bswap_slow16 v
swap w32 v = bswap_slow32 v
swap w64 v = bswap_slow64 v

pub swap_lt : (w : Width) (v : ℕ) → v < modulus w → swap w v < modulus w
unfolding swap
swap_lt w8 v h = h
swap_lt w16 v h = omega arith
swap_lt w32 v h = omega arith
swap_lt w64 v h = omega arith

pub swap_twice : (w : Width) (v : ℕ) → v < modulus w → swap w (swap w v) ≡ v
unfolding swap
swap_twice w8 v h = refl
swap_twice w16 v h = omega (arith, h)
swap_twice w32 v h = omega (arith, h)
swap_twice w64 v h = omega (arith, h)

pub reverse-swap :
    (w : Width) (v : ℕ)
    → v < modulus w
    → reverse_onto (write_le (byte_count w) (swap w v)) [] ≡ write_le (byte_count w) v
unfolding swap write_le
reverse-swap w8 v h = refl
reverse-swap w16 v h = ground arith
reverse-swap w32 v h = ground arith
reverse-swap w64 v h = ground arith

pub write_le-swap :
    (w : Width) (v : ℕ)
    → v < modulus w
    → write_le (byte_count w) (swap w v) ≡ reverse_onto (write_le (byte_count w) v) []
unfolding swap write_le
write_le-swap w8 v h = refl
write_le-swap w16 v h = ground arith
write_le-swap w32 v h = ground arith
write_le-swap w64 v h = ground arith

-- What a conversion does to the pattern of a number of a width: nothing or a swap.
unfoldable pub to_little : ByteOrder → Width → ℕ → ℕ
unfolding swap
to_little little_endian w v = v
to_little big_endian w v = swap w v

unfoldable pub to_big : ByteOrder → Width → ℕ → ℕ
unfolding swap
to_big little_endian w v = swap w v
to_big big_endian w v = v

pub to_little_lt :
    (order : ByteOrder) (w : Width) (v : ℕ) → v < modulus w → to_little order w v < modulus w
unfolding to_little
to_little_lt little_endian w v h = h
to_little_lt big_endian w v h = swap_lt w v h

pub to_big_lt :
    (order : ByteOrder) (w : Width) (v : ℕ) → v < modulus w → to_big order w v < modulus w
unfolding to_big
to_big_lt big_endian w v h = h
to_big_lt little_endian w v h = swap_lt w v h

pub to_little_twice :
    (order : ByteOrder) (w : Width) (v : ℕ)
    → v < modulus w
    → to_little order w (to_little order w v) ≡ v
unfolding to_little
to_little_twice little_endian w v h = refl
to_little_twice big_endian w v h = swap_twice w v h

pub to_big_twice :
    (order : ByteOrder) (w : Width) (v : ℕ) → v < modulus w → to_big order w (to_big order w v) ≡ v
unfolding to_big
to_big_twice little_endian w v h = swap_twice w v h
to_big_twice big_endian w v h = refl

pub memory_bytes-to_little :
    (order : ByteOrder) (w : Width) (v : ℕ)
    → v < modulus w
    → memory_bytes order (byte_count w) (to_little order w v) ≡ write_le (byte_count w) v
unfolding memory_bytes to_little
memory_bytes-to_little little_endian w v h = refl
memory_bytes-to_little big_endian w v h = reverse-swap w v h

pub memory_bytes-to_big :
    (order : ByteOrder) (w : Width) (v : ℕ)
    → v < modulus w
    → memory_bytes order (byte_count w) (to_big order w v)
      ≡ reverse_onto (write_le (byte_count w) v) []
unfolding memory_bytes to_big
memory_bytes-to_big little_endian w v h = write_le-swap w v h
memory_bytes-to_big big_endian w v h = refl
