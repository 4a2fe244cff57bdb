-- ===== src/Wire/Orders.antt =====
-- The conversions of platform/endian.h undo each other, and what they leave in memory does not depend
-- on the host.
use mathlib.Core.Path.{subst}
use streamsx_mongo_db.Wire.Swaps.{
  to_little, to_big, to_little_lt, to_big_lt, to_little_twice, to_big_twice, memory_bytes-to_little,
  memory_bytes-to_big,
}
use streamsx_mongo_db.Prelude.{ℕ, ◌<◌, ◌≡◌, [], arith, reverse_onto, refl, ap, ◌∙◌, sym}
use streamsx_mongo_db.Prelude.Int.{pos}
use streamsx_mongo_db.Prelude.Words.{
  Width, w8, w16, w32, w64, modulus, residue, wrap_signed, wrap_signed-InSigned,
}
use streamsx_mongo_db.Wire.Endian.{ByteOrder, little_endian, big_endian}
use streamsx_mongo_db.Wire.Converters.{
  Fixed, uint8, uint16, uint32, uint64, int8, int16, int32, int64, float, double, Native, converter,
}
use streamsx_mongo_db.Wire.Numbers.{write_le}
use streamsx_mongo_db.Wire.Host.{byte_size, width, bits_of, of_bits, InRange, memory_bytes}

residue-wrap_signed :
    (w : Width) (n : ℕ) → n < modulus w → residue (modulus w) (wrap_signed w (pos n)) ≡ n
unfolding wrap_signed
residue-wrap_signed w8 n h = ground arith
residue-wrap_signed _ n h = ground arith

pub bits_lt : (t : Fixed) (v : Native t) → InRange t v → bits_of t v < modulus (width t)
bits_lt uint8 v h = h
bits_lt uint16 v h = h
bits_lt uint32 v h = h
bits_lt uint64 v h = h
bits_lt int8 v h = ground arith
bits_lt int16 v h = ground arith
bits_lt int32 v h = ground arith
bits_lt int64 v h = ground arith
bits_lt float v h = h
bits_lt double v h = h

pub of_bits-bits_of : (t : Fixed) (v : Native t) → InRange t v → of_bits t (bits_of t v) ≡ v
unfolding wrap_signed
of_bits-bits_of uint8 v h = refl
of_bits-bits_of uint16 v h = refl
of_bits-bits_of uint32 v h = refl
of_bits-bits_of uint64 v h = refl
of_bits-bits_of int8 v h = ground arith
of_bits-bits_of int16 v h = ground arith
of_bits-bits_of int32 v h = ground arith
of_bits-bits_of int64 v h = ground arith
of_bits-bits_of float v h = refl
of_bits-bits_of double v h = refl

bits_of-of_bits : (t : Fixed) (n : ℕ) → n < modulus (width t) → bits_of t (of_bits t n) ≡ n
bits_of-of_bits uint8 n h = refl
bits_of-of_bits uint16 n h = refl
bits_of-of_bits uint32 n h = refl
bits_of-of_bits uint64 n h = refl
bits_of-of_bits int8 n h = residue-wrap_signed w8 n h
bits_of-of_bits int16 n h = residue-wrap_signed w16 n h
bits_of-of_bits int32 n h = residue-wrap_signed w32 n h
bits_of-of_bits int64 n h = residue-wrap_signed w64 n h
bits_of-of_bits float n h = refl
bits_of-of_bits double n h = refl

-- Each conversion is one of the two on the patterns.
native_to_little-bits :
    (order : ByteOrder) (t : Fixed) (v : Native t)
    → InRange t v
    → (converter order t).native_to_little v ≡ of_bits t (to_little order (width t) (bits_of t v))
unfolding converter to_little
native_to_little-bits little_endian int8 v h = sym (of_bits-bits_of int8 v h)
native_to_little-bits big_endian int8 v h = sym (of_bits-bits_of int8 v h)
native_to_little-bits little_endian _ v h = refl
native_to_little-bits big_endian _ v h = refl

little_to_native-bits :
    (order : ByteOrder) (t : Fixed) (v : Native t)
    → InRange t v
    → (converter order t).little_to_native v ≡ of_bits t (to_little order (width t) (bits_of t v))
unfolding converter to_little
little_to_native-bits little_endian int8 v h = sym (of_bits-bits_of int8 v h)
little_to_native-bits big_endian int8 v h = sym (of_bits-bits_of int8 v h)
little_to_native-bits little_endian _ v h = refl
little_to_native-bits big_endian _ v h = refl

native_to_big-bits :
    (order : ByteOrder) (t : Fixed) (v : Native t)
    → InRange t v
    → (converter order t).native_to_big v ≡ of_bits t (to_big order (width t) (bits_of t v))
unfolding converter to_big
native_to_big-bits little_endian int8 v h = sym (of_bits-bits_of int8 v h)
native_to_big-bits big_endian int8 v h = sym (of_bits-bits_of int8 v h)
native_to_big-bits little_endian _ v h = refl
native_to_big-bits big_endian _ v h = refl

big_to_native-bits :
    (order : ByteOrder) (t : Fixed) (v : Native t)
    → InRange t v
    → (converter order t).big_to_native v ≡ of_bits t (to_big order (width t) (bits_of t v))
unfolding converter to_big
big_to_native-bits little_endian int8 v h = sym (of_bits-bits_of int8 v h)
big_to_native-bits big_endian int8 v h = sym (of_bits-bits_of int8 v h)
big_to_native-bits little_endian _ v h = refl
big_to_native-bits big_endian _ v h = refl

of_bits-InRange : (t : Fixed) (n : ℕ) → n < modulus (width t) → InRange t (of_bits t n)
of_bits-InRange int8 n h = wrap_signed-InSigned w8 (pos n)
of_bits-InRange int16 n h = wrap_signed-InSigned w16 (pos n)
of_bits-InRange int32 n h = wrap_signed-InSigned w32 (pos n)
of_bits-InRange int64 n h = wrap_signed-InSigned w64 (pos n)
of_bits-InRange _ n h = h

-- Two conversions of the patterns that undo each other are two of the values that do.
of_bits_twice :
    (t : Fixed) (v : Native t) (f : ℕ → ℕ)
    → InRange t v
    → f (bits_of t v) < modulus (width t)
    → f (f (bits_of t v)) ≡ bits_of t v
    → of_bits t (f (bits_of t (of_bits t (f (bits_of t v))))) ≡ v
of_bits_twice t v f h lt twice =
    ap (λ n. of_bits t (f n)) (bits_of-of_bits t (f (bits_of t v)) lt)
    ∙ ap (of_bits t) twice
    ∙ of_bits-bits_of t v h

module _ (order : ByteOrder) (t : Fixed) (v : Native t) (h : InRange t v) where
  -- A value converted to little-endian and back is the same, and lies in memory as its bytes from
  -- the low one on.
  pub little_to_native-native_to_little :
      (converter order t).little_to_native ((converter order t).native_to_little v) ≡ v
  little_to_native-native_to_little =
      ap (converter order t).little_to_native (native_to_little-bits order t v h)
      ∙ little_to_native-bits order t _
          (of_bits-InRange t _ (to_little_lt order (width t) _ (bits_lt t v h)))
      ∙ of_bits_twice t v (to_little order (width t)) h
          (to_little_lt order (width t) _ (bits_lt t v h))
          (to_little_twice order (width t) _ (bits_lt t v h))

  pub big_to_native-native_to_big :
      (converter order t).big_to_native ((converter order t).native_to_big v) ≡ v
  big_to_native-native_to_big =
      ap (converter order t).big_to_native (native_to_big-bits order t v h)
      ∙ big_to_native-bits order t _
          (of_bits-InRange t _ (to_big_lt order (width t) _ (bits_lt t v h)))
      ∙ of_bits_twice t v (to_big order (width t)) h (to_big_lt order (width t) _ (bits_lt t v h))
          (to_big_twice order (width t) _ (bits_lt t v h))

  pub memory_bytes-native_to_little :
      memory_bytes order (byte_size t) (bits_of t ((converter order t).native_to_little v))
      ≡ write_le (byte_size t) (bits_of t v)
  memory_bytes-native_to_little =
      ap (λ x. memory_bytes order (byte_size t) (bits_of t x)) (native_to_little-bits order t v h)
      ∙ ap (memory_bytes order (byte_size t))
          (bits_of-of_bits t _ (to_little_lt order (width t) _ (bits_lt t v h)))
      ∙ memory_bytes-to_little order (width t) (bits_of t v) (bits_lt t v h)

  pub memory_bytes-native_to_big :
      memory_bytes order (byte_size t) (bits_of t ((converter order t).native_to_big v))
      ≡ reverse_onto (write_le (byte_size t) (bits_of t v)) []
  memory_bytes-native_to_big =
      ap (λ x. memory_bytes order (byte_size t) (bits_of t x)) (native_to_big-bits order t v h)
      ∙ ap (memory_bytes order (byte_size t))
          (bits_of-of_bits t _ (to_big_lt order (width t) _ (bits_lt t v h)))
      ∙ memory_bytes-to_big order (width t) (bits_of t v) (bits_lt t v h)

  pub native_to_little-InRange : InRange t ((converter order t).native_to_little v)
  native_to_little-InRange =
      subst (InRange t) (sym (native_to_little-bits order t v h))
        (of_bits-InRange t _ (to_little_lt order (width t) _ (bits_lt t v h)))

  pub native_to_big-InRange : InRange t ((converter order t).native_to_big v)
  native_to_big-InRange =
      subst (InRange t) (sym (native_to_big-bits order t v h))
        (of_bits-InRange t _ (to_big_lt order (width t) _ (bits_lt t v h)))
