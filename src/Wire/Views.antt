-- ===== src/Wire/Views.antt =====
-- base/data_view.h over platform/endian.h: what a view reads and writes is the same on every host.
use streamsx_mongo_db.Wire.Visited.{drop-drop}
use streamsx_mongo_db.Prelude.Words.{modulus, Width, w8, w16, w32, w64}
use streamsx_mongo_db.Prelude.{
  ℕ, zero, suc, ◌+◌, ◌≤◌, ◌<◌, ◌≡◌, ◌++◌, [], ◌∷◌, Bool, Bytes, arith, reverse_onto, length, refl,
  sym, drop, ap, ◌∙◌, ◌-◌,
}
use streamsx_mongo_db.Wire.Endian.{ByteOrder, little_endian, big_endian}
use streamsx_mongo_db.Wire.Converters.{
  Native, CppType, integral_type, convert_native_to_big, convert_big_to_native,
  convert_native_to_little, convert_little_to_native, Fixed,
}
use streamsx_mongo_db.Wire.Numbers.{
  write_le, read_le, byte_range, read_le-write_le, length-write_le, byte_count,
}
use streamsx_mongo_db.Wire.Reader.{take_bytes}
use streamsx_mongo_db.Wire.Frame.{overwrite, overwrite-split, overwrite-start}
use streamsx_mongo_db.Wire.Readback.{take_bytes-append}
use streamsx_mongo_db.Wire.Host.{
  byte_size, bits_of, of_bits, InRange, memory_bytes, memory_number, read_native, write_native,
  read_little, write_little, read_big, write_big, width,
}
use streamsx_mongo_db.Wire.Orders.{
  little_to_native-native_to_little, big_to_native-native_to_big, memory_bytes-native_to_little,
  memory_bytes-native_to_big, native_to_little-InRange, native_to_big-InRange, bits_lt,
  of_bits-bits_of,
}

length-reverse_onto : (xs ys : Bytes) → length (reverse_onto xs ys) ≡ length xs + length ys
length-reverse_onto [] ys = omega arith
length-reverse_onto (x ∷ xs) ys = omega (arith, length-reverse_onto xs (x ∷ ys))

reverse_onto-reverse_onto :
    (xs ys zs : Bytes) → reverse_onto (reverse_onto xs ys) zs ≡ reverse_onto ys (xs ++ zs)
reverse_onto-reverse_onto [] ys zs = refl
reverse_onto-reverse_onto (x ∷ xs) ys zs = reverse_onto-reverse_onto xs (x ∷ ys) zs

pub drop-take_bytes : (k : ℕ) (xs ys : Bytes) → k ≤ length xs → drop k (take_bytes k xs ++ ys) ≡ ys
unfolding take_bytes
drop-take_bytes zero xs ys h = refl
drop-take_bytes (suc k) [] ys h = absurd (omega (arith, h))
drop-take_bytes (suc k) (x ∷ xs) ys h = drop-take_bytes k xs ys (omega (arith, h))

length-drop_from : (k : ℕ) (bs : Bytes) → length (drop k bs) ≡ length bs - k
length-drop_from zero bs = omega arith
length-drop_from (suc k) [] = omega arith
length-drop_from (suc k) (b ∷ bs) = omega (arith, length-drop_from k bs)

pub drop-overwrite :
    (offset : ℕ) (xs bs : Bytes)
    → offset + length xs ≤ length bs
    → drop offset (overwrite offset xs bs) ≡ xs ++ drop (offset + length xs) bs
drop-overwrite offset xs bs h =
    ap (drop offset) (overwrite-split offset xs bs)
    ∙ drop-take_bytes offset bs _ (omega (arith, h))
    ∙ overwrite-start xs (drop offset bs) (omega (arith, h, length-drop_from offset bs))
    ∙ ap (λ zs. xs ++ zs) (sym (drop-drop offset (length xs) bs))

length-memory_bytes : (order : ByteOrder) (k n : ℕ) → length (memory_bytes order k n) ≡ k
unfolding memory_bytes
length-memory_bytes little_endian k n = length-write_le k n
length-memory_bytes big_endian k n =
    omega (arith, length-reverse_onto (write_le k n) [], length-write_le k n)

take_exactly : (k : ℕ) (xs ys : Bytes) → length xs ≡ k → take_bytes k (xs ++ ys) ≡ xs
take_exactly k xs ys h = sym (ap (λ m. take_bytes m (xs ++ ys)) h) ∙ take_bytes-append xs ys

memory_number-memory_bytes :
    (order : ByteOrder) (k n : ℕ) (rest : Bytes)
    → n < byte_range k
    → memory_number order k (memory_bytes order k n ++ rest) ≡ n
unfolding memory_bytes memory_number
memory_number-memory_bytes little_endian k n rest h = read_le-write_le k n rest h
memory_number-memory_bytes big_endian k n rest h =
    ap (λ bs. read_le k (reverse_onto bs []))
      (take_exactly k (reverse_onto (write_le k n) []) rest
        (omega (arith, length-reverse_onto (write_le k n) [], length-write_le k n)))
    ∙ ap (read_le k) (reverse_onto-reverse_onto (write_le k n) [] [])
    ∙ read_le-write_le k n [] h

lt-byte_range : (w : Width) (n : ℕ) → n < modulus w → n < byte_range (byte_count w)
lt-byte_range w8 n h = h
lt-byte_range w16 n h = h
lt-byte_range w32 n h = h
lt-byte_range w64 n h = h

-- A value written natively is read back natively.
read_native-write_native :
    (order : ByteOrder) (t : Fixed) (offset : ℕ) (v : Native t) (bs : Bytes)
    → InRange t v
    → offset + byte_size t ≤ length bs
    → read_native order t offset (write_native order t offset v bs) ≡ v
unfolding read_native write_native
read_native-write_native order t offset v bs h room =
    ap (λ m. of_bits t (memory_number order (byte_size t) m))
      (drop-overwrite offset _ bs
        (omega (arith, room, length-memory_bytes order (byte_size t) (bits_of t v))))
    ∙ ap (of_bits t) (
        memory_number-memory_bytes order (byte_size t) (bits_of t v) _
          (lt-byte_range (width t) _ (bits_lt t v h)))
    ∙ of_bits-bits_of t v h

module _ (char_is_signed : Bool) (order : ByteOrder) (t : CppType) where
  module _ (v : Native (integral_type char_is_signed t))
      (h : InRange (integral_type char_is_signed t) v) where
    -- For a value in the range of its type, converting to little-endian and back gives the value, and
    -- so does converting to big-endian and back, on a host of either order.
    pub conversions_undone :
        (convert_little_to_native char_is_signed order t
            (convert_native_to_little char_is_signed order t v)
          ≡ v)
        × (convert_big_to_native char_is_signed order t
              (convert_native_to_big char_is_signed order t v)
            ≡ v)
    unfolding convert_little_to_native convert_native_to_little convert_big_to_native
        convert_native_to_big
    conversions_undone =
        (little_to_native-native_to_little order _ v h, big_to_native-native_to_big order _ v h)

    -- writeLE of a value in the range of its type puts its bytes into the view from the low one on,
    -- and writeBE from the high one on, on a host of either order.
    pub written_bytes :
        (offset : ℕ) (bs : Bytes)
        → (write_little char_is_signed order t offset v bs
            ≡ overwrite offset
                (write_le
                  (byte_size (integral_type char_is_signed t))
                  (bits_of (integral_type char_is_signed t) v))
                bs)
          × (write_big char_is_signed order t offset v bs
              ≡ overwrite offset
                  (reverse_onto
                    (write_le
                      (byte_size (integral_type char_is_signed t))
                      (bits_of (integral_type char_is_signed t) v))
                    [])
                  bs)
    unfolding write_little write_big write_native convert_native_to_little convert_native_to_big
    written_bytes offset bs = (
      ap (λ xs. overwrite offset xs bs) (memory_bytes-native_to_little order _ v h),
      ap (λ xs. overwrite offset xs bs) (memory_bytes-native_to_big order _ v h),
    )

    -- What writeLE writes into a view, readLE reads at the same offset, and readBE what writeBE
    -- writes, for a value in the range of its type and an offset where the view has room.
    pub written_read_back :
        (offset : ℕ) (bs : Bytes)
        → offset + byte_size (integral_type char_is_signed t) ≤ length bs
        → (read_little char_is_signed order t offset
              (write_little char_is_signed order t offset v bs)
            ≡ v)
          × (read_big char_is_signed order t offset (write_big char_is_signed order t offset v bs)
              ≡ v)
    unfolding read_little write_little read_big write_big
    written_read_back offset bs room = (
      ap (convert_little_to_native char_is_signed order t) (
            read_native-write_native order _ offset _ bs (native_to_little-InRange order _ v h)
              room)
          ∙ conversions_undone.0,
      ap (convert_big_to_native char_is_signed order t)
            (read_native-write_native order _ offset _ bs (native_to_big-InRange order _ v h) room)
          ∙ conversions_undone.1,
    )
