-- ===== src/Wire/Host.antt =====
-- base/data_view.h: numbers in memory, which lie there in the order of the host, and the reads and
-- writes of a view. Bytes beyond the end of the view read as 0.
use streamsx_mongo_db.Wire.Frame.{overwrite}
use streamsx_mongo_db.Prelude.{ℕ, ◌<◌, [], Bytes, reverse_onto, Bool, drop}
use streamsx_mongo_db.Prelude.Int.{pos}
use streamsx_mongo_db.Prelude.Words.{
  Width, w8, w16, w32, w64, modulus, residue, wrap_signed, InSigned,
}
use streamsx_mongo_db.Wire.Endian.{ByteOrder, little_endian, big_endian}
use streamsx_mongo_db.Wire.Converters.{
  Fixed, uint8, uint16, uint32, uint64, int8, int16, int32, int64, float, double, Native, CppType,
  convert_little_to_native, convert_native_to_big, convert_big_to_native, convert_native_to_little,
  integral_type,
}
use streamsx_mongo_db.Wire.Numbers.{write_le, read_le, byte_count}
use streamsx_mongo_db.Wire.Reader.{take_bytes}

abbrev pub width : Fixed → Width
width uint8 = w8
width uint16 = w16
width uint32 = w32
width uint64 = w64
width int8 = w8
width int16 = w16
width int32 = w32
width int64 = w64
width float = w32
width double = w64

-- `sizeof`.
abbrev pub byte_size : Fixed → ℕ
byte_size t = byte_count (width t)

-- The bit pattern of a value, and the value of a bit pattern.
abbrev pub bits_of : (t : Fixed) → Native t → ℕ
bits_of uint8 n = n
bits_of uint16 n = n
bits_of uint32 n = n
bits_of uint64 n = n
bits_of int8 z = residue (modulus w8) z
bits_of int16 z = residue (modulus w16) z
bits_of int32 z = residue (modulus w32) z
bits_of int64 z = residue (modulus w64) z
bits_of float n = n
bits_of double n = n

abbrev pub of_bits : (t : Fixed) → ℕ → Native t
of_bits uint8 n = n
of_bits uint16 n = n
of_bits uint32 n = n
of_bits uint64 n = n
of_bits int8 n = wrap_signed w8 (pos n)
of_bits int16 n = wrap_signed w16 (pos n)
of_bits int32 n = wrap_signed w32 (pos n)
of_bits int64 n = wrap_signed w64 (pos n)
of_bits float n = n
of_bits double n = n

abbrev pub InRange : (t : Fixed) → Native t → Type 0
InRange uint8 n = n < modulus w8
InRange uint16 n = n < modulus w16
InRange uint32 n = n < modulus w32
InRange uint64 n = n < modulus w64
InRange int8 z = InSigned w8 z
InRange int16 z = InSigned w16 z
InRange int32 z = InSigned w32 z
InRange int64 z = InSigned w64 z
InRange float n = n < modulus w32
InRange double n = n < modulus w64

-- A number of k bytes as it lies in memory, and the number that lies there.
unfoldable pub memory_bytes : ByteOrder → ℕ → ℕ → Bytes
unfolding write_le
memory_bytes little_endian k n = write_le k n
memory_bytes big_endian k n = reverse_onto (write_le k n) []

unfoldable pub memory_number : ByteOrder → ℕ → Bytes → ℕ
unfolding read_le take_bytes
memory_number little_endian k bs = read_le k bs
memory_number big_endian k bs = read_le k (reverse_onto (take_bytes k bs) [])

-- `readNative` and `writeNative` at an offset.
module _ (order : ByteOrder) (t : Fixed) (offset : ℕ) where
  unfoldable pub read_native : Bytes → Native t
  unfolding memory_number
  read_native bs = of_bits t (memory_number order (byte_size t) (drop offset bs))

  unfoldable pub write_native : Native t → Bytes → Bytes
  unfolding memory_bytes overwrite
  write_native v bs = overwrite offset (memory_bytes order (byte_size t) (bits_of t v)) bs

-- `readLE`, `readBE`, `writeLE` and `writeBE`.
module _ (char_is_signed : Bool) (order : ByteOrder) (t : CppType) (offset : ℕ) where
  unfoldable pub read_little : Bytes → Native (integral_type char_is_signed t)
  unfolding read_native convert_little_to_native
  read_little bs =
      convert_little_to_native char_is_signed order t
        (read_native order (integral_type char_is_signed t) offset bs)

  unfoldable pub read_big : Bytes → Native (integral_type char_is_signed t)
  unfolding read_native convert_big_to_native
  read_big bs =
      convert_big_to_native char_is_signed order t
        (read_native order (integral_type char_is_signed t) offset bs)

  unfoldable pub write_little : Native (integral_type char_is_signed t) → Bytes → Bytes
  unfolding write_native convert_native_to_little
  write_little v bs =
      write_native order (integral_type char_is_signed t) offset
        (convert_native_to_little char_is_signed order t v) bs

  unfoldable pub write_big : Native (integral_type char_is_signed t) → Bytes → Bytes
  unfolding write_native convert_native_to_big
  write_big v bs =
      write_native order (integral_type char_is_signed t) offset
        (convert_native_to_big char_is_signed order t v) bs
