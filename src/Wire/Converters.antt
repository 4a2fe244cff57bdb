-- ===== src/Wire/Converters.antt =====
-- platform/endian.h: the conversions of each type, and the map from C++'s types to those of a fixed
-- size. A float or a double is its bit pattern, so that the header's `memcpy` to an integer of the
-- same size and back is the identity.
use streamsx_mongo_db.Prelude.{ℕ, Bool, if◌then◌else◌}
use streamsx_mongo_db.Prelude.Int.{ℤ, pos}
use streamsx_mongo_db.Prelude.Words.{w16, w32, w64, modulus, residue, wrap_signed}
use streamsx_mongo_db.Wire.Endian.{
  ByteOrder, htobe16, htobe32, htobe64, be16toh, be32toh, be64toh, htole16, htole32, htole64,
  le16toh, le32toh, le64toh,
}

pub record ByteOrderConverter {ℓ} (T : Type ℓ) : Type ℓ where
  pub native_to_big : T → T
  pub big_to_native : T → T
  pub native_to_little : T → T
  pub little_to_native : T → T

unfoldable pub converter_uint8 : ByteOrder → ByteOrderConverter ℕ
converter_uint8 order = record {
  native_to_big = λ t. t;
  big_to_native = λ t. t;
  native_to_little = λ t. t;
  little_to_native = λ t. t;
}

-- An integer is converted to the type of the argument, and the result back.
unfoldable pub converter_uint16 : ByteOrder → ByteOrderConverter ℕ
unfolding htobe16 be16toh htole16 le16toh
converter_uint16 order = record {
  native_to_big = λ t. htobe16 order t;
  big_to_native = λ t. be16toh order t;
  native_to_little = λ t. htole16 order t;
  little_to_native = λ t. le16toh order t;
}

unfoldable pub converter_uint32 : ByteOrder → ByteOrderConverter ℕ
unfolding htobe32 be32toh htole32 le32toh
converter_uint32 order = record {
  native_to_big = λ t. htobe32 order t;
  big_to_native = λ t. be32toh order t;
  native_to_little = λ t. htole32 order t;
  little_to_native = λ t. le32toh order t;
}

unfoldable pub converter_uint64 : ByteOrder → ByteOrderConverter ℕ
unfolding htobe64 be64toh htole64 le64toh
converter_uint64 order = record {
  native_to_big = λ t. htobe64 order t;
  big_to_native = λ t. be64toh order t;
  native_to_little = λ t. htole64 order t;
  little_to_native = λ t. le64toh order t;
}

unfoldable pub converter_int8 : ByteOrder → ByteOrderConverter ℤ
converter_int8 order = record {
  native_to_big = λ t. t;
  big_to_native = λ t. t;
  native_to_little = λ t. t;
  little_to_native = λ t. t;
}

unfoldable pub converter_int16 : ByteOrder → ByteOrderConverter ℤ
unfolding htobe16 be16toh htole16 le16toh wrap_signed
converter_int16 order = record {
  native_to_big = λ t. wrap_signed w16 (pos (htobe16 order (residue (modulus w16) t)));
  big_to_native = λ t. wrap_signed w16 (pos (be16toh order (residue (modulus w16) t)));
  native_to_little = λ t. wrap_signed w16 (pos (htole16 order (residue (modulus w16) t)));
  little_to_native = λ t. wrap_signed w16 (pos (le16toh order (residue (modulus w16) t)));
}

unfoldable pub converter_int32 : ByteOrder → ByteOrderConverter ℤ
unfolding htobe32 be32toh htole32 le32toh wrap_signed
converter_int32 order = record {
  native_to_big = λ t. wrap_signed w32 (pos (htobe32 order (residue (modulus w32) t)));
  big_to_native = λ t. wrap_signed w32 (pos (be32toh order (residue (modulus w32) t)));
  native_to_little = λ t. wrap_signed w32 (pos (htole32 order (residue (modulus w32) t)));
  little_to_native = λ t. wrap_signed w32 (pos (le32toh order (residue (modulus w32) t)));
}

unfoldable pub converter_int64 : ByteOrder → ByteOrderConverter ℤ
unfolding htobe64 be64toh htole64 le64toh wrap_signed
converter_int64 order = record {
  native_to_big = λ t. wrap_signed w64 (pos (htobe64 order (residue (modulus w64) t)));
  big_to_native = λ t. wrap_signed w64 (pos (be64toh order (residue (modulus w64) t)));
  native_to_little = λ t. wrap_signed w64 (pos (htole64 order (residue (modulus w64) t)));
  little_to_native = λ t. wrap_signed w64 (pos (le64toh order (residue (modulus w64) t)));
}

unfoldable pub converter_float : ByteOrder → ByteOrderConverter ℕ
unfolding htobe32 be32toh htole32 le32toh
converter_float order = record {
  native_to_big = λ t. htobe32 order t;
  big_to_native = λ t. be32toh order t;
  native_to_little = λ t. htole32 order t;
  little_to_native = λ t. le32toh order t;
}

unfoldable pub converter_double : ByteOrder → ByteOrderConverter ℕ
unfolding htobe64 be64toh htole64 le64toh
converter_double order = record {
  native_to_big = λ t. htobe64 order t;
  big_to_native = λ t. be64toh order t;
  native_to_little = λ t. htole64 order t;
  little_to_native = λ t. le64toh order t;
}

-- The types that have a converter, and what a value of each is in the model.
pub data Fixed : Type 0 where
  uint8 uint16 uint32 uint64 int8 int16 int32 int64 float double : Fixed

abbrev pub Native : Fixed → Type 0
Native int8 = ℤ
Native int16 = ℤ
Native int32 = ℤ
Native int64 = ℤ
Native _ = ℕ

unfoldable pub converter : ByteOrder → (t : Fixed) → ByteOrderConverter (Native t)
unfolding converter_uint8 converter_uint16 converter_uint32 converter_uint64 converter_int8
    converter_int16 converter_int32 converter_int64 converter_float converter_double
converter order uint8 = converter_uint8 order
converter order uint16 = converter_uint16 order
converter order uint32 = converter_uint32 order
converter order uint64 = converter_uint64 order
converter order int8 = converter_int8 order
converter order int16 = converter_int16 order
converter order int32 = converter_int32 order
converter order int64 = converter_int64 order
converter order float = converter_float order
converter order double = converter_double order

-- The C++ types whose size is not in their name, and those that are themselves in the map.
pub data CppType : Type 0 where
  signed_char unsigned_char char long_long unsigned_long_long : CppType
  other : Fixed → CppType

-- Whether `char` is signed is the compiler's choice.
abbrev pub integral_type : Bool → CppType → Fixed
integral_type char_is_signed signed_char = int8
integral_type char_is_signed unsigned_char = uint8
integral_type char_is_signed char = if char_is_signed then int8 else uint8
integral_type char_is_signed long_long = int64
integral_type char_is_signed unsigned_long_long = uint64
integral_type char_is_signed (other t) = t

module _ (char_is_signed : Bool) (order : ByteOrder) (t : CppType) where
  unfoldable pub convert_native_to_big :
      Native (integral_type char_is_signed t) → Native (integral_type char_is_signed t)
  unfolding converter
  convert_native_to_big v = (converter order (integral_type char_is_signed t)).native_to_big v

  unfoldable pub convert_big_to_native :
      Native (integral_type char_is_signed t) → Native (integral_type char_is_signed t)
  unfolding converter
  convert_big_to_native v = (converter order (integral_type char_is_signed t)).big_to_native v

  unfoldable pub convert_native_to_little :
      Native (integral_type char_is_signed t) → Native (integral_type char_is_signed t)
  unfolding converter
  convert_native_to_little v = (converter order (integral_type char_is_signed t)).native_to_little v

  unfoldable pub convert_little_to_native :
      Native (integral_type char_is_signed t) → Native (integral_type char_is_signed t)
  unfolding converter
  convert_little_to_native v = (converter order (integral_type char_is_signed t)).little_to_native v
