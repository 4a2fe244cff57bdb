-- ===== src/Wire/Writer.antt =====
-- bson/bsonobjbuilder.h: the methods of `BSONObjBuilder` that write one element, on the buffer.
-- Another object is passed by its bytes, an object id by its twelve bytes.
use streamsx_mongo_db.Prelude.{
  ℕ, ◌+◌, ◌&&◌, Bool, true, Bytes, ltb, length, has_nul, if◌then◌else◌, bytes,
}
use streamsx_mongo_db.Prelude.Int.{ℤ, pos, negsuc, ltb_ℤ}
use streamsx_mongo_db.Prelude.Words.{wrap_signed, w32}
use streamsx_mongo_db.Bson.Types.{BsonType, type_byte}
use streamsx_mongo_db.Wire.Buffer.{
  Buffer, Written, failed, null_in_field_name, null_in_regex, ◌>>=◌, append_buf, append_str,
  append_num_char, append_num_int, append_num_long_long, append_num_unsigned, append_num_double,
}

abbrev pub Writer : Type 0
Writer = Buffer → Written Buffer

infixr 6 ◌>=>◌
-- One write after another.
abbrev pub ◌>=>◌ : Writer → Writer → Writer
(first >=> second) b = first b >>= second

-- `checkFieldName`.
unfoldable pub checked : Bytes → Writer → Writer
checked n write b = if has_nul n then failed null_in_field_name else write b

-- The type and the name, with which every element begins.
unfoldable pub write_header : BsonType → Bytes → Writer
unfolding append_num_char append_str
write_header t n = append_num_char (type_byte t) >=> append_str n true

unfoldable pub write_object : Bytes → Bytes → Writer
unfolding checked write_header append_buf
write_object n obj = checked n (write_header BsonType.object n >=> append_buf obj)

unfoldable pub write_array : Bytes → Bytes → Writer
unfolding checked write_header append_buf
write_array n obj = checked n (write_header BsonType.array n >=> append_buf obj)

unfoldable pub subobj_start : Bytes → Writer
unfolding checked write_header
subobj_start n = checked n (write_header BsonType.object n)

unfoldable pub subarray_start : Bytes → Writer
unfolding checked write_header
subarray_start n = checked n (write_header BsonType.array n)

unfoldable pub write_bool : Bytes → Bool → Writer
unfolding checked write_header append_num_char
write_bool n v =
    checked n (write_header BsonType.bool n >=> append_num_char (if v then pos 1 else pos 0))

unfoldable pub write_int : Bytes → ℤ → Writer
unfolding checked write_header append_num_int
write_int n z = checked n (write_header BsonType.number_int n >=> append_num_int z)

unfoldable pub write_unsigned : Bytes → ℤ → Writer
unfolding write_int
write_unsigned n z = write_int n (wrap_signed w32 z)

unfoldable pub write_long_long : Bytes → ℤ → Writer
unfolding checked write_header append_num_long_long
write_long_long n z = checked n (write_header BsonType.number_long n >=> append_num_long_long z)

unfoldable pub write_double : Bytes → ℕ → Writer
unfolding checked write_header append_num_double
write_double n d = checked n (write_header BsonType.number_double n >=> append_num_double d)

-- `appendIntOrLL`.
unfoldable pub write_int_or_long_long : Bytes → ℤ → Writer
unfolding write_int write_long_long
write_int_or_long_long n z =
    if ltb_ℤ (negsuc 1_073_741_822) z && ltb_ℤ z (pos 1_073_741_823)
    then write_int n z
    else write_long_long n z

-- `appendNumber` of a `size_t` and of a `long long`.
unfoldable pub write_number_size : Bytes → ℕ → Writer
unfolding write_int write_long_long
write_number_size n k =
    if ltb k 1_073_741_824 then write_int n (pos k) else write_long_long n (pos k)

unfoldable pub write_number_long_long : (ℤ → ℕ) → Bytes → ℤ → Writer
unfolding write_int write_long_long write_double
write_number_long_long to_double n z =
    if ltb_ℤ (negsuc 1_073_741_823) z && ltb_ℤ z (pos 1_073_741_824)
    then write_int n z
    else if ltb_ℤ (negsuc 1_099_511_627_775) z && ltb_ℤ z (pos 1_099_511_627_776)
    then write_double n (to_double z)
    else write_long_long n z

unfoldable pub write_oid : Bytes → Bytes → Writer
unfolding checked write_header append_buf
write_oid n oid = checked n (write_header BsonType.jst_oid n >=> append_buf oid)

unfoldable pub write_regex : Bytes → Bytes → Bytes → Writer
unfolding checked write_header append_str
write_regex n regex options = checked n λ b.
    if has_nul regex
    then failed null_in_regex
    else (write_header BsonType.reg_ex n >=> append_str regex true >=> append_str options true) b

-- A length, which counts the zero byte, and the text with that byte.
unfoldable pub write_counted : Bytes → Writer
unfolding append_num_int append_str
write_counted s = append_num_int (pos (length s + 1)) >=> append_str s true

unfoldable pub write_code : Bytes → Bytes → Writer
unfolding checked write_header write_counted
write_code n code = checked n (write_header BsonType.code n >=> write_counted code)

unfoldable pub write_string : Bytes → Bytes → Writer
unfolding checked write_header write_counted
write_string n s = checked n (write_header BsonType.string n >=> write_counted s)

unfoldable pub write_symbol : Bytes → Bytes → Writer
unfolding checked write_header write_counted
write_symbol n s = checked n (write_header BsonType.symbol n >=> write_counted s)

unfoldable pub write_null : Bytes → Writer
unfolding checked write_header
write_null n = checked n (write_header BsonType.jst_null n)

unfoldable pub write_min_key : Bytes → Writer
unfolding checked write_header
write_min_key n = checked n (write_header BsonType.min_key n)

unfoldable pub write_max_key : Bytes → Writer
unfolding checked write_header
write_max_key n = checked n (write_header BsonType.max_key n)

-- The name of an undefined element is not checked.
unfoldable pub write_undefined : Bytes → Writer
unfolding write_header
write_undefined n = write_header BsonType.undefined n

-- The increment comes before the seconds.
unfoldable pub write_timestamp : Bytes → ℕ → ℕ → Writer
unfolding checked write_header append_num_unsigned
write_timestamp n seconds increment = checked n (
    write_header BsonType.timestamp n
    >=> append_num_unsigned increment
    >=> append_num_unsigned seconds)

unfoldable pub write_db_ref : Bytes → Bytes → Bytes → Writer
unfolding checked write_header write_counted append_buf
write_db_ref n ns oid =
    checked n (write_header BsonType.db_ref n >=> write_counted ns >=> append_buf oid)

unfoldable pub write_bin_data : Bytes → ℕ → Bytes → Writer
unfolding checked write_header append_num_int append_num_char append_buf
write_bin_data n subtype bs = checked n (
    write_header BsonType.bin_data n
    >=> append_num_int (pos (length bs))
    >=> append_num_char (pos subtype)
    >=> append_buf bs)

unfoldable pub write_bin_data_array_deprecated : Bytes → Bytes → Writer
unfolding checked write_header append_num_int append_num_char append_buf
write_bin_data_array_deprecated n bs = checked n (
    write_header BsonType.bin_data n
    >=> append_num_int (pos (length bs + 4))
    >=> append_num_char (pos 2)
    >=> append_num_int (pos (length bs))
    >=> append_buf bs)

unfoldable pub write_code_w_scope : Bytes → Bytes → Bytes → Writer
unfolding checked write_header append_num_int write_counted append_buf
write_code_w_scope n code scope = checked n (
    write_header BsonType.code_w_scope n
    >=> append_num_int (pos (4 + 4 + length code + 1 + length scope))
    >=> write_counted code
    >=> append_buf scope)

unfoldable pub write_where : Bytes → Bytes → Writer
unfolding write_code_w_scope
write_where code scope = write_code_w_scope (bytes "$where") code scope
