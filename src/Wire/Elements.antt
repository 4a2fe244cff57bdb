-- ===== src/Wire/Elements.antt =====
-- The bytes that the builder of bson/bsonobjbuilder.h writes for each type of element, beside a
-- description of the format by recursion over the document.
use mathlib.Core.Path.{subst}
use mathlib.Core.List.{append-nil}
use streamsx_mongo_db.Prelude.{
  ◌+◌, ◌≡◌, ap, false, [], ◌∷◌, ◌++◌, Bytes, length, has_nul, if◌then◌else◌, sym,
}
use streamsx_mongo_db.Prelude.Int.{ℤ, pos}
use streamsx_mongo_db.Prelude.Words.{w8, w32, w64}
use streamsx_mongo_db.Bson.Types.{BsonType}
use streamsx_mongo_db.Bson.Document
use streamsx_mongo_db.Bson.Document.{BsonValue, Fields, type_of}
use streamsx_mongo_db.Wire.Numbers.{write_le, write_signed}
use streamsx_mongo_db.Wire.Buffer.{failed, null_in_regex}
use streamsx_mongo_db.Wire.Writer.{
  Writer, write_object, write_array, write_bool, write_int, write_long_long, write_double,
  write_oid, write_regex, write_code, write_string, write_symbol, write_null, write_min_key,
  write_max_key, write_undefined, write_timestamp, write_db_ref, write_bin_data, write_code_w_scope,
}
use streamsx_mongo_db.Wire.Appends.{
  Appends, Appends-then, Appends-checked, append_buf-Appends, header_bytes, counted_bytes,
  append_str-Appends, append_num_char-Appends, append_num_int-Appends, append_num_long_long-Appends,
  append_num_unsigned-Appends, append_num_double-Appends, write_header-Appends,
  write_counted-Appends,
}

-- The format: each value, the elements of an object, and the object with its size and its end.
abbrev pub framed : Bytes → Bytes
framed body = write_signed w32 (pos (length body + 5)) ++ (body ++ (0 ∷ []))

abbrev mutual
  pub value_bytes : BsonValue → Bytes
  value_bytes (Document.number_double d) = write_le 8 d
  value_bytes (Document.string s) = counted_bytes s
  value_bytes (Document.object fs) = framed (elements_bytes fs)
  value_bytes (Document.array fs) = framed (elements_bytes fs)
  value_bytes (Document.bin_data k bs) =
      write_signed w32 (pos (length bs)) ++ (write_signed w8 (pos k) ++ bs)
  value_bytes (Document.jst_oid o) = o
  value_bytes (Document.bool b) = write_signed w8 (if b then pos 1 else pos 0)
  value_bytes (Document.date ms) = write_signed w64 ms
  value_bytes Document.undefined = []
  value_bytes Document.jst_null = []
  value_bytes Document.min_key = []
  value_bytes Document.max_key = []
  value_bytes (Document.reg_ex p f) = (p ++ (0 ∷ [])) ++ (f ++ (0 ∷ []))
  value_bytes (Document.db_ref ns o) = counted_bytes ns ++ o
  value_bytes (Document.code c) = counted_bytes c
  value_bytes (Document.symbol s) = counted_bytes s
  value_bytes (Document.code_w_scope c fs) =
      write_signed w32 (pos (4 + 4 + length c + 1 + length (framed (elements_bytes fs))))
      ++ (counted_bytes c ++ framed (elements_bytes fs))
  value_bytes (Document.number_int n) = write_signed w32 n
  value_bytes (Document.timestamp s i) = write_le 4 i ++ write_le 4 s
  value_bytes (Document.number_long n) = write_signed w64 n

  pub elements_bytes : Fields → Bytes
  elements_bytes Document.nil = []
  elements_bytes (Document.field n v fs) =
      (header_bytes (type_of v) n ++ value_bytes v) ++ elements_bytes fs

abbrev pub object_bytes : Fields → Bytes
object_bytes fs = framed (elements_bytes fs)

-- The builder's method for each value. `appendDate` is compiled elsewhere, a parameter.
unfoldable pub write_value : (Bytes → ℤ → Writer) → Bytes → BsonValue → Writer
unfolding write_object write_array write_bool write_int write_long_long write_double write_oid
    write_regex write_code write_string write_symbol write_null write_min_key write_max_key
    write_undefined write_timestamp write_db_ref write_bin_data write_code_w_scope
write_value append_date n (Document.number_double d) = write_double n d
write_value append_date n (Document.string s) = write_string n s
write_value append_date n (Document.object fs) = write_object n (object_bytes fs)
write_value append_date n (Document.array fs) = write_array n (object_bytes fs)
write_value append_date n (Document.bin_data k bs) = write_bin_data n k bs
write_value append_date n (Document.jst_oid o) = write_oid n o
write_value append_date n (Document.bool b) = write_bool n b
write_value append_date n (Document.date ms) = append_date n ms
write_value append_date n Document.undefined = write_undefined n
write_value append_date n Document.jst_null = write_null n
write_value append_date n Document.min_key = write_min_key n
write_value append_date n Document.max_key = write_max_key n
write_value append_date n (Document.reg_ex p f) = write_regex n p f
write_value append_date n (Document.db_ref ns o) = write_db_ref n ns o
write_value append_date n (Document.code c) = write_code n c
write_value append_date n (Document.symbol s) = write_symbol n s
write_value append_date n (Document.code_w_scope c fs) = write_code_w_scope n c (object_bytes fs)
write_value append_date n (Document.number_int z) = write_int n z
write_value append_date n (Document.timestamp s i) = write_timestamp n s i
write_value append_date n (Document.number_long z) = write_long_long n z

-- What `appendDate` is documented to write.
abbrev pub WritesDates : (Bytes → ℤ → Writer) → Type 0
WritesDates append_date =
    (n : Bytes) (ms : ℤ)
    → has_nul n ≡ false
    → Appends (header_bytes BsonType.date n ++ write_signed w64 ms) (append_date n ms)

-- A regular expression's pattern has no zero byte.
abbrev pub IsWritable : BsonValue → Type 0
IsWritable (Document.reg_ex p f) = has_nul p ≡ false
IsWritable _ = Unit

-- A value of no bytes.
bare : {bs : Bytes} {write : Writer} → Appends bs write → Appends (bs ++ []) write
bare {bs = bs} {write = write} h = subst (λ x. Appends x write) (sym (append-nil bs)) h

no_nul_in_regex :
    (p : Bytes) (write : Writer)
    → has_nul p ≡ false
    → (λ b. if has_nul p then failed null_in_regex else write b) ≡ write
no_nul_in_regex p write h = ap (λ c. λ b. if c then failed null_in_regex else write b) h

-- Each method of the builder appends the bytes of the format for its value: the type, the name and
-- the value, if the name (and a regular expression's pattern) has no zero byte and they fit. The
-- compiled appendDate appends the format.
pub write_value-Appends :
    (append_date : Bytes → ℤ → Writer) (n : Bytes) (v : BsonValue)
    → WritesDates append_date
    → has_nul n ≡ false
    → IsWritable v
    → Appends (header_bytes (type_of v) n ++ value_bytes v) (write_value append_date n v)
unfolding write_value write_object write_array write_bool write_int write_long_long write_double
    write_oid write_regex write_code write_string write_symbol write_null write_min_key
    write_max_key write_undefined write_timestamp write_db_ref write_bin_data write_code_w_scope
write_value-Appends append_date n (Document.number_double d) dates nul w =
    Appends-checked n nul (Appends-then (write_header-Appends _ n) (append_num_double-Appends d))
write_value-Appends append_date n (Document.string s) dates nul w =
    Appends-checked n nul (Appends-then (write_header-Appends _ n) (write_counted-Appends s))
write_value-Appends append_date n (Document.object fs) dates nul w =
    Appends-checked n nul (Appends-then (write_header-Appends _ n) (append_buf-Appends _))
write_value-Appends append_date n (Document.array fs) dates nul w =
    Appends-checked n nul (Appends-then (write_header-Appends _ n) (append_buf-Appends _))
write_value-Appends append_date n (Document.bin_data k bs) dates nul w = Appends-checked n nul (
    Appends-then (write_header-Appends _ n) (
      Appends-then (append_num_int-Appends (pos (length bs)))
        (Appends-then (append_num_char-Appends (pos k)) (append_buf-Appends bs))))
write_value-Appends append_date n (Document.jst_oid o) dates nul w =
    Appends-checked n nul (Appends-then (write_header-Appends _ n) (append_buf-Appends o))
write_value-Appends append_date n (Document.bool b) dates nul w =
    Appends-checked n nul (Appends-then (write_header-Appends _ n) (append_num_char-Appends _))
write_value-Appends append_date n (Document.date ms) dates nul w = dates n ms nul
write_value-Appends append_date n Document.undefined dates nul w = bare (write_header-Appends _ n)
write_value-Appends append_date n Document.jst_null dates nul w =
    Appends-checked n nul (bare (write_header-Appends _ n))
write_value-Appends append_date n Document.min_key dates nul w =
    Appends-checked n nul (bare (write_header-Appends _ n))
write_value-Appends append_date n Document.max_key dates nul w =
    Appends-checked n nul (bare (write_header-Appends _ n))
write_value-Appends append_date n (Document.reg_ex p f) dates nul w = Appends-checked n nul (
    subst (Appends _) (sym (no_nul_in_regex p _ w)) (
      Appends-then (write_header-Appends _ n)
        (Appends-then (append_str-Appends p) (append_str-Appends f))))
write_value-Appends append_date n (Document.db_ref ns o) dates nul w = Appends-checked n nul (
    Appends-then (write_header-Appends _ n)
      (Appends-then (write_counted-Appends ns) (append_buf-Appends o)))
write_value-Appends append_date n (Document.code c) dates nul w =
    Appends-checked n nul (Appends-then (write_header-Appends _ n) (write_counted-Appends c))
write_value-Appends append_date n (Document.symbol s) dates nul w =
    Appends-checked n nul (Appends-then (write_header-Appends _ n) (write_counted-Appends s))
write_value-Appends append_date n (Document.code_w_scope c fs) dates nul w = Appends-checked n nul (
    Appends-then (write_header-Appends _ n) (
      Appends-then (append_num_int-Appends (pos (4 + 4 + length c + 1 + length (object_bytes fs))))
        (Appends-then (write_counted-Appends c) (append_buf-Appends (object_bytes fs)))))
write_value-Appends append_date n (Document.number_int z) dates nul w =
    Appends-checked n nul (Appends-then (write_header-Appends _ n) (append_num_int-Appends z))
write_value-Appends append_date n (Document.timestamp s i) dates nul w = Appends-checked n nul (
    Appends-then (write_header-Appends _ n)
      (Appends-then (append_num_unsigned-Appends i) (append_num_unsigned-Appends s)))
write_value-Appends append_date n (Document.number_long z) dates nul w =
    Appends-checked n nul (Appends-then (write_header-Appends _ n) (append_num_long_long-Appends z))
