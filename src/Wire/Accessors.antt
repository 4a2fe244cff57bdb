-- ===== src/Wire/Accessors.antt =====
-- The typed accessors of bson/bsonelement.h on the elements that bson/bsonobjbuilder.h wrote.
use streamsx_mongo_db.Prelude.{
  sym, ◌+◌, ◌<◌, ◌==◌, ◌≡◌, refl, ◌∙◌, ap, Bool, true, false, not, some, ◌++◌, Bytes, drop, length,
  has_nul, if◌then◌else◌,
}
use streamsx_mongo_db.Prelude.Int.{pos, negsuc, pos_part}
use streamsx_mongo_db.Prelude.Words.{w8, w32, w64, residue, modulus, InSigned}
use streamsx_mongo_db.Bson.Types.{type_byte}
use streamsx_mongo_db.Bson.Document
use streamsx_mongo_db.Bson.Document.{BsonValue}
use streamsx_mongo_db.Wire.Numbers.{
  write_le, write_signed, read_signed-write_signed, read_le-write_le, read_signed, read_le,
  residue-lt-byte_range,
}
use streamsx_mongo_db.Wire.Elements.{value_bytes, elements_bytes, object_bytes}
use streamsx_mongo_db.Wire.Compound.{
  read_le-framed, read_counted, read_options, read_reference, read_scope,
}
use streamsx_mongo_db.Wire.Checked.{regex_flags_at, db_ref_oid, value_string_data, scope_data}
use streamsx_mongo_db.Wire.Reader.{
  objsize, oid_at, regex_at, db_ref_ns, code_w_scope_code_at, code_w_scope_code_len,
  is_null_element, c_string, is_type, take_bytes, field_name, value_at, boolean_at, date_at,
  raw_number_double, raw_number_int, raw_number_long, str_at, counted_text, valuestr, valuestrsize,
  bin_data_at, timestamp_at,
}
use streamsx_mongo_db.Wire.Readback.{element_at, name-and-value, take_bytes-append}

-- A number is in the range of its machine type and lengths are numbers of 31 bits; an object id has
-- twelve bytes; and there is no zero byte in what is written up to one.
abbrev pub InRange : BsonValue → Type 0
InRange (Document.number_double d) = d < 18_446_744_073_709_551_616
InRange (Document.string s) = InSigned w32 (pos (length s + 1))
InRange (Document.bin_data k bs) = InSigned w32 (pos (length bs))
InRange (Document.number_int z) = InSigned w32 z
InRange (Document.number_long z) = InSigned w64 z
InRange (Document.timestamp s i) = (s < 4_294_967_296) × (i < 4_294_967_296)
InRange (Document.object fs) = InSigned w32 (pos (length (object_bytes fs)))
InRange (Document.array fs) = InSigned w32 (pos (length (object_bytes fs)))
InRange (Document.jst_oid o) = length o ≡ 12
InRange (Document.reg_ex p f) = (has_nul p ≡ false) × (has_nul f ≡ false)
InRange (Document.db_ref ns o) =
    (has_nul ns ≡ false) × (length o ≡ 12) × InSigned w32 (pos (length ns + 1))
InRange (Document.code c) = InSigned w32 (pos (length c + 1))
InRange (Document.symbol s) = InSigned w32 (pos (length s + 1))
InRange (Document.code_w_scope c fs) = (has_nul c ≡ false) × InSigned w32 (pos (length c + 1))
InRange _ = Unit

-- What the accessors of the value's type return at the bytes; a date comes back as the unsigned
-- number that `Date_t` holds, binary data with its length. An object, an array and a scope are the
-- bytes from their place on. A type without a value is told by the test of the type.
abbrev pub IsReadBack : BsonValue → Bytes → Bytes → Type 0
IsReadBack (Document.number_double d) rest raw = raw_number_double raw ≡ d
IsReadBack (Document.string s) rest raw = str_at raw ≡ some s
IsReadBack (Document.bin_data k bs) rest raw = bin_data_at raw ≡ some (pos (length bs), bs ++ rest)
IsReadBack (Document.bool b) rest raw = boolean_at raw ≡ b
IsReadBack (Document.date ms) rest raw = date_at raw ≡ residue (modulus w64) ms
IsReadBack (Document.number_int z) rest raw = raw_number_int raw ≡ z
IsReadBack (Document.number_long z) rest raw = raw_number_long raw ≡ z
IsReadBack (Document.timestamp s i) rest raw = timestamp_at raw ≡ (s, i)
IsReadBack (Document.object fs) rest raw =
    (objsize raw ≡ length (object_bytes fs)) × (value_at raw ≡ object_bytes fs ++ rest)
IsReadBack (Document.array fs) rest raw =
    (objsize raw ≡ length (object_bytes fs)) × (value_at raw ≡ object_bytes fs ++ rest)
IsReadBack (Document.jst_oid o) rest raw = oid_at raw ≡ o
IsReadBack (Document.reg_ex p f) rest raw = (regex_at raw ≡ some p) × (regex_flags_at raw ≡ some f)
IsReadBack (Document.db_ref ns o) rest raw = (db_ref_ns raw ≡ some ns) × (db_ref_oid raw ≡ some o)
IsReadBack (Document.code c) rest raw = value_string_data raw ≡ some c
IsReadBack (Document.symbol s) rest raw = value_string_data raw ≡ some s
IsReadBack (Document.code_w_scope c fs) rest raw =
    (code_w_scope_code_at raw ≡ some c)
    × (code_w_scope_code_len raw ≡ some (pos (length c + 1)))
    × (scope_data raw ≡ some (object_bytes fs ++ rest))
IsReadBack Document.undefined rest raw = is_type (pos 6) raw ≡ true
IsReadBack Document.jst_null rest raw = is_null_element raw ≡ true
IsReadBack Document.min_key rest raw = is_type (negsuc 0) raw ≡ true
IsReadBack Document.max_key rest raw = is_type (pos 127) raw ≡ true

read_bool :
    (b : Bool) (rest : Bytes)
    → not (read_le 1 (write_signed w8 (if b then pos 1 else pos 0) ++ rest) == 0) ≡ b
unfolding read_le write_signed write_le
read_bool true rest = refl
read_bool false rest = refl

accessors :
    (n : Bytes) (v : BsonValue) (rest : Bytes)
    → InRange v
    → value_at (element_at n v rest) ≡ value_bytes v ++ rest
    → IsReadBack v rest (element_at n v rest)
unfolding raw_number_double raw_number_int raw_number_long str_at valuestrsize valuestr boolean_at
    date_at bin_data_at timestamp_at is_type write_signed write_le type_byte objsize oid_at regex_at
    regex_flags_at db_ref_ns db_ref_oid value_string_data code_w_scope_code_at code_w_scope_code_len
    scope_data is_null_element
accessors n (Document.number_double d) rest r value =
    ap (read_le 8) value ∙ read_le-write_le 8 d rest r
accessors n (Document.string s) rest r value =
    ap (λ v. counted_text (read_signed w32 v) (drop 4 v)) value ∙ read_counted s rest r
accessors n (Document.bin_data k bs) rest r value =
    ap (λ v. some (read_signed w32 v, drop 5 v)) value
    ∙ ap (λ z. some (z, bs ++ rest))
        (read_signed-write_signed w32 (pos (length bs)) ((write_signed w8 (pos k) ++ bs) ++ rest) r)
accessors n (Document.bool b) rest r value =
    ap (λ v. not (read_le 1 v == 0)) value ∙ read_bool b rest
accessors n (Document.date ms) rest r value =
    ap (read_le 8) value
    ∙ read_le-write_le 8 (residue (modulus w64) ms) rest (residue-lt-byte_range w64 ms)
accessors n (Document.number_int z) rest r value =
    ap (read_signed w32) value ∙ read_signed-write_signed w32 z rest r
accessors n (Document.number_long z) rest r value =
    ap (read_signed w64) value ∙ read_signed-write_signed w64 z rest r
accessors n (Document.timestamp s i) rest r value =
    ap (λ v. (read_le 4 (drop 4 v), read_le 4 v)) value
    ∙ ap (λ k. (k, read_le 4 ((write_le 4 i ++ write_le 4 s) ++ rest)))
        (read_le-write_le 4 s rest r.0)
    ∙ ap (λ k. (s, k)) (read_le-write_le 4 i (write_le 4 s ++ rest) r.1)
accessors n (Document.object fs) rest r value =
    (ap (read_le 4) value ∙ read_le-framed (elements_bytes fs) rest r, value)
accessors n (Document.array fs) rest r value =
    (ap (read_le 4) value ∙ read_le-framed (elements_bytes fs) rest r, value)
accessors n (Document.jst_oid o) rest r value =
    ap (take_bytes 12) value ∙ ap (λ k. take_bytes k (o ++ rest)) (sym r) ∙ take_bytes-append o rest
accessors n (Document.reg_ex p f) rest r value =
    let (pattern, options) = read_options p f rest r.0 r.1 in
    (
      ap (λ v. some (c_string v)) value ∙ ap some pattern,
      ap (λ v. some (c_string (drop (length (c_string v) + 1) v))) value ∙ ap some options,
    )
accessors n (Document.db_ref ns o) rest (clean, twelve, r) value =
    let (namespace, identity) = read_reference ns o rest clean twelve r in
    (
      ap (λ v. some (c_string (drop 4 v))) value ∙ ap some namespace,
      ap (λ v. some (take_bytes 12 (drop (4 + pos_part (read_signed w32 v)) v))) value
          ∙ ap some identity,
    )
accessors n (Document.code c) rest r value =
    ap (λ v. counted_text (read_signed w32 v) (drop 4 v)) value ∙ read_counted c rest r
accessors n (Document.symbol s) rest r value =
    ap (λ v. counted_text (read_signed w32 v) (drop 4 v)) value ∙ read_counted s rest r
accessors n (Document.code_w_scope c fs) rest (clean, r) value =
    let (code, size, scope) =
      read_scope (write_signed w32 (pos (4 + 4 + length c + 1 + length (object_bytes fs)))) c
        (object_bytes fs) rest refl clean r in
    (
      ap (λ v. some (c_string (drop 8 v))) value ∙ ap some code,
      ap (λ v. some (read_signed w32 (drop 4 v))) value ∙ ap some size,
      ap (λ v. some (drop (pos_part (read_signed w32 (drop 4 v))) (drop 8 v))) value
          ∙ ap some scope,
    )
accessors n Document.undefined rest r value = refl
accessors n Document.jst_null rest r value = refl
accessors n Document.min_key rest r value = refl
accessors n Document.max_key rest r value = refl

-- An element that was written under a name without a zero byte, whatever bytes follow it, has the name
-- that was given, and the accessors of its type return the value, for a number in the range of its
-- machine type, lengths of 31 bits, object ids of twelve bytes, and no zero byte in what a zero byte
-- ends: a regular expression, its options, a reference's namespace and a code with a scope.
pub element_at-IsReadBack :
    (n : Bytes) (v : BsonValue) (rest : Bytes)
    → has_nul n ≡ false
    → InRange v
    → (field_name (element_at n v rest) ≡ n) × IsReadBack v rest (element_at n v rest)
element_at-IsReadBack n v rest h r =
    let (name, value) = name-and-value n v rest h in (name, accessors n v rest r value)
