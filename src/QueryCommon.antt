-- ===== src/QueryCommon.antt =====
-- Common/QueryCommon.pm (under com.ibm.streamsx.mongodb/com.ibm.streamsx.mongodb): from a document
-- that a query returned to the attributes of an output tuple. As in BsonCommon, a definition is a
-- Perl function together with the C++ that it prints. A piece of that C++ takes the attribute and
-- the flag `valueApplied`, and returns both.
pub mod Row
use streamsx_mongo_db.Prelude.{
  ◌==◌, ◌+◌, ◌||◌, ℕ, ◌-◌, ◌/◌, ◌%◌, Bool, true, false, Option, none, some, List, [], ◌∷◌, ◌++◌,
  Bytes, bytes_eq, is_empty, if◌then◌else◌,
}
use streamsx_mongo_db.Prelude.Int.{ℤ, pos, negsuc, ◌*ℤ◌}
use streamsx_mongo_db.Prelude.Words.{wrap_signed, wrap_unsigned}
use streamsx_mongo_db.Spl.Types.{
  Primitive, SplType, Attributes, Value, Record, PrimValue, SplTimestamp, boolean, float32, float64,
  decimal, complex, timestamp, rstring, ustring, blob, xml, «enum», signed, unsigned, prim, list,
  blist, set, bset, map, bmap, tuple, nil, attribute,
}
use streamsx_mongo_db.Spl.Runtime.{Runtime, initial}
use streamsx_mongo_db.Bson.Document
use streamsx_mongo_db.Bson.Document.{
  BsonValue, Fields, field, number_double, number_int, number_long,
}
use streamsx_mongo_db.Bson.Element.{
  Conversions, Library, is_number, is_simple_type, number, number_int_of, number_long_of, str,
  embedded_object, bin_data_clean,
}

-- Division of a signed 64-bit number, truncated towards zero as in C++.
unfoldable pub quot : ℤ → ℕ → ℤ
quot (pos n) d = pos (n / d)
quot (negsuc n) d = if (n + 1) / d == 0 then pos 0 else negsuc ((n + 1) / d - 1)

unfoldable pub rem : ℤ → ℕ → ℤ
rem (pos n) d = pos (n % d)
rem (negsuc n) d = if (n + 1) % d == 0 then pos 0 else negsuc ((n + 1) % d - 1)

unfoldable pub contains : List Bytes → Bytes → Bool
contains [] s = false
contains (x ∷ xs) s = bytes_eq x s || contains xs s

-- An assignment of an integer to an attribute of the type.
unfoldable pub convert : Primitive → ℤ → ℤ
convert (signed w) n = wrap_signed w n
convert (unsigned w) n = wrap_unsigned w n
convert _ n = n

abbrev pub Reader : Type 0 → Type 0
Reader A = BsonValue → A → Bool → A × Bool

unfoldable pub handle_blob : Reader Bytes
unfolding bin_data_clean
handle_blob (Document.bin_data k bs) attr applied = (bin_data_clean k bs, true)
handle_blob _ attr applied = (attr, applied)

unfoldable pub handle_boolean : Reader Bool
handle_boolean (Document.bool b) attr applied = (b, true)
handle_boolean _ attr applied = (attr, applied)

unfoldable pub handle_enum : List Bytes → Reader Bytes
unfolding contains
handle_enum names (Document.string s) attr applied =
    if contains names s then (s, true) else (attr, applied)
handle_enum names _ attr applied = (attr, applied)

unfoldable pub handle_decimal : Conversions → Runtime → Reader ℕ
unfolding is_number number
handle_decimal C R be attr applied =
    if is_number be then (R.decimal_of_double (number C be), true) else (attr, applied)

-- `cast` is the conversion of a double to the attribute's type.
unfoldable pub handle_float : Conversions → (ℕ → ℕ) → Reader ℕ
unfolding is_number number
handle_float C cast be attr applied =
    if is_number be then (cast (number C be), true) else (attr, applied)

unfoldable pub handle_int : Conversions → Runtime → Primitive → Reader ℤ
unfolding number_int_of number_long_of convert
handle_int C R p (number_double d) attr applied = (R.cast_integral p d, true)
handle_int C R p (number_int n) attr applied = (convert p (number_int_of C (number_int n)), true)
handle_int C R p (number_long n) attr applied = (convert p (number_long_of C (number_long n)), true)
handle_int C R p _ attr applied = (attr, applied)

-- `cast` is the conversion of a string to the attribute's type.
unfoldable pub handle_string : (Bytes → Bytes) → Reader Bytes
unfolding str
handle_string cast (Document.string s) attr applied = (cast (str (Document.string s)), true)
handle_string cast _ attr applied = (attr, applied)

unfoldable pub handle_rstring : Reader Bytes
unfolding handle_string
handle_rstring = handle_string (λ s. s)

unfoldable pub handle_ustring : Runtime → Reader Bytes
unfolding handle_string
handle_ustring R = handle_string R.ustring_of_string

unfoldable pub handle_xml : Runtime → Reader Bytes
unfolding handle_string
handle_xml R = handle_string R.xml_of_string

unfoldable pub handle_timestamp : Runtime → Reader SplTimestamp
unfolding quot rem ◌*ℤ◌
handle_timestamp R (Document.date ms) attr applied =
    (R.create_timestamp (quot ms 1000) (rem ms 1000 *ℤ pos 1_000_000), true)
handle_timestamp R (Document.timestamp s i) attr applied =
    (R.create_timestamp (pos s) (pos i), true)
handle_timestamp R _ attr applied = (attr, applied)

-- The branch that the attribute's type selects. (A complex attribute is reported as an error.)
unfoldable pub handle_simple : Conversions → Runtime → (p : Primitive) → Reader (PrimValue p)
unfolding handle_blob handle_boolean handle_enum handle_decimal handle_float handle_int
    handle_rstring handle_ustring handle_xml handle_timestamp
handle_simple C R complex be attr applied = (attr, applied)
handle_simple C R blob be attr applied = handle_blob be attr applied
handle_simple C R boolean be attr applied = handle_boolean be attr applied
handle_simple C R («enum» names) be attr applied = handle_enum names be attr applied
handle_simple C R decimal be attr applied = handle_decimal C R be attr applied
handle_simple C R float32 be attr applied = handle_float C R.float32_of_double be attr applied
handle_simple C R float64 be attr applied = handle_float C (λ d. d) be attr applied
handle_simple C R (signed w) be attr applied = handle_int C R (signed w) be attr applied
handle_simple C R (unsigned w) be attr applied = handle_int C R (unsigned w) be attr applied
handle_simple C R rstring be attr applied = handle_rstring be attr applied
handle_simple C R ustring be attr applied = handle_ustring R be attr applied
handle_simple C R timestamp be attr applied = handle_timestamp R be attr applied
handle_simple C R xml be attr applied = handle_xml R be attr applied

unfoldable pub handle_primitive : Conversions → Runtime → (p : Primitive) → Reader (PrimValue p)
unfolding handle_simple is_simple_type
handle_primitive C R p be attr applied =
    if is_simple_type be then handle_simple C R p be attr applied else (attr, applied)

-- The loop over the fields of an embedded object: what a field applied is added.
unfoldable pub read_fields {ℓ κ} :
    {A : Type ℓ} {B : Type κ} → (BsonValue → A × Bool) → (B → Bytes → A → B) → Fields → B → B
read_fields step add Document.nil b = b
read_fields step add (field n v fs) b =
    read_fields step add fs (if (step v).1 then add b n (step v).0 else b)

-- A collection that is empty after the loop leaves the flag alone.
unfoldable pub applied_if_any {ℓ} : {A : Type ℓ} → List A → Bool → List A × Bool
applied_if_any attr applied = (attr, if is_empty attr then applied else true)

module _ {A : Type 0} {B : Type 0} where
  unfoldable pub handle_bson_array :
      (BsonValue → A × Bool) → (List B → Bytes → A → List B) → Reader (List B)
  unfolding read_fields applied_if_any embedded_object
  handle_bson_array step add (Document.array fs) attr applied =
      applied_if_any (read_fields step add (embedded_object (Document.array fs)) attr) applied
  handle_bson_array step add _ attr applied = (attr, applied)

  unfoldable pub handle_bson_object_as_map :
      (BsonValue → A × Bool) → (List B → Bytes → A → List B) → Reader (List B)
  unfolding read_fields applied_if_any embedded_object
  handle_bson_object_as_map step add (Document.object fs) attr applied =
      applied_if_any (read_fields step add (embedded_object (Document.object fs)) attr) applied
  handle_bson_object_as_map step add _ attr applied = (attr, applied)

-- A map's `add`, at a key made of the C string of a field name.
unfoldable pub add_entry :
    (k t : SplType)
    → (List (Bytes × Value t) → Bytes → Value t → List (Bytes × Value t))
    → List (Value k × Value t)
    → Bytes
    → Value t
    → List (Value k × Value t)
add_entry (prim rstring) t add m n v = add m n v
add_entry _ t add m n v = m

unfoldable pub if_found {ℓ} :
    {A : Type ℓ} → Option BsonValue → (BsonValue → A → Bool → A × Bool) → A → Bool → A × Bool
if_found none read attr applied = (attr, applied)
if_found (some be) read attr applied = read be attr applied

-- `if (bo.hasElement(name)) { be = bo.getField(name); … }`
unfoldable pub handle_named {ℓ} :
    {A : Type ℓ}
    → Library
    → Fields
    → Bytes
    → (BsonValue → A → Bool → A × Bool)
    → A
    → Bool
    → A × Bool
unfolding if_found
handle_named L bo name read attr applied = if_found (L.get_field bo name) read attr applied

unfoldable pub handle_tuple {ℓ} :
    {A : Type ℓ} → (Fields → A → Bool → A × Bool) → BsonValue → A → Bool → A × Bool
unfolding embedded_object
handle_tuple read (Document.object fs) attr applied =
    ((read (embedded_object (Document.object fs)) attr applied).0, true)
handle_tuple read _ attr applied = (attr, applied)

module _ (C : Conversions) (L : Library) (R : Runtime) where
  unfoldable mutual
    unfolding handle_primitive handle_bson_array handle_bson_object_as_map add_entry handle_named
        handle_tuple initial

    pub handle_bson_object : (t : SplType) → BsonValue → Value t → Bool → Value t × Bool
    handle_bson_object (prim p) be attr applied = handle_primitive C R p be attr applied
    handle_bson_object (list t) be attr applied =
        handle_bson_array (λ v. handle_bson_object t v (initial R t) false)
          (λ vs n v. vs ++ (v ∷ [])) be attr applied
    handle_bson_object (blist b t) be attr applied =
        handle_bson_array (λ v. handle_bson_object t v (initial R t) false)
          (λ vs n v. R.bounded_add b t vs v) be attr applied
    handle_bson_object (set t) be attr applied =
        handle_bson_array (λ v. handle_bson_object t v (initial R t) false)
          (λ vs n v. R.set_add t vs v) be attr applied
    handle_bson_object (bset b t) be attr applied =
        handle_bson_array (λ v. handle_bson_object t v (initial R t) false)
          (λ vs n v. R.bounded_set_add b t vs v) be attr applied
    handle_bson_object (map k t) be attr applied =
        handle_bson_object_as_map (λ v. handle_bson_object t v (initial R t) false)
          (add_entry k t (R.map_add t)) be attr applied
    handle_bson_object (bmap b k t) be attr applied =
        handle_bson_object_as_map (λ v. handle_bson_object t v (initial R t) false)
          (add_entry k t (R.bounded_map_add b t)) be attr applied
    handle_bson_object (tuple ats) be attr applied =
        handle_tuple (handle_attributes ats) be attr applied

    -- The attributes of a tuple, one after the other, share the flag.
    pub handle_attributes : (ats : Attributes) → Fields → Record ats → Bool → Record ats × Bool
    handle_attributes nil bo r applied = (r, applied)
    handle_attributes (attribute n t ats) bo (a, r) applied =
        let (a', applied') = handle_named L bo n (handle_bson_object t) a applied in
        let (r', applied'') = handle_attributes ats bo r applied' in ((a', r'), applied'')
