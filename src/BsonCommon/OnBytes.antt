-- ===== src/BsonCommon/OnBytes.antt =====
-- Common/BSONCommon.pm on bytes: the C++ that it prints, run on the driver's builders as they are in
-- bson/bsonobjbuilder.h and bson/util/builder.h. Each nested builder `b1`, `b2`, … has a buffer of its
-- own, with room for a holder, and an initial size of 512.
use streamsx_mongo_db.Prelude.{ℕ, suc, List, [], ◌∷◌, Bytes, drop}
use streamsx_mongo_db.Prelude.Int.{ℤ}
use streamsx_mongo_db.Spl.Types.{
  SplType, Attributes, Value, Record, prim, list, blist, set, bset, map, bmap, tuple, nil,
  attribute,
}
use streamsx_mongo_db.Spl.Runtime.{Runtime}
use streamsx_mongo_db.Bson.Builder
use streamsx_mongo_db.Bson.Builder.{
  Failure, Result, Argument, sub_object, bson_array, bool_arg, int_arg, unsigned_arg, long_long_arg,
  double_arg, date_arg, string_arg, bin_data_arg, num_str,
}
use streamsx_mongo_db.BsonCommon.{handle_primitive, key_bytes}
use streamsx_mongo_db.Wire.Buffer.{Buffer, Written, written, failed}
use streamsx_mongo_db.Wire.Writer.{
  Writer, write_object, write_array, write_bool, write_int, write_unsigned, write_long_long,
  write_double, write_string, write_bin_data,
}
use streamsx_mongo_db.Wire.Elements.{object_bytes}
use streamsx_mongo_db.Wire.Frame.{start_object, finish_object}

-- A run of the printed code, or none: the generator or C++ refuses it.
pub data Generated {ℓ} (A : Type ℓ) : Type ℓ where
  run : Written A → Generated A
  refused : Failure → Generated A

infixl 5 ◌>>=◌
abbrev pub ◌>>=◌ {ℓ κ} : {A : Type ℓ} {B : Type κ} → Generated A → (A → Generated B) → Generated B
refused failure >>= next = refused failure
run (failed failure) >>= next = run (failed failure)
run (written a) >>= next = next a

abbrev pub generated {ℓ} : {A : Type ℓ} → Result A → Generated A
generated (Builder.ok a) = run (written a)
generated (Builder.err failure) = refused failure

-- A call of `append` or `appendArray` with an argument that was built, but for the name.
abbrev pub Append : Type 0
Append = Bytes → Writer

-- The overload of `append` that the argument's type picks.
unfoldable pub write_argument : (Bytes → ℤ → Writer) → Argument → Append
unfolding write_object write_array write_bool write_int write_unsigned write_long_long write_double
    write_string write_bin_data
write_argument append_date (sub_object fs) n = write_object n (object_bytes fs)
write_argument append_date (bson_array fs) n = write_array n (object_bytes fs)
write_argument append_date (bool_arg b) n = write_bool n b
write_argument append_date (int_arg z) n = write_int n z
write_argument append_date (unsigned_arg z) n = write_unsigned n z
write_argument append_date (long_long_arg z) n = write_long_long n z
write_argument append_date (double_arg d) n = write_double n d
write_argument append_date (date_arg ms) n = append_date n ms
write_argument append_date (string_arg s) n = write_string n s
write_argument append_date (bin_data_arg k bs) n = write_bin_data n k bs

-- `BSONArrayBuilder::append` for each item, under its position.
unfoldable pub write_items {ℓ} :
    {A : Type ℓ} → (A → Generated Append) → ℕ → List A → Buffer → Generated Buffer
unfolding num_str
write_items f i [] b = run (written b)
write_items f i (x ∷ xs) b = do
  item ← f x
  b' ← run (item (num_str i) b)
  write_items f (suc i) xs b'

unfoldable pub write_pairs {ℓ κ} :
    {K : Type ℓ} {V : Type κ}
    → (K → Result Bytes)
    → (V → Generated Append)
    → List (K × V)
    → Buffer
    → Generated Buffer
write_pairs key f [] b = run (written b)
write_pairs key f ((k, v) ∷ kvs) b = do
  n ← generated (key k)
  value ← f v
  b' ← run (value n b)
  write_pairs key f kvs b'

module _ (append_date : Bytes → ℤ → Writer) (holder : ℕ) (R : Runtime) where
  -- A builder of its own: the constructor, the appends, and `obj()`, whose bytes stand behind the
  -- holder.
  unfoldable pub with_builder : (Buffer → Generated Buffer) → Generated Bytes
  unfolding start_object finish_object
  with_builder appends = do
    b ← run (start_object holder 512)
    b' ← appends b
    b'' ← run (finish_object holder b')
    run (written (drop holder b''.data_bytes))

  unfoldable pub as_array : Generated Bytes → Generated Append
  unfolding write_array
  as_array g = do obj ← g; run (written (λ n. write_array n obj))

  unfoldable pub as_sub_object : Generated Bytes → Generated Append
  unfolding write_object
  as_sub_object g = do obj ← g; run (written (λ n. write_object n obj))

  unfoldable pub as_simple : Generated Argument → Generated Append
  unfolding write_argument
  as_simple g = do a ← g; run (written (write_argument append_date a))

  unfoldable mutual
    unfolding handle_primitive key_bytes write_items write_pairs with_builder as_array as_sub_object
        as_simple

    pub write_bson_object : (t : SplType) → Value t → Generated Append
    write_bson_object (prim p) v = as_simple (generated (handle_primitive R p v))
    write_bson_object (list t) vs = as_array (with_builder (write_items (write_bson_object t) 0 vs))
    write_bson_object (blist b t) vs =
        as_array (with_builder (write_items (write_bson_object t) 0 vs))
    write_bson_object (set t) vs = as_array (with_builder (write_items (write_bson_object t) 0 vs))
    write_bson_object (bset b t) vs =
        as_array (with_builder (write_items (write_bson_object t) 0 vs))
    write_bson_object (map k t) m =
        as_sub_object (with_builder (write_pairs (key_bytes k) (write_bson_object t) m))
    write_bson_object (bmap b k t) m =
        as_sub_object (with_builder (write_pairs (key_bytes k) (write_bson_object t) m))
    write_bson_object (tuple ats) r = as_sub_object (with_builder (write_attributes ats r))

    pub write_attributes : (ats : Attributes) → Record ats → Buffer → Generated Buffer
    write_attributes nil r b = run (written b)
    write_attributes (attribute n t ats) (v, r) b = do
      value ← write_bson_object t v
      b' ← run (value n b)
      write_attributes ats r b'

  -- With a key: the builder `b0` and its object.
  unfoldable pub write_bson_object_with_key : (t : SplType) → Bytes → Value t → Generated Bytes
  unfolding write_bson_object with_builder
  write_bson_object_with_key t key v =
      with_builder (λ b. do value ← write_bson_object t v; run (value key b))
