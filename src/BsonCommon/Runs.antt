-- ===== src/BsonCommon/Runs.antt =====
-- Pieces of the generated code (Common/BSONCommon.pm) on bytes: the loops, and a builder of its own.
use streamsx_mongo_db.Prelude.{
  ℕ, suc, ◌+◌, ◌≤◌, ◌≡◌, refl, ◌∙◌, ap, false, List, [], ◌∷◌, ◌++◌, Bytes, All, drop, length,
  has_nul,
}
use streamsx_mongo_db.Prelude.Int.{ℤ}
use streamsx_mongo_db.Spl.Runtime.{Runtime}
use streamsx_mongo_db.Bson.Document
use streamsx_mongo_db.Bson.Document.{BsonValue, Fields, field, type_of}
use streamsx_mongo_db.Bson.Builder.{
  Result, ok, Argument, sub_object, bson_array, bool_arg, int_arg, unsigned_arg, long_long_arg,
  double_arg, date_arg, string_arg, bin_data_arg, stored, num_str, has_nul-num_str,
}
use streamsx_mongo_db.BsonCommon.Reference.{items, pairs}
use streamsx_mongo_db.BsonCommon.OnBytes
use streamsx_mongo_db.BsonCommon.OnBytes.{
  Generated, run, Append, generated, write_argument, write_items, write_pairs, with_builder,
  as_array, as_sub_object, as_simple, write_bson_object, write_attributes,
  write_bson_object_with_key,
}
use streamsx_mongo_db.Wire.Buffer
use streamsx_mongo_db.Wire.Buffer.{Buffer, Written, written, failed, buffer_max_size}
use streamsx_mongo_db.Wire.Writer.{Writer, ◌>=>◌, write_unsigned}
use streamsx_mongo_db.Wire.Appends.{Appends, Appends-then, header_bytes}
use streamsx_mongo_db.Wire.Elements.{
  value_bytes, elements_bytes, framed, WritesDates, write_value, write_value-Appends,
}
use streamsx_mongo_db.Wire.Frame.{start_object, finish_object, write_nothing-Appends}
use streamsx_mongo_db.Wire.Framed.{build-framed}

-- The code leads to an append that writes the element of the format, under a name with no zero byte.
abbrev pub Encodes : BsonValue → Generated Append → Type 0
Encodes d g =
    (w : Append) × (g ≡ run (written w))
    × ((n : Bytes)
        → has_nul n ≡ false
        → Appends (header_bytes (type_of d) n ++ value_bytes d) (w n))

-- The code runs, and appends these bytes.
abbrev pub Runs : Bytes → (Buffer → Generated Buffer) → Type 0
Runs bs m = (w : Writer) × ((b : Buffer) → m b ≡ run (w b)) × Appends bs w

run-bind :
    (r : Written Buffer) (k : Buffer → Generated Buffer) (w : Writer)
    → ((b : Buffer) → k b ≡ run (w b))
    → (OnBytes.◌>>=◌ (run r) k) ≡ run (Buffer.◌>>=◌ r w)
run-bind (failed x) k w h = refl
run-bind (written b) k w h = h b

-- An append, and what follows it.
pub Runs-append :
    (d : BsonValue) (n : Bytes) (bs : Bytes) (g : Generated Append) (k : Buffer → Generated Buffer)
    → has_nul n ≡ false
    → Encodes d g
    → Runs bs k
    → Runs
        ((header_bytes (type_of d) n ++ value_bytes d) ++ bs)
        (λ b. OnBytes.◌>>=◌ g (λ item. OnBytes.◌>>=◌ (run (item n b)) k))
Runs-append d n bs g k nul (w, e, h) (w', e', h') = (
  w n >=> w',
  λ b.
      ap (λ g'. OnBytes.◌>>=◌ g' (λ item. OnBytes.◌>>=◌ (run (item n b)) k)) e
      ∙ run-bind (w n b) k w' e',
  Appends-then (h n nul) h',
)

pub write_items-Runs {ℓ} :
    {A : Type ℓ} (f : A → Generated Append) (g : A → BsonValue) (i : ℕ) (xs : List A)
    → All (λ x. Encodes (g x) (f x)) xs
    → Runs (elements_bytes (items g i xs)) (write_items f i xs)
unfolding write_items items
write_items-Runs f g i [] h = (λ b. written b, λ b. refl, write_nothing-Appends)
write_items-Runs f g i (x ∷ xs) (hx, h) =
    Runs-append (g x) (num_str i) _ (f x) (write_items f (suc i) xs) (has_nul-num_str i) hx
      (write_items-Runs f g (suc i) xs h)

pub write_pairs-Runs {ℓ κ} :
    {K : Type ℓ} {V : Type κ} (key : K → Result Bytes) (name : K → Bytes) (f : V → Generated Append)
    (g : V → BsonValue) (kvs : List (K × V))
    → All
        (λ (e : K × V).
          (key e.0 ≡ ok (name e.0)) × (has_nul (name e.0) ≡ false) × Encodes (g e.1) (f e.1))
        kvs
    → Runs (elements_bytes (pairs name g kvs)) (write_pairs key f kvs)
unfolding write_pairs pairs
write_pairs-Runs key name f g [] h = (λ b. written b, λ b. refl, write_nothing-Appends)
write_pairs-Runs key name f g ((k, v) ∷ kvs) ((ek, nul, hv), h) =
    let (w, e, a) =
      Runs-append (g v) (name k) _ (f v) (write_pairs key f kvs) nul hv
        (write_pairs-Runs key name f g kvs h) in
    (
      w,
      λ b.
          ap
            (λ r. OnBytes.◌>>=◌ (generated r) (λ n.
              OnBytes.◌>>=◌ (f v)
                (λ value. OnBytes.◌>>=◌ (run (value n b)) (write_pairs key f kvs))))
            ek
          ∙ e b,
      a,
    )

run-last :
    (z : Written Buffer) (h : Buffer → Bytes)
    → OnBytes.◌>>=◌ (run z) (λ b. run (written (h b))) ≡ run (Buffer.◌>>=◌ z (λ b. written (h b)))
run-last (failed x) h = refl
run-last (written b) h = refl

run-finish :
    (y : Written Buffer) (finish : Writer) (h : Buffer → Bytes)
    → OnBytes.◌>>=◌ (run y) (λ b. OnBytes.◌>>=◌ (run (finish b)) (λ b'. run (written (h b'))))
      ≡ run (Buffer.◌>>=◌ (Buffer.◌>>=◌ y finish) (λ b. written (h b)))
run-finish (failed x) finish h = refl
run-finish (written b) finish h = run-last (finish b) h

run-frame :
    (r : Written Buffer) (m : Buffer → Generated Buffer) (w finish : Writer) (h : Buffer → Bytes)
    → ((b : Buffer) → m b ≡ run (w b))
    → OnBytes.◌>>=◌ (run r) (λ b.
      OnBytes.◌>>=◌ (m b) (λ b'. OnBytes.◌>>=◌ (run (finish b')) (λ b''. run (written (h b'')))))
      ≡ run (Buffer.◌>>=◌ (Buffer.◌>>=◌ r (λ b. Buffer.◌>>=◌ (w b) finish)) (λ b. written (h b)))
run-frame (failed x) m w finish h e = refl
run-frame (written b) m w finish h e =
    ap (λ g. OnBytes.◌>>=◌ g (λ b'. OnBytes.◌>>=◌ (run (finish b')) (λ b''. run (written (h b'')))))
      (e b)
    ∙ run-finish (w b) finish h

module _ (append_date : Bytes → ℤ → Writer) (holder : ℕ) (R : Runtime)
    (dates : WritesDates append_date) (room : holder + 512 ≤ buffer_max_size) where
  write_argument-Appends :
      (a : Argument) (n : Bytes)
      → has_nul n ≡ false
      → Appends
          (header_bytes (type_of (stored a)) n ++ value_bytes (stored a))
          (write_argument append_date a n)
  unfolding write_argument stored write_value write_unsigned
  write_argument-Appends (sub_object fs) n nul =
      write_value-Appends append_date n (Document.object fs) dates nul tt
  write_argument-Appends (bson_array fs) n nul =
      write_value-Appends append_date n (Document.array fs) dates nul tt
  write_argument-Appends (bool_arg b) n nul =
      write_value-Appends append_date n (Document.bool b) dates nul tt
  write_argument-Appends (int_arg z) n nul =
      write_value-Appends append_date n (Document.number_int z) dates nul tt
  write_argument-Appends (unsigned_arg z) n nul =
      write_value-Appends append_date n (Document.number_int _) dates nul tt
  write_argument-Appends (long_long_arg z) n nul =
      write_value-Appends append_date n (Document.number_long z) dates nul tt
  write_argument-Appends (double_arg d) n nul =
      write_value-Appends append_date n (Document.number_double d) dates nul tt
  write_argument-Appends (date_arg ms) n nul =
      write_value-Appends append_date n (Document.date ms) dates nul tt
  write_argument-Appends (string_arg s) n nul =
      write_value-Appends append_date n (Document.string s) dates nul tt
  write_argument-Appends (bin_data_arg k bs) n nul =
      write_value-Appends append_date n (Document.bin_data k bs) dates nul tt

  pub simple-Encodes :
      (a : Argument) → Encodes (stored a) (as_simple append_date holder R (run (written a)))
  unfolding as_simple
  simple-Encodes a = (write_argument append_date a, refl, write_argument-Appends a)

  -- A builder of its own leaves the object of the format.
  pub with_builder-framed :
      (els : Bytes) (m : Buffer → Generated Buffer)
      → Runs els m
      → holder + length (framed els) ≤ buffer_max_size
      → with_builder append_date holder R m ≡ run (written (framed els))
  unfolding with_builder
  with_builder-framed els m (w, e, a) h =
      let (b, eb, d) = build-framed holder 512 els w a room h in
      run-frame (start_object holder 512) m w (finish_object holder)
        (λ b'. drop holder b'.data_bytes) e
      ∙ ap (λ r. run (Buffer.◌>>=◌ r (λ b'. written (drop holder b'.data_bytes)))) eb
      ∙ ap (λ bs. run (written bs)) d
