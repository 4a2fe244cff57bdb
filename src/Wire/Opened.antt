-- ===== src/Wire/Opened.antt =====
-- bson/bsonobj.h on the bytes of the format: what BSONObj says of an object that the builder made.
use mathlib.Core.Path.{subst, fun_ext}
use mathlib.Core.List.{append_assoc}
use streamsx_mongo_db.Prelude.{
  ℕ, suc, ◌+◌, ◌≤◌, ◌≡◌, refl, sym, ap, ◌∙◌, Bool, true, false, not, ◌&&◌, some, [], ◌∷◌, ◌++◌,
  Bytes, length, bytes_eq, arith, if◌then◌else◌, none, ◌≢◌, Bool-cases, ◌==◌, inl, ==_iff, inr,
}
use streamsx_mongo_db.Prelude.Int.{ℤ, pos, ltb_ℤ}
use streamsx_mongo_db.Prelude.Words.{w32}
use streamsx_mongo_db.Bson.Document
use streamsx_mongo_db.Bson.Document.{Fields, type_of}
use streamsx_mongo_db.Wire.Numbers.{read_signed, write_signed, read_signed-write_signed}
use streamsx_mongo_db.Wire.Buffer.{Buffer, append_buf}
use streamsx_mongo_db.Wire.Appends.{Appends, append_buf-Appends}
use streamsx_mongo_db.Wire.Elements.{elements_bytes, object_bytes}
use streamsx_mongo_db.Wire.Framed.{length-object_bytes}
use streamsx_mongo_db.Wire.Reader.{take_bytes}
use streamsx_mongo_db.Wire.Readback.{take_bytes-append}
use streamsx_mongo_db.Wire.Objects.{
  BsonObj, unowned, object_size, is_valid_size, from_data, is_empty_object, object_max_size,
  binary_equal, same_bytes, append_self_to_buf_builder, append_sized, ◌==ℤ◌,
}

abbrev pub has_no_fields : Fields → Bool
has_no_fields Document.nil = true
has_no_fields (Document.field n v fs) = false

-- An object whose bytes stand before others.
abbrev pub object_at : Fields → Bytes → BsonObj
object_at fs rest = unowned (object_bytes fs ++ rest)

pub object_size-object_bytes :
    (fs : Fields) (owner : Bool) (rest : Bytes)
    → length (object_bytes fs) ≤ object_max_size
    → object_size (record { objdata = object_bytes fs ++ rest; owns_buffer = owner })
      ≡ pos (length (object_bytes fs))
unfolding object_size
object_size-object_bytes fs owner rest h =
    let els = elements_bytes fs in
    ap (read_signed w32)
      (append_assoc (write_signed w32 (pos (length els + 5))) (els ++ (0 ∷ [])) rest)
    ∙ read_signed-write_signed w32 (pos (length els + 5)) ((els ++ (0 ∷ [])) ++ rest)
        (omega (arith, h, length-object_bytes fs), omega arith)
    ∙ ap pos (sym (length-object_bytes fs))

small_size :
    (k : ℕ)
    → k + 5 ≤ object_max_size
    → (ltb_ℤ (pos 0) (pos (k + 5)) && not (ltb_ℤ (pos object_max_size) (pos (k + 5)))) ≡ true
small_size k h = ground arith

valid_sizes :
    (z : ℤ) (k : ℕ)
    → z ≡ pos (k + 5)
    → k + 5 ≤ object_max_size
    → (ltb_ℤ (pos 0) z && not (ltb_ℤ (pos object_max_size) z)) ≡ true
valid_sizes z k e h =
    ap (λ x. ltb_ℤ (pos 0) x && not (ltb_ℤ (pos object_max_size) x)) e ∙ small_size k h

five_more : (k : ℕ) → not (ltb_ℤ (pos 5) (pos (suc k + 5))) ≡ false
five_more k = ground arith

nonempty_size : (z : ℤ) (k : ℕ) → z ≡ pos (suc k + 5) → not (ltb_ℤ (pos 5) z) ≡ false
nonempty_size z k e = ap (λ x. not (ltb_ℤ (pos 5) x)) e ∙ five_more k

-- No bytes only without fields.
elements_length :
    (fs : Fields) (z : ℤ)
    → z ≡ pos (length (elements_bytes fs) + 5)
    → not (ltb_ℤ (pos 5) z) ≡ has_no_fields fs
unfolding write_signed
elements_length Document.nil z e = ap (λ x. not (ltb_ℤ (pos 5) x)) e
elements_length (Document.field n v fs) z e = nonempty_size z _ e

-- The bytes of an object of at most 16 MB and 16 KB, whatever follows them, are accepted by BSONObj's
-- constructor, have their number as objsize, and are empty exactly without fields.
object_at-accepted :
    (fs : Fields) (rest : Bytes)
    → length (object_bytes fs) ≤ object_max_size
    → (from_data (object_bytes fs ++ rest) ≡ some (object_at fs rest))
      × (object_size (object_at fs rest) ≡ pos (length (object_bytes fs)))
      × (is_empty_object (object_at fs rest) ≡ has_no_fields fs)
unfolding from_data is_valid_size is_empty_object
object_at-accepted fs rest h =
    let size = object_size-object_bytes fs false rest h in
    let size' = size ∙ ap pos (length-object_bytes fs) in
    (
      ap (λ b. if b then some (object_at fs rest) else none)
          (valid_sizes _ (length (elements_bytes fs)) size'
            (omega (arith, h, length-object_bytes fs))),
      size,
      elements_length fs _ size',
    )

same_bytes-append :
    (xs ys r q : Bytes)
    → length xs ≡ length ys
    → same_bytes (pos (length xs)) (xs ++ r) (ys ++ q) ≡ bytes_eq xs ys
unfolding same_bytes
same_bytes-append xs ys r q h =
    ap (λ z. bytes_eq z (take_bytes (length xs) (ys ++ q))) (take_bytes-append xs r)
    ∙ ap (bytes_eq xs) (ap (λ k. take_bytes k (ys ++ q)) h ∙ take_bytes-append ys q)

different_lengths : (xs ys : Bytes) → length xs ≢ length ys → bytes_eq xs ys ≡ false
different_lengths [] [] h = absurd (h refl)
different_lengths [] (y ∷ ys) h = refl
different_lengths (x ∷ xs) [] h = refl
different_lengths (x ∷ xs) (y ∷ ys) h = ground (arith, different_lengths xs ys (λ e. h (ap suc e)))

numbers_differ : (m n : ℕ) → m ≢ n → (pos m ==ℤ pos n) ≡ false
numbers_differ m n h = ground arith

numbers_agree : (m n : ℕ) → m ≡ n → (pos m ==ℤ pos n) ≡ true
numbers_agree m n h = ground arith

unequal : (m n : ℕ) → (m == n) ≡ false → m ≢ n
unequal m n h = ground arith

-- Two objects of at most 16 MB and 16 KB are binaryEqual exactly if their bytes are the same, whatever
-- follows either.
binary_equal-object_at :
    (fs gs : Fields) (r q : Bytes)
    → length (object_bytes fs) ≤ object_max_size
    → length (object_bytes gs) ≤ object_max_size
    → binary_equal (object_at fs r) (object_at gs q) ≡ bytes_eq (object_bytes fs) (object_bytes gs)
unfolding binary_equal
binary_equal-object_at fs gs r q hf hg =
    let xs = object_bytes fs in
    let ys = object_bytes gs in
    ap (λ z. if z ==ℤ object_size (object_at gs q) then same_bytes z (xs ++ r) (ys ++ q) else false)
      (object_size-object_bytes fs false r hf)
    ∙ ap
        (λ z.
          if pos (length xs) ==ℤ z then same_bytes (pos (length xs)) (xs ++ r) (ys ++ q) else false)
        (object_size-object_bytes gs false q hg)
    ∙ elim (Bool-cases (length xs == length ys)) [
      | inl e ↦
          ap (λ b. if b then same_bytes (pos (length xs)) (xs ++ r) (ys ++ q) else false)
            (numbers_agree _ _ ((==_iff (length xs) (length ys)).0 e))
          ∙ same_bytes-append xs ys r q ((==_iff (length xs) (length ys)).0 e)
      | inr ne ↦
          ap (λ b. if b then same_bytes (pos (length xs)) (xs ++ r) (ys ++ q) else false)
            (numbers_differ _ _ (unequal _ _ ne))
          ∙ sym (different_lengths xs ys (unequal _ _ ne))
    ]

append_sized-positive :
    (z : ℤ) (k : ℕ) (bs : Bytes) (b : Buffer)
    → z ≡ pos (suc k)
    → append_sized z bs b ≡ append_buf (take_bytes (suc k) bs) b
unfolding append_sized
append_sized-positive z k bs b e = ap (λ x. append_sized x bs b) e

-- appendSelfToBufBuilder appends exactly the bytes of the object, without what follows them.
pub append_self-Appends :
    (fs : Fields) (rest : Bytes)
    → length (object_bytes fs) ≤ object_max_size
    → Appends (object_bytes fs) (append_self_to_buf_builder (object_at fs rest))
unfolding append_self_to_buf_builder write_signed
append_self-Appends fs rest h =
    subst (Appends (object_bytes fs))
      (sym (
        fun_ext (λ b.
          append_sized-positive _ _ (object_bytes fs ++ rest) b
            (object_size-object_bytes fs false rest h)
          ∙ ap (λ xs. append_buf xs b) (take_bytes-append (object_bytes fs) rest))))
      (append_buf-Appends (object_bytes fs))
