-- ===== src/Wire/Visited.antt =====
-- bson/bsonobjiterator.h on the bytes of the format: BSONForEach visits each field of an object once,
-- in order, and stops.
use streamsx_mongo_db.Prelude.Words.{w32}
use streamsx_mongo_db.Wire.Numbers.{write_signed, write_le}
use mathlib.Core.List.{append_assoc}
use streamsx_mongo_db.Prelude.{
  ℕ, zero, suc, ◌+◌, ◌≤◌, ◌≡◌, refl, sym, ap, ◌∙◌, true, false, some, [], ◌∷◌, ◌++◌, Bytes, drop,
  length, length-append, arith, ◌<◌,
}
use streamsx_mongo_db.Prelude.Int.{pos, ltb_ℤ, ◌-ℤ◌}
use streamsx_mongo_db.Bson.Document
use streamsx_mongo_db.Bson.Document.{Fields, type_of, BsonValue}
use streamsx_mongo_db.Wire.Appends.{header_bytes}
use streamsx_mongo_db.Wire.Elements.{elements_bytes, object_bytes, value_bytes}
use streamsx_mongo_db.Wire.Framed.{length-object_bytes, length-write_signed}
use streamsx_mongo_db.Wire.Readback.{element_at, drop-append}
use streamsx_mongo_db.Wire.Objects.{object_max_size}
use streamsx_mongo_db.Wire.Opened.{object_at, object_size-object_bytes}
use streamsx_mongo_db.Wire.Iteration.{
  ObjIterator, iterator_of, iterator_within, more_elements, more_with_eoo, next_element, for_each,
}

-- What follows an element: those after it, the end of the object, and other bytes.
abbrev pub after : Fields → Bytes → Bytes
after fs rest = elements_bytes fs ++ ((0 ∷ []) ++ rest)

abbrev pub count : Fields → ℕ
count Document.nil = 0
count (Document.field n v fs) = suc (count fs)

-- The compiled `size` is the number of bytes of each element of the object, as it is documented.
abbrev pub SizesElements : (Bytes → ℕ) → Fields → Bytes → Type 0
SizesElements size_of Document.nil rest = Unit
SizesElements size_of (Document.field n v fs) rest =
    (size_of (element_at n v (after fs rest))
      ≡ length (header_bytes (type_of v) n ++ value_bytes v))
    × SizesElements size_of fs rest

-- The body on the elements in order.
abbrev pub visit {ℓ} : {A : Type ℓ} → (Bytes → A → A) → Fields → Bytes → A → A
visit body Document.nil rest a = a
visit body (Document.field n v fs) rest a =
    visit body fs rest (body (element_at n v (after fs rest)) a)

more-nothing : (p t : ℕ) → t ≡ p + 0 → ltb_ℤ (pos p) (pos t) ≡ false
more-nothing p t e = ground arith

none_left :
    (bs : Bytes) (p t : ℕ)
    → t ≡ p + 0
    → more_elements (record { bytes_of_object = bs; place = p; the_end = pos t }) ≡ false
unfolding more_elements
none_left bs p t e = more-nothing p t e

some_left :
    (bs : Bytes) (p t : ℕ)
    → p < t
    → more_elements (record { bytes_of_object = bs; place = p; the_end = pos t }) ≡ true
unfolding more_elements
some_left bs p t h = ground arith

some_left' :
    (bs : Bytes) (p t : ℕ)
    → p ≤ t
    → more_with_eoo (record { bytes_of_object = bs; place = p; the_end = pos t }) ≡ true
unfolding more_with_eoo
some_left' bs p t h = ground arith

abbrev nothing : Bytes
nothing = []

drop-empty : (k : ℕ) → drop k nothing ≡ nothing
drop-empty zero = refl
drop-empty (suc k) = refl

length-element :
    (n : Bytes) (v : BsonValue) → 0 < length (header_bytes (type_of v) n ++ value_bytes v)
unfolding write_signed write_le
length-element n v = omega arith

one_less : (k : ℕ) → pos (suc (k + 4)) -ℤ pos 1 ≡ pos (4 + k)
unfolding ◌-ℤ◌
one_less k = ground arith

add_five : (k : ℕ) → k + 5 ≡ suc (k + 4)
add_five k = omega arith

suc_sum : (p k : ℕ) → suc p + k ≡ suc (p + k)
suc_sum p k = omega arith

pub drop-drop : (p k : ℕ) (bs : Bytes) → drop (p + k) bs ≡ drop k (drop p bs)
drop-drop zero k bs = ap (λ j. drop j bs) (omega arith)
drop-drop (suc p) k [] = drop-empty (suc p + k) ∙ sym (drop-empty k)
drop-drop (suc p) k (b ∷ bs) = ap (λ j. drop j (b ∷ bs)) (suc_sum p k) ∙ drop-drop p k bs

opened_at :
    (bs : Bytes) (k : ℕ)
    → iterator_within bs (pos (k + 5))
      ≡ record { bytes_of_object = bs; place = 4; the_end = pos (4 + k) }
unfolding iterator_within
opened_at bs k =
    ap (λ j. iterator_within bs (pos j)) (add_five k)
    ∙ ap (λ z. record { bytes_of_object = bs; place = 4; the_end = z }) (one_less k)

drop-size : (fs : Fields) (rest : Bytes) → drop 4 (object_bytes fs ++ rest) ≡ after fs rest
drop-size fs rest =
    let els = elements_bytes fs in
    let size = write_signed w32 (pos (length els + 5)) in
    sym (ap (λ j. drop j (object_bytes fs ++ rest)) (length-write_signed (pos (length els + 5))))
    ∙ ap (drop (length size)) (append_assoc size (els ++ (0 ∷ [])) rest)
    ∙ drop-append size ((els ++ (0 ∷ [])) ++ rest)
    ∙ append_assoc els (0 ∷ []) rest

module _ {ℓ} {A : Type ℓ} (size_of : Bytes → ℕ) (body : Bytes → A → A) where
  for_each-done :
      (fuel : ℕ) (it : ObjIterator) (a : A)
      → more_elements it ≡ false
      → for_each size_of body (suc fuel) it a ≡ some a
  unfolding for_each
  for_each-done fuel it a h = rw h

  for_each-more :
      (fuel k : ℕ) (it : ObjIterator) (a : A) (e : Bytes)
      → more_elements it ≡ true
      → more_with_eoo it ≡ true
      → drop it.place it.bytes_of_object ≡ e
      → size_of e ≡ k
      → for_each size_of body (suc fuel) it a
        ≡ for_each size_of body fuel (record it { place = it.place + k }) (body e a)
  unfolding for_each next_element
  for_each-more fuel k it a e h h' d s = rw (h, h', d, s)

  visits :
      (fs : Fields) (rest bs : Bytes) (p t : ℕ) (a : A)
      → SizesElements size_of fs rest
      → t ≡ p + length (elements_bytes fs)
      → drop p bs ≡ after fs rest
      → for_each size_of body
          (suc (count fs))
          (record { bytes_of_object = bs; place = p; the_end = pos t })
          a
        ≡ some (visit body fs rest a)
  visits Document.nil rest bs p t a sizes e d = for_each-done 0 _ a (none_left bs p t e)
  visits (Document.field n v fs) rest bs p t a (size, sizes) e d =
      let k = length (header_bytes (type_of v) n ++ value_bytes v) in
      let total = length-append (header_bytes (type_of v) n ++ value_bytes v) (elements_bytes fs) in
      let here =
        d
        ∙ append_assoc (header_bytes (type_of v) n ++ value_bytes v) (elements_bytes fs)
            ((0 ∷ []) ++ rest) in
      for_each-more (suc (count fs)) k _ a (element_at n v (after fs rest))
        (some_left bs p t (omega (arith, e, total, length-element n v)))
        (some_left' bs p t (omega (arith, e))) here size
      ∙ visits fs rest bs (p + k) t (body (element_at n v (after fs rest)) a) sizes
          (omega (arith, e, total))
          (drop-drop p k bs
            ∙ ap (drop k) here
            ∙ drop-append (header_bytes (type_of v) n ++ value_bytes v) (after fs rest))

-- BSONForEach over the iterator of an object of at most 16 MB and 16 KB runs its body on each element
-- once, in order, and ends after as many rounds as there are fields, where the compiled size
-- function returns the size of each element.
pub for_each-visits {ℓ} :
    {A : Type ℓ} (size_of : Bytes → ℕ) (body : Bytes → A → A) (fs : Fields) (rest : Bytes) (a : A)
    → length (object_bytes fs) ≤ object_max_size
    → SizesElements size_of fs rest
    → for_each size_of body (suc (count fs)) (iterator_of (object_at fs rest)) a
      ≡ some (visit body fs rest a)
unfolding iterator_of
for_each-visits size_of body fs rest a h sizes =
    ap (λ it. for_each size_of body (suc (count fs)) it a)
      (ap (iterator_within _)
          (object_size-object_bytes fs false rest h ∙ ap pos (length-object_bytes fs))
        ∙ opened_at _ (length (elements_bytes fs)))
    ∙ visits size_of body fs rest (object_bytes fs ++ rest) 4 _ a sizes refl (drop-size fs rest)
