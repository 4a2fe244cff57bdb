-- ===== src/Wire/Readback.antt =====
-- What the accessors of bson/bsonelement.h find in the bytes of an element that the builder of
-- bson/bsonobjbuilder.h wrote.
use mathlib.Core.List.{append_assoc}
use mathlib.Core.Bool.{false≢true}
use streamsx_mongo_db.Prelude.{
  ℕ, suc, ◌+◌, ◌==◌, ◌≡◌, refl, ◌∙◌, ap, sym, Bool, true, false, ◌||◌, [], ◌∷◌, ◌++◌, Bytes, drop,
  length, length-append, has_nul, arith,
}
use streamsx_mongo_db.Bson.Types.{type_byte}
use streamsx_mongo_db.Bson.Document
use streamsx_mongo_db.Bson.Document.{BsonValue, type_of}
use streamsx_mongo_db.Wire.Numbers.{write_le, write_signed}
use streamsx_mongo_db.Wire.Appends.{header_bytes}
use streamsx_mongo_db.Wire.Elements.{value_bytes}
use streamsx_mongo_db.Wire.Reader.{
  eoo, is_type, c_string, take_bytes, field_name, field_name_size, value_at,
}

-- The bytes of an element, followed by others.
abbrev pub element_at : Bytes → BsonValue → Bytes → Bytes
element_at n v rest = (header_bytes (type_of v) n ++ value_bytes v) ++ rest

pub or_false : (x y : Bool) → (x || y) ≡ false → (x ≡ false) × (y ≡ false)
or_false true y h = absurd (false≢true (sym h))
or_false false y h = (refl, h)

pub c_string-ended : (n rest : Bytes) → has_nul n ≡ false → c_string ((n ++ (0 ∷ [])) ++ rest) ≡ n
unfolding c_string
c_string-ended [] rest h = refl
c_string-ended (b ∷ n) rest h =
    let (nonzero, later) = or_false (b == 0) (has_nul n) h in
    rw (nonzero, c_string-ended n rest later)

pub drop-append : (xs ys : Bytes) → drop (length xs) (xs ++ ys) ≡ ys
drop-append [] ys = refl
drop-append (x ∷ xs) ys = drop-append xs ys

pub take_bytes-append : (xs ys : Bytes) → take_bytes (length xs) (xs ++ ys) ≡ xs
unfolding take_bytes
take_bytes-append [] ys = refl
take_bytes-append (x ∷ xs) ys = ap (λ zs. x ∷ zs) (take_bytes-append xs ys)

-- No value's type byte is that of the end of an object.
eoo-element : (n : Bytes) (v : BsonValue) (rest : Bytes) → eoo (element_at n v rest) ≡ false
unfolding eoo is_type write_signed write_le type_byte
eoo-element n (Document.number_double d) rest = refl
eoo-element n _ rest = refl

c_string-element :
    (n : Bytes) (v : BsonValue) (rest : Bytes)
    → has_nul n ≡ false
    → c_string (drop 1 (element_at n v rest)) ≡ n
unfolding write_signed write_le
c_string-element n v rest h =
    ap c_string (append_assoc (n ++ (0 ∷ [])) (value_bytes v) rest)
    ∙ c_string-ended n (value_bytes v ++ rest) h

field_name_lem :
    (bs n : Bytes)
    → eoo bs ≡ false
    → c_string (drop 1 bs) ≡ n
    → (field_name bs ≡ n) × (value_at bs ≡ drop (length n + 1 + 1) bs)
unfolding field_name value_at field_name_size
field_name_lem bs n e c = (rw (e, c), rw (e, c))

add_one : (k : ℕ) → k + 1 ≡ suc k
add_one k = omega arith

drop-suc : (k : ℕ) (b : ℕ) (bs : Bytes) → drop (k + 1) (b ∷ bs) ≡ drop k bs
drop-suc k b bs = ap (λ j. drop j (b ∷ bs)) (add_one k)

-- The name and the value of an element are found again.
pub name-and-value :
    (n : Bytes) (v : BsonValue) (rest : Bytes)
    → has_nul n ≡ false
    → (field_name (element_at n v rest) ≡ n)
      × (value_at (element_at n v rest) ≡ value_bytes v ++ rest)
unfolding write_signed write_le
name-and-value n v rest h =
    let (name, value) =
      field_name_lem (element_at n v rest) n (eoo-element n v rest) (c_string-element n v rest h) in
    (
      name,
      value
          ∙ drop-suc (length n + 1) _ (((n ++ (0 ∷ [])) ++ value_bytes v) ++ rest)
          ∙ ap (λ k. drop k (((n ++ (0 ∷ [])) ++ value_bytes v) ++ rest))
              (sym (length-append n (0 ∷ [])))
          ∙ ap (drop (length (n ++ (0 ∷ [])))) (append_assoc (n ++ (0 ∷ [])) (value_bytes v) rest)
          ∙ drop-append (n ++ (0 ∷ [])) (value_bytes v ++ rest),
    )
