-- ===== src/Text/Characters.antt =====
-- What StringData's finders of a character find, beside those of a text.
use mathlib.Core.Bool.{false≢true}
use streamsx_mongo_db.Prelude.{
  ℕ, zero, suc, ◌+◌, ◌-◌, ◌≡◌, ◌≤◌, ◌<◌, inl, inr, refl, sym, ap, ◌∙◌, [], ◌∷◌, Bytes, length, drop,
  ltb, leb, ◌==◌, ==_iff, arith, Option, none, some, Bool-cases,
}
use streamsx_mongo_db.Text.StringData.{find, memchr, find_char, byte_at, rfind_from, rfind}
use streamsx_mongo_db.Text.Searches.{OccursAt, IsFirst, none_up_to, find-IsFirst}

abbrev pub IsAt : Bytes → ℕ → ℕ → Type 0
IsAt this c j = (j < length this) × (byte_at this j ≡ c)

abbrev pub IsLast : (ℕ → Type 0) → Option ℕ → Type 0
IsLast P none = (j : ℕ) → ¬ P j
IsLast P (some i) = P i × ((j : ℕ) → i < j → ¬ P j)

drop_step :
    (p : ℕ) (this : Bytes) → p < length this → drop p this ≡ byte_at this p ∷ drop (suc p) this
unfolding byte_at
drop_step zero [] h = ground arith
drop_step zero (x ∷ xs) h = refl
drop_step (suc p) [] h = ground arith
drop_step (suc p) (x ∷ xs) h = drop_step p xs (omega arith)

drop_all : (this : Bytes) → drop (length this) this ≡ []
drop_all [] = refl
drop_all (x ∷ xs) = drop_all xs

module _ (this : Bytes) (c start : ℕ) where
  abbrev pub IsAtFrom : ℕ → Type 0
  IsAtFrom j = (start ≤ j) × IsAt this c j

  abbrev pub IsAtBelow : ℕ → Type 0
  IsAtBelow j = (j < start) × IsAt this c j

  memchr-IsFirst :
      (n p : ℕ)
      → p + n ≡ length this
      → start ≤ p
      → ((j : ℕ) → j < p → ¬ IsAtFrom j)
      → IsFirst IsAtFrom (memchr p c (drop p this))
  unfolding memchr
  memchr-IsFirst zero p h s none_before =
      let at_end : p ≡ length this = omega (arith, h) in
      rw (ap (λ k. drop k this) at_end ∙ drop_all this)
        (λ j (a, (b, e)). none_before j (omega (arith, h, b)) (a, (b, e)))
  memchr-IsFirst (suc n) p h s none_before =
      let later = memchr-IsFirst n (suc p) (omega (arith, h)) (omega (arith, s)) in
      elim (Bool-cases (byte_at this p == c)) [
        | inl found ↦
            rw (drop_step p this (omega (arith, h)), found)
              ((s, ((omega (arith, h)), (==_iff (byte_at this p) c).0 found)), none_before)
        | inr not_found ↦
            rw (drop_step p this (omega (arith, h)), not_found)
              (later (
                none_up_to IsAtFrom p none_before
                  (λ (a, (b, e)). false≢true (sym not_found ∙ (==_iff (byte_at this p) c).1 e))))
      ]

  pub find_char-IsFirst : IsFirst IsAtFrom (find_char this c start)
  unfolding find_char
  find_char-IsFirst = elim (Bool-cases (leb (length this) start)) [
    | inl beyond ↦ rw (beyond) (λ j (a, (b, e)). ground (arith, beyond, a, b))
    | inr within ↦ rw (within) (
        memchr-IsFirst (length this - start) start (ground (arith, within)) (omega arith)
          (λ j l (a, b). omega (arith, l, a)))
  ]

  rfind_from-IsLast :
      (cur : ℕ)
      → cur ≤ start
      → cur ≤ length this
      → ((j : ℕ) → cur ≤ j → ¬ IsAtBelow j)
      → IsLast IsAtBelow (rfind_from this c cur)
  unfolding rfind_from
  rfind_from-IsLast zero s l none_after = λ j. none_after j (omega arith)
  rfind_from-IsLast (suc cur) s l none_after =
      let later = rfind_from-IsLast cur (omega (arith, s)) (omega (arith, l)) in
      elim (Bool-cases (byte_at this cur == c)) [
        | inl found ↦ rw (found) (
          ((omega (arith, s)), ((omega (arith, l)), (==_iff (byte_at this cur) c).0 found)),
          none_after,
        )
        | inr not_found ↦ rw (not_found) (
            later (λ j k (a, (b, e)). elim (Bool-cases (j == cur)) [
              | inl same ↦ false≢true (
                  sym not_found
                  ∙ (==_iff (byte_at this cur) c).1
                      (ap (byte_at this) (sym ((==_iff j cur).0 same)) ∙ e))
              | inr other ↦ none_after j (ground (arith, other, k)) (a, (b, e))
            ]))
      ]

  pub rfind-IsLast : IsLast IsAtBelow (rfind this c start)
  unfolding rfind
  rfind-IsLast = elim (Bool-cases (ltb (length this) start)) [
    | inl beyond ↦ rw (beyond) (
        rfind_from-IsLast (length this) (ground (arith, beyond)) (omega arith)
          (λ j l (a, (b, e)). omega (arith, l, b)))
    | inr within ↦ rw (within) (
        rfind_from-IsLast start (omega arith) (ground (arith, within))
          (λ j l (a, b). omega (arith, l, a)))
  ]

-- `find` returns the first place at which the needle stands, the `find` of a character the first at
-- or after the given place at which it stands, and `rfind` the last before the given place; they
-- return no place only where there is none.
pub finders-find :
    (this needle : Bytes) (c start : ℕ)
    → IsFirst (OccursAt this needle) (find this needle)
      × IsFirst (IsAtFrom this c start) (find_char this c start)
      × IsLast (IsAtBelow this c start) (rfind this c start)
finders-find this needle c start =
    (find-IsFirst this needle, find_char-IsFirst this c start, rfind-IsLast this c start)
