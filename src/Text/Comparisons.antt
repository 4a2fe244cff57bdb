-- ===== src/Text/Comparisons.antt =====
-- What StringData's compare and operators decide.
use streamsx_mongo_db.Prelude.{
  zero, suc, ◌≡◌, ◌↔◌, ◌⊎◌, refl, sym, ap, ◌∙◌, Bool, true, not, ◌&&◌, [], ◌∷◌, Bytes, length, ltb,
  ◌==◌, ==_iff, if◌then◌else◌, arith,
}
use streamsx_mongo_db.Prelude.Int.{ℤ, pos, negsuc, ltb_ℤ}
use streamsx_mongo_db.Text.StringData.{
  memcmp, is_zero, compare, equal, unequal, is_less, is_at_most, is_greater, is_at_least,
}

-- The order of a dictionary, byte by byte, a text after its prefixes.
unfoldable pub lexicographic : Bytes → Bytes → ℤ
lexicographic [] [] = pos 0
lexicographic [] (y ∷ ys) = negsuc 0
lexicographic (x ∷ xs) [] = pos 1
lexicographic (x ∷ xs) (y ∷ ys) =
    let rest = lexicographic xs ys in if ltb x y then negsuc 0 else if ltb y x then pos 1 else rest

pub compare-lexicographic : (xs ys : Bytes) → compare xs ys ≡ lexicographic xs ys
unfolding compare lexicographic memcmp
compare-lexicographic [] [] = ground arith
compare-lexicographic [] (y ∷ ys) = ground arith
compare-lexicographic (x ∷ xs) [] = ground arith
compare-lexicographic (x ∷ xs) (y ∷ ys) = ground (arith, compare-lexicographic xs ys)

lexicographic-zero : (xs ys : Bytes) → (lexicographic xs ys ≡ pos 0) ↔ (xs ≡ ys)
unfolding lexicographic
lexicographic-zero [] [] = ground arith
lexicographic-zero [] (y ∷ ys) = ground arith
lexicographic-zero (x ∷ xs) [] = ground arith
lexicographic-zero (x ∷ xs) (y ∷ ys) = ground (arith, lexicographic-zero xs ys)

abbrev pub opposite : ℤ → ℤ
opposite (pos zero) = pos 0
opposite (pos (suc n)) = negsuc n
opposite (negsuc n) = pos (suc n)

lexicographic-opposite : (xs ys : Bytes) → lexicographic ys xs ≡ opposite (lexicographic xs ys)
unfolding lexicographic
lexicographic-opposite [] [] = refl
lexicographic-opposite [] (y ∷ ys) = refl
lexicographic-opposite (x ∷ xs) [] = refl
lexicographic-opposite (x ∷ xs) (y ∷ ys) = ground (arith, lexicographic-opposite xs ys)

abbrev below : Bytes → Bytes → Bool
below xs ys = ltb_ℤ (lexicographic xs ys) (pos 0)

below-transitive : (xs ys zs : Bytes) → below xs ys ≡ true → below ys zs ≡ true → below xs zs ≡ true
unfolding lexicographic
below-transitive [] [] [] h k = h
below-transitive [] (y ∷ ys) [] h k = ground arith
below-transitive [] ys (z ∷ zs) h k = refl
below-transitive (x ∷ xs) [] zs h k = ground arith
below-transitive (x ∷ xs) (y ∷ ys) [] h k = ground arith
below-transitive (x ∷ xs) (y ∷ ys) (z ∷ zs) h k = ground (arith, below-transitive xs ys zs)

compare-zero : (xs ys : Bytes) → (compare xs ys ≡ pos 0) ↔ (xs ≡ ys)
compare-zero xs ys = (
  (λ h. (lexicographic-zero xs ys).0 (sym (compare-lexicographic xs ys) ∙ h)),
  λ h. compare-lexicographic xs ys ∙ (lexicographic-zero xs ys).1 h,
)

compare-opposite : (xs ys : Bytes) → compare ys xs ≡ opposite (compare xs ys)
compare-opposite xs ys =
    compare-lexicographic ys xs
    ∙ lexicographic-opposite xs ys
    ∙ sym (ap opposite (compare-lexicographic xs ys))

pub is_zero_iff : (z : ℤ) → (is_zero z ≡ true) ↔ (z ≡ pos 0)
is_zero_iff z = ground arith

pub equal_iff : (xs ys : Bytes) → (equal xs ys ≡ true) ↔ (xs ≡ ys)
unfolding equal
equal_iff xs ys = (
  (λ h. (compare-zero xs ys).0 ((is_zero_iff (compare xs ys)).0 (ground (arith, h)))),
  λ h.
      both (length xs == length ys) (is_zero (compare xs ys))
        ((==_iff (length xs) (length ys)).1 (ap length h))
        ((is_zero_iff (compare xs ys)).1 ((compare-zero xs ys).1 h)),
)
  where
    both : (a b : Bool) → a ≡ true → b ≡ true → (a && b) ≡ true
    both a b h k = ground arith

is_less-below : (xs ys : Bytes) → is_less xs ys ≡ below xs ys
unfolding is_less
is_less-below xs ys = ap (λ z. ltb_ℤ z (pos 0)) (compare-lexicographic xs ys)

-- The sign of a comparison decides; P says that the texts are equal.
module _ (P : Type 0) (z : ℤ) (zero_iff : (z ≡ pos 0) ↔ P) where
  at_most_cases : (not (ltb_ℤ (pos 0) z) ≡ true) ↔ ((ltb_ℤ z (pos 0) ≡ true) ⊎ P)
  at_most_cases = ground (arith, zero_iff)

  trichotomy : (w : ℤ) → w ≡ opposite z → (ltb_ℤ z (pos 0) ≡ true) ⊎ P ⊎ (ltb_ℤ w (pos 0) ≡ true)
  trichotomy w e = ground (arith, zero_iff, e)

positive-opposite : (z w : ℤ) → w ≡ opposite z → ltb_ℤ (pos 0) z ≡ ltb_ℤ w (pos 0)
positive-opposite z w e = ground (arith, e)

-- The laws that a comparison and the six operators on it are to obey.
abbrev pub AreOrdered : Bytes → Bytes → Type 0
AreOrdered xs ys =
    (compare xs ys ≡ lexicographic xs ys)
    × (compare ys xs ≡ opposite (compare xs ys))
    × ((equal xs ys ≡ true) ↔ (xs ≡ ys))
    × (unequal xs ys ≡ not (equal xs ys))
    × ((is_at_most xs ys ≡ true) ↔ ((is_less xs ys ≡ true) ⊎ (xs ≡ ys)))
    × (is_greater xs ys ≡ is_less ys xs)
    × (is_at_least xs ys ≡ is_at_most ys xs)
    × ((is_less xs ys ≡ true) ⊎ (xs ≡ ys) ⊎ (is_less ys xs ≡ true))

-- `compare` is the byte-by-byte order of a dictionary and turns its sign with its arguments, the
-- operator == holds for equal texts only, the other operators follow from the comparison, and of two
-- different texts one is less.
pub compare-AreOrdered : (xs ys : Bytes) → AreOrdered xs ys
unfolding unequal is_at_most is_greater is_less is_at_least
compare-AreOrdered xs ys =
    let zero_iff = compare-zero xs ys in
    let flipped = compare-opposite xs ys in
    (
      compare-lexicographic xs ys,
      flipped,
      equal_iff xs ys,
      refl,
      at_most_cases (xs ≡ ys) (compare xs ys) zero_iff,
      positive-opposite (compare xs ys) (compare ys xs) flipped,
      sym (ap not (positive-opposite (compare ys xs) (compare xs ys) (compare-opposite ys xs))),
      trichotomy (xs ≡ ys) (compare xs ys) zero_iff (compare ys xs) flipped,
    )

is_less_transitive :
    (xs ys zs : Bytes) → is_less xs ys ≡ true → is_less ys zs ≡ true → is_less xs zs ≡ true
is_less_transitive xs ys zs h k =
    is_less-below xs zs
    ∙ below-transitive xs ys zs (sym (is_less-below xs ys) ∙ h) (sym (is_less-below ys zs) ∙ k)
