-- ===== src/Text/Searches.antt =====
-- What StringData's finders find.
use mathlib.Core.Path.{subst}
use mathlib.Core.Bool.{false≢true}
use streamsx_mongo_db.Wire.Readback.{drop-append}
use streamsx_mongo_db.Prelude.{
  ℕ, zero, suc, ◌+◌, ◌-◌, ◌≡◌, ◌≤◌, ◌<◌, ◌↔◌, inl, inr, refl, sym, ap, ◌∙◌, true, false, [], ◌∷◌,
  ◌++◌, Bytes, length, length-append, drop, ltb, ◌==◌, ==_iff, arith, Option, none, some,
  Bool-cases,
}
use streamsx_mongo_db.Text.StringData.{memcmp, is_zero, find_from, find}

-- The needle stands at the place `i` of the text.
abbrev pub OccursAt : Bytes → Bytes → ℕ → Type 0
OccursAt this needle i =
    (before : Bytes) × (after : Bytes) × (this ≡ before ++ (needle ++ after)) × (length before ≡ i)

abbrev pub IsFirst : (ℕ → Type 0) → Option ℕ → Type 0
IsFirst P none = (j : ℕ) → ¬ P j
IsFirst P (some i) = P i × ((j : ℕ) → j < i → ¬ P j)

memcmp_step :
    (n x y : ℕ) (xs ys : Bytes)
    → (is_zero (memcmp (suc n) (x ∷ xs) (y ∷ ys)) ≡ true)
      ↔ ((x ≡ y) × (is_zero (memcmp n xs ys) ≡ true))
unfolding memcmp
memcmp_step n x y xs ys = ground arith

-- `memcmp` finds no difference exactly if the text goes on with the needle.
abbrev GoesOn : Bytes → Bytes → Type 0
GoesOn this needle = (after : Bytes) × (this ≡ needle ++ after)

GoesOn-∷ : (x y : ℕ) (xs ys : Bytes) → GoesOn (x ∷ xs) (y ∷ ys) ↔ ((x ≡ y) × GoesOn xs ys)
GoesOn-∷ x y xs ys = (
  (λ (after, e). (ground (arith, e), (after, ground (arith, e)))),
  λ (h, (after, e)). (after, ap (λ z. z ∷ xs) h ∙ ap (λ zs. y ∷ zs) e),
)

memcmp-GoesOn :
    (this needle : Bytes)
    → length needle ≤ length this
    → (is_zero (memcmp (length needle) this needle) ≡ true) ↔ GoesOn this needle
unfolding memcmp
memcmp-GoesOn this [] h = ((λ e. (this, refl)), λ e. refl)
memcmp-GoesOn [] (y ∷ ys) h = ground arith
memcmp-GoesOn (x ∷ xs) (y ∷ ys) h =
    let ih = memcmp-GoesOn xs ys (omega arith) in
    let step = memcmp_step (length ys) x y xs ys in
    let on = GoesOn-∷ x y xs ys in
    ((λ z. on.1 ((step.0 z).0, ih.0 (step.0 z).1)), λ g. step.1 ((on.0 g).0, ih.1 (on.0 g).1))

split_at :
    (i : ℕ) (this : Bytes)
    → i ≤ length this
    → (before : Bytes) × (this ≡ before ++ drop i this) × (length before ≡ i)
split_at zero this h = ([], refl, refl)
split_at (suc i) [] h = ground arith
split_at (suc i) (x ∷ xs) h =
    let (before, e, l) = split_at i xs (omega arith) in
    (x ∷ before, ap (λ zs. x ∷ zs) e, omega (arith, l))

OccursAt-drop :
    (this needle : Bytes) (i : ℕ)
    → i ≤ length this
    → OccursAt this needle i ↔ GoesOn (drop i this) needle
OccursAt-drop this needle i h = (
  (λ (before, after, e, l). (
    after,
    ap (drop i) e
        ∙ ap (λ k. drop k (before ++ (needle ++ after))) (sym l)
        ∙ drop-append before (needle ++ after),
  )),
  λ (after, e).
      let (before, s, l) = split_at i this h in (before, after, s ∙ ap (λ zs. before ++ zs) e, l),
)

OccursAt-fits :
    (this needle : Bytes) (i : ℕ) → OccursAt this needle i → i + length needle ≤ length this
OccursAt-fits this needle i (before, after, e, l) =
    let m = ap length e ∙ length-append before (needle ++ after) in
    let k = length-append needle after in omega (arith, m, k, l)

length-drop : (i : ℕ) (this : Bytes) → i ≤ length this → length (drop i this) ≡ length this - i
length-drop zero this h = omega arith
length-drop (suc i) [] h = ground arith
length-drop (suc i) (x ∷ xs) h = omega (arith, length-drop i xs (omega arith))

memcmp-OccursAt :
    (this needle : Bytes) (i : ℕ)
    → i + length needle ≤ length this
    → (is_zero (memcmp (length needle) (drop i this) needle) ≡ true) ↔ OccursAt this needle i
memcmp-OccursAt this needle i h =
    let g = memcmp-GoesOn (drop i this) needle (omega (arith, length-drop i this (omega arith))) in
    let o = OccursAt-drop this needle i (omega arith) in ((λ z. o.1 (g.0 z)), λ p. g.1 (o.0 p))

pub none_up_to :
    (P : ℕ → Type 0) (i : ℕ) → ((j : ℕ) → j < i → ¬ P j) → ¬ P i → (j : ℕ) → j < suc i → ¬ P j
none_up_to P i h n j l p = elim (Bool-cases (j == i)) [
  | inl e ↦ n (subst P ((==_iff j i).0 e) p)
  | inr e ↦ h j (ground (arith, e)) p
]

find_from-IsFirst :
    (rounds : ℕ) (this needle : Bytes) (i : ℕ)
    → i + rounds + length needle ≡ suc (length this)
    → ((j : ℕ) → j < i → ¬ OccursAt this needle j)
    → IsFirst (OccursAt this needle) (find_from rounds this needle i)
unfolding find_from
find_from-IsFirst zero this needle i h none_before =
    λ j p. let fits = OccursAt-fits this needle j p in none_before j (omega (arith, fits)) p
find_from-IsFirst (suc rounds) this needle i h none_before =
    let m = memcmp-OccursAt this needle i (omega arith) in
    let later = find_from-IsFirst rounds this needle (suc i) (omega arith) in
    elim (Bool-cases (is_zero (memcmp (length needle) (drop i this) needle))) [
      | inl found ↦ rw (found) (m.0 found, none_before)
      | inr not_found ↦ rw (not_found) (
          later (
            none_up_to (OccursAt this needle) i none_before
              (λ p. false≢true (sym not_found ∙ m.1 p))))
    ]

nonempty : (n : ℕ) → (suc n == 0) ≡ false
nonempty n = ground arith

longer_nowhere :
    (this needle : Bytes) (j : ℕ) → length this < length needle → ¬ OccursAt this needle j
longer_nowhere this needle j l p =
    let fits = OccursAt-fits this needle j p in omega (arith, fits, l)

-- `find` returns the first place at which the needle stands, and no place where it stands nowhere.
pub find-IsFirst : (this needle : Bytes) → IsFirst (OccursAt this needle) (find this needle)
unfolding find
find-IsFirst this [] = (([], this, refl, refl), λ j l. ground (arith, l))
find-IsFirst this (y ∷ ys) = elim (Bool-cases (ltb (length this) (suc (length ys)))) [
  | inl longer ↦
      rw (nonempty (length ys), longer)
        (λ j p. longer_nowhere this (y ∷ ys) j (ground (arith, longer)) p)
  | inr fits ↦
      rw (nonempty (length ys), fits)
        (find_from-IsFirst (suc (length this - suc (length ys))) this (y ∷ ys) 0
          (ground (arith, fits)) (λ j l. ground (arith, l)))
]
