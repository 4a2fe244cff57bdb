-- ===== src/Text/Affixes.antt =====
-- What StringData's substr, startsWith and endsWith decide.
use mathlib.Core.Path.{subst}
use mathlib.Core.Bool.{false≢true}
use streamsx_mongo_db.Prelude.{
  ℕ, zero, suc, ◌-◌, ◌≡◌, ◌≤◌, ◌↔◌, ◌⊎◌, inl, inr, refl, sym, ap, ◌∙◌, Bool, true, false, [], ◌∷◌,
  ◌++◌, Bytes, length, length-append, drop, ltb, if◌then◌else◌, arith, Option, none, some,
  Bool-cases,
}
use streamsx_mongo_db.Wire.Reader.{take_bytes}
use streamsx_mongo_db.Wire.Readback.{drop-append, take_bytes-append}
use streamsx_mongo_db.Text.StringData.{npos, substr, starts_with, ends_with, equal}
use streamsx_mongo_db.Text.Comparisons.{equal_iff}

-- An answer that says whether P holds; none is no answer.
abbrev pub Decides : Type 0 → Option Bool → Type 0
Decides P none = ⊥
Decides P (some b) = (b ≡ true) ↔ P

take_bytes-all : (n : ℕ) (xs : Bytes) → length xs ≤ n → take_bytes n xs ≡ xs
unfolding take_bytes
take_bytes-all zero [] h = refl
take_bytes-all zero (x ∷ xs) h = ground arith
take_bytes-all (suc n) [] h = refl
take_bytes-all (suc n) (x ∷ xs) h = ap (λ zs. x ∷ zs) (take_bytes-all n xs (omega arith))

take_bytes-drop : (n : ℕ) (xs : Bytes) → xs ≡ take_bytes n xs ++ drop n xs
unfolding take_bytes
take_bytes-drop zero xs = refl
take_bytes-drop (suc n) [] = refl
take_bytes-drop (suc n) (x ∷ xs) = ap (λ zs. x ∷ zs) (take_bytes-drop n xs)

length-drop_lem : (p : ℕ) (xs : Bytes) → length (drop p xs) ≡ length xs - p
length-drop_lem zero xs = omega arith
length-drop_lem (suc p) [] = omega arith
length-drop_lem (suc p) (x ∷ xs) = omega (arith, length-drop_lem p xs)

-- The cut to the end of the text changes nothing.
substr-within :
    (this : Bytes) (p n : ℕ) → p ≤ length this → substr this p n ≡ some (take_bytes n (drop p this))
unfolding substr
substr-within this p n h =
    let inside : ltb (length this) p ≡ false = ground (arith, h) in
    rw (inside) (ap some (cut (Bool-cases (ltb (length this - p) n))))
  where
    cut :
        (ltb (length this - p) n ≡ true) ⊎ (ltb (length this - p) n ≡ false)
        → take_bytes (if ltb (length this - p) n then length this - p else n) (drop p this)
          ≡ take_bytes n (drop p this)
    cut (inl short) =
        let l = length-drop_lem p this in
        rw (short) (
          take_bytes-all (length this - p) (drop p this) (omega (arith, l))
          ∙ sym (take_bytes-all n (drop p this) (ground (arith, short, l))))
    cut (inr long) = rw (long) refl

abbrev pub StartsWith : Bytes → Bytes → Type 0
StartsWith this prefix = (rest : Bytes) × (this ≡ prefix ++ rest)

abbrev pub EndsWith : Bytes → Bytes → Type 0
EndsWith this suffix = (rest : Bytes) × (this ≡ rest ++ suffix)

starts_with-Decides :
    (this prefix : Bytes) → Decides (StartsWith this prefix) (starts_with this prefix)
unfolding starts_with
starts_with-Decides this prefix =
    let same = equal_iff (take_bytes (length prefix) this) prefix in
    let cut =
      ap (λ o. elim o as (λ x. Option Bool) [ none ↦ none | some s ↦ some (equal s prefix) ])
        (substr-within this 0 (length prefix) (omega arith)) in
    subst (Decides (StartsWith this prefix)) (sym cut) (
      (λ e. (
        drop (length prefix) this,
        take_bytes-drop (length prefix) this
            ∙ ap (λ zs. zs ++ drop (length prefix) this) (same.0 e),
      )),
      λ (rest, e). same.1 (ap (take_bytes (length prefix)) e ∙ take_bytes-append prefix rest),
    )

ends_with-Decides :
    (this suffix : Bytes)
    → length this ≤ npos
    → Decides (EndsWith this suffix) (ends_with this suffix)
unfolding ends_with
ends_with-Decides this suffix h =
    let k = length this - length suffix in
    let l = length-drop_lem k this in
    let same = equal_iff (drop k this) suffix in
    elim (Bool-cases (ltb (length this) (length suffix))) [
      | inl longer ↦ rw (longer) (
        (λ e. absurd (false≢true e)),
        λ (rest, e). let m = ap length e ∙ length-append rest suffix in ground (arith, longer, m),
      )
      | inr fits ↦
          rw
            (
              fits,
              substr-within this k npos (omega arith),
              take_bytes-all npos (drop k this) (omega (arith, l, h)),
            )
            (
              (λ e. (
                take_bytes k this,
                take_bytes-drop k this ∙ ap (λ zs. take_bytes k this ++ zs) (same.0 e),
              )),
              λ (rest, e).
                  let m = ap length e ∙ length-append rest suffix in
                  let k_is : k ≡ length rest = omega (arith, m) in
                  same.1 (
                    ap (drop k) e
                    ∙ ap (λ j. drop j (rest ++ suffix)) k_is
                    ∙ drop-append rest suffix),
            )
    ]

-- `startsWith` and `endsWith` throw nothing, and hold exactly for the texts that begin or end with
-- the other text; for `endsWith` if the text is not longer than a size_t can say.
pub affixes-Decides :
    (this affix : Bytes)
    → length this ≤ npos
    → Decides (StartsWith this affix) (starts_with this affix)
      × Decides (EndsWith this affix) (ends_with this affix)
affixes-Decides this affix h = (starts_with-Decides this affix, ends_with-Decides this affix h)
