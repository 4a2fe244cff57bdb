-- ===== src/Text/Splits.antt =====
-- Where the helpers of util/mongoutils/str.h cut a string at a character.
use streamsx_mongo_db.Prelude.{
  ℕ, suc, ◌≡◌, inl, inr, refl, sym, ap, Bool, true, false, Option, none, some, [], ◌∷◌, ◌++◌, Bytes,
  drop, ◌==◌, ==_iff, if◌then◌else◌, arith, Bool-cases, All, has_nul,
}
use streamsx_mongo_db.Wire.Reader.{c_string, take_bytes}
use streamsx_mongo_db.Text.Str.{
  strchr, strrchr, Split, split_at_place, split_on, r_split_on, before_char, after_char,
}

abbrev pub Lacks : ℕ → Bytes → Type 0
Lacks c xs = All (λ x. (x == c) ≡ false) xs

-- The character stands between what is before a place and what is after it.
abbrev IsCut : ℕ → Bytes → ℕ → Type 0
IsCut c s i = s ≡ take_bytes i s ++ (c ∷ drop (suc i) s)

abbrev IsFirstCut : ℕ → Bytes → Option ℕ → Type 0
IsFirstCut c s none = Lacks c s
IsFirstCut c s (some i) = IsCut c s i × Lacks c (take_bytes i s)

abbrev IsLastCut : ℕ → Bytes → Option ℕ → Type 0
IsLastCut c s none = Lacks c s
IsLastCut c s (some i) = IsCut c s i × Lacks c (drop (suc i) s)

IsCut-zero : (c x : ℕ) (xs : Bytes) → (x == c) ≡ true → IsCut c (x ∷ xs) 0
unfolding take_bytes
IsCut-zero c x xs h = ap (λ z. z ∷ xs) ((==_iff x c).0 h)

IsCut-suc : (c x i : ℕ) (xs : Bytes) → IsCut c xs i → IsCut c (x ∷ xs) (suc i)
unfolding take_bytes
IsCut-suc c x i xs h = ap (λ zs. x ∷ zs) h

strchr-IsFirstCut : (c : ℕ) (s : Bytes) → (c == 0) ≡ false → IsFirstCut c s (strchr s c)
unfolding strchr take_bytes
strchr-IsFirstCut c [] h = rw (h) tt
strchr-IsFirstCut c (x ∷ xs) h = elim (Bool-cases (x == c)) [
  | inl e ↦ rw (e) (IsCut-zero c x xs e, tt)
  | inr n ↦ rw (n) (step (strchr xs c) (strchr-IsFirstCut c xs h) n)
]
  where
    step :
        (o : Option ℕ)
        → IsFirstCut c xs o
        → (x == c) ≡ false
        → IsFirstCut c (x ∷ xs) (elim o as (λ o. Option ℕ) [ none ↦ none | some i ↦ some (suc i) ])
    step none lacks n = (n, lacks)
    step (some i) (cut, lacks) n = (IsCut-suc c x i xs cut, (n, lacks))

strrchr-IsLastCut : (c : ℕ) (s : Bytes) → (c == 0) ≡ false → IsLastCut c s (strrchr s c)
unfolding strrchr take_bytes
strrchr-IsLastCut c [] h = rw (h) tt
strrchr-IsLastCut c (x ∷ xs) h = step (strrchr xs c) (strrchr-IsLastCut c xs h)
  where
    step :
        (o : Option ℕ)
        → IsLastCut c xs o
        → IsLastCut c (x ∷ xs) (elim o as (λ o. Option ℕ) [
          | none ↦ if x == c then some 0 else none
          | some i ↦ some (suc i)
        ])
    step none lacks = elim (Bool-cases (x == c)) [
      | inl e ↦ rw (e) (IsCut-zero c x xs e, lacks)
      | inr n ↦ rw (n) (n, lacks)
    ]
    step (some i) (cut, lacks) = (IsCut-suc c x i xs cut, lacks)

c_string_lem : (s : Bytes) → has_nul s ≡ false → c_string s ≡ s
unfolding c_string
c_string_lem [] h = refl
c_string_lem (b ∷ bs) h = ground (arith, c_string_lem bs, h)

abbrev pub IsSplitAt : ℕ → Bytes → (Split → Bytes) → Split → Type 0
IsSplitAt c s part r = by_found r.found
  where
    by_found : Bool → Type 0
    by_found true = (s ≡ r.left ++ (c ∷ r.right)) × Lacks c (part r)
    by_found false = (r.left ≡ s) × (r.right ≡ []) × Lacks c s

-- For a string without zero bytes and another character than the zero byte, splitOn and rSplitOn cut
-- the string at the first and at the last occurrence, the character itself left out, or, where there
-- is none, leave the whole string on the left; `before` and `after` are the parts of splitOn.
pub split_on-IsSplitAt :
    (s : Bytes) (c : ℕ)
    → has_nul s ≡ false
    → (c == 0) ≡ false
    → IsSplitAt c s (λ r. r.left) (split_on s c)
      × IsSplitAt c s (λ r. r.right) (r_split_on s c)
      × (before_char s c ≡ (split_on s c).left)
      × (after_char s c ≡ (split_on s c).right)
unfolding split_on r_split_on before_char after_char
split_on-IsSplitAt s c clean h = (
  rw (c_string_lem s clean) (first_split (strchr s c) (strchr-IsFirstCut c s h)),
  rw (c_string_lem s clean) (last_split (strrchr s c) (strrchr-IsLastCut c s h)),
  same_left (strchr (c_string s) c),
  same_right (strchr (c_string s) c),
)
  where
    first_split :
        (o : Option ℕ) → IsFirstCut c s o → IsSplitAt c s (λ r. r.left) (split_at_place s o)
    first_split none lacks = (refl, refl, lacks)
    first_split (some i) cut = rw (c_string_lem s clean) cut

    last_split :
        (o : Option ℕ) → IsLastCut c s o → IsSplitAt c s (λ r. r.right) (split_at_place s o)
    last_split none lacks = (refl, refl, lacks)
    last_split (some i) cut = rw (c_string_lem s clean) cut

    same_left :
        (o : Option ℕ)
        → (elim o as (λ o. Bytes) [ none ↦ s | some i ↦ take_bytes i s ])
          ≡ (split_at_place s o).left
    same_left none = refl
    same_left (some i) = ap (take_bytes i) (sym (c_string_lem s clean))

    same_right :
        (o : Option ℕ)
        → (elim o as (λ o. Bytes) [ none ↦ [] | some i ↦ drop (suc i) (c_string s) ])
          ≡ (split_at_place s o).right
    same_right none = refl
    same_right (some i) = refl
