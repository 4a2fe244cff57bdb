-- ===== src/Text/Stripped.antt =====
-- What stripTrailing of util/mongoutils/str.h removes.
use mathlib.Core.List.{append_assoc, append-nil}
use streamsx_mongo_db.Prelude.{
  ℕ, suc, ◌+◌, ◌≡◌, inl, inr, refl, sym, ap, ◌∙◌, Bool, true, false, not, Option, none, some, [],
  ◌∷◌, ◌++◌, Bytes, length, length-append, ◌==◌, if◌then◌else◌, arith, Bool-cases, has_nul, keep_if,
}
use streamsx_mongo_db.Wire.Reader.{c_string, take_bytes}
use streamsx_mongo_db.Wire.Readback.{take_bytes-append, or_false}
use streamsx_mongo_db.Text.StringData.{byte_at}
use streamsx_mongo_db.Text.Str.{strchr, contains_char, replace_at, strip_from, strip_trailing}

-- Whether the character is one of those to remove.
unfoldable pub is_listed : Bytes → ℕ → Bool
unfolding strchr c_string
is_listed chars x = elim (strchr (c_string chars) x) [ none ↦ false | some i ↦ true ]

byte_at-append : (xs ys : Bytes) (y : ℕ) → byte_at (xs ++ (y ∷ ys)) (length xs) ≡ y
unfolding byte_at
byte_at-append [] ys y = refl
byte_at-append (x ∷ xs) ys y = byte_at-append xs ys y

-- The place after the kept part is overwritten; the junk between grows by one byte.
replace_at-append :
    (kept junk : Bytes) (j x : ℕ) (rest : Bytes)
    → replace_at (length kept) x (kept ++ ((j ∷ junk) ++ rest))
      ≡ (kept ++ (x ∷ [])) ++ (junk ++ rest)
replace_at-append [] junk j x rest = refl
replace_at-append (k ∷ kept) junk j x rest =
    ap (λ zs. k ∷ zs) (replace_at-append kept junk j x rest)

contains_char_lem :
    (chars : Bytes) (x : ℕ) → (x == 0) ≡ false → contains_char chars x ≡ some (is_listed chars x)
unfolding contains_char is_listed
contains_char_lem chars x h = rw (h) refl

strip_step :
    (rounds to i x : ℕ) (chars s : Bytes)
    → byte_at s i ≡ x
    → (x == 0) ≡ false
    → strip_from (suc rounds) chars to i s ≡ (
        if is_listed chars x
        then strip_from rounds chars to (suc i) s
        else strip_from rounds chars (suc to) (suc i) (if i == to then s else replace_at to x s))
unfolding strip_from
strip_step rounds to i x chars s e h =
    ap
      (λ y. elim (contains_char chars y) as (λ o. Option Bytes) [
        | none ↦ none
        | some b ↦
            if b
            then strip_from rounds chars to (suc i) s
            else strip_from rounds chars (suc to) (suc i) (if i == to then s else replace_at to y s)
      ])
      e
    ∙ ap
        (λ o. elim o as (λ o. Option Bytes) [
          | none ↦ none
          | some b ↦
              if b
              then strip_from rounds chars to (suc i) s
              else strip_from rounds chars (suc to) (suc i)
                  (if i == to then s else replace_at to x s)
        ])
        (contains_char_lem chars x h)

-- What the write leaves: the kept part has grown by the byte, what was left behind is as long as
-- before.
moved_lem :
    (kept junk rest s : Bytes) (to i x : ℕ)
    → s ≡ kept ++ (junk ++ (x ∷ rest))
    → to ≡ length kept
    → i ≡ length kept + length junk
    → (junk' : Bytes) × (length junk' ≡ length junk)
      × ((if i == to then s else replace_at to x s) ≡ (kept ++ (x ∷ [])) ++ (junk' ++ rest))
moved_lem kept [] rest s to i x e t u =
    let same : (i == to) ≡ true = ground (arith, t, u) in
    ([], refl, rw (same) (e ∙ sym (append_assoc kept (x ∷ []) rest)))
moved_lem kept (j ∷ js) rest s to i x e t u =
    let other : (i == to) ≡ false = ground (arith, t, u) in
    (
      js ++ (x ∷ []),
      (length-append js (x ∷ []) ∙ omega arith),
      rw (other) (
          ap (replace_at to x) e
          ∙ ap (λ k. replace_at k x (kept ++ ((j ∷ js) ++ (x ∷ rest)))) t
          ∙ replace_at-append kept js j x (x ∷ rest)
          ∙ ap (λ zs. (kept ++ (x ∷ [])) ++ zs) (sym (append_assoc js (x ∷ []) rest))),
    )

-- The string is what was kept, what was left behind, and what is to come.
strip_from_lem :
    (rest chars kept junk s : Bytes) (to i : ℕ)
    → has_nul rest ≡ false
    → s ≡ kept ++ (junk ++ rest)
    → to ≡ length kept
    → i ≡ length kept + length junk
    → strip_from (length rest) chars to i s
      ≡ some (kept ++ keep_if (λ x. not (is_listed chars x)) rest)
unfolding strip_from
strip_from_lem [] chars kept junk s to i clean e t u = ap some (
    ap (take_bytes to) e
    ∙ ap (λ k. take_bytes k (kept ++ (junk ++ []))) t
    ∙ take_bytes-append kept (junk ++ [])
    ∙ sym (append-nil kept))
strip_from_lem (x ∷ rest) chars kept junk s to i clean e t u =
    let (nonzero, later) = or_false (x == 0) (has_nul rest) clean in
    let here : byte_at s i ≡ x =
      ap (byte_at s) (u ∙ sym (length-append kept junk))
      ∙ ap (λ zs. byte_at zs (length (kept ++ junk))) (e ∙ sym (append_assoc kept junk (x ∷ rest)))
      ∙ byte_at-append (kept ++ junk) rest x in
    strip_step (length rest) to i x chars s here nonzero ∙ elim (Bool-cases (is_listed chars x)) [
      | inl listed ↦ rw (listed) (
          strip_from_lem rest chars kept (junk ++ (x ∷ [])) s to (suc i) later
            (e ∙ ap (λ zs. kept ++ zs) (sym (append_assoc junk (x ∷ []) rest))) t
            (omega (arith, u, length-append junk (x ∷ []))))
      | inr unlisted ↦
          let (junk', l, m) = moved_lem kept junk rest s to i x e t u in
          rw (unlisted) (
            strip_from_lem rest chars (kept ++ (x ∷ [])) junk'
              (if i == to then s else replace_at to x s) (suc to) (suc i) later m
              (omega (arith, t, length-append kept (x ∷ [])))
              (omega (arith, u, l, length-append kept (x ∷ [])))
            ∙ ap some (append_assoc kept (x ∷ []) (keep_if (λ y. not (is_listed chars y)) rest)))
    ]

-- From a string without zero bytes, stripTrailing removes every character that is among the given
-- ones, wherever it stands, and keeps the others in order.
pub strip_trailing-keep_if :
    (s chars : Bytes)
    → has_nul s ≡ false
    → strip_trailing s chars ≡ some (keep_if (λ x. not (is_listed chars x)) s)
unfolding strip_trailing
strip_trailing-keep_if s chars clean =
    strip_from_lem s chars [] [] s 0 0 clean refl refl (omega arith)
