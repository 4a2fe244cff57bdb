-- ===== src/Wire/Compound.antt =====
-- What the accessors of bson/bsonelement.h compute on the bytes of objects, texts, regular
-- expressions, references and code with a scope, from where an element's value begins.
use mathlib.Core.List.{append_assoc}
use streamsx_mongo_db.Prelude.{
  ℕ, ◌+◌, ◌%◌, ◌<◌, ◌≡◌, sym, ◌∙◌, ap, false, some, [], ◌∷◌, ◌++◌, Bytes, drop, length,
  length-append, has_nul, arith, suc,
}
use streamsx_mongo_db.Prelude.Int.{pos, pos_part}
use streamsx_mongo_db.Prelude.Words.{w32, InSigned}
use streamsx_mongo_db.Wire.Numbers.{
  write_le, write_signed, read_signed-write_signed, read_le-write_le, read_signed, read_le,
}
use streamsx_mongo_db.Wire.Appends.{counted_bytes}
use streamsx_mongo_db.Wire.Elements.{framed}
use streamsx_mongo_db.Wire.Reader.{take_bytes, counted_text, c_string}
use streamsx_mongo_db.Wire.Readback.{take_bytes-append, drop-append, c_string-ended}
use streamsx_mongo_db.Wire.Visited.{drop-drop}

low_bits : (n : ℕ) → n < 2_147_483_648 → n % 4_294_967_296 ≡ n
low_bits n h = omega (arith, h)

-- The length that an object begins with.
pub read_le-framed :
    (body rest : Bytes)
    → InSigned w32 (pos (length (framed body)))
    → read_le 4 (framed body ++ rest) ≡ length (framed body)
unfolding write_signed write_le
read_le-framed body rest h =
    let size : length (framed body) ≡ length body + 5 =
      omega (arith, length-append body (0 ∷ [])) in
    ap (read_le 4) (append_assoc (write_signed w32 (pos (length body + 5))) (body ++ (0 ∷ [])) rest)
    ∙ read_le-write_le 4 ((length body + 5) % 4_294_967_296) ((body ++ (0 ∷ [])) ++ rest)
        (omega arith)
    ∙ low_bits (length body + 5) (omega (arith, h.0, size))
    ∙ sym size

read_counted_size :
    (s rest : Bytes)
    → InSigned w32 (pos (length s + 1))
    → read_signed w32 (counted_bytes s ++ rest) ≡ pos (length s + 1)
unfolding write_signed write_le
read_counted_size s rest h =
    ap (read_signed w32) (append_assoc (write_signed w32 (pos (length s + 1))) (s ++ (0 ∷ [])) rest)
    ∙ read_signed-write_signed w32 (pos (length s + 1)) ((s ++ (0 ∷ [])) ++ rest) h

counted_text-some :
    (n : ℕ) (text : Bytes) → counted_text (pos (n + 1)) text ≡ some (take_bytes n text)
unfolding counted_text
counted_text-some n text =
    let more : n + 1 ≡ suc n = omega arith in ap (λ k. counted_text (pos k) text) more

-- A counted text.
pub read_counted :
    (s rest : Bytes)
    → InSigned w32 (pos (length s + 1))
    → counted_text (read_signed w32 (counted_bytes s ++ rest)) (drop 4 (counted_bytes s ++ rest))
      ≡ some s
unfolding write_signed write_le
read_counted s rest h =
    ap (λ z. counted_text z ((s ++ (0 ∷ [])) ++ rest)) (read_counted_size s rest h)
    ∙ counted_text-some (length s) ((s ++ (0 ∷ [])) ++ rest)
    ∙ ap (λ bs. some (take_bytes (length s) bs)) (append_assoc s (0 ∷ []) rest)
    ∙ ap some (take_bytes-append s ((0 ∷ []) ++ rest))

drop-ended : (s rest : Bytes) → drop (length s + 1) ((s ++ (0 ∷ [])) ++ rest) ≡ rest
drop-ended s rest =
    ap (λ k. drop k ((s ++ (0 ∷ [])) ++ rest)) (sym (length-append s (0 ∷ [])))
    ∙ drop-append (s ++ (0 ∷ [])) rest

-- The options of a regular expression, after its pattern.
pub read_options :
    (p f rest : Bytes)
    → has_nul p ≡ false
    → has_nul f ≡ false
    → (c_string (((p ++ (0 ∷ [])) ++ (f ++ (0 ∷ []))) ++ rest) ≡ p)
      × (c_string (
            drop
              (length (c_string (((p ++ (0 ∷ [])) ++ (f ++ (0 ∷ []))) ++ rest)) + 1)
              (((p ++ (0 ∷ [])) ++ (f ++ (0 ∷ []))) ++ rest))
          ≡ f)
read_options p f rest hp hf =
    let apart = append_assoc (p ++ (0 ∷ [])) (f ++ (0 ∷ [])) rest in
    let pattern = ap c_string apart ∙ c_string-ended p ((f ++ (0 ∷ [])) ++ rest) hp in
    (
      pattern,
      ap (λ q. c_string (drop (length q + 1) (((p ++ (0 ∷ [])) ++ (f ++ (0 ∷ []))) ++ rest)))
            pattern
          ∙ ap (λ bs. c_string (drop (length p + 1) bs)) apart
          ∙ ap c_string (drop-ended p ((f ++ (0 ∷ [])) ++ rest))
          ∙ c_string-ended f rest hf,
    )

-- The namespace and the identity of a reference.
pub read_reference :
    (ns o rest : Bytes)
    → has_nul ns ≡ false
    → length o ≡ 12
    → InSigned w32 (pos (length ns + 1))
    → (c_string (drop 4 ((counted_bytes ns ++ o) ++ rest)) ≡ ns)
      × (take_bytes 12 (
            drop
              (4 + pos_part (read_signed w32 ((counted_bytes ns ++ o) ++ rest)))
              ((counted_bytes ns ++ o) ++ rest))
          ≡ o)
unfolding write_signed write_le
read_reference ns o rest hns ho h =
    let start = (counted_bytes ns ++ o) ++ rest in
    let apart = append_assoc (counted_bytes ns) o rest in
    (
      ap (λ bs. c_string (drop 4 bs)) apart ∙ c_string-ended ns (o ++ rest) hns,
      ap (λ bs. take_bytes 12 (drop (4 + pos_part (read_signed w32 bs)) bs)) apart
          ∙ ap (λ z. take_bytes 12 (drop (4 + pos_part z) (counted_bytes ns ++ (o ++ rest))))
              (read_counted_size ns (o ++ rest) h)
          ∙ ap (take_bytes 12) (
              drop-drop 4 (length ns + 1) (counted_bytes ns ++ (o ++ rest))
              ∙ drop-ended ns (o ++ rest))
          ∙ ap (λ k. take_bytes k (o ++ rest)) (sym ho)
          ∙ take_bytes-append o rest,
    )

-- The code, its length and the scope, after the eight bytes of two lengths.
pub read_scope :
    (total c scope rest : Bytes)
    → length total ≡ 4
    → has_nul c ≡ false
    → InSigned w32 (pos (length c + 1))
    → let start = (total ++ (counted_bytes c ++ scope)) ++ rest in
      (c_string (drop 8 start) ≡ c)
      × (read_signed w32 (drop 4 start) ≡ pos (length c + 1))
      × (drop (pos_part (read_signed w32 (drop 4 start))) (drop 8 start) ≡ scope ++ rest)
unfolding write_signed write_le
read_scope total c scope rest ht hc h =
    let start = (total ++ (counted_bytes c ++ scope)) ++ rest in
    let later : drop 4 start ≡ counted_bytes c ++ (scope ++ rest) =
      ap (λ k. drop k start) (sym ht)
      ∙ ap (drop (length total)) (append_assoc total (counted_bytes c ++ scope) rest)
      ∙ drop-append total ((counted_bytes c ++ scope) ++ rest)
      ∙ append_assoc (counted_bytes c) scope rest in
    let code : drop 8 start ≡ (c ++ (0 ∷ [])) ++ (scope ++ rest) =
      drop-drop 4 4 start ∙ ap (drop 4) later in
    let size = ap (read_signed w32) later ∙ read_counted_size c (scope ++ rest) h in
    (
      ap c_string code ∙ c_string-ended c (scope ++ rest) hc,
      size,
      ap (λ z. drop (pos_part z) (drop 8 start)) size
          ∙ ap (drop (length c + 1)) code
          ∙ drop-ended c (scope ++ rest),
    )
