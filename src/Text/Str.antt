-- ===== src/Text/Str.antt =====
-- util/mongoutils/str.h: the helpers on strings. A `const char*` stands for the bytes before its
-- terminator, and the end of a list for the terminator; `c_str()` of a std::string with a zero byte
-- inside ends there. Sizes below 2 ^ 31 and 2 ^ 32 are natural numbers. What `after` and the splits
-- read beyond a terminator that they were asked to find is taken to be empty.
use streamsx_mongo_db.Prelude.{
  ℕ, zero, suc, ◌+◌, ◌-◌, ◌*◌, ◌%◌, Bool, true, false, not, ◌&&◌, Option, none, some, [], ◌∷◌,
  Bytes, drop, length, ltb, leb, ◌==◌, if◌then◌else◌, bytes_eq,
}
use streamsx_mongo_db.Wire.Reader.{c_string, take_bytes}
use streamsx_mongo_db.Text.StringData.{find, byte_at}

-- `startsWith` on C strings, and on strings.
unfoldable pub has_prefix : Bytes → Bytes → Bool
has_prefix str [] = true
has_prefix [] (p ∷ prefix) = false
has_prefix (s ∷ str) (p ∷ prefix) =
    let rest = has_prefix str prefix in if not (p == s) then false else rest

unfoldable pub string_has_prefix : Bytes → Bytes → Bool
unfolding has_prefix c_string
string_has_prefix s p = has_prefix (c_string s) (c_string p)

unfoldable pub starts_with_char : Bytes → ℕ → Bool
unfolding c_string
starts_with_char s ch = elim (c_string s) [ [] ↦ 0 == ch | ◌∷◌ x xs ↦ x == ch ]

-- `strncmp(...) == 0`.
unfoldable pub is_same_within : ℕ → Bytes → Bytes → Bool
is_same_within zero xs ys = true
is_same_within (suc n) [] [] = true
is_same_within (suc n) [] (y ∷ ys) = y == 0
is_same_within (suc n) (x ∷ xs) [] = x == 0
is_same_within (suc n) (x ∷ xs) (y ∷ ys) =
    let rest = is_same_within n xs ys in
    if not (x == y) then false else if x == 0 then true else rest

unfoldable pub string_has_suffix : Bytes → Bytes → Bool
unfolding is_same_within
string_has_suffix s p =
    if ltb (length s) (length p)
    then false
    else is_same_within (length p) (drop (length s - length p) s) p

unfoldable pub ends_with_char : Bytes → ℕ → Bool
unfolding byte_at
ends_with_char s p = not (length s == 0) && (byte_at s (length s - 1) == p)

unfoldable pub has_suffix : Bytes → Bytes → Bool
has_suffix p suffix =
    if ltb (length p) (length suffix)
    then false
    else bytes_eq (drop (length p - length suffix) p) suffix

-- `strchr` and `strrchr`, as the place that they find.
unfoldable pub strchr : Bytes → ℕ → Option ℕ
strchr [] c = if c == 0 then some 0 else none
strchr (x ∷ xs) c =
    let rest = elim (strchr xs c) as (λ o. Option ℕ) [ none ↦ none | some i ↦ some (suc i) ] in
    if x == c then some 0 else rest

unfoldable pub strrchr : Bytes → ℕ → Option ℕ
strrchr [] c = if c == 0 then some 0 else none
strrchr (x ∷ xs) c = elim (strrchr xs c) as (λ o. Option ℕ) [
  | none ↦ if x == c then some 0 else none
  | some i ↦ some (suc i)
]

-- `after`, on strings.
unfoldable pub after_char : Bytes → ℕ → Bytes
unfolding strchr c_string
after_char s x = elim (strchr (c_string s) x) [ none ↦ [] | some i ↦ drop (suc i) (c_string s) ]

-- `strstr` is the first place of a text.
unfoldable pub after_text : Bytes → Bytes → Bytes
unfolding find c_string
after_text s x = elim (find (c_string s) (c_string x)) [
  | none ↦ []
  | some i ↦ drop (i + length x) (c_string s)
]

unfoldable pub contains_text : Bytes → Bytes → Bool
unfolding find c_string
contains_text s x = elim (find (c_string s) (c_string x)) [ none ↦ false | some i ↦ true ]

-- None where `verify` fails.
unfoldable pub contains_char : Bytes → ℕ → Option Bool
unfolding strchr c_string
contains_char s x =
    if x == 0 then none else some (elim (strchr (c_string s) x) [ none ↦ false | some i ↦ true ])

unfoldable pub before_char : Bytes → ℕ → Bytes
unfolding strchr c_string take_bytes
before_char s x = elim (strchr (c_string s) x) [ none ↦ s | some i ↦ take_bytes i s ]

unfoldable pub before_text : Bytes → Bytes → Bytes
unfolding find c_string take_bytes
before_text s x = elim (find (c_string s) (c_string x)) [ none ↦ s | some i ↦ take_bytes i s ]

unfoldable pub share_common_prefix : Bytes → Bytes → ℕ
share_common_prefix (p ∷ ps) (q ∷ qs) =
    let rest = share_common_prefix ps qs in if not (p == q) then 0 else suc rest
share_common_prefix ps qs = 0

-- The loop of `toUnsigned`, on 32 bits.
unfoldable pub digits_from : ℕ → Bytes → ℕ
digits_from x [] = x
digits_from x (p ∷ ps) =
    let rest = digits_from ((x * 10 + (p - b'0')) % 4_294_967_296) ps in
    if not (leb b'0' p && leb p b'9') then x else rest

unfoldable pub to_unsigned : Bytes → ℕ
unfolding digits_from c_string
to_unsigned a = digits_from 0 (c_string a)

-- What is found, `L` and `R`.
pub record Split : Type 0 where
  pub found : Bool
  pub left : Bytes
  pub right : Bytes

abbrev pub split_at_place : Bytes → Option ℕ → Split
split_at_place s none = record { found = false; left = s; right = [] }
split_at_place s (some i) = record {
  found = true;
  left = take_bytes i (c_string s);
  right = drop (suc i) (c_string s);
}

unfoldable pub split_on : Bytes → ℕ → Split
unfolding strchr c_string take_bytes
split_on s c = split_at_place s (strchr (c_string s) c)

unfoldable pub r_split_on : Bytes → ℕ → Split
unfolding strrchr c_string take_bytes
r_split_on s c = split_at_place s (strrchr (c_string s) c)

-- The loop of `count`, on 32 bits.
unfoldable pub count_from : ℕ → Bytes → ℕ → ℕ
count_from n [] c = n
count_from n (x ∷ xs) c = count_from (if x == c then (n + 1) % 4_294_967_296 else n) xs c

unfoldable pub count : Bytes → ℕ → ℕ
unfolding count_from
count s c = count_from 0 s c

unfoldable pub skip_spaces : Bytes → Bytes
skip_spaces [] = []
skip_spaces (p ∷ ps) = let rest = skip_spaces ps in if p == b' ' then rest else p ∷ ps

unfoldable pub ltrim : Bytes → Bytes
unfolding skip_spaces c_string
ltrim s = skip_spaces (c_string s)

abbrev pub replace_at : ℕ → ℕ → Bytes → Bytes
replace_at i c [] = []
replace_at zero c (x ∷ xs) = c ∷ xs
replace_at (suc i) c (x ∷ xs) = x ∷ replace_at i c xs

-- The loop of `stripTrailing`, with the rounds that are left: it reads at `i` and writes at `to`.
unfoldable pub strip_from : ℕ → Bytes → ℕ → ℕ → Bytes → Option Bytes
unfolding contains_char byte_at take_bytes
strip_from zero chars to i s = some (take_bytes to s)
strip_from (suc rounds) chars to i s =
    let moved = if i == to then s else replace_at to (byte_at s i) s in
    let skipped = strip_from rounds chars to (suc i) s in
    let kept = strip_from rounds chars (suc to) (suc i) moved in
    elim (contains_char chars (byte_at s i)) as (λ o. Option Bytes) [
      | none ↦ none
      | some b ↦ if b then skipped else kept
    ]

unfoldable pub strip_trailing : Bytes → Bytes → Option Bytes
unfolding strip_from
strip_trailing s chars = strip_from (length s) chars 0 0 s
