-- ===== src/Text/StringData.antt =====
-- base/string_data.h and string_data-inl.h: StringData, a piece of text that somebody else owns. A
-- pointer and a size stand for the bytes; a null pointer comes with size 0. The position `npos` is
-- none, except as a default argument. `tolower`, which depends on the locale, is a parameter.
use streamsx_mongo_db.Prelude.{
  ℕ, zero, suc, ◌-◌, Bool, true, false, not, ◌&&◌, Option, none, some, [], ◌∷◌, ◌++◌, Bytes, drop,
  length, ltb, leb, ◌==◌, if◌then◌else◌,
}
use streamsx_mongo_db.Prelude.Int.{ℤ, pos, negsuc, ltb_ℤ}
use streamsx_mongo_db.Wire.Reader.{c_string, take_bytes}

abbrev pub npos : ℕ
npos = 18_446_744_073_709_551_615

-- The constructor from a pointer to text with a terminator, none for a null one.
unfoldable pub of_c_string : Option Bytes → Bytes
unfolding c_string
of_c_string none = []
of_c_string (some memory) = c_string memory

-- `memcmp` on so many bytes: only its sign is used.
unfoldable pub memcmp : ℕ → Bytes → Bytes → ℤ
memcmp zero xs ys = pos 0
memcmp (suc n) (x ∷ xs) (y ∷ ys) =
    let rest = memcmp n xs ys in if ltb x y then negsuc 0 else if ltb y x then pos 1 else rest
memcmp (suc n) xs ys = pos 0

abbrev pub is_zero : ℤ → Bool
is_zero (pos n) = n == 0
is_zero (negsuc n) = false

unfoldable pub compare : Bytes → Bytes → ℤ
unfolding memcmp
compare this other =
    let res =
      memcmp (if ltb (length other) (length this) then length other else length this) this other in
    if not (is_zero res)
    then if ltb_ℤ (pos 0) res then pos 1 else negsuc 0
    else if length this == length other
    then pos 0
    else if ltb (length other) (length this)
    then pos 1
    else negsuc 0

-- The six operators.
unfoldable pub equal : Bytes → Bytes → Bool
unfolding compare
equal lhs rhs = (length lhs == length rhs) && is_zero (compare lhs rhs)

unfoldable pub unequal : Bytes → Bytes → Bool
unfolding equal
unequal lhs rhs = not (equal lhs rhs)

unfoldable pub is_less : Bytes → Bytes → Bool
unfolding compare
is_less lhs rhs = ltb_ℤ (compare lhs rhs) (pos 0)

unfoldable pub is_at_most : Bytes → Bytes → Bool
unfolding compare
is_at_most lhs rhs = not (ltb_ℤ (pos 0) (compare lhs rhs))

unfoldable pub is_greater : Bytes → Bytes → Bool
unfolding compare
is_greater lhs rhs = ltb_ℤ (pos 0) (compare lhs rhs)

unfoldable pub is_at_least : Bytes → Bytes → Bool
unfolding compare
is_at_least lhs rhs = not (ltb_ℤ (compare lhs rhs) (pos 0))

-- The loop of `equalCaseInsensitive`, over texts of one size.
unfoldable pub equal_letters : (ℕ → ℕ) → Bytes → Bytes → Bool
equal_letters tolower (a ∷ this) (b ∷ other) =
    let rest = equal_letters tolower this other in
    if a == b then rest else if tolower a == tolower b then rest else false
equal_letters tolower this other = true

unfoldable pub equal_case_insensitive : (ℕ → ℕ) → Bytes → Bytes → Bool
unfolding equal_letters
equal_case_insensitive tolower this other =
    if not (length other == length this) then false else equal_letters tolower this other

-- The destination afterwards.
unfoldable pub copy_to : Bytes → Bool → Bytes → Bytes
copy_to this include_ending_null dest =
    let copied = if include_ending_null then this ++ (0 ∷ []) else this in
    copied ++ drop (length copied) dest

-- `memchr` from a place on, as the place that it finds.
unfoldable pub memchr : ℕ → ℕ → Bytes → Option ℕ
memchr place c [] = none
memchr place c (x ∷ xs) = let rest = memchr (suc place) c xs in if x == c then some place else rest

unfoldable pub find_char : Bytes → ℕ → ℕ → Option ℕ
unfolding memchr
find_char this c from_pos =
    if leb (length this) from_pos then none else memchr from_pos c (drop from_pos this)

-- The loop of `find`, with the rounds that are left.
unfoldable pub find_from : ℕ → Bytes → Bytes → ℕ → Option ℕ
unfolding memcmp
find_from zero this needle i = none
find_from (suc rounds) this needle i =
    let rest = find_from rounds this needle (suc i) in
    if is_zero (memcmp (length needle) (drop i this) needle) then some i else rest

unfoldable pub find : Bytes → Bytes → Option ℕ
unfolding find_from
find this needle =
    let mx = length this in
    let needle_size = length needle in
    if needle_size == 0
    then some 0
    else if ltb mx needle_size
    then none
    else find_from (suc (mx - needle_size)) this needle 0

-- The byte at a place of the text; the code asks for no other.
unfoldable pub byte_at : Bytes → ℕ → ℕ
byte_at [] i = 0
byte_at (x ∷ xs) zero = x
byte_at (x ∷ xs) (suc i) = byte_at xs i

-- The loop of `rfind`, from a place down.
unfoldable pub rfind_from : Bytes → ℕ → ℕ → Option ℕ
unfolding byte_at
rfind_from this c zero = none
rfind_from this c (suc cur) =
    let rest = rfind_from this c cur in if byte_at this cur == c then some cur else rest

unfoldable pub rfind : Bytes → ℕ → ℕ → Option ℕ
unfolding rfind_from
rfind this c from_pos =
    rfind_from this c (if ltb (length this) from_pos then length this else from_pos)

-- None where `out_of_range` is thrown.
unfoldable pub substr : Bytes → ℕ → ℕ → Option Bytes
unfolding take_bytes
substr this p n =
    let left = length this - p in
    if ltb (length this) p
    then none
    else some (take_bytes (if ltb left n then left else n) (drop p this))

unfoldable pub starts_with : Bytes → Bytes → Option Bool
unfolding substr equal
starts_with this prefix = elim (substr this 0 (length prefix)) [
  | none ↦ none
  | some s ↦ some (equal s prefix)
]

unfoldable pub ends_with : Bytes → Bytes → Option Bool
unfolding substr equal
ends_with this suffix =
    if ltb (length this) (length suffix)
    then some false
    else elim (substr this (length this - length suffix) npos) [
      | none ↦ none
      | some s ↦ some (equal s suffix)
    ]
