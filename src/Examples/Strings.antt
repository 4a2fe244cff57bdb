-- ===== src/Examples/Strings.antt =====
-- The theorems on the helpers of util/mongoutils/str.h at concrete strings.
use streamsx_mongo_db.Prelude.{◌≡◌, refl, bytes, some, true, not, keep_if, Bytes}
use streamsx_mongo_db.Text.Str.{
  split_on, r_split_on, before_char, after_char, strip_trailing, to_unsigned, ltrim, count,
  share_common_prefix, string_has_suffix,
}
use streamsx_mongo_db.Text.Splits.{IsSplitAt, split_on-IsSplitAt}
use streamsx_mongo_db.Text.Stripped.{is_listed, strip_trailing-keep_if}

abbrev dotted : Bytes
dotted = bytes "db.col.part"

split_on-IsSplitAt_example :
    IsSplitAt b'.' dotted (λ r. r.left) (split_on dotted b'.')
    × IsSplitAt b'.' dotted (λ r. r.right) (r_split_on dotted b'.')
    × (before_char dotted b'.' ≡ (split_on dotted b'.').left)
    × (after_char dotted b'.' ≡ (split_on dotted b'.').right)
split_on-IsSplitAt_example = split_on-IsSplitAt dotted b'.' refl refl

strip_trailing-keep_if_example :
    strip_trailing (bytes "a b ") (bytes " ")
    ≡ some (keep_if (λ x. not (is_listed (bytes " ") x)) (bytes "a b "))
strip_trailing-keep_if_example = strip_trailing-keep_if (bytes "a b ") (bytes " ") refl

-- The space in the middle goes too.
strip_trailing_all : strip_trailing (bytes "a b ") (bytes " ") ≡ some (bytes "ab")
unfolding strip_trailing
strip_trailing_all = refl

small_helpers :
    (to_unsigned (bytes "27017/db") ≡ 27_017)
    × (ltrim (bytes "  a b") ≡ bytes "a b")
    × (count dotted b'.' ≡ 2)
    × (share_common_prefix (bytes "hosts") (bytes "house") ≡ 2)
    × (string_has_suffix dotted (bytes "part") ≡ true)
unfolding to_unsigned ltrim count share_common_prefix string_has_suffix
small_helpers = (refl, refl, refl, refl, refl)
