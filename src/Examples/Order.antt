-- ===== src/Examples/Order.antt =====
-- The theorems on texts and on the directions of keys at concrete ones.
use streamsx_mongo_db.Prelude.Int.{ℤ, pos, negsuc}
use streamsx_mongo_db.Prelude.{ℕ, ◌≡◌, refl, bytes, some, arith}
use streamsx_mongo_db.Bson.Document
use streamsx_mongo_db.Bson.Document.{Fields, field}
use streamsx_mongo_db.Bson.Ordering.{make, is_negative_double}
use streamsx_mongo_db.Bson.Directions.{KeepsSign, IsOrdered, make-IsOrdered}
use streamsx_mongo_db.Text.StringData.{find, find_char, rfind, starts_with, ends_with}
use streamsx_mongo_db.Text.Searches.{OccursAt, IsFirst}
use streamsx_mongo_db.Text.Characters.{IsAtFrom, IsAtBelow, IsLast, finders-find}
use streamsx_mongo_db.Text.Comparisons.{AreOrdered, compare-AreOrdered}
use streamsx_mongo_db.Text.Affixes.{Decides, StartsWith, EndsWith, affixes-Decides}
use streamsx_mongo_db.Bson.Element.{Conversions}

-- { a : 1.0, b : -1.0, c : -2 }
abbrev a_pattern : Fields
a_pattern = field (bytes "a") (Document.number_double 4_607_182_418_800_017_408) (
    field (bytes "b") (Document.number_double 13_830_554_455_654_793_216)
      (field (bytes "c") (Document.number_int (negsuc 1)) Document.nil))

-- 1.0 and -1.0, for an integer.
abbrev to_a_double : ℤ → ℕ
to_a_double (pos n) = 4_607_182_418_800_017_408
to_a_double (negsuc n) = 13_830_554_455_654_793_216

abbrev sign_conversion : Conversions
sign_conversion = record { to_double = to_a_double; to_int = pos; to_long_long = pos }

sign_conversion-KeepsSign : KeepsSign sign_conversion
unfolding is_negative_double
sign_conversion-KeepsSign (pos n) = ground arith
sign_conversion-KeepsSign (negsuc n) = ground arith

make-IsOrdered_example : IsOrdered a_pattern (make sign_conversion a_pattern)
make-IsOrdered_example = make-IsOrdered sign_conversion a_pattern sign_conversion-KeepsSign

-- The bits of the pattern: the second and the third key descend.
make_bits : make sign_conversion a_pattern ≡ some (record { bits = 6 })
unfolding make
make_bits = refl

finders-find_example :
    IsFirst
      (OccursAt (bytes "mongodb://host") (bytes "://"))
      (find (bytes "mongodb://host") (bytes "://"))
    × IsFirst (IsAtFrom (bytes "mongodb://host") b'o' 9) (find_char (bytes "mongodb://host") b'o' 9)
    × IsLast (IsAtBelow (bytes "mongodb://host") b'o' 9) (rfind (bytes "mongodb://host") b'o' 9)
finders-find_example = finders-find (bytes "mongodb://host") (bytes "://") b'o' 9

places :
    (find (bytes "mongodb://host") (bytes "://") ≡ some 7)
    × (find_char (bytes "mongodb://host") b'o' 9 ≡ some 11)
    × (rfind (bytes "mongodb://host") b'o' 9 ≡ some 4)
unfolding find find_char rfind
places = (refl, refl, refl)

compare-AreOrdered_example : AreOrdered (bytes "host") (bytes "hosts")
compare-AreOrdered_example = compare-AreOrdered (bytes "host") (bytes "hosts")

affixes-Decides_example :
    Decides (StartsWith (bytes "hosts") (bytes "host")) (starts_with (bytes "hosts") (bytes "host"))
    × Decides (EndsWith (bytes "hosts") (bytes "host")) (ends_with (bytes "hosts") (bytes "host"))
affixes-Decides_example = affixes-Decides (bytes "hosts") (bytes "host") (omega arith)
