-- ===== src/Examples/Hosts.antt =====
-- The theorems on byte orders at concrete values.
use streamsx_mongo_db.Prelude.{◌≡◌, [], ◌∷◌, true, Bytes, arith, reverse_onto}
use streamsx_mongo_db.Prelude.Int.{pos, negsuc}
use streamsx_mongo_db.Wire.Endian.{big_endian}
use streamsx_mongo_db.Wire.Converters.{
  int16, int32, long_long, other, convert_native_to_big, convert_big_to_native,
  convert_native_to_little, convert_little_to_native,
}
use streamsx_mongo_db.Wire.Numbers.{write_le}
use streamsx_mongo_db.Wire.Frame.{overwrite}
use streamsx_mongo_db.Wire.Host.{read_little, write_little, read_big, write_big}
use streamsx_mongo_db.Wire.Views.{conversions_undone, written_bytes, written_read_back}

abbrev a_view : Bytes
a_view = 1 ∷ 2 ∷ 3 ∷ 4 ∷ 5 ∷ 6 ∷ 7 ∷ 8 ∷ 9 ∷ []

conversions_undone_example :
    (convert_little_to_native true big_endian long_long
        (convert_native_to_little true big_endian long_long (negsuc 300))
      ≡ negsuc 300)
    × (convert_big_to_native true big_endian long_long
          (convert_native_to_big true big_endian long_long (negsuc 300))
        ≡ negsuc 300)
conversions_undone_example =
    conversions_undone true big_endian long_long (negsuc 300) (omega arith, omega arith)

written_bytes_example :
    (write_little true big_endian (other int16) 3 (pos 258) a_view
      ≡ overwrite 3 (write_le 2 258) a_view)
    × (write_big true big_endian (other int16) 3 (pos 258) a_view
        ≡ overwrite 3 (reverse_onto (write_le 2 258) []) a_view)
written_bytes_example =
    written_bytes true big_endian (other int16) (pos 258) (omega arith, omega arith) 3 a_view

written_read_back_example :
    (read_little true big_endian
        (other int32)
        2
        (write_little true big_endian (other int32) 2 (negsuc 6) a_view)
      ≡ negsuc 6)
    × (read_big true big_endian
          (other int32)
          2
          (write_big true big_endian (other int32) 2 (negsuc 6) a_view)
        ≡ negsuc 6)
written_read_back_example =
    written_read_back true big_endian (other int32) (negsuc 6) (omega arith, omega arith) 2 a_view
      (omega arith)
