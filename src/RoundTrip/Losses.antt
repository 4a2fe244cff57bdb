-- ===== src/RoundTrip/Losses.antt =====
-- What does not come back: binary data, the fractions of milliseconds, and dates before 1970.
use streamsx_mongo_db.RoundTrip.Stored.{build_bson_object_with_key-eq-document}
use streamsx_mongo_db.Bson.Builder.{ok}
use streamsx_mongo_db.Prelude.{
  ℕ, suc, ◌*◌, ◌/◌, ◌%◌, ◌<◌, ◌≢◌, ◌≡◌, refl, ◌∙◌, Bool, true, false, Bytes, arith, ◌⊎◌, inl, inr,
  has_nul, some, ap,
}
use streamsx_mongo_db.Prelude.Int.{ℤ, pos, negsuc, neg_part, ◌*ℤ◌, ◌+ℤ◌}
use streamsx_mongo_db.Prelude.Words.{wrap_signed}
use streamsx_mongo_db.Spl.Types.{SplTimestamp, blob, timestamp, prim}
use streamsx_mongo_db.Spl.Runtime.{Runtime}
use streamsx_mongo_db.Bson.Document
use streamsx_mongo_db.Bson.Document.{BsonValue, append_fields, first_field, Fields, field}
use streamsx_mongo_db.Bson.Element.{Conversions, Library, FindsFields}
use streamsx_mongo_db.BsonCommon.{millis_of, build_bson_object_with_key}
use streamsx_mongo_db.BsonCommon.Reference.{document}
use streamsx_mongo_db.QueryCommon.{
  handle_primitive, handle_bson_object, quot, rem, handle_named, if_found,
}
use streamsx_mongo_db.RoundTrip.Values.{first_field-here}

-- No element whatever is read into a blob attribute: the guard `isSimpleType` lets no binary data
-- through, and no other type is wanted.
blob_never_read :
    (C : Conversions) (R : Runtime) (be : BsonValue) (attr : Bytes) (applied : Bool)
    → handle_primitive C R blob be attr applied ≡ (attr, applied)
unfolding handle_primitive
blob_never_read C R (Document.bin_data k bs) attr applied = refl
blob_never_read C R _ attr applied = refl

-- Only a date is read into a timestamp attribute; a BSON timestamp is not.
timestamp_reads_dates_only :
    (C : Conversions) (R : Runtime) (be : BsonValue) (attr : SplTimestamp) (applied : Bool)
    → ((ms : ℤ) × (be ≡ Document.date ms)
        × (handle_primitive C R timestamp be attr applied
            ≡ (R.create_timestamp (quot ms 1000) (rem ms 1000 *ℤ pos 1_000_000), true)))
      ⊎ (handle_primitive C R timestamp be attr applied ≡ (attr, applied))
unfolding handle_primitive
timestamp_reads_dates_only C R (Document.date ms) attr applied = inl (ms, refl, refl)
timestamp_reads_dates_only C R _ attr applied = inr refl

millis_read_back :
    (s n : ℕ) (m : ℤ)
    → s < 9_000_000_000_000_000
    → n < 1_000_000_000
    → let ms = millis_of (record { seconds = pos s; nanoseconds = n; machine_id = m }) in
      (quot ms 1000 ≡ pos s) × (rem ms 1000 *ℤ pos 1_000_000 ≡ pos (n / 1_000_000 * 1_000_000))
unfolding millis_of quot rem wrap_signed ◌*ℤ◌ ◌+ℤ◌
millis_read_back s n m hs hn = ground arith

-- A timestamp from 1970 on, within 9 * 10 ^ 15 seconds, that is stored under a key without a zero byte
-- and read back under that name makes the value that createTimestamp gives for its seconds and its
-- nanoseconds cut to whole milliseconds, whatever the attribute held, and counts as read. The driver's
-- look-up of a field behaves as documented.
pub timestamp_to_millisecond :
    (C : Conversions) (L : Library) (R : Runtime) (key : Bytes) (s n : ℕ) (m : ℤ)
    (attr : SplTimestamp)
    → FindsFields L
    → has_nul key ≡ false
    → s < 9_000_000_000_000_000
    → n < 1_000_000_000
    → (fs : Fields) × (build_bson_object_with_key R
          (prim timestamp)
          (some key)
          (record { seconds = pos s; nanoseconds = n; machine_id = m })
        ≡ ok fs)
      × (handle_named L fs key (handle_bson_object C L R (prim timestamp)) attr false
          ≡ (R.create_timestamp (pos s) (pos (n / 1_000_000 * 1_000_000)), true))
unfolding handle_bson_object handle_primitive handle_named quot rem ◌*ℤ◌ document
timestamp_to_millisecond C L R key s n m attr finds clean hs hn =
    let stored : SplTimestamp = record { seconds = pos s; nanoseconds = n; machine_id = m } in
    let doc = document R (prim timestamp) stored in
    let (whole, part) = millis_read_back s n m hs hn in
    (
      field key doc Document.nil,
      build_bson_object_with_key-eq-document R (prim timestamp) key stored clean tt,
      ap (λ found. if_found found (handle_bson_object C L R (prim timestamp)) attr false)
            (finds (field key doc Document.nil) key ∙ first_field-here key doc Document.nil)
          ∙ ap (λ x. (R.create_timestamp x (rem (millis_of stored) 1000 *ℤ pos 1_000_000), true))
              whole
          ∙ ap (λ y. (R.create_timestamp (pos s) y, true)) part,
    )

-- A date before 1970 that is no whole second makes the nanoseconds that are handed to
-- `createTimestamp` negative.
early_date_nanoseconds :
    (n : ℕ) → suc n % 1000 ≢ 0 → 0 < neg_part (rem (negsuc n) 1000 *ℤ pos 1_000_000)
unfolding rem ◌*ℤ◌
early_date_nanoseconds n h = ground arith
