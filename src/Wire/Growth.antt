-- ===== src/Wire/Growth.antt =====
-- How the buffer of bson/util/builder.h grows.
use streamsx_mongo_db.Prelude.{
  ℕ, zero, suc, ◌+◌, ◌*◌, ◌<◌, ◌≤◌, ◌≡◌, refl, ◌∙◌, true, false, some, Bytes, ltb, length,
  length-append, arith, ◌++◌, Bool-cases, inl, inr,
}
use streamsx_mongo_db.Wire.Buffer.{
  Buffer, written, len, buffer_max_size, double_until, checked_size, grow_reallocate, ensure,
  append_buf, reserve_bytes,
}

-- `a` doubled `i` times.
abbrev doubled : ℕ → ℕ → ℕ
doubled zero a = a
doubled (suc i) a = doubled i (a * 2)

doubled-le : (i a : ℕ) → a ≤ doubled i a
doubled-le zero a = omega arith
doubled-le (suc i) a = omega (arith, doubled-le i (a * 2))

stops : (fuel a m : ℕ) → ltb a m ≡ false → double_until (suc fuel) a m ≡ some a
unfolding double_until
stops fuel a m h = rw h

goes_on :
    (fuel a m : ℕ)
    → ltb a m ≡ true
    → ltb a 1_073_741_824 ≡ true
    → double_until (suc fuel) a m ≡ double_until fuel (a * 2) m
unfolding double_until
goes_on fuel a m h h' = rw (h, h')

ltb-false-le : (a m : ℕ) → ltb a m ≡ false → m ≤ a
ltb-false-le a m h = ground arith

ltb-true-lt : (a m : ℕ) → ltb a m ≡ true → a < m
ltb-true-lt a m h = ground arith

lt-ltb : (a m : ℕ) → a < m → ltb a m ≡ true
lt-ltb a m h = ground arith

le-ltb : (a m : ℕ) → m ≤ a → ltb a m ≡ false
le-ltb a m h = ground arith

-- Where `a` reaches the limit in `i` doublings, the loop stops at a size between what is wanted and
-- the limit.
double_until-fits :
    (i fuel a m : ℕ)
    → doubled i a ≡ buffer_max_size
    → m ≤ buffer_max_size
    → i < fuel
    → (a' : ℕ) × (double_until fuel a m ≡ some a') × (m ≤ a') × (a' ≤ buffer_max_size)
double_until-fits i zero a m d h f = absurd (omega (arith, f))
double_until-fits zero (suc fuel) a m d h f =
    (a, stops fuel a m (le-ltb a m (omega (arith, d, h))), omega (arith, d, h), omega (arith, d))
double_until-fits (suc i) (suc fuel) a m d h f = elim (Bool-cases (ltb a m)) [
  | inr small ↦
      (a, stops fuel a m small, ltb-false-le a m small, omega (arith, d, doubled-le i (a * 2)))
  | inl big ↦
      let (a', e, low, high) = double_until-fits i fuel (a * 2) m d h (omega (arith, f)) in
      (
        a',
        goes_on fuel a m big (lt-ltb a _ (omega (arith, d, doubled-le i (a * 2)))) ∙ e,
        low,
        high,
      )
]

-- Whatever size is wanted up to 64 MB, the reallocation finds one that suffices and keeps to 64 MB.
pub grow_reallocate_lem :
    (m : ℕ) (b : Buffer)
    → m ≤ buffer_max_size
    → (a : ℕ) × (grow_reallocate m b ≡ written (record b { size = a }))
      × (m ≤ a)
      × (a ≤ buffer_max_size)
unfolding grow_reallocate checked_size
grow_reallocate_lem m b h =
    let (a, e, low, high) = double_until-fits 20 32 64 m refl h (omega arith) in
    (a, rw (e, le-ltb buffer_max_size a high), low, high)

-- What was written and reserved has room, within the limit.
abbrev pub IsRoomy : Buffer → Type 0
IsRoomy b = (len b + b.reserved_bytes ≤ b.size) × (b.size ≤ buffer_max_size)

reallocates : (m : ℕ) (b : Buffer) → ltb b.size m ≡ true → ensure m b ≡ grow_reallocate m b
unfolding ensure
reallocates m b h = rw h

ensure_lem :
    (m : ℕ) (b : Buffer)
    → b.size ≤ buffer_max_size
    → m ≤ buffer_max_size
    → (a : ℕ) × (ensure m b ≡ written (record b { size = a })) × (m ≤ a) × (a ≤ buffer_max_size)
unfolding ensure
ensure_lem m b hb h = elim (Bool-cases (ltb b.size m)) [
  | inr enough ↦ (b.size, rw enough, ltb-false-le b.size m enough, hb)
  | inl short ↦
      let (a, e, low, high) = grow_reallocate_lem m b h in (a, reallocates m b short ∙ e, low, high)
]

-- Bytes that fit below 64 MB, together with those written and reserved, are appended; the
-- reservation stays, and so does the room.
pub append_buf_lem :
    (bs : Bytes) (b : Buffer)
    → IsRoomy b
    → len b + length bs + b.reserved_bytes ≤ buffer_max_size
    → (b' : Buffer) × (append_buf bs b ≡ written b')
      × (b'.data_bytes ≡ b.data_bytes ++ bs)
      × (b'.reserved_bytes ≡ b.reserved_bytes)
      × IsRoomy b'
unfolding append_buf
append_buf_lem bs b (room, lim) h =
    let (a, e, low, high) = ensure_lem (len b + length bs + b.reserved_bytes) b lim h in
    (
      record { data_bytes = b.data_bytes ++ bs; size = a; reserved_bytes = b.reserved_bytes },
      rw e,
      refl,
      refl,
      (omega (arith, low, length-append b.data_bytes bs), high),
    )

-- A reservation that fits leaves the bytes as they are, and the room.
pub reserve_bytes_lem :
    (n : ℕ) (b : Buffer)
    → IsRoomy b
    → len b + b.reserved_bytes + n ≤ buffer_max_size
    → (b' : Buffer) × (reserve_bytes n b ≡ written b')
      × (b'.data_bytes ≡ b.data_bytes)
      × (b'.reserved_bytes ≡ b.reserved_bytes + n)
      × IsRoomy b'
unfolding reserve_bytes
reserve_bytes_lem n b (room, lim) h =
    let (a, e, low, high) = ensure_lem (len b + b.reserved_bytes + n) b lim h in
    (
      record { data_bytes = b.data_bytes; size = a; reserved_bytes = b.reserved_bytes + n },
      rw e,
      refl,
      refl,
      (omega (arith, low), high),
    )
