-- ===== src/Wire/Iteration.antt =====
-- bson/bsonobjiterator.h on bytes: an iterator is a place in the bytes of an object, and the place of
-- the last one. The size of an element is compiled, a parameter: `size`, and `size` within a limit.
use streamsx_mongo_db.Wire.Reader.{eoo, c_string}
use streamsx_mongo_db.Prelude.{
  ℕ, zero, suc, ◌+◌, Bool, not, Option, none, some, Bytes, drop, if◌then◌else◌, ◌||◌, length,
}
use streamsx_mongo_db.Prelude.Int.{ℤ, pos, ltb_ℤ, ◌-ℤ◌, ◌+ℤ◌, pos_part}
use streamsx_mongo_db.Wire.Objects.{BsonObj, object_size}

-- `_pos` and `_theend`, from the start of the object.
pub record ObjIterator : Type 0 where
  pub bytes_of_object : Bytes
  pub place : ℕ
  pub the_end : ℤ

unfoldable pub iterator_within : Bytes → ℤ → ObjIterator
iterator_within bs (pos zero) = record { bytes_of_object = bs; place = 0; the_end = pos 0 }
iterator_within bs size = record { bytes_of_object = bs; place = 4; the_end = size -ℤ pos 1 }

unfoldable pub iterator_of : BsonObj → ObjIterator
unfolding iterator_within object_size
iterator_of o = iterator_within o.objdata (object_size o)

unfoldable pub iterator_between : Bytes → ℕ → ObjIterator
iterator_between bs size = record { bytes_of_object = bs; place = 4; the_end = pos size -ℤ pos 1 }

unfoldable pub more_elements : ObjIterator → Bool
more_elements it = ltb_ℤ (pos it.place) it.the_end

unfoldable pub more_with_eoo : ObjIterator → Bool
more_with_eoo it = not (ltb_ℤ it.the_end (pos it.place))

-- `operator*`; none where `verify` fails.
unfoldable pub current_element : ObjIterator → Option Bytes
unfolding more_with_eoo
current_element it = if more_with_eoo it then some (drop it.place it.bytes_of_object) else none

module _ (size_of : Bytes → ℕ) where
  unfoldable pub next_element : ObjIterator → Option (Bytes × ObjIterator)
  unfolding more_with_eoo
  next_element it =
      let e = drop it.place it.bytes_of_object in
      if more_with_eoo it then some (e, record it { place = it.place + size_of e }) else none

  -- `operator++`.
  unfoldable pub advance_iterator : ObjIterator → Option ObjIterator
  unfolding next_element
  advance_iterator it = elim (next_element it) [ none ↦ none | some (e, it') ↦ some it' ]

  -- `BSONForEach`, on fuel: none where it runs out or where `verify` fails.
  unfoldable pub for_each {ℓ} : {A : Type ℓ} → (Bytes → A → A) → ℕ → ObjIterator → A → Option A
  unfolding more_elements next_element
  for_each body zero it a = none
  for_each body (suc fuel) it a =
      if more_elements it
      then elim (next_element it) [
        | none ↦ none
        | some (e, it') ↦ for_each body fuel it' (body e a)
      ]
      else some a

-- The constructor of an element within a limit: its name must end before the limit.
unfoldable pub is_name_within : ℤ → Bytes → Bool
unfolding eoo c_string
is_name_within max_len e = eoo e || ltb_ℤ (pos (length (c_string (drop 1 e)))) (max_len -ℤ pos 1)

-- `next(true)`: the name must end within what remains, and the size within it must be positive.
unfoldable pub next_element_checked : (ℤ → Bytes → ℤ) → ObjIterator → Option (Bytes × ObjIterator)
unfolding more_with_eoo is_name_within
next_element_checked size_within it =
    let e = drop it.place it.bytes_of_object in
    let max_len = it.the_end +ℤ pos 1 -ℤ pos it.place in
    let size = size_within max_len e in
    if not (more_with_eoo it)
    then none
    else if not (ltb_ℤ (pos 0) max_len)
    then none
    else if not (is_name_within max_len e)
    then none
    else if not (ltb_ℤ (pos 0) size)
    then none
    else some (e, record it { place = it.place + pos_part size })
