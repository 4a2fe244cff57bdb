-- ===== src/BsonCommon/Encoded.antt =====
-- The bytes that the generated code (Common/BSONCommon.pm) makes the driver's builders write are those
-- of the reference document.
use mathlib.Core.Path.{subst, sym}
use mathlib.Core.List.{append-nil}
use streamsx_mongo_db.Prelude.Words.{w8}
use streamsx_mongo_db.Prelude.{
  ℕ, ◌+◌, ◌≤◌, ◌≡◌, refl, ◌∙◌, ap, false, List, [], ◌++◌, Bytes, All, All-map, length, has_nul,
  arith,
}
use streamsx_mongo_db.Prelude.Int.{ℤ}
use streamsx_mongo_db.Spl.Types.{
  Primitive, PrimValue, SplType, Attributes, Value, Record, complex, signed, unsigned, prim, list,
  blist, set, bset, map, bmap, tuple, nil, attribute,
}
use streamsx_mongo_db.Spl.Runtime.{Runtime}
use streamsx_mongo_db.Bson.Document
use streamsx_mongo_db.Bson.Document.{BsonValue, Fields, field, type_of}
use streamsx_mongo_db.Bson.Builder.{stored}
use streamsx_mongo_db.BsonCommon.{handle_primitive, key_bytes}
use streamsx_mongo_db.BsonCommon.Reference.{
  document, attributes, items, pairs, key_name, primitive_document, IsPrimitive, IsKey, IsBuildable,
  AreBuildable,
}
use streamsx_mongo_db.BsonCommon.Total.{key_bytes_lem}
use streamsx_mongo_db.BsonCommon.Lengths.{length-field, items_within, pairs_within}
use streamsx_mongo_db.BsonCommon.OnBytes
use streamsx_mongo_db.BsonCommon.OnBytes.{
  Generated, run, Append, generated, write_items, write_pairs, with_builder, as_array,
  as_sub_object, as_simple, write_bson_object, write_attributes, write_bson_object_with_key,
}
use streamsx_mongo_db.BsonCommon.Runs.{
  Encodes, Runs, Runs-append, write_items-Runs, write_pairs-Runs, simple-Encodes,
  with_builder-framed,
}
use streamsx_mongo_db.Wire.Buffer.{Buffer, written, buffer_max_size}
use streamsx_mongo_db.Wire.Writer.{Writer, write_array, write_object}
use streamsx_mongo_db.Wire.Appends.{header_bytes}
use streamsx_mongo_db.Wire.Elements.{
  value_bytes, elements_bytes, object_bytes, framed, WritesDates, write_value, write_value-Appends,
}
use streamsx_mongo_db.Wire.Frame.{write_nothing-Appends}
use streamsx_mongo_db.Wire.Framed.{length-framed}

abbrev run_append : Bytes → Buffer → Generated Append → Generated Buffer
run_append key b g = OnBytes.◌>>=◌ g (λ value. run (value key b))

module _ (append_date : Bytes → ℤ → Writer) (holder : ℕ) (R : Runtime)
    (dates : WritesDates append_date) (room : holder + 512 ≤ buffer_max_size) where
  -- The bytes of the value fit behind the holder.
  abbrev HasRoom : BsonValue → Type 0
  HasRoom d = holder + length (value_bytes d) ≤ buffer_max_size

  abbrev EncodesType : SplType → Type 0
  EncodesType t =
      (v : Value t)
      → IsBuildable t v
      → HasRoom (document R t v)
      → Encodes (document R t v) (write_bson_object append_date holder R t v)

  array-Encodes :
      (fs : Fields) (m : Buffer → Generated Buffer)
      → (length (elements_bytes fs) + holder ≤ buffer_max_size → Runs (elements_bytes fs) m)
      → HasRoom (Document.array fs)
      → Encodes
          (Document.array fs)
          (as_array append_date holder R (with_builder append_date holder R m))
  unfolding as_array write_value
  array-Encodes fs m runs h =
      let total = length-framed (elements_bytes fs) in
      (
        (λ n. write_array n (object_bytes fs)),
        ap (as_array append_date holder R) (
            with_builder-framed append_date holder R dates room (elements_bytes fs) m
              (runs (omega (arith, h, total))) h),
        λ n nul. write_value-Appends append_date n (Document.array fs) dates nul tt,
      )

  object-Encodes :
      (fs : Fields) (m : Buffer → Generated Buffer)
      → (length (elements_bytes fs) + holder ≤ buffer_max_size → Runs (elements_bytes fs) m)
      → HasRoom (Document.object fs)
      → Encodes
          (Document.object fs)
          (as_sub_object append_date holder R (with_builder append_date holder R m))
  unfolding as_sub_object write_value
  object-Encodes fs m runs h =
      let total = length-framed (elements_bytes fs) in
      (
        (λ n. write_object n (object_bytes fs)),
        ap (as_sub_object append_date holder R) (
            with_builder-framed append_date holder R dates room (elements_bytes fs) m
              (runs (omega (arith, h, total))) h),
        λ n nul. write_value-Appends append_date n (Document.object fs) dates nul tt,
      )

  list-Encodes :
      (t : SplType) (vs : List (Value t))
      → EncodesType t
      → All (IsBuildable t) vs
      → HasRoom (Document.array (items (document R t) 0 vs))
      → Encodes (Document.array (items (document R t) 0 vs)) (
          as_array append_date holder R (
            with_builder append_date holder R
              (write_items (write_bson_object append_date holder R t) 0 vs)))
  list-Encodes t vs ih h r =
      array-Encodes (items (document R t) 0 vs)
        (write_items (write_bson_object append_date holder R t) 0 vs)
        (λ l. write_items-Runs (write_bson_object append_date holder R t) (document R t) 0 vs (
          All-map _ _ vs (λ v hv. ih v hv.0 (omega (arith, hv.1, l)))
            (items_within (IsBuildable t) (document R t) 0 vs
              (length (elements_bytes (items (document R t) 0 vs))) h (omega arith))))
        r

  map-Encodes :
      (k t : SplType) (m : List (Value k × Value t))
      → EncodesType t
      → All (λ (e : Value k × Value t). IsKey k e.0 × IsBuildable t e.1) m
      → HasRoom (Document.object (pairs (key_name k) (document R t) m))
      → Encodes (Document.object (pairs (key_name k) (document R t) m)) (
          as_sub_object append_date holder R (
            with_builder append_date holder R
              (write_pairs (key_bytes k) (write_bson_object append_date holder R t) m)))
  map-Encodes k t m ih h r =
      object-Encodes (pairs (key_name k) (document R t) m)
        (write_pairs (key_bytes k) (write_bson_object append_date holder R t) m)
        (λ l.
          write_pairs-Runs (key_bytes k) (key_name k) (write_bson_object append_date holder R t)
            (document R t) m
            (All-map _ _ m
              (λ e he. (
                (key_bytes_lem k e.0 he.0.0).0,
                (key_bytes_lem k e.0 he.0.0).1,
                ih e.1 he.0.1 (omega (arith, he.1, l)),
              ))
              (pairs_within (λ (e : Value k × Value t). IsKey k e.0 × IsBuildable t e.1)
                (key_name k) (document R t) m
                (length (elements_bytes (pairs (key_name k) (document R t) m))) h (omega arith))))
        r

  primitive-Encodes :
      (p : Primitive) (v : PrimValue p)
      → IsPrimitive p
      → Encodes
          (primitive_document R p v)
          (as_simple append_date holder R (generated (handle_primitive R p v)))
  unfolding handle_primitive primitive_document stored
  primitive-Encodes complex v h = absurd h
  primitive-Encodes (signed w8) v h = simple-Encodes append_date holder R dates room _
  primitive-Encodes (signed _) v h = simple-Encodes append_date holder R dates room _
  primitive-Encodes (unsigned w8) v h = simple-Encodes append_date holder R dates room _
  primitive-Encodes (unsigned _) v h = simple-Encodes append_date holder R dates room _
  primitive-Encodes _ v h = simple-Encodes append_date holder R dates room _

  mutual
    unfolding write_bson_object document attributes

    write_bson_object-Encodes : (t : SplType) → EncodesType t
    write_bson_object-Encodes (prim p) v h r = primitive-Encodes p v h
    write_bson_object-Encodes (list t) v h r = list-Encodes t v (write_bson_object-Encodes t) h r
    write_bson_object-Encodes (blist b t) v h r = list-Encodes t v (write_bson_object-Encodes t) h r
    write_bson_object-Encodes (set t) v h r = list-Encodes t v (write_bson_object-Encodes t) h r
    write_bson_object-Encodes (bset b t) v h r = list-Encodes t v (write_bson_object-Encodes t) h r
    write_bson_object-Encodes (map k t) v h r = map-Encodes k t v (write_bson_object-Encodes t) h r
    write_bson_object-Encodes (bmap b k t) v h r =
        map-Encodes k t v (write_bson_object-Encodes t) h r
    write_bson_object-Encodes (tuple ats) v h r =
        object-Encodes (attributes R ats v) (write_attributes append_date holder R ats v)
          (write_attributes-Runs ats v h) r

    write_attributes-Runs :
        (ats : Attributes) (r : Record ats)
        → AreBuildable ats r
        → length (elements_bytes (attributes R ats r)) + holder ≤ buffer_max_size
        → Runs (elements_bytes (attributes R ats r)) (write_attributes append_date holder R ats r)
    write_attributes-Runs nil r h l = (λ b. written b, λ b. refl, write_nothing-Appends)
    write_attributes-Runs (attribute n t ats) (v, r) (nul, hv, h) l =
        let (here, later) =
          length-field n (document R t v) (attributes R ats r)
            (length (elements_bytes (attributes R (attribute n t ats) (v, r)))) (omega arith) in
        Runs-append (document R t v) n _ (write_bson_object append_date holder R t v)
          (write_attributes append_date holder R ats r) nul
          (write_bson_object-Encodes t v hv (omega (arith, here, l)))
          (write_attributes-Runs ats r h (omega (arith, later, l)))

  -- A value without a complex number, with byte strings without a zero byte as the keys of its maps and
  -- no zero byte in an attribute's name, that is stored under a key with no zero byte makes the printed
  -- code, run on the bytes of the driver's builders, leave the bytes of the object with the key and the
  -- reference document, if these and a holder fit in 64 MB. The compiled appendDate appends the format.
  pub write_bson_object_with_key-eq-object_bytes :
      (t : SplType) (key : Bytes) (v : Value t)
      → has_nul key ≡ false
      → IsBuildable t v
      → holder + length (object_bytes (field key (document R t v) Document.nil)) ≤ buffer_max_size
      → write_bson_object_with_key append_date holder R t key v
        ≡ run (written (object_bytes (field key (document R t v) Document.nil)))
  unfolding write_bson_object_with_key
  write_bson_object_with_key-eq-object_bytes t key v nul h r =
      let d = document R t v in
      let els = header_bytes (type_of d) key ++ value_bytes d in
      let total = length-framed (els ++ []) in
      let (here, later) = length-field key d Document.nil (length (els ++ [])) (omega arith) in
      let (w, e, a) = write_bson_object-Encodes t v h (omega (arith, here, r, total)) in
      with_builder-framed append_date holder R dates room els _
        (w key, λ b. ap (run_append key b) e, a key nul)
        (subst (λ bs. holder + length (framed bs) ≤ buffer_max_size) (append-nil els) r)
      ∙ ap (λ bs. run (written (framed bs))) (sym (append-nil els))
