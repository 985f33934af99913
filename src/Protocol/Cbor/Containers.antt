-- ===== src/Protocol/Cbor/Containers.antt =====
-- What the two sides of packages/protocol/src/cbor make of an array, of an object and of their parts.
use inkpi.Base.{
  ◌%◌, ℕ, zero, suc, ◌+◌, ◌*◌, ◌<◌, ◌≤◌, ◌≡◌, refl, false, List, [], ◌∷◌, ◌++◌, append_assoc,
  length, ltb, ok, not, >>=-eq-ok, length-append, All, arith,
}
use inkpi.Protocol.Cbor.{
  Value, array, object, Values, item, Members, member, max_uint32, ResolvedCborOptions,
  container_limit,
}
use inkpi.Protocol.Cbor.Utf8.{IsScalar}
use inkpi.Protocol.Cbor.Encoder.{
  CborWriter, write_argument, count_values, count_members, encode_string, encode_item, encode_items,
  encode_members,
}
use inkpi.Protocol.Cbor.Decoder.{has_key, read_item, read_items, read_members}
use inkpi.Protocol.Cbor.Writer.{
  IsOpen, Wrote-trans, argument_info, argument_tail, write_argument-Wrote,
}
use inkpi.Protocol.Cbor.Reading.{require_ok, read_length-tail, head_info, head_major, Reads}
use inkpi.Protocol.Cbor.Items.{Item, Items, AllMembers, not_too_deep, string-Item}

pub suc_of : (n : ℕ) → 0 < n → (m : ℕ) × (n ≡ suc m)
suc_of zero h = absurd (omega arith)
suc_of (suc m) h = (m, refl)

module _ (o : ResolvedCborOptions) (bytes_sound : o.max_byte_length ≤ max_uint32)
    (container_sound : o.max_container_length ≤ max_uint32) where
  pub Reads-array :
      (vs : Values) (depth : ℕ) (ds : List ℕ)
      → ltb o.max_depth depth ≡ false
      → count_values vs ≤ o.max_container_length
      → ((fuel : ℕ) (rest : List ℕ)
          → 2 * length ds + 1 < fuel
          → read_items o fuel (count_values vs) (suc depth) (ds ++ rest) ≡ ok (vs, rest))
      → Reads o (array vs) depth (
          (4 * 32 + argument_info (count_values vs)) % 256
          ∷ (argument_tail (count_values vs) ++ ds))
  unfolding read_item
  Reads-array vs depth ds deep within reads zero rest h = absurd (omega arith)
  Reads-array vs depth ds deep within reads (suc fuel) rest h =
      let n = count_values vs in
      rw
        (
          append_assoc (argument_tail n) ds rest,
          deep,
          head_major 4 n (omega arith),
          head_info 4 n,
          read_length-tail n (ds ++ rest) container_limit o.max_container_length within
              (omega arith),
          reads fuel rest (omega (arith, length-append (argument_tail n) ds)),
        )
        refl

  pub Reads-object :
      (ms : Members) (depth : ℕ) (ds : List ℕ)
      → ltb o.max_depth depth ≡ false
      → count_members ms ≤ o.max_container_length
      → ((fuel : ℕ) (rest : List ℕ)
          → 2 * length ds + 1 < fuel
          → read_members o fuel (count_members ms) [] (suc depth) (ds ++ rest) ≡ ok (ms, rest))
      → Reads o (object ms) depth (
          (5 * 32 + argument_info (count_members ms)) % 256
          ∷ (argument_tail (count_members ms) ++ ds))
  unfolding read_item
  Reads-object ms depth ds deep within reads zero rest h = absurd (omega arith)
  Reads-object ms depth ds deep within reads (suc fuel) rest h =
      let n = count_members ms in
      rw
        (
          append_assoc (argument_tail n) ds rest,
          deep,
          head_major 5 n (omega arith),
          head_info 5 n,
          read_length-tail n (ds ++ rest) container_limit o.max_container_length within
              (omega arith),
          reads fuel rest (omega (arith, length-append (argument_tail n) ds)),
        )
        refl

  -- An array, by what holds of its items.
  pub array-Item :
      (w : CborWriter) (vs : Values) (depth : ℕ) (w' : CborWriter)
      → IsOpen w
      → ((w1 : CborWriter)
          → IsOpen w1
          → encode_items o w1 vs (suc depth) ≡ ok w'
          → Items o bytes_sound container_sound vs (suc depth) w1 w')
      → encode_item o w (array vs) depth ≡ ok w'
      → Item o bytes_sound container_sound (array vs) depth w w'
  unfolding encode_item read_item
  array-Item w vs depth w' open_ rec h =
      let n = count_values vs in
      let (deep, h1) = require_ok (not (ltb o.max_depth depth)) _ _ h in
      let (fits, h2) = require_ok (not (ltb o.max_container_length n)) _ _ h1 in
      let (w1, head, body) = >>=-eq-ok (write_argument w 4 n) _ h2 in
      let first = write_argument-Wrote w 4 n w1 open_ head in
      let (ds, wrote, reads) = rec w1 first.open_ body in
      let within : n ≤ o.max_container_length = ground arith in
      (
        _,
        Wrote-trans first wrote,
        omega arith,
        Reads-array vs depth ds (not_too_deep o bytes_sound container_sound depth deep) within
            reads,
      )

  pub object-Item :
      (w : CborWriter) (ms : Members) (depth : ℕ) (w' : CborWriter)
      → IsOpen w
      → ((w1 : CborWriter)
          → IsOpen w1
          → encode_members o w1 ms (suc depth) ≡ ok w'
          → AllMembers o bytes_sound container_sound ms [] (suc depth) w1 w')
      → encode_item o w (object ms) depth ≡ ok w'
      → Item o bytes_sound container_sound (object ms) depth w w'
  unfolding encode_item read_item
  object-Item w ms depth w' open_ rec h =
      let n = count_members ms in
      let (deep, h1) = require_ok (not (ltb o.max_depth depth)) _ _ h in
      let (fits, h2) = require_ok (not (ltb o.max_container_length n)) _ _ h1 in
      let (w1, head, body) = >>=-eq-ok (write_argument w 5 n) _ h2 in
      let first = write_argument-Wrote w 5 n w1 open_ head in
      let (ds, wrote, reads) = rec w1 first.open_ body in
      let within : n ≤ o.max_container_length = ground arith in
      (
        _,
        Wrote-trans first wrote,
        omega arith,
        Reads-object ms depth ds (not_too_deep o bytes_sound container_sound depth deep) within
            reads,
      )

  pub Items-item :
      (w : CborWriter) (v : Value) (vs : Values) (depth : ℕ) (w' : CborWriter)
      → ((w1 : CborWriter)
          → encode_item o w v depth ≡ ok w1
          → Item o bytes_sound container_sound v depth w w1)
      → ((w1 : CborWriter)
          → IsOpen w1
          → encode_items o w1 vs depth ≡ ok w'
          → Items o bytes_sound container_sound vs depth w1 w')
      → encode_items o w (item v vs) depth ≡ ok w'
      → Items o bytes_sound container_sound (item v vs) depth w w'
  unfolding encode_item read_item
  Items-item w v vs depth w' rec recs h =
      let (w1, one, more) = >>=-eq-ok (encode_item o w v depth) _ h in
      let (ds, wrote, some_, reads) = rec w1 one in
      let (ds', wrote', reads') = recs w1 wrote.open_ more in
      (
        ds ++ ds',
        Wrote-trans wrote wrote',
        λ fuel rest enough.
            let (f, e) = suc_of fuel (omega arith) in
            rw
              (
                e,
                append_assoc ds ds' rest,
                reads f (ds' ++ rest) (omega (arith, length-append ds ds')),
                reads' f rest (omega (arith, length-append ds ds')),
              )
              refl,
      )

  pub members-AllMembers :
      (w : CborWriter) (k : List ℕ) (v : Value) (ms : Members) (keys : List (List ℕ)) (depth : ℕ)
      (w' : CborWriter)
      → IsOpen w
      → All IsScalar k
      → has_key k keys ≡ false
      → ((w1 w2 : CborWriter)
          → IsOpen w1
          → encode_item o w1 v depth ≡ ok w2
          → Item o bytes_sound container_sound v depth w1 w2)
      → ((w1 : CborWriter)
          → IsOpen w1
          → encode_members o w1 ms depth ≡ ok w'
          → AllMembers o bytes_sound container_sound ms (k ∷ keys) depth w1 w')
      → encode_members o w (member k v ms) depth ≡ ok w'
      → AllMembers o bytes_sound container_sound (member k v ms) keys depth w w'
  unfolding encode_item read_item
  members-AllMembers w k v ms keys depth w' open_ scalars fresh rec recs h =
      let (w1, key, h1) = >>=-eq-ok (encode_string o w k depth) _ h in
      let (ks, wrote_k, some_k, reads_k) =
        string-Item o bytes_sound container_sound w k depth w1 open_ scalars key in
      let (w2, one, more) = >>=-eq-ok (encode_item o w1 v depth) _ h1 in
      let (ds, wrote, some_, reads) = rec w1 w2 wrote_k.open_ one in
      let (ds', wrote', reads') = recs w2 wrote.open_ more in
      (
        ks ++ (ds ++ ds'),
        Wrote-trans wrote_k (Wrote-trans wrote wrote'),
        λ fuel rest enough.
            let (f, e) = suc_of fuel (omega arith) in
            rw
              (
                e,
                append_assoc ks (ds ++ ds') rest,
                append_assoc ds ds' rest,
                reads_k f (ds ++ (ds' ++ rest))
                    (omega (arith, length-append ks (ds ++ ds'), length-append ds ds')),
                fresh,
                reads f (ds' ++ rest)
                    (omega (arith, length-append ks (ds ++ ds'), length-append ds ds')),
                reads' f rest (omega (arith, length-append ks (ds ++ ds'), length-append ds ds')),
              )
              refl,
      )
