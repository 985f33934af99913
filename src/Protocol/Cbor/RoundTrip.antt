-- ===== src/Protocol/Cbor/RoundTrip.antt =====
-- What `encodeCbor` of packages/protocol/src/cbor/encoder.ts writes, `decodeCbor` reads back.
use inkpi.Base.{
  ℕ, suc, ◌*◌, ◌≤◌, ◌≡◌, refl, sym, ◌∙◌, subst, true, false, Option, none, some, List, [], ◌∷◌,
  append-nil, length, ltb, ok, not, >>=-eq-ok, ok_inj, arith,
}
use inkpi.Protocol.Cbor.{
  Value, null, not_finite, unsupported, boolean, natural, negative, fraction, text, byte_string,
  array, object, Values, nil, item, Members, done, member, max_uint32, CborOptions,
  ResolvedCborOptions, resolve_options, resolve_limit,
}
use inkpi.Protocol.Cbor.Encoder.{
  CborWriter, new_writer, finish, encode_item, encode_items, encode_members, encode_cbor,
}
use inkpi.Protocol.Cbor.Decoder.{read_item, finish_read, decode_cbor}
use inkpi.Protocol.Cbor.Writer.{IsOpen, Wrote, write_bytes-Wrote}
use inkpi.Protocol.Cbor.Plain.{IsPlain, ArePlain, MembersPlain}
use inkpi.Protocol.Cbor.Reading.{require_ok, Reads-natural, Reads-negative, Reads-fraction}
use inkpi.Protocol.Cbor.Items.{
  Item, Items, AllMembers, not_too_deep, simple-Item, Reads-null, Reads-boolean, integer-Item,
  string-Item, byte_string-Item,
}
use inkpi.Protocol.Cbor.Containers.{suc_of, array-Item, object-Item, Items-item, members-AllMembers}

module _ (o : ResolvedCborOptions) (bytes_sound : o.max_byte_length ≤ max_uint32)
    (container_sound : o.max_container_length ≤ max_uint32) where
  nothing-Wrote : (w : CborWriter) → IsOpen w → Wrote w [] w
  nothing-Wrote w open_ = record {
    open_ = open_;
    limit = refl;
    holds = sym (append-nil (finish w));
  }

  mutual
    unfolding encode_item IsPlain read_item

    encode_item-Item :
        (w : CborWriter) (v : Value) (depth : ℕ) (w' : CborWriter)
        → IsOpen w
        → IsPlain v
        → encode_item o w v depth ≡ ok w'
        → Item o bytes_sound container_sound v depth w w'
    encode_item-Item w null depth w' open_ p h =
        let (deep, h1) = require_ok (not (ltb o.max_depth depth)) _ _ h in
        simple-Item o bytes_sound container_sound w null _ depth w' open_
          (Reads-null o bytes_sound container_sound depth
            (not_too_deep o bytes_sound container_sound depth deep))
          h1
    encode_item-Item w (boolean true) depth w' open_ p h =
        let (deep, h1) = require_ok (not (ltb o.max_depth depth)) _ _ h in
        simple-Item o bytes_sound container_sound w (boolean true) _ depth w' open_
          (Reads-boolean o bytes_sound container_sound true depth
            (not_too_deep o bytes_sound container_sound depth deep))
          h1
    encode_item-Item w (boolean false) depth w' open_ p h =
        let (deep, h1) = require_ok (not (ltb o.max_depth depth)) _ _ h in
        simple-Item o bytes_sound container_sound w (boolean false) _ depth w' open_
          (Reads-boolean o bytes_sound container_sound false depth
            (not_too_deep o bytes_sound container_sound depth deep))
          h1
    encode_item-Item w not_finite depth w' open_ p h =
        let (deep, h1) = require_ok (not (ltb o.max_depth depth)) _ _ h in absurd (ground arith)
    encode_item-Item w unsupported depth w' open_ p h =
        let (deep, h1) = require_ok (not (ltb o.max_depth depth)) _ _ h in absurd (ground arith)
    encode_item-Item w (natural n) depth w' open_ p h =
        let (deep, h1) = require_ok (not (ltb o.max_depth depth)) _ _ h in
        integer-Item o bytes_sound container_sound w (natural n) 0 n depth w' open_
          (Reads-natural o n depth (not_too_deep o bytes_sound container_sound depth deep)) h1
    encode_item-Item w (negative n) depth w' open_ p h =
        let (deep, h1) = require_ok (not (ltb o.max_depth depth)) _ _ h in
        integer-Item o bytes_sound container_sound w (negative n) 1 n depth w' open_
          (λ _. Reads-negative o n depth (not_too_deep o bytes_sound container_sound depth deep) p)
          h1
    encode_item-Item w (fraction d) depth w' open_ p h =
        let (deep, h1) = require_ok (not (ltb o.max_depth depth)) _ _ h in
        (
          _,
          write_bytes-Wrote w _ w' open_ h1,
          omega arith,
          Reads-fraction o d depth (not_too_deep o bytes_sound container_sound depth deep) p,
        )
    encode_item-Item w (text s) depth w' open_ p h =
        string-Item o bytes_sound container_sound w s depth w' open_ p h
    encode_item-Item w (byte_string bs) depth w' open_ p h =
        let (deep, h1) = require_ok (not (ltb o.max_depth depth)) _ _ h in
        byte_string-Item o bytes_sound container_sound w bs depth w' open_
          (not_too_deep o bytes_sound container_sound depth deep) h1
    encode_item-Item w (array vs) depth w' open_ p h =
        array-Item o bytes_sound container_sound w vs depth w' open_
          (λ w1 op. encode_items-Items w1 vs (suc depth) w' op p) h
    encode_item-Item w (object ms) depth w' open_ p h =
        object-Item o bytes_sound container_sound w ms depth w' open_
          (λ w1 op. encode_members-AllMembers w1 ms [] (suc depth) w' op p) h

    encode_items-Items :
        (w : CborWriter) (vs : Values) (depth : ℕ) (w' : CborWriter)
        → IsOpen w
        → ArePlain vs
        → encode_items o w vs depth ≡ ok w'
        → Items o bytes_sound container_sound vs depth w w'
    encode_items-Items w nil depth w' open_ p h = (
      [],
      subst (Wrote w []) (ok_inj h) (nothing-Wrote w open_),
      λ fuel rest enough. let (f, e) = suc_of fuel (omega arith) in rw e refl,
    )
    encode_items-Items w (item v vs) depth w' open_ p h =
        Items-item o bytes_sound container_sound w v vs depth w'
          (λ w1. encode_item-Item w v depth w1 open_ p.0)
          (λ w1 op. encode_items-Items w1 vs depth w' op p.1) h

    encode_members-AllMembers :
        (w : CborWriter) (ms : Members) (keys : List (List ℕ)) (depth : ℕ) (w' : CborWriter)
        → IsOpen w
        → MembersPlain keys ms
        → encode_members o w ms depth ≡ ok w'
        → AllMembers o bytes_sound container_sound ms keys depth w w'
    encode_members-AllMembers w done keys depth w' open_ p h = (
      [],
      subst (Wrote w []) (ok_inj h) (nothing-Wrote w open_),
      λ fuel rest enough. let (f, e) = suc_of fuel (omega arith) in rw e refl,
    )
    encode_members-AllMembers w (member k v ms) keys depth w' open_ (scalars, fresh, p, ps) h =
        members-AllMembers o bytes_sound container_sound w k v ms keys depth w' open_ scalars fresh
          (λ w1 w2 op. encode_item-Item w1 v depth w2 op p)
          (λ w1 op. encode_members-AllMembers w1 ms (k ∷ keys) depth w' op ps) h

resolve_limit_sound :
    (value : Option ℕ) (fallback maximum : ℕ) {n : ℕ}
    → resolve_limit value fallback maximum ≡ ok n
    → n ≤ maximum
resolve_limit_sound none fallback maximum h = ground arith
resolve_limit_sound (some value) fallback maximum h = ground arith

resolve_options_sound :
    (options : CborOptions) (o : ResolvedCborOptions)
    → resolve_options options ≡ ok o
    → (o.max_byte_length ≤ max_uint32) × (o.max_container_length ≤ max_uint32)
unfolding resolve_options
resolve_options_sound options o h =
    let (bytes, h0, h1) =
      >>=-eq-ok (resolve_limit options.max_byte_length 16777216 max_uint32) _ h in
    let (container, h2, h3) =
      >>=-eq-ok (resolve_limit options.max_container_length 1000000 max_uint32) _ h1 in
    let (depth, h4, h5) = >>=-eq-ok (resolve_limit options.max_depth 64 512) _ h3 in
    let same = ok_inj h5 in
    (
      subst (λ r. r.max_byte_length ≤ max_uint32) same
          (resolve_limit_sound options.max_byte_length 16777216 max_uint32 h0),
      subst (λ r. r.max_container_length ≤ max_uint32) same
          (resolve_limit_sound options.max_container_length 1000000 max_uint32 h2),
    )

-- Under any options, what `encodeCbor` makes of a value that it accepts, `decodeCbor` gives back
-- whole: for texts without lone surrogates, negative numbers above the least that the encoder takes,
-- fractions that are finite doubles and not whole, and objects that have no key twice.
pub decode_cbor-encode_cbor :
    (v : Value) (options : CborOptions) (bs : List ℕ)
    → IsPlain v
    → encode_cbor v options ≡ ok bs
    → decode_cbor bs options ≡ ok v
unfolding encode_cbor decode_cbor finish_read
decode_cbor-encode_cbor v options bs p h =
    let (o, resolved, h1) = >>=-eq-ok (resolve_options options) _ h in
    let (bytes_sound, container_sound) = resolve_options_sound options o resolved in
    let (w, encoded, h2) = >>=-eq-ok (encode_item o (new_writer o.max_byte_length) v 0) _ h1 in
    let (ds, wrote, positive, reads) =
      encode_item-Item o bytes_sound container_sound (new_writer o.max_byte_length) v 0 w
        (omega arith, omega arith) p encoded in
    let same : bs ≡ ds = sym (ok_inj h2) ∙ wrote.holds in
    rw
      (
        resolved,
        same,
        subst (λ l. read_item o (suc (2 * length ds)) 0 l ≡ ok (v, [])) (append-nil ds)
            (reads (suc (2 * length ds)) [] (omega arith)),
      )
      refl
