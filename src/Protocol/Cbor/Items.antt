-- ===== src/Protocol/Cbor/Items.antt =====
-- What the two sides of packages/protocol/src/cbor make of one item, by what they make of its parts.
use inkpi.Base.{
  ◌%◌, ℕ, zero, suc, ◌+◌, ◌*◌, ◌<◌, ◌≤◌, ◌≡◌, refl, inl, inr, Bool, true, false, List, [], ◌∷◌,
  ◌++◌, length, ltb, if◌then◌else◌, ok, not, >>=-eq-ok, Bool-cases, ltb→le, All, arith,
}
use inkpi.Protocol.Cbor.{
  Value, null, boolean, text, byte_string, Values, Members, max_safe_integer, max_uint32,
  ResolvedCborOptions,
}
use inkpi.Protocol.Cbor.Utf8.{IsScalar, encode_text}
use inkpi.Protocol.Cbor.Encoder.{
  CborWriter, write_bytes, write_argument, count_values, count_members, encode_string,
  encode_integer, encode_byte_string,
}
use inkpi.Protocol.Cbor.Decoder.{read_simple, read_item, read_items, read_members}
use inkpi.Protocol.Cbor.Writer.{
  IsOpen, Wrote, Wrote-trans, write_bytes-Wrote, argument_info, argument_tail, write_argument-Wrote,
}
use inkpi.Protocol.Cbor.Reading.{require_ok, Reads, Reads-byte_string, Reads-text}

module _ (o : ResolvedCborOptions) (bytes_sound : o.max_byte_length ≤ max_uint32)
    (container_sound : o.max_container_length ≤ max_uint32) where
  -- The writer wrote bytes that are read as the value.
  abbrev pub Item : Value → ℕ → CborWriter → CborWriter → Type 0
  Item v depth w w' = (ds : List ℕ) × Wrote w ds w' × (1 ≤ length ds) × Reads o v depth ds

  abbrev pub Items : Values → ℕ → CborWriter → CborWriter → Type 0
  Items vs depth w w' =
      (ds : List ℕ) × Wrote w ds w'
      × ((fuel : ℕ) (rest : List ℕ)
          → 2 * length ds + 1 < fuel
          → read_items o fuel (count_values vs) depth (ds ++ rest) ≡ ok (vs, rest))

  abbrev pub AllMembers : Members → List (List ℕ) → ℕ → CborWriter → CborWriter → Type 0
  AllMembers ms keys depth w w' =
      (ds : List ℕ) × Wrote w ds w'
      × ((fuel : ℕ) (rest : List ℕ)
          → 2 * length ds + 1 < fuel
          → read_members o fuel (count_members ms) keys depth (ds ++ rest) ≡ ok (ms, rest))

  pub not_too_deep :
      (depth : ℕ) → not (ltb o.max_depth depth) ≡ true → ltb o.max_depth depth ≡ false
  not_too_deep depth h = ground arith

  -- A value of one byte.
  pub simple-Item :
      (w : CborWriter) (v : Value) (b depth : ℕ) (w' : CborWriter)
      → IsOpen w
      → Reads o v depth (b ∷ [])
      → write_bytes w (b ∷ []) ≡ ok w'
      → Item v depth w w'
  simple-Item w v b depth w' open_ reads h =
      (b ∷ [], write_bytes-Wrote w (b ∷ []) w' open_ h, omega arith, reads)

  pub Reads-null : (depth : ℕ) → ltb o.max_depth depth ≡ false → Reads o null depth (0xf6 ∷ [])
  unfolding read_item read_simple
  Reads-null depth deep zero rest h = absurd (omega arith)
  Reads-null depth deep (suc fuel) rest h = rw deep refl

  pub Reads-boolean :
      (b : Bool) (depth : ℕ)
      → ltb o.max_depth depth ≡ false
      → Reads o (boolean b) depth ((if b then 0xf5 else 0xf4) ∷ [])
  unfolding read_item read_simple
  Reads-boolean b depth deep zero rest h = absurd (omega arith)
  Reads-boolean true depth deep (suc fuel) rest h = rw deep refl
  Reads-boolean false depth deep (suc fuel) rest h = rw deep refl

  pub integer-Item :
      (w : CborWriter) (v : Value) (major n depth : ℕ) (w' : CborWriter)
      → IsOpen w
      → (n ≤ max_safe_integer
          → Reads o v depth ((major * 32 + argument_info n) % 256 ∷ argument_tail n))
      → encode_integer o w major n ≡ ok w'
      → Item v depth w w'
  unfolding encode_integer
  integer-Item w v major n depth w' open_ reads = elim (Bool-cases (ltb max_safe_integer n)) [
    | inl e ↦ rw e (λ h. absurd (ground arith))
    | inr e ↦ rw e (λ h. (
      _,
      write_argument-Wrote w major n w' open_ h,
      omega arith,
      reads (ltb→le max_safe_integer n e),
    ))
  ]

  pub string-Item :
      (w : CborWriter) (s : List ℕ) (depth : ℕ) (w' : CborWriter)
      → IsOpen w
      → All IsScalar s
      → encode_string o w s depth ≡ ok w'
      → Item (text s) depth w w'
  unfolding encode_string
  string-Item w s depth w' open_ scalars h =
      let bs = encode_text s in
      let (deep, h1) = require_ok (not (ltb o.max_depth depth)) _ _ h in
      let (fits, h2) = require_ok (not (ltb o.max_byte_length (length bs))) _ _ h1 in
      let (w1, head, body) = >>=-eq-ok (write_argument w 3 (length bs)) _ h2 in
      let first = write_argument-Wrote w 3 (length bs) w1 open_ head in
      let within : length bs ≤ o.max_byte_length = ground arith in
      (
        _,
        Wrote-trans first (write_bytes-Wrote w1 bs w' first.open_ body),
        omega arith,
        Reads-text o s depth (not_too_deep depth deep) within (omega arith) scalars,
      )

  pub byte_string-Item :
      (w : CborWriter) (bs : List ℕ) (depth : ℕ) (w' : CborWriter)
      → IsOpen w
      → ltb o.max_depth depth ≡ false
      → encode_byte_string o w bs ≡ ok w'
      → Item (byte_string bs) depth w w'
  unfolding encode_byte_string
  byte_string-Item w bs depth w' open_ deep h =
      let (fits, h2) = require_ok (not (ltb o.max_byte_length (length bs))) _ _ h in
      let (w1, head, body) = >>=-eq-ok (write_argument w 2 (length bs)) _ h2 in
      let first = write_argument-Wrote w 2 (length bs) w1 open_ head in
      let within : length bs ≤ o.max_byte_length = ground arith in
      (
        _,
        Wrote-trans first (write_bytes-Wrote w1 bs w' first.open_ body),
        omega arith,
        Reads-byte_string o bs depth deep within (omega arith),
      )
