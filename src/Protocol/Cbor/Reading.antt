-- ===== src/Protocol/Cbor/Reading.antt =====
-- What packages/protocol/src/cbor/decoder.ts reads from the bytes of one item.
use inkpi.Base.{
  ℕ, zero, suc, ◌+◌, ◌*◌, ◌/◌, ◌%◌, ◌<◌, ◌≤◌, ◌≡◌, refl, subst, inl, inr, Bool, true, false, List,
  ◌∷◌, ◌++◌, append_assoc, length, ltb, leb, ◌==◌, Result, ok, ◌>>◌, require, Bool-cases,
  length-append, le→ltb, All, take-append_exact, drop-append_exact, arith,
}
use inkpi.Protocol.Cbor.{
  Value, natural, negative, fraction, text, byte_string, CborError, max_safe_integer, max_uint32,
  ResolvedCborOptions, string_limit,
}
use inkpi.Protocol.Cbor.Utf8.{IsScalar, encode_text, decode_text-encode_text}
use inkpi.Protocol.Cbor.Decoder.{
  read_bytes, read_argument, read_length, read_negative, read_simple, read_double, number_of,
  exponent, read_item,
}
use inkpi.Protocol.Cbor.Writer.{argument_info, argument_tail}
use inkpi.Protocol.Cbor.Plain.{IsPlain}

pub require_ok :
    {E : Type 0} {A : Type 0} (b : Bool) (e : E) (k : Result E A) {y : A}
    → (require b e >> k) ≡ ok y
    → (b ≡ true) × (k ≡ ok y)
require_ok true e k h = (refl, h)
require_ok false e k h = absurd (ground arith)

pub read_bytes-append : (bs rest : List ℕ) → read_bytes (bs ++ rest) (length bs) ≡ ok (bs, rest)
unfolding read_bytes
read_bytes-append bs rest =
    rw
      (
        le→ltb (length (bs ++ rest)) (length bs) (omega (arith, length-append bs rest)),
        take-append_exact bs rest,
        drop-append_exact bs rest,
      )
      refl

read_argument-tail :
    (v : ℕ) (rest : List ℕ)
    → v ≤ max_safe_integer
    → read_argument (argument_tail v ++ rest) (argument_info v) ≡ ok (v, rest)
unfolding read_argument read_bytes
read_argument-tail v rest h = elim (Bool-cases (ltb v 24)) [
  | inl e ↦ rw (e, e) refl
  | inr e ↦ elim (Bool-cases (leb v 0xff)) [
    | inl f ↦ rw (e, f) (ground arith)
    | inr f ↦ elim (Bool-cases (leb v 0xffff)) [
      | inl g ↦ rw (e, f, g) (ground arith)
      | inr g ↦ elim (Bool-cases (leb v max_uint32)) [
        | inl i ↦ rw (e, f, g, i) (ground arith)
        | inr i ↦ rw (e, f, g, i) (ground arith)
      ]
    ]
  ]
]

pub head_info : (major v : ℕ) → (major * 32 + argument_info v) % 256 % 32 ≡ argument_info v
head_info major v = ground arith

pub head_major : (major v : ℕ) → major < 8 → (major * 32 + argument_info v) % 256 / 32 ≡ major
head_major major v h = ground arith

pub read_length-tail :
    (v : ℕ) (rest : List ℕ) (e : CborError) (limit : ℕ)
    → v ≤ limit
    → v ≤ max_safe_integer
    → read_length (argument_tail v ++ rest) (argument_info v) e limit ≡ ok (v, rest)
unfolding read_length
read_length-tail v rest e limit fits h = rw (read_argument-tail v rest h, le→ltb limit v fits) refl

module _ (o : ResolvedCborOptions) where
  -- With fuel for its bytes, the reader gives the value and leaves what stands behind it.
  abbrev pub Reads : Value → ℕ → List ℕ → Type 0
  Reads v depth ds =
      (fuel : ℕ) (rest : List ℕ)
      → 2 * length ds < fuel
      → read_item o fuel depth (ds ++ rest) ≡ ok (v, rest)

  pub Reads-natural :
      (n depth : ℕ)
      → ltb o.max_depth depth ≡ false
      → n ≤ max_safe_integer
      → Reads (natural n) depth ((0 * 32 + argument_info n) % 256 ∷ argument_tail n)
  unfolding read_item
  Reads-natural n depth deep safe zero rest h = absurd (omega arith)
  Reads-natural n depth deep safe (suc fuel) rest h =
      rw (deep, head_major 0 n (omega arith), head_info 0 n, read_argument-tail n rest safe) refl

  pub Reads-negative :
      (n depth : ℕ)
      → ltb o.max_depth depth ≡ false
      → n < max_safe_integer
      → Reads (negative n) depth ((1 * 32 + argument_info n) % 256 ∷ argument_tail n)
  unfolding read_item read_negative
  Reads-negative n depth deep safe zero rest h = absurd (omega arith)
  Reads-negative n depth deep safe (suc fuel) rest h =
      rw
        (
          deep,
          head_major 1 n (omega arith),
          head_info 1 n,
          read_argument-tail n rest (omega arith),
          le→ltb max_safe_integer (1 + n) (omega arith),
        )
        refl

  pub Reads-byte_string :
      (bs : List ℕ) (depth : ℕ)
      → ltb o.max_depth depth ≡ false
      → length bs ≤ o.max_byte_length
      → length bs ≤ max_safe_integer
      → Reads
          (byte_string bs)
          depth
          ((2 * 32 + argument_info (length bs)) % 256 ∷ (argument_tail (length bs) ++ bs))
  unfolding read_item
  Reads-byte_string bs depth deep fits safe zero rest h = absurd (omega arith)
  Reads-byte_string bs depth deep fits safe (suc fuel) rest h =
      rw
        (
          append_assoc (argument_tail (length bs)) bs rest,
          deep,
          head_major 2 (length bs) (omega arith),
          head_info 2 (length bs),
          read_length-tail (length bs) (bs ++ rest) string_limit o.max_byte_length fits safe,
          read_bytes-append bs rest,
        )
        refl

  pub Reads-text :
      (s : List ℕ) (depth : ℕ)
      → ltb o.max_depth depth ≡ false
      → length (encode_text s) ≤ o.max_byte_length
      → length (encode_text s) ≤ max_safe_integer
      → All IsScalar s
      → Reads (text s) depth (
          (3 * 32 + argument_info (length (encode_text s))) % 256
          ∷ (argument_tail (length (encode_text s)) ++ encode_text s))
  unfolding read_item
  Reads-text s depth deep fits safe scalars zero rest h = absurd (omega arith)
  Reads-text s depth deep fits safe scalars (suc fuel) rest h =
      let bs = encode_text s in
      rw
        (
          append_assoc (argument_tail (length bs)) bs rest,
          deep,
          head_major 3 (length bs) (omega arith),
          head_info 3 (length bs),
          read_length-tail (length bs) (bs ++ rest) string_limit o.max_byte_length fits safe,
          read_bytes-append bs rest,
          decode_text-encode_text s scalars,
        )
        refl

  pub Reads-fraction :
      (d : List ℕ) (depth : ℕ)
      → ltb o.max_depth depth ≡ false
      → IsPlain (fraction d)
      → Reads (fraction d) depth (0xfb ∷ d)
  unfolding read_item read_simple read_double number_of IsPlain
  Reads-fraction d depth deep v zero rest h = absurd (omega arith)
  Reads-fraction d depth deep (size, finite, broken) (suc fuel) rest h =
      let eight : read_bytes (d ++ rest) 8 ≡ ok (d, rest) =
        subst (λ n. read_bytes (d ++ rest) n ≡ ok (d, rest)) size (read_bytes-append d rest) in
      let exponent_lem : (exponent d == 2047) ≡ false = ground arith in
      rw (deep, eight, exponent_lem, broken) refl
