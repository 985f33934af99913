-- ===== src/Protocol/Cbor/Utf8.antt =====
-- The `TextEncoder` and the fatal `TextDecoder` of packages/protocol/src/cbor/options.ts, which the
-- language's Encoding Standard defines: UTF-8 over lists of code points.
use inkpi.Base.{
  ℕ, zero, suc, ◌+◌, ◌-◌, ◌*◌, ◌/◌, ◌%◌, ◌<◌, ◌≤◌, ◌≡◌, refl, ◌∙◌, ap, ◌⊎◌, inl, inr, Bool, ◌&&◌,
  ◌||◌, Option, none, some, List, [], ◌∷◌, ◌++◌, length, length-append, ltb, leb, if◌then◌else◌,
  All, Bool-cases, lt→ltb, ltb→lt, ltb→le, arith,
}

abbrev pub is_surrogate : ℕ → Bool
is_surrogate c = leb 0xd800 c && leb c 0xdfff

-- A lone surrogate is encoded as the replacement character.
abbrev pub scalar : ℕ → ℕ
scalar c = if is_surrogate c then 0xfffd else c

unfoldable pub encode_point : ℕ → List ℕ
encode_point c =
    if ltb c 0x80
    then c ∷ []
    else if ltb c 0x800
    then (192 + c / 64) ∷ (128 + c % 64) ∷ []
    else if ltb c 0x10000
    then (224 + c / 4096) ∷ (128 + c / 64 % 64) ∷ (128 + c % 64) ∷ []
    else (240 + c / 262144) ∷ (128 + c / 4096 % 64) ∷ (128 + c / 64 % 64) ∷ (128 + c % 64) ∷ []

unfoldable pub encode_text : List ℕ → List ℕ
encode_text [] = []
encode_text (c ∷ cs) = encode_point (scalar c) ++ encode_text cs

abbrev pub is_tail : ℕ → Bool
is_tail b = leb 128 b && leb b 191

-- One code point from the front, and what is left; none where the bytes are not UTF-8.
unfoldable pub decode_one : ℕ → List ℕ → Option (ℕ × List ℕ)
decode_one b0 [] = if ltb b0 128 then some (b0, []) else none
decode_one b0 (b1 ∷ []) =
    if ltb b0 128
    then some (b0, b1 ∷ [])
    else if leb 194 b0 && leb b0 223 && is_tail b1
    then some ((b0 - 192) * 64 + (b1 - 128), [])
    else none
decode_one b0 (b1 ∷ b2 ∷ []) =
    let c3 = (b0 - 224) * 4096 + (b1 - 128) * 64 + (b2 - 128) in
    if ltb b0 128
    then some (b0, b1 ∷ b2 ∷ [])
    else if leb 194 b0 && leb b0 223 && is_tail b1
    then some ((b0 - 192) * 64 + (b1 - 128), b2 ∷ [])
    else if leb 224 b0
        && leb b0 239
        && is_tail b1
        && is_tail b2
        && leb 0x800 c3
        && (ltb c3 0xd800 || ltb 0xdfff c3)
    then some (c3, [])
    else none
decode_one b0 (b1 ∷ b2 ∷ b3 ∷ r) =
    let c3 = (b0 - 224) * 4096 + (b1 - 128) * 64 + (b2 - 128) in
    let c4 = (b0 - 240) * 262144 + (b1 - 128) * 4096 + (b2 - 128) * 64 + (b3 - 128) in
    if ltb b0 128
    then some (b0, b1 ∷ b2 ∷ b3 ∷ r)
    else if leb 194 b0 && leb b0 223 && is_tail b1
    then some ((b0 - 192) * 64 + (b1 - 128), b2 ∷ b3 ∷ r)
    else if leb 224 b0
        && leb b0 239
        && is_tail b1
        && is_tail b2
        && leb 0x800 c3
        && (ltb c3 0xd800 || ltb 0xdfff c3)
    then some (c3, b3 ∷ r)
    else if leb 240 b0
        && leb b0 244
        && is_tail b1
        && is_tail b2
        && is_tail b3
        && leb 0x10000 c4
        && leb c4 0x10ffff
    then some (c4, r)
    else none

abbrev pub prepend : ℕ → Option (List ℕ) → Option (List ℕ)
prepend c none = none
prepend c (some cs) = some (c ∷ cs)

abbrev pub after_point : (List ℕ → Option (List ℕ)) → Option (ℕ × List ℕ) → Option (List ℕ)
after_point loop none = none
after_point loop (some (c, r)) = prepend c (loop r)

-- `TextDecoder.decode`, with the number of bytes as fuel.
unfoldable pub decode_loop : ℕ → List ℕ → Option (List ℕ)
decode_loop fuel [] = some []
decode_loop zero (b ∷ bs) = none
decode_loop (suc fuel) (b ∷ bs) = after_point (decode_loop fuel) (decode_one b bs)

unfoldable pub decode_text : List ℕ → Option (List ℕ)
decode_text bs = decode_loop (length bs) bs

-- A code point that is no surrogate.
abbrev pub IsScalar : ℕ → Type 0
IsScalar c = (c < 0xd800) ⊎ ((0xdfff < c) × (c ≤ 0x10ffff))

one_byte : (c : ℕ) (rest : List ℕ) → c < 128 → decode_one c rest ≡ some (c, rest)
unfolding decode_one
one_byte c [] h = rw (lt→ltb c 128 h) refl
one_byte c (x ∷ []) h = rw (lt→ltb c 128 h) refl
one_byte c (x ∷ y ∷ []) h = rw (lt→ltb c 128 h) refl
one_byte c (x ∷ y ∷ z ∷ r) h = rw (lt→ltb c 128 h) refl

module _ (c : ℕ) where
  two_bytes :
      (rest : List ℕ)
      → 128 ≤ c
      → c < 2048
      → decode_one (192 + c / 64) ((128 + c % 64) ∷ rest) ≡ some (c, rest)
  unfolding decode_one
  two_bytes [] l h = ground arith
  two_bytes (x ∷ []) l h = ground arith
  two_bytes (x ∷ y ∷ r) l h = ground arith

  three_bytes :
      (rest : List ℕ)
      → 2048 ≤ c
      → c < 65536
      → IsScalar c
      → decode_one (224 + c / 4096) ((128 + c / 64 % 64) ∷ (128 + c % 64) ∷ rest) ≡ some (c, rest)
  unfolding decode_one
  three_bytes [] l h s = ground arith
  three_bytes (x ∷ r) l h s = ground arith

  four_bytes :
      (rest : List ℕ)
      → 65536 ≤ c
      → c ≤ 0x10ffff
      → decode_one
          (240 + c / 262144)
          ((128 + c / 4096 % 64) ∷ (128 + c / 64 % 64) ∷ (128 + c % 64) ∷ rest)
        ≡ some (c, rest)
  unfolding decode_one
  four_bytes rest l h = ground arith

IsPoint : List ℕ → ℕ → List ℕ → Type 0
IsPoint ds c rest =
    (b : ℕ) × (bs : List ℕ) × (ds ++ rest ≡ b ∷ bs) × (decode_one b bs ≡ some (c, rest))

encode_point-IsPoint :
    (c : ℕ) (rest : List ℕ) → IsScalar c → IsPoint (encode_point (scalar c)) c rest
unfolding IsPoint encode_point
encode_point-IsPoint c rest s =
    let same : scalar c ≡ c = ground arith in
    rw same (elim (Bool-cases (ltb c 0x80)) [
      | inl e ↦ rw e (c, rest, refl, one_byte c rest (ltb→lt c 128 e))
      | inr e ↦ elim (Bool-cases (ltb c 0x800)) [
        | inl f ↦
            rw (e, f)
              (
                192 + c / 64,
                (128 + c % 64) ∷ rest,
                refl,
                two_bytes c rest (ltb→le c 0x80 e) (ltb→lt c 0x800 f),
              )
        | inr f ↦ elim (Bool-cases (ltb c 0x10000)) [
          | inl g ↦
              rw (e, f, g)
                (
                  224 + c / 4096,
                  (128 + c / 64 % 64) ∷ (128 + c % 64) ∷ rest,
                  refl,
                  three_bytes c rest (ltb→le c 0x800 f) (ltb→lt c 0x10000 g) s,
                )
          | inr g ↦
              rw (e, f, g)
                (
                  240 + c / 262144,
                  (128 + c / 4096 % 64) ∷ (128 + c / 64 % 64) ∷ (128 + c % 64) ∷ rest,
                  refl,
                  four_bytes c rest (ltb→le c 0x10000 g) (omega arith),
                )
        ]
      ]
    ])

decode_loop-point :
    (fuel c : ℕ) (ds rest : List ℕ)
    → IsPoint ds c rest
    → decode_loop (suc fuel) (ds ++ rest) ≡ prepend c (decode_loop fuel rest)
unfolding IsPoint decode_loop
decode_loop-point fuel c ds rest (b, bs, e, one) = rw e (ap (after_point (decode_loop fuel)) one)

encode_point-positive : (c : ℕ) → 1 ≤ length (encode_point c)
unfolding encode_point
encode_point-positive c = ground arith

decode_loop-encode_text :
    (fuel : ℕ) (s : List ℕ)
    → length (encode_text s) ≤ fuel
    → All IsScalar s
    → decode_loop fuel (encode_text s) ≡ some s
unfolding encode_text decode_loop
decode_loop-encode_text zero [] h v = refl
decode_loop-encode_text (suc fuel) [] h v = refl
decode_loop-encode_text zero (c ∷ cs) h v = absurd (
    omega (
      arith,
      encode_point-positive (scalar c),
      length-append (encode_point (scalar c)) (encode_text cs),
    ))
decode_loop-encode_text (suc fuel) (c ∷ cs) h v =
    decode_loop-point fuel c (encode_point (scalar c)) (encode_text cs)
      (encode_point-IsPoint c (encode_text cs) v.0)
    ∙ ap (prepend c) (
        decode_loop-encode_text fuel cs
          (omega (
            arith,
            encode_point-positive (scalar c),
            length-append (encode_point (scalar c)) (encode_text cs),
          ))
          v.1)

-- A text without lone surrogates comes back from its bytes.
pub decode_text-encode_text : (s : List ℕ) → All IsScalar s → decode_text (encode_text s) ≡ some s
unfolding decode_text
decode_text-encode_text s v = decode_loop-encode_text (length (encode_text s)) s (omega arith) v
