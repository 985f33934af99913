-- ===== src/Protocol/Cbor/Writer.antt =====
-- The writer of packages/protocol/src/cbor/encoder.ts appends: a buffer that grows keeps what was
-- written.
use inkpi.Base.{
  ◌%◌, ℕ, zero, suc, ◌+◌, ◌-◌, ◌*◌, ◌/◌, ◌<◌, ◌≤◌, ◌≡◌, refl, ap, ◌∙◌, subst, inl, inr, min, max,
  List, [], ◌∷◌, ◌++◌, take, append_assoc, length, replicate, ltb, leb, if◌then◌else◌, ok, ◌>>=◌,
  >>=-eq-ok, ok_inj, Bool-cases, length-replicate, ltb→le, arith,
}
use inkpi.Protocol.Framing.{array_set}
use inkpi.Protocol.Framing.Blocks.{take-array_set, length-array_set}
use inkpi.Protocol.Cbor.{uint32_base, max_uint32}
use inkpi.Protocol.Cbor.Encoder.{
  CborWriter, grow, ensure_capacity, write_bytes, write_byte, uint16_bytes, uint32_bytes, finish,
  write_argument,
}

-- The offset is in the buffer and within the limit.
abbrev pub IsOpen : CborWriter → Type 0
IsOpen w = (w.offset ≤ length w.buffer) × (w.offset ≤ w.max_byte_length)

-- The writer `w'` holds what `w` holds and `bs` behind it.
pub record Wrote (w : CborWriter) (bs : List ℕ) (w' : CborWriter) : Type 0 where
  pub open_ : IsOpen w'
  pub limit : w'.max_byte_length ≡ w.max_byte_length
  pub holds : finish w' ≡ finish w ++ bs

pub Wrote-trans :
    {w w1 w2 : CborWriter} {a b : List ℕ} → Wrote w a w1 → Wrote w1 b w2 → Wrote w (a ++ b) w2
Wrote-trans {w} {w1} {w2} {a} {b} p q = record {
  open_ = q.open_;
  limit = q.limit ∙ p.limit;
  holds = q.holds ∙ ap (λ l. l ++ b) p.holds ∙ append_assoc (finish w) a b;
}

grow-reaches :
    (capacity required limit : ℕ)
    → required ≤ limit
    → (required ≤ grow 2 capacity required limit)
      × (min capacity limit ≤ grow 2 capacity required limit)
unfolding grow
grow-reaches capacity required limit h = (ground arith, ground arith)

take-append_left : (n : ℕ) (xs ys : List ℕ) → n ≤ length xs → take n (xs ++ ys) ≡ take n xs
take-append_left zero xs ys h = refl
take-append_left (suc n) [] ys h = absurd (omega arith)
take-append_left (suc n) (x ∷ xs) ys h = ap (x ∷◌) (take-append_left n xs ys (omega arith))

-- Room was made, and the bytes before the offset are the same.
abbrev Room : CborWriter → ℕ → CborWriter → Type 0
Room w n w' =
    (w'.offset ≡ w.offset)
    × (w'.max_byte_length ≡ w.max_byte_length)
    × (take w.offset w'.buffer ≡ take w.offset w.buffer)
    × (w.offset + n ≤ length w'.buffer)
    × (w.offset + n ≤ w.max_byte_length)

ensure_capacity-Room :
    (w : CborWriter) (n : ℕ) (w' : CborWriter)
    → IsOpen w
    → ensure_capacity w n ≡ ok w'
    → Room w n w'
unfolding ensure_capacity
ensure_capacity-Room w n w' (inside, within) h =
    elim (Bool-cases (ltb w.max_byte_length (w.offset + n))) [
      | inl e ↦ absurd (ground arith)
      | inr e ↦
          let le = ltb→le w.max_byte_length (w.offset + n) e in
          elim (Bool-cases (leb (w.offset + n) (length w.buffer))) [
            | inl f ↦
                let same : w ≡ w' = ground arith in
                subst (Room w n) same (refl, refl, refl, ground arith, le)
            | inr f ↦
                let capacity = grow 2 (max 1 (length w.buffer)) (w.offset + n) w.max_byte_length in
                let reached =
                  (grow-reaches (max 1 (length w.buffer)) (w.offset + n) w.max_byte_length le).0 in
                let same : record w { buffer = array_set (replicate capacity 0) w.buffer 0 } ≡ w' =
                  ground arith in
                let short : length w.buffer < w.offset + n = ground arith in
                subst (Room w n) same (
                  refl,
                  refl,
                  take-append_left w.offset w.buffer _ inside,
                  omega (
                    arith,
                    length-array_set (replicate capacity 0) w.buffer 0
                        (omega (arith, length-replicate capacity (◌+◌ 0 0))),
                    length-replicate capacity (◌+◌ 0 0),
                  ),
                  le,
                )
          ]
    ]

pub write_bytes-Wrote :
    (w : CborWriter) (bs : List ℕ) (w' : CborWriter)
    → IsOpen w
    → write_bytes w bs ≡ ok w'
    → Wrote w bs w'
unfolding write_bytes
write_bytes-Wrote w bs w' v h =
    let (w1, room, put) = >>=-eq-ok (ensure_capacity w (length bs)) _ h in
    let (at, limit, same, fits, within) = ensure_capacity-Room w (length bs) w1 v room in
    let fits' : w1.offset + length bs ≤ length w1.buffer = omega arith in
    let written = record w1 {
      buffer = array_set w1.buffer bs w1.offset;
      offset = w1.offset + length bs;
    } in
    subst (Wrote w bs) (ok_inj put) (record {
      open_ = (omega (arith, length-array_set w1.buffer bs w1.offset fits'), omega arith);
      limit = limit;
      holds = take-array_set w1.buffer bs w1.offset fits' ∙ ap (◌++ bs) (rw at same);
    })

-- What `writeArgument` writes: its first byte, and the bytes behind it.
abbrev pub argument_info : ℕ → ℕ
argument_info v =
    if ltb v 24
    then v
    else if leb v 0xff
    then 24
    else if leb v 0xffff
    then 25
    else if leb v max_uint32
    then 26
    else 27

abbrev pub argument_tail : ℕ → List ℕ
argument_tail v =
    if ltb v 24
    then []
    else if leb v 0xff
    then v % 256 ∷ []
    else if leb v 0xffff
    then uint16_bytes v
    else if leb v max_uint32
    then uint32_bytes v
    else uint32_bytes (v / uint32_base) ++ uint32_bytes (v - v / uint32_base * uint32_base)

-- Two writes, one behind the other.
write_two :
    (w : CborWriter) (b : ℕ) (bs : List ℕ) (w' : CborWriter)
    → IsOpen w
    → (write_byte w b >>= λ w1. write_bytes w1 bs) ≡ ok w'
    → Wrote w (b % 256 ∷ bs) w'
write_two w b bs w' v h =
    let (w1, one, two) = >>=-eq-ok (write_byte w b) _ h in
    let first = write_bytes-Wrote w (b % 256 ∷ []) w1 v one in
    Wrote-trans first (write_bytes-Wrote w1 bs w' first.open_ two)

write_three :
    (w : CborWriter) (b : ℕ) (bs cs : List ℕ) (w' : CborWriter)
    → IsOpen w
    → (write_byte w b >>= λ w1. write_bytes w1 bs >>= λ w2. write_bytes w2 cs) ≡ ok w'
    → Wrote w (b % 256 ∷ (bs ++ cs)) w'
write_three w b bs cs w' v h =
    let (w1, one, rest) = >>=-eq-ok (write_byte w b) _ h in
    let first = write_bytes-Wrote w (b % 256 ∷ []) w1 v one in
    let (w2, two, three) = >>=-eq-ok (write_bytes w1 bs) _ rest in
    let second = write_bytes-Wrote w1 bs w2 first.open_ two in
    Wrote-trans first (Wrote-trans second (write_bytes-Wrote w2 cs w' second.open_ three))

pub write_argument-Wrote :
    (w : CborWriter) (major v : ℕ) (w' : CborWriter)
    → IsOpen w
    → write_argument w major v ≡ ok w'
    → Wrote w ((major * 32 + argument_info v) % 256 ∷ argument_tail v) w'
unfolding write_argument
write_argument-Wrote w major v w' o = elim (Bool-cases (ltb v 24)) [
  | inl e ↦ rw e (λ h. write_bytes-Wrote w _ w' o h)
  | inr e ↦ elim (Bool-cases (leb v 0xff)) [
    | inl f ↦ rw (e, f) (λ h. write_two w _ _ w' o h)
    | inr f ↦ elim (Bool-cases (leb v 0xffff)) [
      | inl g ↦ rw (e, f, g) (λ h. write_two w _ _ w' o h)
      | inr g ↦ elim (Bool-cases (leb v max_uint32)) [
        | inl i ↦ rw (e, f, g, i) (λ h. write_two w _ _ w' o h)
        | inr i ↦ rw (e, f, g, i) (λ h. write_three w _ _ _ w' o h)
      ]
    ]
  ]
]
