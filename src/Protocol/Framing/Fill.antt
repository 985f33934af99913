-- ===== src/Protocol/Framing/Fill.antt =====
-- The inner loop of `push`: how it ends, and what a complete payload is.
use inkpi.Base.{
  ℕ, zero, suc, ◌-◌, ◌≤◌, ◌<◌, min, ◌≡◌, refl, ap, sym, ◌⊎◌, inl, inr, Bool-cases, List, [], ◌∷◌,
  ◌++◌, arith, length, take, length-append, length-take, length-drop, take_all, subst, ltb, ltb→lt,
  ltb→le,
}
use inkpi.Protocol.Framing.{FrameDecoder, assemble, open_block, write_block, fill}
use inkpi.Protocol.Framing.Blocks.{
  received, Holds, Writes, Writes-trans, write-Writes, open_block-Opens,
}

-- The inner loop runs until the chunk or the payload is used up.
abbrev pub Fills : ℕ → FrameDecoder → List ℕ → FrameDecoder × List ℕ → Type 0
Fills n d chunk out = Writes n d chunk out × ((out.0.payload_length ≡ n) ⊎ (length out.1 ≡ 0))

Writes-refl :
    (n : ℕ) (d : FrameDecoder) (chunk : List ℕ)
    → d.payload_length ≤ n
    → Holds n d.payload_blocks d.current_payload_block_length d.payload_length
    → Writes n d chunk (d, chunk)
Writes-refl n d chunk le h = (
  h,
  le,
  refl,
  refl,
  record {
    header = refl;
    header_length = refl;
    max_frame_length = refl;
    expected = refl;
    state = refl;
  },
)

write_block_progress :
    (d : FrameDecoder) (b : List ℕ) (bs : List (List ℕ)) (x : ℕ) (chunk : List ℕ)
    → d.current_payload_block_length < length b
    → length (write_block d (b ∷ bs) (x ∷ chunk)).1 < length (x ∷ chunk)
unfolding write_block
write_block_progress d b bs x chunk lt = omega (
  arith,
  length-drop (min (length b - d.current_payload_block_length) (suc (length chunk))) (x ∷ chunk),
)

write_progress :
    (n : ℕ) (d : FrameDecoder) (x : ℕ) (chunk : List ℕ)
    → d.payload_length < n
    → Holds n d.payload_blocks d.current_payload_block_length d.payload_length
    → length (write_block (open_block n d) (open_block n d).payload_blocks (x ∷ chunk)).1
      < length (x ∷ chunk)
write_progress n d x chunk lt h =
    let (b, bs, eb, room, _, _, _) = open_block-Opens n d.payload_blocks d lt h in
    subst (λ bl. length (write_block (open_block n d) bl (x ∷ chunk)).1 < length (x ∷ chunk))
      (sym eb) (write_block_progress (open_block n d) b bs x chunk room)

pub fill-Fills :
    (fuel n : ℕ) (d : FrameDecoder) (chunk : List ℕ)
    → length chunk ≤ fuel
    → d.payload_length ≤ n
    → Holds n d.payload_blocks d.current_payload_block_length d.payload_length
    → Fills n d chunk (fill fuel n d chunk)
unfolding fill
fill-Fills zero n d [] h le holds = (Writes-refl n d [] le holds, inr refl)
fill-Fills zero n d (x ∷ chunk) h le holds = absurd (omega arith)
fill-Fills (suc fuel) n d [] h le holds = (Writes-refl n d [] le holds, inr refl)
fill-Fills (suc fuel) n d (x ∷ chunk) h le holds = elim (Bool-cases (ltb d.payload_length n)) [
  | inl more ↦
      let lt = ltb→lt d.payload_length n more in
      let out = write_block (open_block n d) (open_block n d).payload_blocks (x ∷ chunk) in
      let first = write-Writes n d (x ∷ chunk) lt holds in
      let (all, why) =
        fill-Fills fuel n out.0 out.1 (omega (arith, write_progress n d x chunk lt holds)) first.1
          first.0 in
      rw more (Writes-trans n d (x ∷ chunk) out _ first all, why)
  | inr done ↦
      rw done
        (Writes-refl n d (x ∷ chunk) le holds, inl (omega (arith, ltb→le d.payload_length n done)))
]

-- A payload that is complete fills its blocks exactly.
pub assemble-received :
    (n : ℕ) (blocks : List (List ℕ)) (filled : ℕ)
    → Holds n blocks filled n
    → (assemble blocks ≡ received blocks filled) × (length (assemble blocks) ≡ n)
unfolding assemble received
assemble-received n [] filled h = (refl, omega arith)
assemble-received n (b ∷ bs) filled (count, le, room) = (
  ap (assemble bs ++◌) (sym (take_all filled b (omega arith))),
  omega (arith, length-append (assemble bs) b),
)

pub length-received :
    (n : ℕ) (blocks : List (List ℕ)) (filled count : ℕ)
    → Holds n blocks filled count
    → length (received blocks filled) ≡ count
unfolding received
length-received n [] filled count h = omega arith
length-received n (b ∷ bs) filled count h =
    omega (arith, length-append (assemble bs) (take filled b), length-take filled b)
