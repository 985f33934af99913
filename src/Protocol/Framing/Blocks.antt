-- ===== src/Protocol/Framing/Blocks.antt =====
-- The inner loop of `push`: what the blocks hold.
use inkpi.Base.{
  ℕ, ◌+◌, ◌-◌, ◌≤◌, ◌<◌, min, ◌≡◌, refl, ap, ◌∙◌, sym, inl, inr, Bool-cases, List, [], ◌∷◌, ◌++◌,
  append_assoc, arith, length, take, drop, replicate, length-append, length-take, length-drop,
  length-replicate, take_all, subst, take-append-drop, ◌==◌, append-nil, take-append_length,
}
use inkpi.Protocol.Framing.{
  FrameDecoder, payload_block_size, array_set, assemble, open_block, write_block,
}

-- The payload bytes that have arrived: full blocks, and the newest up to where it is filled.
unfoldable pub received : List (List ℕ) → ℕ → List ℕ
received [] filled = []
received (b ∷ bs) filled = assemble bs ++ take filled b

-- The blocks hold `payload_length` bytes, and have room for no more than `expected`.
abbrev pub Holds : ℕ → List (List ℕ) → ℕ → ℕ → Type 0
Holds expected [] filled count = count ≡ 0
Holds expected (b ∷ bs) filled count =
    (count ≡ length (assemble bs) + filled)
    × (filled ≤ length b)
    × (length (assemble bs) + length b ≤ expected)

-- The fields that the inner loop leaves alone.
pub record Same (d d' : FrameDecoder) : Type 0 where
  pub header : d'.header ≡ d.header
  pub header_length : d'.header_length ≡ d.header_length
  pub max_frame_length : d'.max_frame_length ≡ d.max_frame_length
  pub expected : d'.expected_payload_length ≡ d.expected_payload_length
  pub state : d'.state ≡ d.state

module _ (b xs : List ℕ) (offset : ℕ) (fits : offset + length xs ≤ length b) where
  pub take-array_set : take (offset + length xs) (array_set b xs offset) ≡ take offset b ++ xs
  take-array_set =
      ap (take (offset + length xs)) (sym (append_assoc (take offset b) xs rest))
      ∙ take-append_length _ (take offset b ++ xs) rest size
    where
      rest : List ℕ
      rest = drop (offset + length xs) b

      size : length (take offset b ++ xs) ≡ offset + length xs
      size = omega (arith, length-append (take offset b) xs, length-take offset b)

  pub length-array_set : length (array_set b xs offset) ≡ length b
  length-array_set = omega (
    arith,
    length-append (take offset b) (xs ++ drop (offset + length xs) b),
    length-append xs (drop (offset + length xs) b),
    length-take offset b,
    length-drop (offset + length xs) b,
  )

-- The block that is open holds the same bytes, and has room.
abbrev pub Opens : ℕ → List (List ℕ) → ℕ → ℕ → FrameDecoder → Type 0
Opens n blocks filled count d' =
    (b : List ℕ) × (bs : List (List ℕ)) × (d'.payload_blocks ≡ b ∷ bs)
    × (d'.current_payload_block_length < length b)
    × Holds n (b ∷ bs) d'.current_payload_block_length count
    × (received (b ∷ bs) d'.current_payload_block_length ≡ received blocks filled)
    × (d'.payload_length ≡ count)

abbrev zeros : ℕ → ℕ → List ℕ
zeros n count = replicate (min payload_block_size (n - count)) 0

fresh-Opens :
    (n : ℕ) (blocks : List (List ℕ)) (d' : FrameDecoder)
    → d'.payload_length < n
    → Holds n blocks d'.current_payload_block_length d'.payload_length
    → length (assemble blocks) ≡ d'.payload_length
    → assemble blocks ≡ received blocks d'.current_payload_block_length
    → Opens n blocks d'.current_payload_block_length d'.payload_length (record d' {
      payload_blocks = zeros n d'.payload_length ∷ blocks;
      current_payload_block_length = 0;
    })
unfolding received
fresh-Opens n blocks d' lt h size all = (
  zeros n d'.payload_length,
  blocks,
  refl,
  omega (arith, room),
  (omega (arith, size), omega arith, omega (arith, room, size)),
  append-nil (assemble blocks) ∙ all,
  refl,
)
  where
    room : length (zeros n d'.payload_length) ≡ min payload_block_size (n - d'.payload_length)
    room = length-replicate _ 0

pub open_block-Opens :
    (n : ℕ) (blocks : List (List ℕ)) (d : FrameDecoder)
    → d.payload_length < n
    → Holds n blocks d.current_payload_block_length d.payload_length
    → Opens n blocks d.current_payload_block_length d.payload_length
        (open_block n (record d { payload_blocks = blocks }))
unfolding open_block assemble received
open_block-Opens n [] d lt h = fresh-Opens n [] d lt h (omega arith) refl
open_block-Opens n (b ∷ bs) d lt h =
    elim (Bool-cases (d.current_payload_block_length == length b)) [
      | inl full ↦ rw full (
          fresh-Opens n (b ∷ bs) d lt h (ground (arith, length-append (assemble bs) b))
            (ap (assemble bs ++◌) (sym (take_all _ b (ground arith)))))
      | inr space ↦ rw space (b, bs, refl, ground arith, h, refl, refl)
    ]

open_block-Same : (n : ℕ) (d : FrameDecoder) → Same d (open_block n d)
unfolding open_block
open_block-Same n d = ground arith

-- One round of the loop appends to the payload what it takes from the chunk.
abbrev pub Writes : ℕ → FrameDecoder → List ℕ → FrameDecoder × List ℕ → Type 0
Writes n d chunk out =
    Holds n out.0.payload_blocks out.0.current_payload_block_length out.0.payload_length
    × (out.0.payload_length ≤ n)
    × (received out.0.payload_blocks out.0.current_payload_block_length ++ out.1
        ≡ received d.payload_blocks d.current_payload_block_length ++ chunk)
    × (out.0.payload_length + length out.1 ≡ d.payload_length + length chunk)
    × Same d out.0

module _ (b chunk : List ℕ) (cur k : ℕ) (has : k ≤ length chunk) (room : cur + k ≤ length b) where
  size : length (take k chunk) ≡ k
  size = omega (arith, length-take k chunk)

  -- Writing `k` bytes of the chunk into the block moves them, and loses none.
  pub array_set_moves :
      take (cur + k) (array_set b (take k chunk) cur) ++ drop k chunk ≡ take cur b ++ chunk
  array_set_moves =
      ap (λ n. take (cur + n) (array_set b (take k chunk) cur) ++ drop k chunk) (sym size)
      ∙ ap (◌++ drop k chunk) (take-array_set b (take k chunk) cur (omega (arith, size)))
      ∙ append_assoc (take cur b) (take k chunk) (drop k chunk)
      ∙ ap (take cur b ++◌) (take-append-drop k chunk)

  pub length-array_set-take : length (array_set b (take k chunk) cur) ≡ length b
  length-array_set-take = length-array_set b (take k chunk) cur (omega (arith, size))

write_block-Writes :
    (n : ℕ) (d : FrameDecoder) (b : List ℕ) (bs : List (List ℕ)) (chunk : List ℕ)
    → d.current_payload_block_length < length b
    → Holds n (b ∷ bs) d.current_payload_block_length d.payload_length
    → Writes n (record d { payload_blocks = b ∷ bs }) chunk (write_block d (b ∷ bs) chunk)
unfolding write_block received
write_block-Writes n d b bs chunk lt h = (
  (omega arith, omega (arith, len), omega (arith, len)),
  omega arith,
  append_assoc (assemble bs) _ _
      ∙ ap (assemble bs ++◌) (array_set_moves b chunk cur k (omega arith) (omega arith))
      ∙ sym (append_assoc (assemble bs) (take cur b) chunk),
  omega (arith, length-drop k chunk),
  record {
    header = refl;
    header_length = refl;
    max_frame_length = refl;
    expected = refl;
    state = refl;
  },
)
  where
    cur : ℕ
    cur = d.current_payload_block_length

    k : ℕ
    k = min (length b - cur) (length chunk)

    len : length (array_set b (take k chunk) cur) ≡ length b
    len = length-array_set-take b chunk cur k (omega arith) (omega arith)

Same-trans : {a b c : FrameDecoder} → Same a b → Same b c → Same a c
Same-trans p q = record {
  header = q.header ∙ p.header;
  header_length = q.header_length ∙ p.header_length;
  max_frame_length = q.max_frame_length ∙ p.max_frame_length;
  expected = q.expected ∙ p.expected;
  state = q.state ∙ p.state;
}

pub Writes-trans :
    (n : ℕ) (d : FrameDecoder) (chunk : List ℕ) (mid out : FrameDecoder × List ℕ)
    → Writes n d chunk mid
    → Writes n mid.0 mid.1 out
    → Writes n d chunk out
Writes-trans n d chunk mid out (_, _, all, size, same) (h, le, all', size', same') =
    (h, le, all' ∙ all, size' ∙ size, Same-trans same same')

-- One round: open a block where that is needed, and write into it.
pub write-Writes :
    (n : ℕ) (d : FrameDecoder) (chunk : List ℕ)
    → d.payload_length < n
    → Holds n d.payload_blocks d.current_payload_block_length d.payload_length
    → Writes n d chunk (write_block (open_block n d) (open_block n d).payload_blocks chunk)
write-Writes n d chunk lt h =
    let (b, bs, eb, room, holds, same, count) = open_block-Opens n d.payload_blocks d lt h in
    let d' = open_block n d in
    let filled = d'.current_payload_block_length in
    let holds' : Holds n (b ∷ bs) filled d'.payload_length = rw count holds in
    Writes-trans n d chunk (d', chunk) _
      (
        subst (λ bl. Holds n bl filled d'.payload_length) (sym eb) holds',
        omega (arith, count),
        ap (λ bl. received bl filled ++ chunk) eb ∙ ap (◌++ chunk) same,
        omega (arith, count),
        open_block-Same n d,
      )
      (subst (λ bl. Writes n (record d' { payload_blocks = bl }) chunk (write_block d' bl chunk))
        (sym eb) (write_block-Writes n d' b bs chunk room holds'))
