-- ===== src/Protocol/Framing/Rounds.antt =====
-- The decoder's fields stand for the bytes of an incomplete frame; a round of `push` moves bytes of
-- the chunk behind them.
use inkpi.Base.{
  ℕ, ◌≤◌, ◌<◌, ◌≡◌, refl, ap, ap₂, subst, ◌≢◌, ◌∙◌, sym, inl, inr, Bool-cases, ltb→lt, ltb→le, List,
  [], ◌++◌, arith, length, take, ltb, ◌==◌, Option, none, some, All,
}
use inkpi.Protocol.Framing.{
  FrameDecoder, DecoderState, failed, IsByte, max_uint32, be_bytes, assemble, Round, continue,
  failing, read_payload, start_payload, fail, fill,
}
use inkpi.Protocol.Framing.Stream.{Rejects}
use inkpi.Protocol.Framing.Blocks.{received, Holds}
use inkpi.Protocol.Framing.Fill.{Fills, fill-Fills, assemble-received}

-- The incomplete payload that is expected, if a header was read.
abbrev pub Expects : Option ℕ → FrameDecoder → Type 0
Expects none d = d.header_length < 4
Expects (some n) d =
    Holds n d.payload_blocks d.current_payload_block_length d.payload_length
    × (d.payload_length < n)
    × (n ≤ d.max_frame_length)
    × (d.header_length ≡ 0)

pub record IsValid (d : FrameDecoder) : Type 0 where
  pub limit : d.max_frame_length ≤ max_uint32
  pub size : length d.header ≡ 4
  pub bytes : All IsByte d.header
  pub expects : Expects d.expected_payload_length d

-- The bytes of the incomplete frame that have arrived.
abbrev pub pending_of : Option ℕ → FrameDecoder → List ℕ
pending_of none d = take d.header_length d.header
pending_of (some n) d = be_bytes n ++ received d.payload_blocks d.current_payload_block_length

unfoldable pub pending : FrameDecoder → List ℕ
pending d = pending_of d.expected_payload_length d

-- What a round does to the stream `bytes`, of which `bound` bytes have not been read.
abbrev pub Sound : ℕ → DecoderState → List ℕ → ℕ → Round → Type 0
Sound limit st bytes bound (continue d chunk none) =
    IsValid d
    × (d.max_frame_length ≡ limit)
    × (d.state ≡ st)
    × (bytes ≡ pending d ++ chunk)
    × (length chunk < bound)
Sound limit st bytes bound (continue d chunk (some p)) =
    IsValid d
    × (d.max_frame_length ≡ limit)
    × (d.state ≡ st)
    × (pending d ≡ [])
    × (bytes ≡ be_bytes (length p) ++ (p ++ chunk))
    × (length p ≤ limit)
    × (length chunk < bound)
Sound limit st bytes bound (failing d n) = (d.state ≡ failed) × Rejects limit bytes []

-- The decoder `d` expects `n` bytes, and the inner loop has made it `d'`.
module _ (n bound : ℕ) (d d' : FrameDecoder) (chunk chunk' : List ℕ)
    (limit : d.max_frame_length ≤ max_uint32) (size : length d.header ≡ 4)
    (bytes : All IsByte d.header) (expects : Expects (some n) d) (short : length chunk ≤ bound)
    (fills : Fills n d chunk (d', chunk')) where
  open (fills.0.4) use {header, header_length, max_frame_length, expected, state}

  full_round :
      d'.payload_length ≡ n
      → Sound d.max_frame_length d.state (pending_of (some n) d ++ chunk) bound (
          continue
            (record d' {
              payload_blocks = [];
              current_payload_block_length = 0;
              expected_payload_length = none;
              payload_length = 0;
            })
            chunk'
            (some (assemble d'.payload_blocks)))
  unfolding pending
  full_round done =
      let holds : Holds n d'.payload_blocks d'.current_payload_block_length n =
        rw done at fills.0.0 in
      let (same, len) =
        assemble-received n d'.payload_blocks d'.current_payload_block_length holds in
      (
        record {
          limit = rw max_frame_length limit;
          size = ap length header ∙ size;
          bytes = subst (All IsByte) (sym header) bytes;
          expects = omega (arith, header_length, expects.3);
        },
        max_frame_length,
        state,
        ap₂ take (header_length ∙ expects.3) header,
        rw (len, same) (ap (be_bytes n ++◌) (sym fills.0.2)),
        omega (arith, len, expects.2),
        omega (arith, fills.0.3, expects.1),
      )

  part_round :
      d.expected_payload_length ≡ some n
      → 0 < bound
      → d'.payload_length ≢ n
      → Sound d.max_frame_length d.state
          (pending_of (some n) d ++ chunk)
          bound
          (continue d' chunk' none)
  unfolding pending
  part_round e pos more = (
    record {
      limit = rw max_frame_length limit;
      size = ap length header ∙ size;
      bytes = subst (All IsByte) (sym header) bytes;
      expects =
          subst (λ o. Expects o d') (sym (expected ∙ e))
            (
              fills.0.0,
              omega (arith, fills.0.1, more),
              omega (arith, expects.2, max_frame_length),
              header_length ∙ expects.3,
            );
    },
    max_frame_length,
    state,
    ap (be_bytes n ++◌) (sym fills.0.2) ∙ ap (λ o. pending_of o d' ++ chunk') (sym (expected ∙ e)),
    omega (arith, fills.1, more),
  )

pub read_payload-Sound :
    (n bound : ℕ) (d : FrameDecoder) (chunk : List ℕ)
    → d.expected_payload_length ≡ some n
    → d.max_frame_length ≤ max_uint32
    → length d.header ≡ 4
    → All IsByte d.header
    → Expects (some n) d
    → length chunk ≤ bound
    → 0 < bound
    → Sound d.max_frame_length d.state
        (pending_of (some n) d ++ chunk)
        bound
        (read_payload n d chunk)
unfolding read_payload
read_payload-Sound n bound d chunk e limit size bytes expects short pos =
    elim (Bool-cases (d'.payload_length == n)) [
      | inl done ↦
          rw done (
            full_round n bound d d' chunk out.1 limit size bytes expects short fills (ground arith))
      | inr more ↦ rw more (
          part_round n bound d d' chunk out.1 limit size bytes expects short fills e pos
            (ground arith))
    ]
  where
    out : FrameDecoder × List ℕ
    out = fill (length chunk) n d chunk

    d' : FrameDecoder
    d' = out.0

    fills : Fills n d chunk out
    fills = fill-Fills (length chunk) n d chunk (omega arith) (omega arith) expects.0

-- From the complete header on, which announces `n` bytes.
module _ (n bound : ℕ) (d : FrameDecoder) (chunk : List ℕ) (e : d.expected_payload_length ≡ none)
    (hl : d.header_length ≡ 0) (limit : d.max_frame_length ≤ max_uint32)
    (size : length d.header ≡ 4) (bytes : All IsByte d.header) (short : length chunk < bound) where
  empty_round :
      n ≡ 0
      → Sound d.max_frame_length d.state (be_bytes n ++ chunk) bound (continue d chunk (some []))
  unfolding pending
  empty_round zero_ = (
    record {
      limit = limit;
      size = size;
      bytes = bytes;
      expects = subst (λ o. Expects o d) (sym e) (omega (arith, hl));
    },
    refl,
    refl,
    ap (λ o. pending_of o d) e ∙ ap (λ k. take k d.header) hl,
    ap (λ k. be_bytes k ++ chunk) zero_,
    omega arith,
    short,
  )

  payload_round :
      0 < n
      → n ≤ d.max_frame_length
      → Sound d.max_frame_length d.state (be_bytes n ++ chunk) bound (
          read_payload n
            (record d {
              expected_payload_length = some n;
              payload_blocks = [];
              current_payload_block_length = 0;
              payload_length = 0;
            })
            chunk)
  unfolding received
  payload_round pos le =
      read_payload-Sound n bound _ chunk refl limit size bytes (refl, pos, le, hl) (omega arith)
        (omega arith)

  pub start_payload-Sound :
      n ≤ max_uint32
      → Sound d.max_frame_length d.state (be_bytes n ++ chunk) bound (start_payload n d chunk)
  unfolding start_payload fail
  start_payload-Sound top = elim (Bool-cases (ltb d.max_frame_length n)) [
    | inl over ↦ rw over (refl, (n, chunk, refl, ltb→lt _ n over, top))
    | inr fits ↦ rw fits (elim (Bool-cases (n == 0)) [
      | inl empty ↦ rw empty (empty_round (ground arith))
      | inr more ↦ rw more (payload_round (ground arith) (ltb→le _ n fits))
    ])
  ]
