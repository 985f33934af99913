-- ===== src/Protocol/Framing/Header.antt =====
-- The rounds of `push` that read a header.
use inkpi.Base.{
  ℕ, ◌+◌, ◌-◌, ◌≤◌, ◌<◌, min, ◌≡◌, refl, ap, subst, ◌∙◌, sym, inl, inr, Bool-cases, ltb→lt, ltb→le,
  List, [], ◌∷◌, ◌++◌, arith, length, length-drop, take_all, take, drop, ltb, none, All, All-append,
  All-take, All-drop,
}
use inkpi.Protocol.Framing.{
  FrameDecoder, IsByte, max_uint32, be_bytes, be_value, array_set, continue, start_payload,
  read_header,
}
use inkpi.Protocol.Framing.Blocks.{array_set_moves, length-array_set-take}
use inkpi.Protocol.Framing.Rounds.{
  IsValid, Expects, pending_of, pending, Sound, start_payload-Sound,
}

pub be_bytes-be_value :
    (h : List ℕ)
    → length h ≡ 4
    → All IsByte h
    → (be_bytes (be_value h) ≡ h) × (be_value h ≤ max_uint32)
be_bytes-be_value (a ∷ b ∷ c ∷ d ∷ []) e (ha, (hb, (hc, (hd, _)))) = (ground arith, omega arith)
be_bytes-be_value [] e h = absurd (omega arith)
be_bytes-be_value (a ∷ []) e h = absurd (omega arith)
be_bytes-be_value (a ∷ b ∷ []) e h = absurd (omega arith)
be_bytes-be_value (a ∷ b ∷ c ∷ []) e h = absurd (omega arith)
be_bytes-be_value (a ∷ b ∷ c ∷ d ∷ x ∷ xs) e h = absurd (omega arith)

-- While the header is read.
module _ (d : FrameDecoder) (x : ℕ) (chunk : List ℕ) (e : d.expected_payload_length ≡ none)
    (v : IsValid d) (cb : All IsByte (x ∷ chunk)) where
  abbrev count : ℕ
  count = min (4 - d.header_length) (length (x ∷ chunk))

  abbrev header' : List ℕ
  header' = array_set d.header (take count (x ∷ chunk)) d.header_length

  below : d.header_length < 4
  below = subst (λ o. Expects o d) e v.expects

  moves :
      take (d.header_length + count) header' ++ drop count (x ∷ chunk)
      ≡ take d.header_length d.header ++ (x ∷ chunk)
  moves =
      array_set_moves d.header (x ∷ chunk) d.header_length count (omega arith)
        (omega (arith, below, v.size))

  size' : length header' ≡ 4
  size' =
      length-array_set-take d.header (x ∷ chunk) d.header_length count (omega arith)
        (omega (arith, below, v.size))
      ∙ v.size

  bytes' : All IsByte header'
  bytes' =
      All-append IsByte (take d.header_length d.header) _
        (All-take IsByte d.header_length d.header v.bytes)
        (All-append IsByte (take count (x ∷ chunk)) _ (All-take IsByte count (x ∷ chunk) cb)
          (All-drop IsByte (d.header_length + length (take count (x ∷ chunk))) d.header v.bytes))

  abbrev partial_header : FrameDecoder
  partial_header = record d { header = header'; header_length = d.header_length + count }

  abbrev full_header : FrameDecoder
  full_header = record d { header = header'; header_length = 0 }

  partial_round :
      d.header_length + count < 4
      → Sound d.max_frame_length d.state
          (pending d ++ (x ∷ chunk))
          (length (x ∷ chunk))
          (continue partial_header (drop count (x ∷ chunk)) none)
  unfolding pending
  partial_round short = (
    record {
      limit = v.limit;
      size = size';
      bytes = bytes';
      expects = subst (λ o. Expects o partial_header) (sym e) short;
    },
    refl,
    refl,
    ap (λ o. pending_of o d ++ (x ∷ chunk)) e
        ∙ sym moves
        ∙ ap (λ o. pending_of o partial_header ++ drop count (x ∷ chunk)) (sym e),
    omega (arith, below, length-drop count (x ∷ chunk)),
  )

  whole_header :
      4 ≤ d.header_length + count
      → pending d ++ (x ∷ chunk) ≡ be_bytes (be_value header') ++ drop count (x ∷ chunk)
  unfolding pending
  whole_header done =
      ap (λ o. pending_of o d ++ (x ∷ chunk)) e
      ∙ sym moves
      ∙ ap (◌++ drop count (x ∷ chunk)) (
          take_all (d.header_length + count) header' (omega (arith, size'))
          ∙ sym (be_bytes-be_value header' size' bytes').0)

  pub read_header-Sound :
      Sound d.max_frame_length d.state
        (pending d ++ (x ∷ chunk))
        (length (x ∷ chunk))
        (read_header d (x ∷ chunk))
  unfolding read_header
  read_header-Sound = elim (Bool-cases (ltb (d.header_length + count) 4)) [
    | inl short ↦ rw short (partial_round (ltb→lt _ _ short))
    | inr done ↦ rw done (
        subst
          (λ b.
            Sound d.max_frame_length d.state b (length (x ∷ chunk))
              (start_payload (be_value header') full_header (drop count (x ∷ chunk))))
          (sym (whole_header (ltb→le _ _ done)))
          (start_payload-Sound (be_value header') (length (x ∷ chunk)) full_header
            (drop count (x ∷ chunk)) e refl v.limit size' bytes'
            (omega (arith, below, length-drop count (x ∷ chunk)))
            (be_bytes-be_value header' size' bytes').1))
  ]
