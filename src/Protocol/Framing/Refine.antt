-- ===== src/Protocol/Framing/Refine.antt =====
-- `push` implements the specification of Stream.antt: the chunk splits behind the bytes that the
-- decoder's fields stand for.
use inkpi.Base.{
  ℕ, zero, suc, ◌≤◌, ◌≡◌, refl, ap, subst, ◌↔◌, ◌∙◌, sym, inl, inr, Option-cases, List, [], ◌∷◌,
  ◌++◌, append_assoc, arith, length, length-take, Option, take, ◌==◌, true, ◌&&◌, Option, none,
  some, All, All-suffix, append-nil, ok, err, Result,
}
use inkpi.Protocol.Framing.{
  FrameDecoder, DecoderState, opened, failed, FrameError, exceeds_limit, IsByte, be_bytes, Round,
  continue, failing, round_of, push_loop, push_open, push_in, push, end_stream, end_in, is_none,
}
use inkpi.Protocol.Framing.Stream.{Partial, Splits, Rejects}
use inkpi.Protocol.Framing.Blocks.{received}
use inkpi.Protocol.Framing.Fill.{length-received}
use inkpi.Protocol.Framing.Rounds.{IsValid, Expects, pending_of, pending, Sound, read_payload-Sound}
use inkpi.Protocol.Framing.Header.{read_header-Sound}

round_of-Sound :
    (d : FrameDecoder) (x : ℕ) (chunk : List ℕ)
    → IsValid d
    → All IsByte (x ∷ chunk)
    → Sound d.max_frame_length d.state
        (pending d ++ (x ∷ chunk))
        (length (x ∷ chunk))
        (round_of d.expected_payload_length d (x ∷ chunk))
unfolding round_of pending
round_of-Sound d x chunk v cb = elim (Option-cases d.expected_payload_length) [
  | inl e ↦
      subst
        (λ o.
          Sound d.max_frame_length d.state (pending d ++ (x ∷ chunk)) (length (x ∷ chunk))
            (round_of o d (x ∷ chunk)))
        (sym e) (read_header-Sound d x chunk e v cb)
  | inr (n, e) ↦
      subst
        (λ o.
          Sound d.max_frame_length d.state (pending_of o d ++ (x ∷ chunk)) (length (x ∷ chunk))
            (round_of o d (x ∷ chunk)))
        (sym e)
        (read_payload-Sound n (length (x ∷ chunk)) d (x ∷ chunk) e v.limit v.size v.bytes
          (subst (λ o. Expects o d) e v.expects) (omega arith) (omega arith))
]

Expects-Partial :
    (o : Option ℕ) (d : FrameDecoder)
    → length d.header ≡ 4
    → Expects o d
    → Partial d.max_frame_length (pending_of o d)
Expects-Partial none d size h = inl (omega (arith, length-take d.header_length d.header))
Expects-Partial (some n) d size (holds, lt, le, _) = inr (
  n,
  received d.payload_blocks d.current_payload_block_length,
  refl,
  le,
  omega (
    arith,
    length-received n d.payload_blocks d.current_payload_block_length d.payload_length holds,
  ),
)

pub pending-Partial : (d : FrameDecoder) → IsValid d → Partial d.max_frame_length (pending d)
unfolding pending
pending-Partial d v = Expects-Partial d.expected_payload_length d v.size v.expects

-- How `push` may end: the bytes split, or a header is rejected.
abbrev pub Refines :
    ℕ
    → DecoderState
    → List ℕ
    → List (List ℕ)
    → FrameDecoder × Result FrameError (List (List ℕ))
    → Type 0
Refines limit st bytes before (d, ok frames) =
    IsValid d
    × (d.max_frame_length ≡ limit)
    × (d.state ≡ st)
    × ((fs : List (List ℕ)) × (frames ≡ before ++ fs) × Splits limit bytes fs (pending d))
Refines limit st bytes before (d, err e) =
    (d.state ≡ failed) × ((fs : List (List ℕ)) × Rejects limit bytes fs)

Refines-cons :
    (limit : ℕ) (st : DecoderState) (bytes : List ℕ) (before : List (List ℕ)) (p chunk : List ℕ)
    (out : FrameDecoder × Result FrameError (List (List ℕ)))
    → bytes ≡ be_bytes (length p) ++ (p ++ chunk)
    → length p ≤ limit
    → Refines limit st chunk (before ++ (p ∷ [])) out
    → Refines limit st bytes before out
Refines-cons limit st bytes before p chunk (d, ok frames) e le (v, m, s, (fs, same, splits)) =
    (v, m, s, (p ∷ fs, same ∙ append_assoc before (p ∷ []) fs, (chunk, e, le, splits)))
Refines-cons limit st bytes before p chunk (d, err x) e le (s, (fs, rejects)) =
    (s, (p ∷ fs, (chunk, e, le, rejects)))

push_loop-Refines :
    (fuel : ℕ) (d : FrameDecoder) (chunk : List ℕ) (before : List (List ℕ))
    → length chunk ≤ fuel
    → IsValid d
    → All IsByte chunk
    → Refines d.max_frame_length d.state (pending d ++ chunk) before (push_loop fuel d chunk before)
unfolding push_loop
push_loop-Refines fuel d [] before h v cb =
    (v, refl, refl, ([], sym (append-nil before), (append-nil (pending d), pending-Partial d v)))
push_loop-Refines zero d (x ∷ chunk) before h v cb = absurd (omega arith)
push_loop-Refines (suc fuel) d (x ∷ chunk) before h v cb =
    go (round_of d.expected_payload_length d (x ∷ chunk)) (round_of-Sound d x chunk v cb)
      (push_loop-Refines fuel)
  where
    go :
        (r : Round)
        → Sound d.max_frame_length d.state (pending d ++ (x ∷ chunk)) (length (x ∷ chunk)) r
        → ((d' : FrameDecoder) (c' : List ℕ) (before' : List (List ℕ))
            → length c' ≤ fuel
            → IsValid d'
            → All IsByte c'
            → Refines d'.max_frame_length d'.state
                (pending d' ++ c')
                before'
                (push_loop fuel d' c' before'))
        → Refines d.max_frame_length d.state (pending d ++ (x ∷ chunk)) before (elim r [
          | continue d' chunk' none ↦ push_loop fuel d' chunk' before
          | continue d' chunk' (some p) ↦ push_loop fuel d' chunk' (before ++ (p ∷ []))
          | failing d' n ↦ (d', err (exceeds_limit n))
        ])
    go (continue d' c' none) (v', lim, st, e, lt) rec =
        rw (e, ← lim, ← st)
          (rec d' c' before (omega arith) v'
            (All-suffix IsByte (pending d) (pending d') (x ∷ chunk) c' (sym e) (omega arith) cb))
    go (continue d' c' (some p)) (v', lim, st, idle, e, le, lt) rec =
        Refines-cons _ _ _ before p c' _ e le (
          subst
            (λ l.
              Refines l d.state c' (before ++ (p ∷ [])) (push_loop fuel d' c' (before ++ (p ∷ []))))
            lim
            (subst
              (λ s.
                Refines d'.max_frame_length s c' (before ++ (p ∷ []))
                  (push_loop fuel d' c' (before ++ (p ∷ []))))
              st
              (subst
                (λ b.
                  Refines d'.max_frame_length d'.state (b ++ c') (before ++ (p ∷ []))
                    (push_loop fuel d' c' (before ++ (p ∷ []))))
                idle
                (rec d' c' (before ++ (p ∷ [])) (omega arith) v' (
                  All-suffix IsByte (pending d) (be_bytes (length p) ++ p) (x ∷ chunk) c'
                    (append_assoc (be_bytes (length p)) p c' ∙ sym e) (omega arith) cb)))))
    go (failing d' n) (st, rejects) rec = (st, ([], rejects))

-- `push` on an open and valid decoder, for a chunk of bytes, splits the stream where the
-- specification does: the payloads that it returns, the incomplete frame that it keeps and the frame
-- that it rejects are those of `Splits` and `Rejects`.
pub push-Refines :
    (d : FrameDecoder) (chunk : List ℕ)
    → d.state ≡ opened
    → IsValid d
    → All IsByte chunk
    → Refines d.max_frame_length opened (pending d ++ chunk) [] (push d chunk)
unfolding push push_in push_open
push-Refines d chunk op v cb =
    subst (λ s. Refines d.max_frame_length opened (pending d ++ chunk) [] (push_in s d chunk))
      (sym op)
      (subst (λ s. Refines d.max_frame_length s (pending d ++ chunk) [] (push_open d chunk)) op
        (push_loop-Refines (length chunk) d chunk [] (omega arith) v cb))

idle-pending :
    (o : Option ℕ) (d : FrameDecoder)
    → length d.header ≡ 4
    → Expects o d
    → ((d.header_length == 0 && is_none o) ≡ true) ↔ (pending_of o d ≡ [])
unfolding is_none
idle-pending none d size h = (
  λ idle. let z : d.header_length ≡ 0 = ground arith in ap (λ k. take k d.header) z,
  λ e. ground (arith, length-take d.header_length d.header, ap length e),
)
idle-pending (some n) d size h = (λ idle. ground arith, λ e. cc)

-- On an open and valid decoder, `end` succeeds between frames, and only there.
pub end_stream-pending :
    (d : FrameDecoder)
    → d.state ≡ opened
    → IsValid d
    → ((end_stream d).1 ≡ ok tt) ↔ (pending d ≡ [])
unfolding end_stream end_in pending
end_stream-pending d op v =
    let (there, back) = idle-pending d.expected_payload_length d v.size v.expects in
    subst (λ s. ((end_in s d).1 ≡ ok tt) ↔ (pending_of d.expected_payload_length d ≡ [])) (sym op)
      (λ done. there (ground arith), λ idle. rw (back idle))
