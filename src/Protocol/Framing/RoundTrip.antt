-- ===== src/Protocol/Framing/RoundTrip.antt =====
-- Frames that were encoded come out of the decoder, however the stream is cut into chunks.
use mathlib.Core.List.{flatten}
use inkpi.Base.{
  ℕ, Option, none, some, ◌+◌, ◌≤◌, ◌≡◌, refl, ap, ◌∙◌, sym, subst, inl, inr, Bool-cases, ltb,
  ltb→le, List, [], ◌∷◌, ◌++◌, append_assoc, append-nil, arith, length, drop_all, replicate,
  length-replicate, All, Result, ok, err, ok_inj, >>=-eq-ok, ok_inj, ◌>>=◌,
}
use inkpi.Protocol.Framing.{
  FrameDecoder, create_decoder, resolve_max_frame_length, opened, FrameError, IsByte, max_uint32,
  be_bytes, array_set, encode_frame, push, end_stream, new_decoder,
}
use inkpi.Protocol.Framing.Stream.{
  Splits, Splits-unique, Splits-not-rejected, Splits-append, Rejects-append, Rejects-extend,
}
use inkpi.Protocol.Framing.Rounds.{IsValid, pending}
use inkpi.Protocol.Framing.Refine.{Refines, push-Refines, end_stream-pending, pending-Partial}

-- The frames behind those that came before.
abbrev prepend :
    List (List ℕ)
    → FrameDecoder × Result FrameError (List (List ℕ))
    → FrameDecoder × Result FrameError (List (List ℕ))
prepend fs (d, ok gs) = (d, ok (fs ++ gs))
prepend fs (d, err e) = (d, err e)

abbrev and_then :
    FrameDecoder × Result FrameError (List (List ℕ))
    → (FrameDecoder → FrameDecoder × Result FrameError (List (List ℕ)))
    → FrameDecoder × Result FrameError (List (List ℕ))
and_then (d, ok fs) k = prepend fs (k d)
and_then (d, err e) k = (d, err e)

-- A reader that pushes chunk after chunk and stops at the first error.
unfoldable pub feed :
    FrameDecoder → List (List ℕ) → FrameDecoder × Result FrameError (List (List ℕ))
feed d [] = (d, ok [])
feed d (c ∷ cs) = and_then (push d c) (λ d'. feed d' cs)

-- A writer that sends the payloads one by one.
unfoldable pub encode_all : List (List ℕ) → Result FrameError (List ℕ)
encode_all [] = ok []
encode_all (p ∷ ps) = do frame ← encode_frame p; rest ← encode_all ps; ok (frame ++ rest)

pub array_set-header :
    (n : ℕ) (p : List ℕ)
    → length p ≡ n
    → array_set (be_bytes n ++ replicate n 0) p 4 ≡ be_bytes n ++ p
array_set-header n p e =
    ap (λ t. be_bytes n ++ (p ++ t))
      (drop_all (4 + length p) (be_bytes n ++ replicate n 0)
        (omega (arith, e, length-replicate {A = ℕ} n 0)))
    ∙ ap (be_bytes n ++◌) (append-nil p)

pub encode_frame-eq_ok :
    (p : List ℕ) {f : List ℕ}
    → encode_frame p ≡ ok f
    → (length p ≤ max_uint32) × (f ≡ be_bytes (length p) ++ p)
unfolding encode_frame
encode_frame-eq_ok p {f} h = elim (Bool-cases (ltb max_uint32 (length p))) [
  | inl big ↦ cc (rw big at h)
  | inr small ↦
      (ltb→le _ _ small, ok_inj (sym (rw small at h)) ∙ array_set-header (length p) p refl)
]

extends :
    (limit : ℕ) (bytes more : List ℕ) (fs : List (List ℕ)) (r : List ℕ)
    (out : FrameDecoder × Result FrameError (List (List ℕ)))
    → Splits limit bytes fs r
    → Refines limit opened (r ++ more) [] out
    → Refines limit opened (bytes ++ more) [] (prepend fs out)
extends limit bytes more fs r (d, ok gs) splits (v, m, st, (hs, e, rest)) = (
  v,
  m,
  st,
  (fs ++ hs, ap (fs ++◌) e, Splits-append limit bytes more fs hs r (pending d) splits rest),
)
extends limit bytes more fs r (d, err x) splits (st, (hs, rejects)) =
    (st, (fs ++ hs, Rejects-append limit bytes more fs hs r splits rejects))

feed-Refines :
    (d : FrameDecoder) (chunks : List (List ℕ))
    → d.state ≡ opened
    → IsValid d
    → All (All IsByte) chunks
    → Refines d.max_frame_length opened (pending d ++ flatten chunks) [] (feed d chunks)
unfolding feed flatten
feed-Refines d [] op v cb = (v, refl, op, ([], refl, (append-nil (pending d), pending-Partial d v)))
feed-Refines d (c ∷ cs) op v cb =
    go (push d c) (push-Refines d c op v cb.0) (λ d' op' v'. feed-Refines d' cs op' v' cb.1)
  where
    limit : ℕ
    limit = d.max_frame_length

    go :
        (out : FrameDecoder × Result FrameError (List (List ℕ)))
        → Refines limit opened (pending d ++ c) [] out
        → ((d' : FrameDecoder)
            → d'.state ≡ opened
            → IsValid d'
            → Refines d'.max_frame_length opened (pending d' ++ flatten cs) [] (feed d' cs))
        → Refines limit opened (pending d ++ (c ++ flatten cs)) [] (and_then out (λ d'. feed d' cs))
    go (d', ok fs) (v', m, st, (gs, e, splits)) rec =
        rw (← append_assoc (pending d) c (flatten cs), e)
          (extends limit (pending d ++ c) (flatten cs) gs (pending d') (feed d' cs) splits (
            subst (λ l. Refines l opened (pending d' ++ flatten cs) [] (feed d' cs)) m
              (rec d' st v')))
    go (d', err x) (st, (gs, rejects)) rec =
        rw (← append_assoc (pending d) c (flatten cs))
          (st, (gs, Rejects-extend limit (pending d ++ c) (flatten cs) gs rejects))

-- What the writer sends splits into what it sent.
encode_all-Splits :
    (limit : ℕ) (ps : List (List ℕ)) {stream : List ℕ}
    → All (λ p. length p ≤ limit) ps
    → encode_all ps ≡ ok stream
    → Splits limit stream ps []
unfolding encode_all
encode_all-Splits limit [] fits e = (sym (ok_inj e), inl (omega arith))
encode_all-Splits limit (p ∷ ps) fits e =
    let (frame, ef, rest_) = >>=-eq-ok (encode_frame p) _ e in
    let (rest, er, done) = >>=-eq-ok (encode_all ps) _ rest_ in
    (
      rest,
      sym (ok_inj done)
          ∙ ap (◌++ rest) (encode_frame-eq_ok p ef).1
          ∙ append_assoc (be_bytes (length p)) p rest,
      fits.0,
      encode_all-Splits limit ps fits.1 er,
    )

pub new_decoder-IsValid : (limit : ℕ) → limit ≤ max_uint32 → IsValid (new_decoder limit)
new_decoder-IsValid limit h = record {
  limit = h;
  size = refl;
  bytes = omega arith;
  expects = omega arith;
}

-- A reader ends as the specification says.
Refines-Splits :
    (limit : ℕ) (bytes : List ℕ) (fs : List (List ℕ)) (r : List ℕ)
    (out : FrameDecoder × Result FrameError (List (List ℕ)))
    → limit ≤ max_uint32
    → Refines limit opened bytes [] out
    → Splits limit bytes fs r
    → (out.1 ≡ ok fs) × (pending out.0 ≡ r) × (out.0.state ≡ opened) × IsValid out.0
Refines-Splits limit bytes fs r (d, ok gs) h (v, m, st, (hs, e, splits)) want =
    let (same, last) = Splits-unique limit h bytes hs fs {r = pending d} {s = r} splits want in
    (ap ok (e ∙ same), last, st, v)
Refines-Splits limit bytes fs r (d, err x) h (st, (gs, rejects)) want =
    absurd (Splits-not-rejected limit h bytes fs gs r want rejects)

resolve-le :
    (options : Option ℕ) {limit : ℕ}
    → resolve_max_frame_length options ≡ ok limit
    → limit ≤ max_uint32
unfolding resolve_max_frame_length
resolve-le none h = ground arith
resolve-le (some value) h = ground arith

pub create_decoder-eq_ok :
    (options : Option ℕ) {d : FrameDecoder}
    → create_decoder options ≡ ok d
    → (d ≡ new_decoder d.max_frame_length) × (d.max_frame_length ≤ max_uint32)
unfolding create_decoder
create_decoder-eq_ok options h =
    let (limit, r, e) = >>=-eq-ok (resolve_max_frame_length options) _ h in
    subst (λ f. (f ≡ new_decoder f.max_frame_length) × (f.max_frame_length ≤ max_uint32)) (ok_inj e)
      (refl, resolve-le options r)

feed-new_decoder :
    (limit : ℕ) (ps chunks : List (List ℕ)) {stream : List ℕ}
    → limit ≤ max_uint32
    → All (λ p. length p ≤ limit) ps
    → encode_all ps ≡ ok stream
    → flatten chunks ≡ stream
    → All (All IsByte) chunks
    → let out = feed (new_decoder limit) chunks in (out.1 ≡ ok ps) × ((end_stream out.0).1 ≡ ok tt)
feed-new_decoder limit ps chunks {stream} h fits e same cb =
    let start = new_decoder-IsValid limit h in
    let refines = feed-Refines (new_decoder limit) chunks refl start cb in
    let (frames, idle, st, v) =
      Refines-Splits limit (flatten chunks) ps [] (feed (new_decoder limit) chunks) h
        (unfold pending in refines) (rw same (encode_all-Splits limit ps fits e)) in
    (frames, (end_stream-pending _ st v).1 idle)

-- Every cut of the stream of encoded payloads into chunks gives the payloads back, in order, and
-- leaves the decoder between two frames, so that `end` succeeds: for a decoder that was created,
-- payloads within its limit, and chunks of bytes.
pub feed-encode_all :
    (options : Option ℕ) (ps chunks : List (List ℕ)) {d : FrameDecoder} {stream : List ℕ}
    → create_decoder options ≡ ok d
    → All (λ p. length p ≤ d.max_frame_length) ps
    → encode_all ps ≡ ok stream
    → flatten chunks ≡ stream
    → All (All IsByte) chunks
    → ((feed d chunks).1 ≡ ok ps) × ((end_stream (feed d chunks).0).1 ≡ ok tt)
feed-encode_all options ps chunks {d} created fits e same cb =
    let (new, small) = create_decoder-eq_ok options created in
    subst (λ f. ((feed f chunks).1 ≡ ok ps) × ((end_stream (feed f chunks).0).1 ≡ ok tt)) (sym new)
      (feed-new_decoder d.max_frame_length ps chunks small fits e same cb)

Refines-ok :
    (limit : ℕ) (bytes : List ℕ) (fs : List (List ℕ))
    (out : FrameDecoder × Result FrameError (List (List ℕ)))
    → Refines limit opened bytes [] out
    → out.1 ≡ ok fs
    → Splits limit bytes fs (pending out.0)
Refines-ok limit bytes fs (d, ok gs) (v, m, st, (hs, e, splits)) done =
    subst (λ l. Splits limit bytes l (pending d)) (sym e ∙ ok_inj done) splits
Refines-ok limit bytes fs (d, err x) h done = cc

-- How the bytes are cut into chunks does not matter: from an open and valid decoder, where one cut
-- of the bytes gives payloads, another cut of the same bytes gives the same payloads and the same
-- incomplete frame.
pub feed_recut :
    (d : FrameDecoder) (chunks chunks' fs : List (List ℕ))
    → d.state ≡ opened
    → IsValid d
    → All (All IsByte) chunks
    → All (All IsByte) chunks'
    → flatten chunks ≡ flatten chunks'
    → (feed d chunks).1 ≡ ok fs
    → ((feed d chunks').1 ≡ ok fs) × (pending (feed d chunks').0 ≡ pending (feed d chunks).0)
feed_recut d chunks chunks' fs op v cb cb' same done =
    let first =
      Refines-ok d.max_frame_length (pending d ++ flatten chunks) fs (feed d chunks)
        (feed-Refines d chunks op v cb) done in
    let (frames, rest, _, _) =
      Refines-Splits d.max_frame_length (pending d ++ flatten chunks') fs
        (pending (feed d chunks).0) (feed d chunks') v.limit (feed-Refines d chunks' op v cb')
        (rw (← same) first) in
    (frames, rest)
