-- ===== src/Protocol/Framing/Complete.antt =====
-- `assertCompleteFrame` against `encodeFrame`.
use inkpi.Base.{
  ℕ, ◌+◌, ◌≤◌, ◌≡◌, refl, ap, ◌∙◌, sym, ◌↔◌, le→ltb, List, [], ◌∷◌, ◌++◌, arith, length, All,
  Option, ok,
}
use inkpi.Protocol.Framing.{
  IsByte, max_uint32, be_bytes, be_value, encode_frame, resolve_max_frame_length,
  assert_complete_frame,
}
use inkpi.Protocol.Framing.Header.{be_bytes-be_value}
use inkpi.Protocol.Framing.RoundTrip.{array_set-header, encode_frame-eq_ok}
use inkpi.Protocol.Framing.Stream.{be_value-be_bytes}

encode_frame-framed :
    (p : List ℕ) → length p ≤ max_uint32 → encode_frame p ≡ ok (be_bytes (length p) ++ p)
unfolding encode_frame
encode_frame-framed p h = rw (le→ltb max_uint32 (length p) h, array_set-header (length p) p refl)

accepted :
    (frame : List ℕ) (options : Option ℕ) (limit : ℕ)
    → resolve_max_frame_length options ≡ ok limit
    → assert_complete_frame frame options ≡ ok tt
    → (4 ≤ length frame) × (be_value frame ≤ limit) × (length frame ≡ 4 + be_value frame)
unfolding assert_complete_frame
accepted frame options limit r h = ground arith

accepts :
    (frame : List ℕ) (options : Option ℕ) (limit : ℕ)
    → resolve_max_frame_length options ≡ ok limit
    → 4 ≤ length frame
    → be_value frame ≤ limit
    → length frame ≡ 4 + be_value frame
    → assert_complete_frame frame options ≡ ok tt
unfolding assert_complete_frame
accepts frame options limit r h k e = ground arith

split_frame :
    (frame : List ℕ)
    → 4 ≤ length frame
    → All IsByte frame
    → (p : List ℕ) × (frame ≡ be_bytes (be_value frame) ++ p) × (be_value frame ≤ max_uint32)
split_frame [] h b = absurd (omega arith)
split_frame (x ∷ []) h b = absurd (omega arith)
split_frame (x ∷ y ∷ []) h b = absurd (omega arith)
split_frame (x ∷ y ∷ z ∷ []) h b = absurd (omega arith)
split_frame (x ∷ y ∷ z ∷ w ∷ p) h (bx, (by_, (bz, (bw, _)))) =
    let (same, top) = be_bytes-be_value (x ∷ y ∷ z ∷ w ∷ []) refl (bx, (by_, (bz, (bw, tt)))) in
    (p, ap (◌++ p) (sym same), top)

-- `assertCompleteFrame` accepts exactly the frames that `encodeFrame` makes of payloads within the
-- limit.
pub assert_complete_frame-encode_frame :
    (frame : List ℕ) (options : Option ℕ) (limit : ℕ)
    → resolve_max_frame_length options ≡ ok limit
    → All IsByte frame
    → (assert_complete_frame frame options ≡ ok tt)
      ↔ ((p : List ℕ) × (encode_frame p ≡ ok frame) × (length p ≤ limit))
assert_complete_frame-encode_frame frame options limit r bytes = (there, back)
  where
    there :
        assert_complete_frame frame options ≡ ok tt
        → (p : List ℕ) × (encode_frame p ≡ ok frame) × (length p ≤ limit)
    there h =
        let (long, fits, exact) = accepted frame options limit r h in
        let (p, e, top) = split_frame frame long bytes in
        let len : length p ≡ be_value frame = omega (arith, ap length e) in
        (
          p,
          encode_frame-framed p (omega (arith, len))
              ∙ ap ok (ap (λ n. be_bytes n ++ p) len ∙ sym e),
          omega (arith, len),
        )

    back :
        (p : List ℕ) × (encode_frame p ≡ ok frame) × (length p ≤ limit)
        → assert_complete_frame frame options ≡ ok tt
    back (p, e, fits) =
        let (top, same) = encode_frame-eq_ok p e in
        let value : be_value frame ≡ length p =
          ap be_value same ∙ be_value-be_bytes (length p) top in
        accepts frame options limit r (omega (arith, ap length same)) (omega (arith, value))
          (omega (arith, value, ap length same))
