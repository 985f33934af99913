-- ===== src/Protocol/Framing/Examples.antt =====
-- Runs of the frame decoder, and the theorems at concrete inputs.
use mathlib.Core.List.{flatten}
use inkpi.Base.{some, ℕ, some, ◌≡◌, refl, ◌∷◌, [], List, ok, err, arith, ◌↔◌, ◌≤◌, length}
use inkpi.Protocol.Framing.{
  create_decoder, resolve_max_frame_length, opened, exceeds_limit, new_decoder, encode_frame,
  assert_complete_frame, push, push_in, push_open, push_loop, round_of, read_header, end_stream,
}
use inkpi.Protocol.Framing.Rounds.{pending}
use inkpi.Protocol.Framing.Refine.{Refines, push-Refines, end_stream-pending}
use inkpi.Protocol.Framing.RoundTrip.{
  feed, encode_all, feed-encode_all, feed_recut, new_decoder-IsValid,
}
use inkpi.Protocol.Framing.Complete.{assert_complete_frame-encode_frame}

abbrev payloads : List (List ℕ)
payloads = (7 ∷ 8 ∷ []) ∷ [] ∷ (9 ∷ []) ∷ []

abbrev cut : List (List ℕ)
cut = (0 ∷ 0 ∷ []) ∷ (0 ∷ 2 ∷ 7 ∷ []) ∷ (8 ∷ 0 ∷ 0 ∷ 0 ∷ 0 ∷ 0 ∷ 0 ∷ 0 ∷ 1 ∷ []) ∷ (9 ∷ []) ∷ []

abbrev uncut : List (List ℕ)
uncut = (0 ∷ 0 ∷ 0 ∷ 2 ∷ 7 ∷ 8 ∷ 0 ∷ 0 ∷ 0 ∷ 0 ∷ 0 ∷ 0 ∷ 0 ∷ 1 ∷ 9 ∷ []) ∷ []

run_cut : (feed (new_decoder 100) cut).1 ≡ ok payloads
unfolding feed push push_in push_open push_loop round_of read_header
run_cut = refl

run_over : (feed (new_decoder 1) uncut).1 ≡ err (exceeds_limit 2)
unfolding feed push push_in push_open push_loop round_of read_header
run_over = refl

feed-encode_all_example :
    ((feed (new_decoder 100) cut).1 ≡ ok payloads)
    × ((end_stream (feed (new_decoder 100) cut).0).1 ≡ ok tt)
unfolding encode_all encode_frame flatten create_decoder resolve_max_frame_length
feed-encode_all_example =
    feed-encode_all (some 100) payloads cut {d = new_decoder 100} refl (omega arith) refl refl
      (omega arith)

feed_recut_example :
    ((feed (new_decoder 100) uncut).1 ≡ ok payloads)
    × (pending (feed (new_decoder 100) uncut).0 ≡ pending (feed (new_decoder 100) cut).0)
unfolding flatten
feed_recut_example =
    feed_recut (new_decoder 100) cut uncut payloads refl (new_decoder-IsValid 100 (omega arith))
      (omega arith) (omega arith) refl run_cut

push-Refines_example :
    Refines 100 opened (0 ∷ 0 ∷ 0 ∷ 2 ∷ 7 ∷ []) [] (push (new_decoder 100) (0 ∷ 0 ∷ 0 ∷ 2 ∷ 7 ∷ []))
unfolding pending
push-Refines_example =
    push-Refines (new_decoder 100) (0 ∷ 0 ∷ 0 ∷ 2 ∷ 7 ∷ []) refl
      (new_decoder-IsValid 100 (omega arith)) (omega arith)

end_stream-pending_example :
    ((end_stream (new_decoder 100)).1 ≡ ok tt) ↔ (pending (new_decoder 100) ≡ [])
end_stream-pending_example =
    end_stream-pending (new_decoder 100) refl (new_decoder-IsValid 100 (omega arith))

assert_complete_frame-encode_frame_example :
    (assert_complete_frame (0 ∷ 0 ∷ 0 ∷ 1 ∷ 5 ∷ []) (some 10) ≡ ok tt)
    ↔ ((p : List ℕ) × (encode_frame p ≡ ok (0 ∷ 0 ∷ 0 ∷ 1 ∷ 5 ∷ [])) × ((length p) ≤ 10))
unfolding resolve_max_frame_length
assert_complete_frame-encode_frame_example =
    assert_complete_frame-encode_frame (0 ∷ 0 ∷ 0 ∷ 1 ∷ 5 ∷ []) (some 10) 10 refl (omega arith)
