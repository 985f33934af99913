-- ===== src/Protocol/RpcLimits/Examples.antt =====
-- Runs of the line buffer and the send window, and their theorems at concrete inputs.
use mathlib.Core.List.{flatten}
use inkpi.Base.{ℕ, ◌≤◌, ◌≡◌, refl, none, some, List, [], ◌∷◌, ok, err}
use inkpi.Base.Texts.{is_space, trim, trim_start}
use inkpi.Protocol.RpcLimits.{
  RpcLimits, default_rpc_limits, resolve_rpc_limits, invalid_limits, frame_too_long, clear, text_of,
  fragment_of, after_line, add_fragment, bytes_after, unit_bytes, join, push_loop, push,
  rpc_frame_bytes,
}
use inkpi.Protocol.RpcLimits.Window.{
  WindowCall, reserves, releases, new_window, run_window, reserve, release, release_at, outstanding,
  run_window-outstanding,
}
use inkpi.Protocol.RpcLimits.Lines.{push_all, lines_of, push_all-lines_of}

abbrev narrow : RpcLimits
narrow = record default_rpc_limits { max_frame_bytes = 6; max_queued_bytes = 8 }

-- Two lines, the second of them cut in two.
abbrev stream : List (List ℕ)
stream = (97 ∷ 13 ∷ 10 ∷ 98 ∷ []) ∷ (99 ∷ 10 ∷ 32 ∷ []) ∷ []

stream_run : (push_all narrow clear [] stream).1 ≡ ok ((97 ∷ []) ∷ (98 ∷ 99 ∷ []) ∷ [])
unfolding push_all push push_loop fragment_of after_line add_fragment bytes_after unit_bytes join
    trim trim_start is_space
stream_run = refl

long_run : (push narrow clear (97 ∷ 97 ∷ 0x20ac ∷ 0x20ac ∷ [])) ≡ (clear, err frame_too_long)
unfolding push push_loop fragment_of after_line add_fragment bytes_after unit_bytes
long_run = refl

narrow_default :
    resolve_rpc_limits (record {
      frame_bytes = some 32_000_000;
      queued_bytes = none;
      pending_requests = none;
      timeout_ms = none;
    })
    ≡ err invalid_limits
unfolding resolve_rpc_limits
narrow_default = refl

push_all-lines_of_example :
    ((97 ∷ []) ∷ (98 ∷ 99 ∷ []) ∷ [], text_of (push_all narrow clear [] stream).0)
    ≡ lines_of [] [] (flatten stream)
push_all-lines_of_example =
    push_all-lines_of narrow stream ((97 ∷ []) ∷ (98 ∷ 99 ∷ []) ∷ []) stream_run

-- A reservation of three bytes that is released twice.
abbrev calls : List WindowCall
calls =
    reserves (97 ∷ 98 ∷ 99 ∷ []) none ∷ reserves (97 ∷ []) (some 4) ∷ releases 1 ∷ releases 1 ∷ []

window_run : (run_window narrow new_window calls).queued_bytes ≡ 1
unfolding run_window reserve release release_at rpc_frame_bytes bytes_after unit_bytes
window_run = refl

run_window-outstanding_example :
    ((run_window narrow new_window calls).queued_bytes
      ≡ outstanding (run_window narrow new_window calls).reservations)
    × ((run_window narrow new_window calls).queued_bytes ≤ narrow.max_queued_bytes)
run_window-outstanding_example = run_window-outstanding narrow calls
