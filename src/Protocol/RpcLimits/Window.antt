-- ===== src/Protocol/RpcLimits/Window.antt =====
-- The class `RpcSendWindow` of packages/protocol/src/rpc-limits.ts.
use inkpi.Base.{
  ℕ, zero, suc, ◌+◌, ◌-◌, ◌≤◌, ◌≡◌, refl, max, inl, inr, Bool, true, false, Option, none, some,
  List, [], ◌∷◌, ltb, if◌then◌else◌, Bool-cases, ltb→le, Result, ok, err, arith,
}
use inkpi.Protocol.RpcLimits.{RpcLimits, RpcError, queue_full, rpc_frame_bytes}

-- What the function that `reserve` returns closes over.
pub record Reservation : Type 0 where
  pub size : ℕ
  pub released : Bool

-- The window, with the reservations that were given out, the newest first.
pub record RpcSendWindow : Type 0 where
  pub queued_bytes : ℕ
  pub reservations : List Reservation

abbrev pub new_window : RpcSendWindow
new_window = record { queued_bytes = 0; reservations = [] }

-- None stands for a number of native bytes that is not finite.
abbrev pub native_bytes : Option ℕ → ℕ
native_bytes none = 0
native_bytes (some bytes) = bytes

abbrev pub reserve_bytes :
    RpcLimits → RpcSendWindow → Option ℕ → Result RpcError ℕ → RpcSendWindow × Result RpcError ℕ
reserve_bytes limits w native (err e) = (w, err e)
reserve_bytes limits w native (ok bytes) =
    if ltb limits.max_queued_bytes (max w.queued_bytes (native_bytes native) + bytes)
    then (w, err queue_full)
    else (
      record {
        queued_bytes = w.queued_bytes + bytes;
        reservations = record { size = bytes; released = false } ∷ w.reservations;
      },
      ok bytes,
    )

unfoldable pub reserve :
    RpcLimits → RpcSendWindow → List ℕ → Option ℕ → RpcSendWindow × Result RpcError ℕ
reserve limits w message native = reserve_bytes limits w native (rpc_frame_bytes message limits)

-- The call of the function that was returned for a reservation, `i` reservations before the newest:
-- the bytes left in the queue, and the reservations.
unfoldable pub release_at : ℕ → ℕ → List Reservation → ℕ × List Reservation
release_at i queued [] = (queued, [])
release_at zero queued (r ∷ rs) =
    if r.released then (queued, r ∷ rs) else (queued - r.size, record r { released = true } ∷ rs)
release_at (suc i) queued (r ∷ rs) = let (left, rest) = release_at i queued rs in (left, r ∷ rest)

unfoldable pub release : RpcSendWindow → ℕ → RpcSendWindow
release w i =
    let (left, rest) = release_at i w.queued_bytes w.reservations in
    record { queued_bytes = left; reservations = rest }

-- The bytes of the reservations that are not released.
abbrev pub held : Reservation → ℕ
held r = if r.released then 0 else r.size

unfoldable pub outstanding : List Reservation → ℕ
outstanding [] = 0
outstanding (r ∷ rs) = held r + outstanding rs

pub data WindowCall : Type 0 where
  reserves : List ℕ → Option ℕ → WindowCall
  releases : ℕ → WindowCall

unfoldable pub run_window : RpcLimits → RpcSendWindow → List WindowCall → RpcSendWindow
run_window limits w [] = w
run_window limits w (reserves message native ∷ calls) =
    run_window limits (reserve limits w message native).0 calls
run_window limits w (releases i ∷ calls) = run_window limits (release w i) calls

-- A release takes from the queue what it takes from the reservations.
release_at-outstanding :
    (i extra queued : ℕ) (rs : List Reservation)
    → queued ≡ extra + outstanding rs
    → (release_at i queued rs).0 ≡ extra + outstanding (release_at i queued rs).1
unfolding release_at outstanding
release_at-outstanding i extra queued [] h = h
release_at-outstanding zero extra queued (r ∷ rs) h = ground arith
release_at-outstanding (suc i) extra queued (r ∷ rs) h =
    let rest = release_at-outstanding i (extra + held r) queued rs (omega arith) in omega arith

release_at-le : (i queued : ℕ) (rs : List Reservation) → (release_at i queued rs).0 ≤ queued
unfolding release_at
release_at-le i queued [] = omega arith
release_at-le zero queued (r ∷ rs) = ground arith
release_at-le (suc i) queued (r ∷ rs) = release_at-le i queued rs

IsBounded : RpcLimits → RpcSendWindow → Type 0
IsBounded limits w =
    (w.queued_bytes ≡ outstanding w.reservations) × (w.queued_bytes ≤ limits.max_queued_bytes)

reserve_bytes-IsBounded :
    (limits : RpcLimits) (w : RpcSendWindow) (native : Option ℕ) (r : Result RpcError ℕ)
    → IsBounded limits w
    → IsBounded limits (reserve_bytes limits w native r).0
unfolding IsBounded outstanding
reserve_bytes-IsBounded limits w native (err e) v = v
reserve_bytes-IsBounded limits w native (ok bytes) v =
    let test = ltb limits.max_queued_bytes (max w.queued_bytes (native_bytes native) + bytes) in
    elim (Bool-cases test) [
      | inl h ↦ rw h v
      | inr h ↦ rw h (omega arith, omega (arith, ltb→le _ _ h))
    ]

release-IsBounded :
    (limits : RpcLimits) (w : RpcSendWindow) (i : ℕ)
    → IsBounded limits w
    → IsBounded limits (release w i)
unfolding IsBounded release
release-IsBounded limits w i v = (
  omega (arith, release_at-outstanding i 0 w.queued_bytes w.reservations (omega arith)),
  omega (arith, release_at-le i w.queued_bytes w.reservations),
)

run_window-IsBounded :
    (limits : RpcLimits) (calls : List WindowCall) (w : RpcSendWindow)
    → IsBounded limits w
    → IsBounded limits (run_window limits w calls)
unfolding run_window reserve
run_window-IsBounded limits [] w v = v
run_window-IsBounded limits (reserves message native ∷ calls) w v =
    run_window-IsBounded limits calls _
      (reserve_bytes-IsBounded limits w native (rpc_frame_bytes message limits) v)
run_window-IsBounded limits (releases i ∷ calls) w v =
    run_window-IsBounded limits calls _ (release-IsBounded limits w i v)

-- Whatever is reserved and released, in whatever order and however often: the bytes that a new window
-- counts are those of the reservations that are not released, and never more than the limit.
pub run_window-outstanding :
    (limits : RpcLimits) (calls : List WindowCall)
    → ((run_window limits new_window calls).queued_bytes
        ≡ outstanding (run_window limits new_window calls).reservations)
      × ((run_window limits new_window calls).queued_bytes ≤ limits.max_queued_bytes)
unfolding IsBounded outstanding
run_window-outstanding limits calls =
    run_window-IsBounded limits calls new_window (refl, omega arith)
