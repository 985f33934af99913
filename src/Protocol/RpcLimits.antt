-- ===== src/Protocol/RpcLimits.antt =====
-- packages/protocol/src/rpc-limits.ts: the limits of an RPC connection, the buffer that cuts a stream
-- of texts into lines, and the window of bytes that may wait to be sent. A text is a list of UTF-16
-- code units.
pub mod Window
pub mod Lines
mod Examples
use inkpi.Base.{
  ℕ, zero, suc, ◌+◌, ◌*◌, ◌-◌, max, Bool, true, false, not, ◌&&◌, ◌||◌, Option, none, some, List,
  [], ◌∷◌, ◌++◌, reverse, length, ltb, leb, ◌==◌, if◌then◌else◌, Result, ok, err,
}
use inkpi.Base.Texts.{trim}

pub data RpcError : Type 0 where
  invalid_limits frame_too_long queue_full : RpcError

pub record RpcLimits : Type 0 where
  pub max_frame_bytes : ℕ
  pub max_queued_bytes : ℕ
  pub max_pending_requests : ℕ
  pub request_timeout_ms : ℕ

abbrev pub default_rpc_limits : RpcLimits
default_rpc_limits = record {
  max_frame_bytes = 8 * 1024 * 1024;
  max_queued_bytes = 16 * 1024 * 1024;
  max_pending_requests = 256;
  request_timeout_ms = 30_000;
}

-- `Partial<RpcLimits>`. What is given and no number, not whole or below zero stands here as zero,
-- which is refused like it.
pub record PartialLimits : Type 0 where
  pub frame_bytes : Option ℕ
  pub queued_bytes : Option ℕ
  pub pending_requests : Option ℕ
  pub timeout_ms : Option ℕ

abbrev pub given_or : Option ℕ → ℕ → ℕ
given_or none default = default
given_or (some value) default = value

-- `!Number.isSafeInteger(value) || value < 1`
abbrev pub is_invalid : ℕ → Bool
is_invalid value = ltb 9007199254740991 value || ltb value 1

-- `{ ...DEFAULT_RPC_LIMITS, ...input }`
abbrev pub merged : PartialLimits → RpcLimits
merged input = record {
  max_frame_bytes = given_or input.frame_bytes default_rpc_limits.max_frame_bytes;
  max_queued_bytes = given_or input.queued_bytes default_rpc_limits.max_queued_bytes;
  max_pending_requests = given_or input.pending_requests default_rpc_limits.max_pending_requests;
  request_timeout_ms = given_or input.timeout_ms default_rpc_limits.request_timeout_ms;
}

unfoldable pub resolve_rpc_limits : PartialLimits → Result RpcError RpcLimits
resolve_rpc_limits input =
    let limits = merged input in
    if is_invalid limits.max_frame_bytes
      || is_invalid limits.max_queued_bytes
      || is_invalid limits.max_pending_requests
      || is_invalid limits.request_timeout_ms
      || ltb 2147483647 limits.request_timeout_ms
      || ltb limits.max_queued_bytes limits.max_frame_bytes
    then err invalid_limits
    else ok limits

abbrev pub is_high : ℕ → Bool
is_high unit = leb 0xd800 unit && ltb unit 0xdc00

abbrev pub is_low : ℕ → Bool
is_low unit = leb 0xdc00 unit && ltb unit 0xe000

-- The bytes that a code unit adds behind what stands before it: the second of a pair completes the
-- four bytes of the pair, one that stands alone is encoded as the replacement character.
unfoldable pub unit_bytes : Bool → ℕ → ℕ
unit_bytes after_high unit =
    if ltb unit 0x80
    then 1
    else if ltb unit 0x800
    then 2
    else if after_high && is_low unit
    then 1
    else 3

unfoldable pub bytes_after : Bool → List ℕ → ℕ
bytes_after after_high [] = 0
bytes_after after_high (unit ∷ text) = unit_bytes after_high unit + bytes_after (is_high unit) text

-- `encoder.encode(text).byteLength`
abbrev pub byte_length : List ℕ → ℕ
byte_length text = bytes_after false text

unfoldable pub rpc_frame_bytes : List ℕ → RpcLimits → Result RpcError ℕ
rpc_frame_bytes message limits =
    if ltb limits.max_frame_bytes (byte_length message)
    then err frame_too_long
    else ok (byte_length message)

-- `fragments` stand the newest first.
pub record RpcLineBuffer : Type 0 where
  pub fragments : List (List ℕ)
  pub tail : List ℕ
  pub bytes : ℕ

abbrev pub clear : RpcLineBuffer
clear = record { fragments = []; tail = []; bytes = 0 }

-- `chunk.slice(start, end)`, up to the first line feed.
unfoldable pub fragment_of : List ℕ → List ℕ
fragment_of [] = []
fragment_of (unit ∷ chunk) = if unit == 10 then [] else unit ∷ fragment_of chunk

-- What stands behind the first line feed, if there is one.
unfoldable pub after_line : List ℕ → Option (List ℕ)
after_line [] = none
after_line (unit ∷ chunk) = if unit == 10 then some chunk else after_line chunk

-- `if (this.tail) this.fragments.push(this.tail)`
abbrev pub with_tail : List ℕ → List (List ℕ) → List (List ℕ)
with_tail [] fragments = fragments
with_tail (unit ∷ tail) fragments = (unit ∷ tail) ∷ fragments

unfoldable pub add_fragment : RpcLineBuffer → List ℕ → RpcLineBuffer
add_fragment b fragment =
    if leb 1024 (length fragment)
    then record b { fragments = fragment ∷ with_tail b.tail b.fragments; tail = [] }
    else if leb 1024 (length (b.tail ++ fragment))
    then record b { fragments = (b.tail ++ fragment) ∷ b.fragments; tail = [] }
    else record b { tail = b.tail ++ fragment }

unfoldable pub join : List (List ℕ) → List ℕ
join [] = []
join (fragment ∷ older) = join older ++ fragment

-- `this.fragments.join('') + this.tail`
abbrev pub text_of : RpcLineBuffer → List ℕ
text_of b = join b.fragments ++ b.tail

-- `if (message) messages.push(message)`
abbrev pub keep : List (List ℕ) → List ℕ → List (List ℕ)
keep messages [] = messages
keep messages (unit ∷ message) = messages ++ ((unit ∷ message) ∷ [])

-- The buffer with the bytes of a fragment counted.
abbrev pub counted : RpcLineBuffer → List ℕ → RpcLineBuffer
counted b fragment = record b { bytes = b.bytes + byte_length fragment }

-- The loop of `push`. Each round but the last takes a line feed from the chunk.
unfoldable pub push_loop :
    ℕ
    → RpcLimits
    → RpcLineBuffer
    → List (List ℕ)
    → List ℕ
    → RpcLineBuffer × Result RpcError (List (List ℕ))
push_loop zero limits b messages chunk = (b, ok messages)
push_loop (suc fuel) limits b messages [] = (b, ok messages)
push_loop (suc fuel) limits b messages (unit ∷ chunk) =
    let b' = counted b (fragment_of (unit ∷ chunk)) in
    let added = add_fragment b' (fragment_of (unit ∷ chunk)) in
    if ltb limits.max_frame_bytes b'.bytes
    then (clear, err frame_too_long)
    else elim (after_line (unit ∷ chunk)) [
      | none ↦ (added, ok messages)
      | some rest ↦ push_loop fuel limits clear (keep messages (trim (text_of added))) rest
    ]

unfoldable pub push :
    RpcLimits → RpcLineBuffer → List ℕ → RpcLineBuffer × Result RpcError (List (List ℕ))
push limits b chunk = push_loop (length chunk) limits b [] chunk
