-- ===== src/Protocol/Framing.antt =====
-- packages/protocol/src/framing.ts: frames with a 32-bit big-endian length prefix, and the decoder
-- that splits a stream of chunks into payloads. A byte is a number below 256.
pub mod Stream
pub mod Blocks
pub mod Fill
pub mod Rounds
pub mod Header
pub mod Refine
pub mod RoundTrip
pub mod Complete
mod Examples
use inkpi.Base.{
  ℕ, zero, suc, ◌+◌, ◌-◌, ◌*◌, ◌/◌, ◌%◌, ◌<◌, min, Bool, true, false, Option, none, some, List, [],
  ◌∷◌, ◌++◌, length, take, drop, replicate, get_or, ltb, ◌==◌, ◌&&◌, if◌then◌else◌, Result, ◌>>=◌,
  ◌>>◌, require, ok, err, not,
}

abbrev pub max_uint32 : ℕ
max_uint32 = 0xffff_ffff

abbrev pub payload_block_size : ℕ
payload_block_size = 64 * 1024

abbrev pub default_max_frame_length : ℕ
default_max_frame_length = 16 * 1024 * 1024

abbrev pub IsByte : ℕ → Type 0
IsByte b = b < 256

pub data FrameError : Type 0 where
  has_ended has_failed truncated incomplete_prefix not_exactly_one : FrameError
  exceeds_limit : ℕ → FrameError
  exceeds_uint32 : FrameError
  invalid_limit : FrameError

-- `array.set(source, offset)`, for a source that fits.
abbrev pub array_set : List ℕ → List ℕ → ℕ → List ℕ
array_set target source offset =
    take offset target ++ (source ++ drop (offset + length source) target)

-- A write into a `Uint8Array` keeps the low eight bits.
abbrev pub be_bytes : ℕ → List ℕ
be_bytes n = n / 16777216 % 256 ∷ n / 65536 % 256 ∷ n / 256 % 256 ∷ n % 256 ∷ []

abbrev pub be_value : List ℕ → ℕ
be_value h = get_or h 0 0 * 16777216 + get_or h 1 0 * 65536 + get_or h 2 0 * 256 + get_or h 3 0

-- `resolveMaxFrameLength`, of an option that may be absent.
unfoldable pub resolve_max_frame_length : Option ℕ → Result FrameError ℕ
resolve_max_frame_length none = ok default_max_frame_length
resolve_max_frame_length (some value) = if ltb max_uint32 value then err invalid_limit else ok value

unfoldable pub encode_frame : List ℕ → Result FrameError (List ℕ)
encode_frame payload =
    if ltb max_uint32 (length payload)
    then err exceeds_uint32
    else ok (array_set (be_bytes (length payload) ++ replicate (length payload) 0) payload 4)

unfoldable pub assert_complete_frame : List ℕ → Option ℕ → Result FrameError (Unit {0})
assert_complete_frame frame options = do
  require (not (ltb (length frame) 4)) incomplete_prefix
  max_frame_length ← resolve_max_frame_length options
  require (not (ltb max_frame_length (be_value frame))) (exceeds_limit (be_value frame))
  require (length frame == 4 + be_value frame) not_exactly_one

pub data DecoderState : Type 0 where
  opened ended failed : DecoderState

-- `currentPayloadBlock` is always the block that was pushed last, or undefined when there is none:
-- the blocks are kept newest first, so that it is the head of `payload_blocks`.
pub record FrameDecoder : Type 0 where
  pub header : List ℕ
  pub header_length : ℕ
  pub max_frame_length : ℕ
  pub payload_blocks : List (List ℕ)
  pub current_payload_block_length : ℕ
  pub expected_payload_length : Option ℕ
  pub payload_length : ℕ
  pub state : DecoderState

abbrev pub new_decoder : ℕ → FrameDecoder
new_decoder limit = record {
  header = replicate 4 0;
  header_length = 0;
  max_frame_length = limit;
  payload_blocks = [];
  current_payload_block_length = 0;
  expected_payload_length = none;
  payload_length = 0;
  state = opened;
}

-- The constructor.
unfoldable pub create_decoder : Option ℕ → Result FrameError FrameDecoder
create_decoder options = do limit ← resolve_max_frame_length options; ok (new_decoder limit)

-- The blocks copied one behind the other, oldest first, into the frame's payload.
unfoldable pub assemble : List (List ℕ) → List ℕ
assemble [] = []
assemble (b ∷ bs) = assemble bs ++ b

-- `fail`, which also throws.
unfoldable pub fail : FrameDecoder → FrameDecoder
fail d = record d {
  state = failed;
  header_length = 0;
  payload_blocks = [];
  current_payload_block_length = 0;
  expected_payload_length = none;
  payload_length = 0;
}

-- `!block || this.currentPayloadBlockLength === block.byteLength`
unfoldable pub needs_block : List (List ℕ) → ℕ → Bool
needs_block [] filled = true
needs_block (b ∷ bs) filled = filled == length b

-- The block that the inner loop writes into: a new one where the last is full or missing.
unfoldable pub open_block : ℕ → FrameDecoder → FrameDecoder
unfolding needs_block
open_block expected d =
    if needs_block d.payload_blocks d.current_payload_block_length
    then record d {
      payload_blocks =
          replicate (min payload_block_size (expected - d.payload_length)) 0 ∷ d.payload_blocks;
      current_payload_block_length = 0;
    }
    else d

-- `block.set(...)` on the newest block, and the two counters.
unfoldable pub write_block : FrameDecoder → List (List ℕ) → List ℕ → FrameDecoder × List ℕ
write_block d [] chunk = (d, chunk)
write_block d (block ∷ older) chunk =
    let count = min (length block - d.current_payload_block_length) (length chunk) in
    (
      record d {
        payload_blocks = array_set block (take count chunk) d.current_payload_block_length ∷ older;
        current_payload_block_length = d.current_payload_block_length + count;
        payload_length = d.payload_length + count;
      },
      drop count chunk,
    )

-- The inner `while` loop over what is left of the chunk, and what it leaves of it.
unfoldable pub fill : ℕ → ℕ → FrameDecoder → List ℕ → FrameDecoder × List ℕ
unfolding open_block write_block
fill zero expected d chunk = (d, chunk)
fill (suc fuel) expected d [] = (d, [])
fill (suc fuel) expected d (x ∷ chunk) =
    let d' = open_block expected d in
    let written = write_block d' d'.payload_blocks (x ∷ chunk) in
    let rest = fill fuel expected written.0 written.1 in
    if ltb d.payload_length expected then rest else (d, x ∷ chunk)

-- How one round of the outer loop ends: with a new decoder, what is left of the chunk and the
-- payload pushed to `frames`, or by a call of `fail`.
pub data Round : Type 0 where
  continue : FrameDecoder → List ℕ → Option (List ℕ) → Round
  failing : FrameDecoder → ℕ → Round

unfoldable pub read_payload : ℕ → FrameDecoder → List ℕ → Round
unfolding fill assemble
read_payload expected d chunk =
    let filled = fill (length chunk) expected d chunk in
    let d' = filled.0 in
    if d'.payload_length == expected
    then continue
        (record d' {
          payload_blocks = [];
          current_payload_block_length = 0;
          expected_payload_length = none;
          payload_length = 0;
        })
        filled.1 (some (assemble d'.payload_blocks))
    else continue d' filled.1 none

-- From the complete header on.
unfoldable pub start_payload : ℕ → FrameDecoder → List ℕ → Round
unfolding read_payload fail
start_payload frame_length d chunk =
    if ltb d.max_frame_length frame_length
    then failing (fail d) frame_length
    else if frame_length == 0
    then continue d chunk (some [])
    else read_payload frame_length
        (record d {
          expected_payload_length = some frame_length;
          payload_blocks = [];
          current_payload_block_length = 0;
          payload_length = 0;
        })
        chunk

unfoldable pub read_header : FrameDecoder → List ℕ → Round
unfolding start_payload
read_header d chunk =
    let count = min (4 - d.header_length) (length chunk) in
    let header = array_set d.header (take count chunk) d.header_length in
    let have = d.header_length + count in
    if ltb have 4
    then continue (record d { header = header; header_length = have }) (drop count chunk) none
    else start_payload (be_value header) (record d { header = header; header_length = 0 })
        (drop count chunk)

-- One round: by `expectedPayloadLength === undefined`.
unfoldable pub round_of : Option ℕ → FrameDecoder → List ℕ → Round
round_of none d chunk = read_header d chunk
round_of (some expected) d chunk = read_payload expected d chunk

-- The outer `while` loop. What it collects is lost when it throws.
unfoldable pub push_loop :
    ℕ → FrameDecoder → List ℕ → List (List ℕ) → FrameDecoder × Result FrameError (List (List ℕ))
push_loop fuel d [] frames = (d, ok frames)
push_loop zero d (x ∷ chunk) frames = (d, ok frames)
push_loop (suc fuel) d (x ∷ chunk) frames =
    elim (round_of d.expected_payload_length d (x ∷ chunk)) [
      | continue d' chunk' none ↦ push_loop fuel d' chunk' frames
      | continue d' chunk' (some p) ↦ push_loop fuel d' chunk' (frames ++ (p ∷ []))
      | failing d' n ↦ (d', err (exceeds_limit n))
    ]

unfoldable pub push_open : FrameDecoder → List ℕ → FrameDecoder × Result FrameError (List (List ℕ))
push_open d chunk = push_loop (length chunk) d chunk []

-- `push`, by the state.
unfoldable pub push_in :
    DecoderState → FrameDecoder → List ℕ → FrameDecoder × Result FrameError (List (List ℕ))
push_in opened d chunk = push_open d chunk
push_in ended d chunk = (d, err has_ended)
push_in failed d chunk = (d, err has_failed)

unfoldable pub push : FrameDecoder → List ℕ → FrameDecoder × Result FrameError (List (List ℕ))
push d chunk = push_in d.state d chunk

is_none : Option ℕ → Bool
is_none none = true
is_none (some n) = false

-- `end`, by the state.
unfoldable pub end_in : DecoderState → FrameDecoder → FrameDecoder × Result FrameError (Unit {0})
unfolding fail is_none
end_in opened d =
    if d.header_length == 0 && is_none d.expected_payload_length
    then (record d { state = ended }, ok tt)
    else (fail d, err truncated)
end_in ended d = (d, err has_ended)
end_in failed d = (d, err has_failed)

unfoldable pub end_stream : FrameDecoder → FrameDecoder × Result FrameError (Unit {0})
end_stream d = end_in d.state d
