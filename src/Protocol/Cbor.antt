-- ===== src/Protocol/Cbor.antt =====
-- packages/protocol/src/cbor/options.ts, and the values that the codec carries.
pub mod Utf8
pub mod Encoder
pub mod Decoder
pub mod Writer
pub mod Plain
pub mod Reading
pub mod Items
pub mod Containers
pub mod RoundTrip
pub mod Total
mod Examples
use inkpi.Base.{
  ℕ, ◌-◌, ◌^◌, Bool, Option, none, some, List, Result, ok, err, ◌>>=◌, ltb, if◌then◌else◌,
}

-- What `typeof` tells apart. A finite number is a whole one, `natural n` or `negative n` for
-- `-1 - n`, or `fraction` with the eight bytes of its IEEE 754 double, high byte first; 0 and -0 are
-- one value, as they are under `===`. A text is the list of its code points, an object the list of
-- its members in the order of their definition. `unsupported` is undefined, a function and the like.
mutual
  pub data Value : Type 0 where
    null not_finite unsupported : Value
    boolean : Bool → Value
    natural negative : ℕ → Value
    fraction text byte_string : List ℕ → Value
    array : Values → Value
    object : Members → Value

  pub data Values : Type 0 where
    nil : Values
    item : Value → Values → Values

  pub data Members : Type 0 where
    done : Members
    member : List ℕ → Value → Members → Members

pub data CborError : Type 0 where
  too_deep byte_limit not_finite_number unsafe_integer string_limit container_limit : CborError
  unsupported_type bad_option end_of_payload trailing_data invalid_utf8 key_not_string : CborError
  duplicate_key unsupported_tag unsupported_simple unsupported_length out_of_fuel : CborError

abbrev pub uint32_base : ℕ
uint32_base = 4294967296

abbrev pub max_uint32 : ℕ
max_uint32 = 4294967295

abbrev pub max_safe_integer : ℕ
max_safe_integer = 9007199254740991

pub record CborOptions : Type 0 where
  pub max_byte_length : Option ℕ
  pub max_container_length : Option ℕ
  pub max_depth : Option ℕ

pub record ResolvedCborOptions : Type 0 where
  pub max_byte_length : ℕ
  pub max_container_length : ℕ
  pub max_depth : ℕ

-- `resolveLimit` of `value ?? fallback`.
abbrev pub resolve_limit : Option ℕ → ℕ → ℕ → Result CborError ℕ
resolve_limit none fallback maximum = if ltb maximum fallback then err bad_option else ok fallback
resolve_limit (some value) fallback maximum = if ltb maximum value then err bad_option else ok value

unfoldable pub resolve_options : CborOptions → Result CborError ResolvedCborOptions
resolve_options o = do
  bytes ← resolve_limit o.max_byte_length 16777216 max_uint32
  container ← resolve_limit o.max_container_length 1000000 max_uint32
  depth ← resolve_limit o.max_depth 64 512
  ok (record { max_byte_length = bytes; max_container_length = container; max_depth = depth })

abbrev pub no_options : CborOptions
no_options = record { max_byte_length = none; max_container_length = none; max_depth = none }
