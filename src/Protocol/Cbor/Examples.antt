-- ===== src/Protocol/Cbor/Examples.antt =====
-- Runs of the codec, and the theorems at concrete inputs.
use inkpi.Base.{ℕ, ◌≡◌, ◌≢◌, refl, true, List, [], ◌∷◌, ok, err, arith, inl}
use inkpi.Protocol.Cbor.{
  Value, boolean, natural, negative, fraction, array, object, nil, item, done, member,
  unsafe_integer, out_of_fuel, no_options, resolve_options,
}
use inkpi.Protocol.Cbor.Utf8.{encode_point, encode_text, decode_one, decode_loop, decode_text}
use inkpi.Protocol.Cbor.Encoder.{
  grow, ensure_capacity, write_bytes, write_argument, encode_string, encode_integer,
  encode_byte_string, encode_item, encode_cbor,
}
use inkpi.Protocol.Cbor.Decoder.{
  read_bytes, read_argument, read_length, read_negative, read_simple, read_double, number_of,
  whole_part, has_key, same_text, read_item, finish_read, decode_cbor,
}
use inkpi.Protocol.Cbor.Plain.{IsPlain}
use inkpi.Protocol.Cbor.RoundTrip.{decode_cbor-encode_cbor}
use inkpi.Protocol.Cbor.Total.{decode_cbor_total}

-- `{ "a": [1, -500, true], "é": 1.5 }`
abbrev value : Value
value = object (
    member (97 ∷ []) (array (item (natural 1) (item (negative 499) (item (boolean true) nil))))
      (member (233 ∷ []) (fraction (63 ∷ 248 ∷ 0 ∷ 0 ∷ 0 ∷ 0 ∷ 0 ∷ 0 ∷ [])) done))

abbrev encoded : List ℕ
encoded =
    0xa2 ∷ 0x61 ∷ 97 ∷ 0x83 ∷ 1 ∷ 0x39 ∷ 1 ∷ 0xf3 ∷ 0xf5 ∷ 0x62 ∷ 195 ∷ 169 ∷ 0xfb ∷ 63 ∷ 248 ∷ 0
    ∷ 0 ∷ 0 ∷ 0 ∷ 0 ∷ 0 ∷ []

encode_run : encode_cbor value no_options ≡ ok encoded
unfolding resolve_options encode_point encode_text grow ensure_capacity write_bytes write_argument
    encode_string encode_integer encode_byte_string encode_item encode_cbor
encode_run = refl

decode_run : decode_cbor encoded no_options ≡ ok value
unfolding resolve_options decode_one decode_loop decode_text read_bytes read_argument read_length
    read_negative read_simple read_double number_of whole_part has_key same_text read_item
    finish_read decode_cbor
decode_run = refl

-- The encoder takes the least safe integer less one, and the decoder refuses its bytes.
least_encode_run :
    encode_cbor (negative 9007199254740991) no_options
    ≡ ok (0x3b ∷ 0 ∷ 31 ∷ 255 ∷ 255 ∷ 255 ∷ 255 ∷ 255 ∷ 255 ∷ [])
unfolding resolve_options grow ensure_capacity write_bytes write_argument encode_integer encode_item
    encode_cbor
least_encode_run = refl

least_decode_run :
    decode_cbor (0x3b ∷ 0 ∷ 31 ∷ 255 ∷ 255 ∷ 255 ∷ 255 ∷ 255 ∷ 255 ∷ []) no_options
    ≡ err unsafe_integer
unfolding resolve_options read_bytes read_argument read_negative read_item decode_cbor
least_decode_run = refl

value-IsPlain : IsPlain value
unfolding IsPlain has_key whole_part same_text
value-IsPlain = (
  (inl (omega arith), tt),
  refl,
  (tt, (omega arith, (tt, tt))),
  ((inl (omega arith), tt), refl, (refl, (λ e. absurd (omega arith)), refl), tt),
)

decode_cbor-encode_cbor_example : decode_cbor encoded no_options ≡ ok value
unfolding resolve_options encode_point encode_text grow ensure_capacity write_bytes write_argument
    encode_string encode_integer encode_byte_string encode_item encode_cbor
decode_cbor-encode_cbor_example =
    decode_cbor-encode_cbor value no_options encoded value-IsPlain refl

decode_cbor_total_example : decode_cbor (0x9f ∷ 1 ∷ []) no_options ≢ err out_of_fuel
decode_cbor_total_example = decode_cbor_total (0x9f ∷ 1 ∷ []) no_options
