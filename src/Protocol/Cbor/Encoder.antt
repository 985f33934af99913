-- ===== src/Protocol/Cbor/Encoder.antt =====
-- packages/protocol/src/cbor/encoder.ts.
use inkpi.Base.{
  ℕ, zero, suc, ◌+◌, ◌-◌, ◌*◌, ◌/◌, ◌%◌, min, max, true, false, List, [], ◌∷◌, take, length,
  replicate, ltb, leb, if◌then◌else◌, Result, ok, err, ◌>>=◌, ◌>>◌, require, not,
}
use inkpi.Protocol.Framing.{array_set}
use inkpi.Protocol.Cbor.{
  Value, null, not_finite, unsupported, boolean, natural, negative, fraction, text, byte_string,
  array, object, Values, nil, item, Members, done, member, CborError, too_deep, byte_limit,
  not_finite_number, unsafe_integer, string_limit, container_limit, unsupported_type, uint32_base,
  max_uint32, max_safe_integer, CborOptions, ResolvedCborOptions, resolve_options,
}
use inkpi.Protocol.Cbor.Utf8.{encode_text}

pub record CborWriter : Type 0 where
  pub buffer : List ℕ
  pub offset : ℕ
  pub max_byte_length : ℕ

abbrev pub new_writer : ℕ → CborWriter
new_writer limit = record {
  buffer = replicate (min 256 limit) 0;
  offset = 0;
  max_byte_length = limit;
}

-- The loop that doubles the capacity. The first round reaches what is required, so the second ends.
unfoldable pub grow : ℕ → ℕ → ℕ → ℕ → ℕ
grow zero capacity required limit = capacity
grow (suc fuel) capacity required limit =
    let rest = grow fuel (min limit (max required (capacity * 2))) required limit in
    if ltb capacity required then rest else capacity

unfoldable pub ensure_capacity : CborWriter → ℕ → Result CborError CborWriter
ensure_capacity w additional =
    let required = w.offset + additional in
    let capacity = grow 2 (max 1 (length w.buffer)) required w.max_byte_length in
    if ltb w.max_byte_length required
    then err byte_limit
    else if leb required (length w.buffer)
    then ok w
    else ok (record w { buffer = array_set (replicate capacity 0) w.buffer 0 })

-- What each `write` method does with the bytes it writes: room for them, the bytes from the offset
-- on, and the offset behind them. A byte written by its value keeps its low eight bits.
unfoldable pub write_bytes : CborWriter → List ℕ → Result CborError CborWriter
write_bytes w bs = do
  w' ← ensure_capacity w (length bs)
  ok (record w' { buffer = array_set w'.buffer bs w'.offset; offset = w'.offset + length bs })

abbrev pub write_byte : CborWriter → ℕ → Result CborError CborWriter
write_byte w b = write_bytes w (b % 256 ∷ [])

abbrev pub uint16_bytes : ℕ → List ℕ
uint16_bytes v = v / 256 % 256 ∷ v % 256 ∷ []

abbrev pub uint32_bytes : ℕ → List ℕ
uint32_bytes v = v / 16777216 % 256 ∷ v / 65536 % 256 ∷ v / 256 % 256 ∷ v % 256 ∷ []

abbrev pub write_uint64 : CborWriter → ℕ → Result CborError CborWriter
write_uint64 w v =
    let high = v / uint32_base in
    let low = v - high * uint32_base in
    write_bytes w (uint32_bytes high) >>= λ w1. write_bytes w1 (uint32_bytes low)

abbrev pub write_float64 : CborWriter → List ℕ → Result CborError CborWriter
write_float64 w double = write_bytes w (0xfb ∷ double)

abbrev pub finish : CborWriter → List ℕ
finish w = take w.offset w.buffer

-- The major type is the prefix, its 32-fold.
unfoldable pub write_argument : CborWriter → ℕ → ℕ → Result CborError CborWriter
write_argument w major v =
    let prefix = major * 32 in
    if ltb v 24
    then write_byte w (prefix + v)
    else if leb v 0xff
    then (write_byte w (prefix + 24) >>= λ w1. write_byte w1 v)
    else if leb v 0xffff
    then (write_byte w (prefix + 25) >>= λ w1. write_bytes w1 (uint16_bytes v))
    else if leb v max_uint32
    then (write_byte w (prefix + 26) >>= λ w1. write_bytes w1 (uint32_bytes v))
    else (write_byte w (prefix + 27) >>= λ w1. write_uint64 w1 v)

abbrev pub count_values : Values → ℕ
count_values nil = 0
count_values (item v vs) = suc (count_values vs)

abbrev pub count_members : Members → ℕ
count_members done = 0
count_members (member k v ms) = suc (count_members ms)

module _ (o : ResolvedCborOptions) where
  -- `encodeItem` of a text, which a key is too.
  unfoldable pub encode_string : CborWriter → List ℕ → ℕ → Result CborError CborWriter
  encode_string w s depth = do
    require (not (ltb o.max_depth depth)) too_deep
    require (not (ltb o.max_byte_length (length (encode_text s)))) string_limit
    w1 ← write_argument w 3 (length (encode_text s))
    write_bytes w1 (encode_text s)

  unfoldable pub encode_integer : CborWriter → ℕ → ℕ → Result CborError CborWriter
  encode_integer w major n =
      if ltb max_safe_integer n then err unsafe_integer else write_argument w major n

  unfoldable pub encode_byte_string : CborWriter → List ℕ → Result CborError CborWriter
  encode_byte_string w bs = do
    require (not (ltb o.max_byte_length (length bs))) string_limit
    w1 ← write_argument w 2 (length bs)
    write_bytes w1 bs

  unfoldable mutual
    pub encode_item : CborWriter → Value → ℕ → Result CborError CborWriter
    encode_item w null depth = require (not (ltb o.max_depth depth)) too_deep >> write_byte w 0xf6
    encode_item w (boolean false) depth =
        require (not (ltb o.max_depth depth)) too_deep >> write_byte w 0xf4
    encode_item w (boolean true) depth =
        require (not (ltb o.max_depth depth)) too_deep >> write_byte w 0xf5
    encode_item w not_finite depth =
        require (not (ltb o.max_depth depth)) too_deep >> err not_finite_number
    encode_item w (natural n) depth =
        require (not (ltb o.max_depth depth)) too_deep >> encode_integer w 0 n
    encode_item w (negative n) depth =
        require (not (ltb o.max_depth depth)) too_deep >> encode_integer w 1 n
    encode_item w (fraction double) depth =
        require (not (ltb o.max_depth depth)) too_deep >> write_float64 w double
    encode_item w (text s) depth = encode_string w s depth
    encode_item w (byte_string bs) depth =
        require (not (ltb o.max_depth depth)) too_deep >> encode_byte_string w bs
    encode_item w (array vs) depth = do
      require (not (ltb o.max_depth depth)) too_deep
      require (not (ltb o.max_container_length (count_values vs))) container_limit
      w1 ← write_argument w 4 (count_values vs)
      encode_items w1 vs (suc depth)
    encode_item w (object ms) depth = do
      require (not (ltb o.max_depth depth)) too_deep
      require (not (ltb o.max_container_length (count_members ms))) container_limit
      w1 ← write_argument w 5 (count_members ms)
      encode_members w1 ms (suc depth)
    encode_item w unsupported depth =
        require (not (ltb o.max_depth depth)) too_deep >> err unsupported_type

    pub encode_items : CborWriter → Values → ℕ → Result CborError CborWriter
    encode_items w nil depth = ok w
    encode_items w (item v vs) depth = encode_item w v depth >>= λ w1. encode_items w1 vs depth

    pub encode_members : CborWriter → Members → ℕ → Result CborError CborWriter
    encode_members w done depth = ok w
    encode_members w (member k v ms) depth =
        encode_string w k depth
        >>= (λ w1. encode_item w1 v depth >>= λ w2. encode_members w2 ms depth)

unfoldable pub encode_cbor : Value → CborOptions → Result CborError (List ℕ)
encode_cbor v options = do
  o ← resolve_options options
  w ← encode_item o (new_writer o.max_byte_length) v 0
  ok (finish w)
