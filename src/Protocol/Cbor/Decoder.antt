-- ===== src/Protocol/Cbor/Decoder.antt =====
-- packages/protocol/src/cbor/decoder.ts. The reader is what is left of the payload from its offset
-- on. The recursion takes fuel, more than twice the bytes that are left.
use inkpi.Base.{
  ℕ, zero, suc, ◌+◌, ◌-◌, ◌*◌, ◌/◌, ◌%◌, ◌^◌, Bool, true, false, Option, none, some, List, [], ◌∷◌,
  take, drop, get_or, length, ltb, leb, ◌==◌, if◌then◌else◌, Result, ok, err, ◌>>=◌, ◌>>◌, require,
  not, ◌&&◌, ◌||◌,
}
use inkpi.Protocol.Cbor.{
  Value, null, boolean, natural, negative, fraction, text, byte_string, array, object, Values, nil,
  item, Members, done, member, CborError, too_deep, not_finite_number, unsafe_integer, string_limit,
  container_limit, uint32_base, max_safe_integer, CborOptions, ResolvedCborOptions, resolve_options,
  end_of_payload, trailing_data, invalid_utf8, key_not_string, duplicate_key, unsupported_tag,
  unsupported_simple, unsupported_length, out_of_fuel,
}
use inkpi.Protocol.Cbor.Utf8.{decode_text}

abbrev pub Read : Type 0 → Type 0
Read A = Result CborError (A × List ℕ)

abbrev pub read_byte : List ℕ → Read ℕ
read_byte [] = err end_of_payload
read_byte (b ∷ bs) = ok (b, bs)

unfoldable pub read_bytes : List ℕ → ℕ → Read (List ℕ)
read_bytes bs n = if ltb (length bs) n then err end_of_payload else ok (take n bs, drop n bs)

abbrev pub safe : ℕ → List ℕ → Read ℕ
safe n bs = if ltb max_safe_integer n then err unsafe_integer else ok (n, bs)

abbrev pub uint32_at : List ℕ → ℕ → ℕ
uint32_at bs i =
    get_or bs i 0 * 16777216
    + get_or bs (1 + i) 0 * 65536
    + get_or bs (2 + i) 0 * 256
    + get_or bs (3 + i) 0

unfoldable pub read_argument : List ℕ → ℕ → Read ℕ
read_argument bs info =
    if ltb info 24
    then ok (info, bs)
    else if info == 24
    then read_byte bs
    else if info == 25
    then (read_bytes bs 2 >>= λ r. ok (get_or r.0 0 0 * 256 + get_or r.0 1 0, r.1))
    else if info == 26
    then (read_bytes bs 4 >>= λ r. safe (uint32_at r.0 0) r.1)
    else if info == 27
    then (read_bytes bs 8 >>= λ r. safe (uint32_at r.0 0 * uint32_base + uint32_at r.0 4) r.1)
    else err unsupported_length

unfoldable pub read_length : List ℕ → ℕ → CborError → ℕ → Read ℕ
read_length bs info e limit = read_argument bs info >>= λ r. if ltb limit r.0 then err e else ok r

-- A double by its bytes: its exponent, its mantissa, and whether it is finite.
abbrev pub exponent : List ℕ → ℕ
exponent b = get_or b 0 0 % 128 * 16 + get_or b 1 0 / 16

abbrev pub mantissa : List ℕ → ℕ
mantissa b =
    get_or b 1 0 % 16 * 2 ^ 48 + get_or b 2 0 * 2 ^ 40 + get_or b 3 0 * 2 ^ 32 + uint32_at b 4

-- The magnitude of a whole double, and none where the double is no whole number. Below the exponent
-- of 1 only zero is whole.
unfoldable pub whole_part : ℕ → ℕ → Option ℕ
whole_part e m =
    if ltb e 1023
    then (if e == 0 && m == 0 then some 0 else none)
    else if leb 1075 e
    then some ((2 ^ 52 + m) * 2 ^ (e - 1075))
    else if (2 ^ 52 + m) % 2 ^ (1075 - e) == 0
    then some ((2 ^ 52 + m) / 2 ^ (1075 - e))
    else none

-- The number that a whole magnitude with a sign is.
abbrev pub signed : Bool → ℕ → Value
signed true (suc n) = negative n
signed true zero = natural 0
signed false n = natural n

unfoldable pub number_of : List ℕ → Option ℕ → List ℕ → Read Value
number_of double none bs = ok (fraction double, bs)
number_of double (some n) bs =
    if ltb max_safe_integer n
    then err unsafe_integer
    else ok (signed (leb 128 (get_or double 0 0)) n, bs)

unfoldable pub read_double : List ℕ → Read Value
read_double bs = do
  r ← read_bytes bs 8
  require (not (exponent r.0 == 2047)) not_finite_number
  number_of r.0 (whole_part (exponent r.0) (mantissa r.0)) r.1

unfoldable pub read_simple : List ℕ → ℕ → Read Value
read_simple bs info =
    if info == 20
    then ok (boolean false, bs)
    else if info == 21
    then ok (boolean true, bs)
    else if info == 22
    then ok (null, bs)
    else if info == 27
    then read_double bs
    else err unsupported_simple

-- `-1 - n` is safe up to one less than the largest argument.
unfoldable pub read_negative : List ℕ → ℕ → Read Value
read_negative bs info = read_argument bs info >>= λ r.
    if ltb max_safe_integer (1 + r.0) then err unsafe_integer else ok (negative r.0, r.1)

abbrev pub text_of : Option (List ℕ) → List ℕ → Read Value
text_of none bs = err invalid_utf8
text_of (some s) bs = ok (text s, bs)

-- `typeof key === 'string'`
abbrev pub key_of : Value → Result CborError (List ℕ)
key_of (text s) = ok s
key_of _ = err key_not_string

unfoldable pub same_text : List ℕ → List ℕ → Bool
same_text [] [] = true
same_text [] (y ∷ ys) = false
same_text (x ∷ xs) [] = false
same_text (x ∷ xs) (y ∷ ys) = x == y && same_text xs ys

unfoldable pub has_key : List ℕ → List (List ℕ) → Bool
has_key k [] = false
has_key k (x ∷ xs) = same_text x k || has_key k xs

module _ (o : ResolvedCborOptions) where
  unfoldable mutual
    pub read_item : ℕ → ℕ → List ℕ → Read Value
    read_item zero depth bs = err out_of_fuel
    read_item (suc fuel) depth [] =
        if ltb o.max_depth depth then err too_deep else err end_of_payload
    read_item (suc fuel) depth (b ∷ bs) =
        let info = b % 32 in
        let major = b / 32 in
        let items = read_length bs info container_limit o.max_container_length >>= λ r.
        read_items fuel r.0 (suc depth) r.1 in
        let members = read_length bs info container_limit o.max_container_length >>= λ r.
        read_members fuel r.0 [] (suc depth) r.1 in
        if ltb o.max_depth depth
        then err too_deep
        else if major == 0
        then (read_argument bs info >>= λ r. ok (natural r.0, r.1))
        else if major == 1
        then read_negative bs info
        else if major == 2
        then (read_length bs info string_limit o.max_byte_length >>= λ r.
            read_bytes r.1 r.0 >>= λ s. ok (byte_string s.0, s.1))
        else if major == 3
        then (read_length bs info string_limit o.max_byte_length >>= λ r.
            read_bytes r.1 r.0 >>= λ s. text_of (decode_text s.0) s.1)
        else if major == 4
        then (items >>= λ r. ok (array r.0, r.1))
        else if major == 5
        then (members >>= λ r. ok (object r.0, r.1))
        else if major == 6
        then err unsupported_tag
        else read_simple bs info

    pub read_items : ℕ → ℕ → ℕ → List ℕ → Read Values
    read_items zero n depth bs = err out_of_fuel
    read_items (suc fuel) zero depth bs = ok (nil, bs)
    read_items (suc fuel) (suc n) depth bs = read_item fuel depth bs >>= λ v.
        read_items fuel n depth v.1 >>= λ vs. ok (item v.0 vs.0, vs.1)

    pub read_members : ℕ → ℕ → List (List ℕ) → ℕ → List ℕ → Read Members
    read_members zero n keys depth bs = err out_of_fuel
    read_members (suc fuel) zero keys depth bs = ok (done, bs)
    read_members (suc fuel) (suc n) keys depth bs = read_item fuel depth bs >>= λ key.
        key_of key.0 >>= λ k.
        require (not (has_key k keys)) duplicate_key
        >> (read_item fuel depth key.1 >>= λ v.
            read_members fuel n (k ∷ keys) depth v.1 >>= λ ms. ok (member k v.0 ms.0, ms.1))

unfoldable pub finish_read : Value × List ℕ → Result CborError Value
finish_read (v, []) = ok v
finish_read (v, b ∷ bs) = err trailing_data

unfoldable pub decode_cbor : List ℕ → CborOptions → Result CborError Value
decode_cbor bs options = do
  o ← resolve_options options
  r ← read_item o (suc (2 * length bs)) 0 bs
  finish_read r
