-- ===== src/Protocol/Cbor/Plain.antt =====
-- The values that the codec of packages/protocol/src/cbor carries without loss.
use inkpi.Base.{ℕ, ◌<◌, ◌≡◌, ◌≢◌, false, none, List, [], ◌∷◌, length, All}
use inkpi.Protocol.Cbor.{
  Value, null, not_finite, unsupported, boolean, natural, negative, fraction, text, byte_string,
  array, object, Values, nil, item, Members, done, member, max_safe_integer,
}
use inkpi.Protocol.Cbor.Utf8.{IsScalar}
use inkpi.Protocol.Cbor.Decoder.{exponent, mantissa, whole_part, has_key}

-- A text has no lone surrogate, a fraction is the double of a finite number that is not whole, a
-- negative number is safe, and an object has no key twice.
unfoldable mutual
  pub IsPlain : Value → Type 0
  IsPlain null = Unit
  IsPlain not_finite = Unit
  IsPlain unsupported = Unit
  IsPlain (boolean b) = Unit
  IsPlain (natural n) = Unit
  IsPlain (negative n) = n < max_safe_integer
  IsPlain (fraction d) =
      (length d ≡ 8) × (exponent d ≢ 2047) × (whole_part (exponent d) (mantissa d) ≡ none)
  IsPlain (text s) = All IsScalar s
  IsPlain (byte_string bs) = Unit
  IsPlain (array vs) = ArePlain vs
  IsPlain (object ms) = MembersPlain [] ms

  pub ArePlain : Values → Type 0
  ArePlain nil = Unit
  ArePlain (item v vs) = IsPlain v × ArePlain vs

  pub MembersPlain : List (List ℕ) → Members → Type 0
  MembersPlain keys done = Unit
  MembersPlain keys (member k v ms) =
      All IsScalar k × (has_key k keys ≡ false) × IsPlain v × MembersPlain (k ∷ keys) ms
