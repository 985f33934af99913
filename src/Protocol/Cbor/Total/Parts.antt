-- ===== src/Protocol/Cbor/Total/Parts.antt =====
-- The parts of an item, as packages/protocol/src/cbor/decoder.ts reads them with the fuel they need.
use inkpi.Base.{
  ℕ, suc, ◌+◌, ◌<◌, ◌≤◌, ◌≢◌, Bool, true, false, Option, none, some, List, [], ◌∷◌, length, ltb,
  ◌==◌, if◌then◌else◌, ok, err, ◌>>=◌, ◌>>◌, require, length-drop, arith,
}
use inkpi.Protocol.Cbor.{
  Value, CborError, null, boolean, natural, negative, fraction, text, byte_string, array, object,
  max_safe_integer, out_of_fuel, not_finite_number,
}
use inkpi.Protocol.Cbor.Decoder.{
  Read, read_byte, safe, read_bytes, read_argument, read_length, read_negative, read_simple,
  read_double, number_of, text_of, key_of,
}

-- An error that is not the fuel's, or a result that leaves less than `n` bytes.
abbrev pub Fine : {A : Type 0} → ℕ → Read A → Type 0
Fine n (ok (a, rest)) = length rest < n
Fine n (err e) = e ≢ out_of_fuel

pub Fine-bind :
    {A B : Type 0} (n k : ℕ) (m : Read A) (f : A × List ℕ → Read B)
    → Fine n m
    → ((a : A) (rest : List ℕ) → length rest < n → Fine k (f (a, rest)))
    → Fine k (m >>= f)
Fine-bind n k (ok (a, rest)) f h rec = rec a rest h
Fine-bind n k (err e) f h rec = h

pub Fine-weaken : {A : Type 0} (n k : ℕ) (m : Read A) → n ≤ k → Fine n m → Fine k m
Fine-weaken n k (ok (a, rest)) le h = omega arith
Fine-weaken n k (err e) le h = h

pub Fine-if :
    {A : Type 0} (n : ℕ) (b : Bool) (x y : Read A)
    → Fine n x
    → Fine n y
    → Fine n (if b then x else y)
Fine-if n true x y hx hy = hx
Fine-if n false x y hx hy = hy

read_byte-Fine : (bs : List ℕ) → Fine (suc (length bs)) (read_byte bs)
read_byte-Fine [] = λ e. cc
read_byte-Fine (b ∷ bs) = omega arith

pub read_bytes-Fine : (bs : List ℕ) (n : ℕ) → Fine (suc (length bs)) (read_bytes bs n)
unfolding read_bytes
read_bytes-Fine bs n =
    Fine-if (suc (length bs)) (ltb (length bs) n) _ _ (λ e. cc) (omega (arith, length-drop n bs))

safe-Fine : (n k : ℕ) (bs : List ℕ) → length bs < k → Fine k (safe n bs)
safe-Fine n k bs h = Fine-if k (ltb max_safe_integer n) _ _ (λ e. cc) h

pub read_argument-Fine : (bs : List ℕ) (info : ℕ) → Fine (suc (length bs)) (read_argument bs info)
unfolding read_argument
read_argument-Fine bs info =
    let n = suc (length bs) in
    Fine-if n (ltb info 24) _ _ (omega arith) (
      Fine-if n (info == 24) _ _ (read_byte-Fine bs) (
        Fine-if n (info == 25) _ _
          (Fine-bind n n (read_bytes bs 2) _ (read_bytes-Fine bs 2) (λ a rest le. le))
          (Fine-if n (info == 26) _ _
            (Fine-bind n n (read_bytes bs 4) _ (read_bytes-Fine bs 4)
              (λ a rest le. safe-Fine _ n rest le))
            (Fine-if n (info == 27) _ _
              (Fine-bind n n (read_bytes bs 8) _ (read_bytes-Fine bs 8)
                (λ a rest le. safe-Fine _ n rest le))
              (λ e. cc)))))

pub read_length-Fine :
    (bs : List ℕ) (info : ℕ) (e : CborError) (limit : ℕ)
    → e ≢ out_of_fuel
    → Fine (suc (length bs)) (read_length bs info e limit)
unfolding read_length
read_length-Fine bs info e limit other =
    let n = suc (length bs) in
    Fine-bind n n (read_argument bs info) _ (read_argument-Fine bs info)
      (λ a rest le. Fine-if n (ltb limit a) _ _ other le)

number_of-Fine :
    (d : List ℕ) (whole : Option ℕ) (bs : List ℕ) (n : ℕ)
    → length bs < n
    → Fine n (number_of d whole bs)
unfolding number_of
number_of-Fine d none bs n h = h
number_of-Fine d (some k) bs n h = Fine-if n (ltb max_safe_integer k) _ _ (λ e. cc) h

pub require-Fine :
    {A : Type 0} (n : ℕ) (b : Bool) (e : CborError) (k : Read A)
    → e ≢ out_of_fuel
    → Fine n k
    → Fine n (require b e >> k)
require-Fine n true e k other h = h
require-Fine n false e k other h = other

pub read_simple-Fine : (bs : List ℕ) (info : ℕ) → Fine (suc (length bs)) (read_simple bs info)
unfolding read_simple read_double
read_simple-Fine bs info =
    let n = suc (length bs) in
    Fine-if n (info == 20) _ _ (omega arith) (
      Fine-if n (info == 21) _ _ (omega arith) (
        Fine-if n (info == 22) _ _ (omega arith) (
          Fine-if n (info == 27) _ _
            (Fine-bind n n (read_bytes bs 8) _ (read_bytes-Fine bs 8) (λ a rest le.
              require-Fine n _ not_finite_number _ (λ e. cc) (number_of-Fine a _ rest n le)))
            (λ e. cc))))

pub read_negative-Fine : (bs : List ℕ) (info : ℕ) → Fine (suc (length bs)) (read_negative bs info)
unfolding read_negative
read_negative-Fine bs info =
    let n = suc (length bs) in
    Fine-bind n n (read_argument bs info) _ (read_argument-Fine bs info)
      (λ a rest le. Fine-if n (ltb max_safe_integer (1 + a)) _ _ (λ e. cc) le)

pub text_of-Fine :
    (o : Option (List ℕ)) (bs : List ℕ) (n : ℕ) → length bs < n → Fine n (text_of o bs)
text_of-Fine none bs n h = λ e. cc
text_of-Fine (some s) bs n h = h

-- A key that is no text is an error, and not the fuel's.
pub key-Fine :
    {B : Type 0} (n : ℕ) (v : Value) (f : List ℕ → Read B)
    → ((k : List ℕ) → Fine n (f k))
    → Fine n (key_of v >>= f)
key-Fine n (text s) f rec = rec s
key-Fine n null f rec = λ e. cc
key-Fine n Value.not_finite f rec = λ e. cc
key-Fine n Value.unsupported f rec = λ e. cc
key-Fine n (boolean b) f rec = λ e. cc
key-Fine n (natural k) f rec = λ e. cc
key-Fine n (negative k) f rec = λ e. cc
key-Fine n (fraction d) f rec = λ e. cc
key-Fine n (byte_string b) f rec = λ e. cc
key-Fine n (array vs) f rec = λ e. cc
key-Fine n (object ms) f rec = λ e. cc
