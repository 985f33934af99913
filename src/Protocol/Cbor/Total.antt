-- ===== src/Protocol/Cbor/Total.antt =====
-- The fuel of `decodeCbor` of packages/protocol/src/cbor/decoder.ts never runs out: each item takes a
-- byte at least.
pub mod Parts
use inkpi.Base.{
  ℕ, zero, suc, ◌+◌, ◌*◌, ◌/◌, ◌%◌, ◌<◌, ◌≤◌, ◌≢◌, Bool, true, false, Option, none, some, List, [],
  ◌∷◌, length, ltb, ◌==◌, if◌then◌else◌, Result, ok, err, ◌>>=◌, ◌>>◌, require, not, length-drop,
  arith,
}
use inkpi.Protocol.Cbor.{
  Value, CborError, null, boolean, natural, negative, fraction, text, byte_string, array, object,
  max_safe_integer, max_uint32, CborOptions, ResolvedCborOptions, resolve_options, resolve_limit,
  container_limit, string_limit, out_of_fuel, not_finite_number, duplicate_key,
}
use inkpi.Protocol.Cbor.Utf8.{decode_text}
use inkpi.Protocol.Cbor.Decoder.{
  Read, read_byte, safe, read_bytes, read_argument, read_length, read_negative, read_simple,
  read_double, number_of, text_of, key_of, has_key, read_item, read_items, read_members,
  finish_read, decode_cbor,
}
use inkpi.Protocol.Cbor.Total.Parts.{
  Fine, Fine-bind, Fine-weaken, Fine-if, read_bytes-Fine, read_argument-Fine, read_length-Fine,
  require-Fine, read_simple-Fine, read_negative-Fine, text_of-Fine, key-Fine,
}

module _ (o : ResolvedCborOptions) where
  mutual
    unfolding read_item

    read_item-Fine :
        (fuel depth : ℕ) (bs : List ℕ)
        → 2 * length bs < fuel
        → Fine (length bs) (read_item o fuel depth bs)
    read_item-Fine zero depth bs h = absurd (omega arith)
    read_item-Fine (suc fuel) depth [] h = Fine-if 0 (ltb o.max_depth depth) _ _ (λ e. cc) (λ e. cc)
    read_item-Fine (suc fuel) depth (b ∷ bs) h =
        let n = suc (length bs) in
        let info = b % 32 in
        let lengths = λ (e : CborError) (limit : ℕ) (other : e ≢ out_of_fuel).
          read_length-Fine bs info e limit other in
        Fine-if n (ltb o.max_depth depth) _ _ (λ e. cc)
          (Fine-if n (b / 32 == 0) _ _
            (Fine-bind n n (read_argument bs info) _ (read_argument-Fine bs info) (λ a rest le. le))
            (Fine-if n (b / 32 == 1) _ _ (read_negative-Fine bs info) (
              Fine-if n (b / 32 == 2) _ _
                (Fine-bind n n _ _ (lengths string_limit o.max_byte_length (λ e. cc)) (λ a rest le.
                  Fine-bind (suc (length rest)) n (read_bytes rest a) _ (read_bytes-Fine rest a)
                    (λ s r le'. omega arith)))
                (Fine-if n (b / 32 == 3) _ _
                  (Fine-bind n n _ _ (lengths string_limit o.max_byte_length (λ e. cc))
                    (λ a rest le.
                      Fine-bind (suc (length rest)) n (read_bytes rest a) _ (read_bytes-Fine rest a)
                        (λ s r le'. text_of-Fine (decode_text s) r n (omega arith))))
                  (Fine-if n (b / 32 == 4) _ _
                    (Fine-bind n n _ _
                      (Fine-bind n n _ _ (lengths container_limit o.max_container_length (λ e. cc))
                        (λ a rest le.
                          Fine-weaken (suc (length rest)) n _ (omega arith)
                            (read_items-Fine fuel a (suc depth) rest (omega arith))))
                      (λ vs r le. le))
                    (Fine-if n (b / 32 == 5) _ _
                      (Fine-bind n n _ _
                        (Fine-bind n n _ _
                          (lengths container_limit o.max_container_length (λ e. cc))
                          (λ a rest le.
                            Fine-weaken (suc (length rest)) n _ (omega arith)
                              (read_members-Fine fuel a [] (suc depth) rest (omega arith))))
                        (λ ms r le. le))
                      (Fine-if n (b / 32 == 6) _ _ (λ e. cc) (read_simple-Fine bs info))))))))

    read_items-Fine :
        (fuel n depth : ℕ) (bs : List ℕ)
        → 2 * length bs + 1 < fuel
        → Fine (suc (length bs)) (read_items o fuel n depth bs)
    read_items-Fine zero n depth bs h = absurd (omega arith)
    read_items-Fine (suc fuel) zero depth bs h = omega arith
    read_items-Fine (suc fuel) (suc n) depth bs h =
        Fine-bind (length bs) (suc (length bs)) _ _ (read_item-Fine fuel depth bs (omega arith))
          (λ v rest le.
            Fine-bind (suc (length rest)) (suc (length bs)) _ _
              (read_items-Fine fuel n depth rest (omega arith)) (λ vs r le'. omega arith))

    read_members-Fine :
        (fuel n : ℕ) (keys : List (List ℕ)) (depth : ℕ) (bs : List ℕ)
        → 2 * length bs + 1 < fuel
        → Fine (suc (length bs)) (read_members o fuel n keys depth bs)
    read_members-Fine zero n keys depth bs h = absurd (omega arith)
    read_members-Fine (suc fuel) zero keys depth bs h = omega arith
    read_members-Fine (suc fuel) (suc n) keys depth bs h =
        Fine-bind (length bs) (suc (length bs)) _ _ (read_item-Fine fuel depth bs (omega arith))
          (λ key rest le. key-Fine (suc (length bs)) key _ (λ k.
            require-Fine (suc (length bs)) (not (has_key k keys)) duplicate_key _ (λ e. cc)
              (Fine-bind (length rest) (suc (length bs)) _ _
                (read_item-Fine fuel depth rest (omega arith))
                (λ v r le'.
                  Fine-bind (suc (length r)) (suc (length bs)) _ _
                    (read_members-Fine fuel n (k ∷ keys) depth r (omega arith))
                    (λ ms r' le''. omega arith)))))

bind_total :
    {A B : Type 0} (m : Result CborError A) (f : A → Result CborError B)
    → m ≢ err out_of_fuel
    → ((a : A) → f a ≢ err out_of_fuel)
    → (m >>= f) ≢ err out_of_fuel
bind_total (ok a) f h rec = rec a
bind_total (err e) f h rec = λ same. h (ground arith)

finish_read_total : (n : ℕ) (m : Read Value) → Fine n m → (m >>= finish_read) ≢ err out_of_fuel
unfolding finish_read
finish_read_total n (ok (v, [])) h = λ e. absurd (ground arith)
finish_read_total n (ok (v, b ∷ bs)) h = λ e. absurd (ground arith)
finish_read_total n (err e) h = λ same. h (ground arith)

resolve_limit_total :
    (value : Option ℕ) (fallback maximum : ℕ)
    → resolve_limit value fallback maximum ≢ err out_of_fuel
resolve_limit_total none fallback maximum = λ e. absurd (ground arith)
resolve_limit_total (some value) fallback maximum = λ e. absurd (ground arith)

resolve_options_total : (options : CborOptions) → resolve_options options ≢ err out_of_fuel
unfolding resolve_options
resolve_options_total options =
    bind_total _ _ (resolve_limit_total options.max_byte_length 16777216 max_uint32) (λ bytes.
      bind_total _ _ (resolve_limit_total options.max_container_length 1000000 max_uint32)
        (λ container.
          bind_total _ _ (resolve_limit_total options.max_depth 64 512)
            (λ depth e. absurd (ground arith))))

-- Under any options and for any bytes `decodeCbor` returns a value or throws one of its errors: the
-- fuel, twice the bytes and one, never runs out.
pub decode_cbor_total :
    (bs : List ℕ) (options : CborOptions) → decode_cbor bs options ≢ err out_of_fuel
unfolding decode_cbor
decode_cbor_total bs options =
    bind_total (resolve_options options) _ (resolve_options_total options) (λ o.
      finish_read_total (length bs) _ (read_item-Fine o (suc (2 * length bs)) 0 bs (omega arith)))
