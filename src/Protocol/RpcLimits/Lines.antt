-- ===== src/Protocol/RpcLimits/Lines.antt =====
-- The class `RpcLineBuffer` of packages/protocol/src/rpc-limits.ts, against the lines of the whole
-- stream.
use mathlib.Core.List.{flatten}
use inkpi.Base.{
  ℕ, zero, suc, ◌<◌, ◌≤◌, ◌≡◌, refl, sym, ap, ap₂, ◌∙◌, ◌⊎◌, inl, inr, Bool, true, false, Option,
  none, some, List, [], ◌∷◌, ◌++◌, length, leb, ltb, ◌==◌, if◌then◌else◌, append-nil, append_assoc,
  Bool-cases, Option-cases, Result, ok, err, ok_inj, arith,
}
use inkpi.Base.Texts.{trim}
use inkpi.Protocol.RpcLimits.{
  RpcLimits, RpcError, RpcLineBuffer, fragment_of, after_line, with_tail, add_fragment, join,
  text_of, keep, clear, counted, push_loop, push,
}

-- The messages of a stream, one code unit at a time: those that are complete, and the line that is
-- not.
unfoldable pub lines_of : List (List ℕ) → List ℕ → List ℕ → List (List ℕ) × List ℕ
lines_of messages line [] = (messages, line)
lines_of messages line (unit ∷ text) =
    lines_of (if unit == 10 then keep messages (trim line) else messages)
      (if unit == 10 then [] else line ++ (unit ∷ [])) text

join-with_tail :
    (tail : List ℕ) (fragments : List (List ℕ))
    → join (with_tail tail fragments) ≡ join fragments ++ tail
unfolding join
join-with_tail [] fragments = sym (append-nil (join fragments))
join-with_tail (unit ∷ tail) fragments = refl

text_of-add_fragment :
    (b : RpcLineBuffer) (fragment : List ℕ)
    → text_of (add_fragment b fragment) ≡ text_of b ++ fragment
unfolding add_fragment join
text_of-add_fragment b fragment = elim (Bool-cases (leb 1024 (length fragment))) [
  | inl long ↦
      rw (long, append-nil (join (with_tail b.tail b.fragments) ++ fragment))
        (ap (◌++ fragment) (join-with_tail b.tail b.fragments))
  | inr short ↦ elim (Bool-cases (leb 1024 (length (b.tail ++ fragment)))) [
    | inl full ↦
        rw (short, full, append-nil (join b.fragments ++ (b.tail ++ fragment)))
          (sym (append_assoc (join b.fragments) b.tail fragment))
    | inr room ↦ rw (short, room) (sym (append_assoc (join b.fragments) b.tail fragment))
  ]
]

-- What the first line feed divides.
abbrev after_first : List (List ℕ) → List ℕ → Option (List ℕ) → List (List ℕ) × List ℕ
after_first messages line none = (messages, line)
after_first messages line (some rest) = lines_of (keep messages (trim line)) [] rest

lines_of-after_line :
    (messages : List (List ℕ)) (line chunk : List ℕ)
    → lines_of messages line chunk
      ≡ after_first messages (line ++ fragment_of chunk) (after_line chunk)
unfolding lines_of fragment_of after_line
lines_of-after_line messages line [] = ap (λ l. (messages, l)) (sym (append-nil line))
lines_of-after_line messages line (unit ∷ chunk) = elim (Bool-cases (unit == 10)) [
  | inl feed ↦ rw (feed, append-nil line) refl
  | inr more ↦ rw more (
      lines_of-after_line messages (line ++ (unit ∷ [])) chunk
      ∙ ap (λ l. after_first messages l (after_line chunk))
          (append_assoc line (unit ∷ []) (fragment_of chunk)))
]

length-after_line :
    (chunk rest : List ℕ) → after_line chunk ≡ some rest → length rest < length chunk
unfolding after_line
length-after_line [] rest h = cc h
length-after_line (unit ∷ chunk) rest h = ground (arith, length-after_line chunk rest)

-- What a call of `push` that returns has made of its chunk.
Ends : List (List ℕ) × List ℕ → RpcLineBuffer × Result RpcError (List (List ℕ)) → Type 0
Ends want r = (out : List (List ℕ)) → r.1 ≡ ok out → (out, text_of r.0) ≡ want

push_loop-Ends :
    (limits : RpcLimits) (fuel : ℕ) (b : RpcLineBuffer) (messages : List (List ℕ)) (chunk : List ℕ)
    → length chunk ≤ fuel
    → Ends (lines_of messages (text_of b) chunk) (push_loop fuel limits b messages chunk)
unfolding push_loop lines_of Ends join
push_loop-Ends limits zero b messages [] le = λ out h. ap (λ m. (m, text_of b)) (sym (ok_inj h))
push_loop-Ends limits zero b messages (unit ∷ chunk) le = absurd (omega arith)
push_loop-Ends limits (suc fuel) b messages [] le =
    λ out h. ap (λ m. (m, text_of b)) (sym (ok_inj h))
push_loop-Ends limits (suc fuel) b messages (unit ∷ chunk) le =
    let f = fragment_of (unit ∷ chunk) in
    let whole = text_of-add_fragment (counted b f) f in
    let cut = lines_of-after_line messages (text_of b) (unit ∷ chunk) in
    elim (Bool-cases (ltb limits.max_frame_bytes (counted b f).bytes)) [
      | inl long ↦ rw long (λ out h. cc h)
      | inr short ↦ elim (Option-cases (after_line (unit ∷ chunk))) [
        | inl last ↦
            rw (short, last)
              (λ out h.
                ap₂ (λ m t. (m, t)) (sym (ok_inj h)) whole
                ∙ sym (cut ∙ ap (after_first messages (text_of b ++ f)) last))
        | inr (rest, more) ↦
            rw (short, more)
              (λ out h.
                push_loop-Ends limits fuel clear
                  (keep messages (trim (text_of (add_fragment (counted b f) f)))) rest
                  (omega (arith, length-after_line (unit ∷ chunk) rest more)) out h
                ∙ ap (λ t. lines_of (keep messages (trim t)) [] rest) whole
                ∙ sym (cut ∙ ap (after_first messages (text_of b ++ f)) more))
      ]
    ]

lines_of-append :
    (s t : List ℕ) (messages : List (List ℕ)) (line : List ℕ)
    → lines_of messages line (s ++ t)
      ≡ lines_of (lines_of messages line s).0 (lines_of messages line s).1 t
unfolding lines_of
lines_of-append [] t messages line = refl
lines_of-append (unit ∷ s) t messages line = lines_of-append s t _ _

keep-prefix :
    (older messages : List (List ℕ)) (m : List ℕ)
    → keep (older ++ messages) m ≡ older ++ keep messages m
keep-prefix older messages [] = refl
keep-prefix older messages (unit ∷ m) = append_assoc older messages ((unit ∷ m) ∷ [])

kept-prefix :
    (feed : Bool) (older messages : List (List ℕ)) (m : List ℕ)
    → (if feed then keep (older ++ messages) m else older ++ messages)
      ≡ older ++ (if feed then keep messages m else messages)
kept-prefix true older messages m = keep-prefix older messages m
kept-prefix false older messages m = refl

-- The messages that are complete stay in front.
lines_of-prefix :
    (text : List ℕ) (older messages : List (List ℕ)) (line : List ℕ)
    → lines_of (older ++ messages) line text
      ≡ (older ++ (lines_of messages line text).0, (lines_of messages line text).1)
unfolding lines_of
lines_of-prefix [] older messages line = refl
lines_of-prefix (unit ∷ text) older messages line =
    ap (λ m. lines_of m (if unit == 10 then [] else line ++ (unit ∷ [])) text)
      (kept-prefix (unit == 10) older messages (trim line))
    ∙ lines_of-prefix text older _ _

-- The chunks that a connection reads, one after another, until one is refused: the messages of all.
unfoldable pub push_all :
    RpcLimits
    → RpcLineBuffer
    → List (List ℕ)
    → List (List ℕ)
    → RpcLineBuffer × Result RpcError (List (List ℕ))
push_all limits b messages [] = (b, ok messages)
push_all limits b messages (chunk ∷ chunks) =
    let r = push limits b chunk in
    elim r.1 [ ok out ↦ push_all limits r.0 (messages ++ out) chunks | err e ↦ (r.0, err e) ]

-- A call of `push` behind messages that are complete.
push-lines_of :
    (limits : RpcLimits) (b : RpcLineBuffer) (messages out : List (List ℕ)) (chunk : List ℕ)
    → (push limits b chunk).1 ≡ ok out
    → (messages ++ out, text_of (push limits b chunk).0) ≡ lines_of messages (text_of b) chunk
unfolding push Ends
push-lines_of limits b messages out chunk h =
    ap (λ p. (messages ++ p.0, p.1))
      (push_loop-Ends limits (length chunk) b [] chunk (omega arith) out h)
    ∙ sym (lines_of-prefix chunk messages [] (text_of b))
    ∙ ap (λ m. lines_of m (text_of b) chunk) (append-nil messages)

Result-cases :
    (r : Result RpcError (List (List ℕ)))
    → ((out : List (List ℕ)) × (r ≡ ok out)) ⊎ ((e : RpcError) × (r ≡ err e))
Result-cases (ok out) = inl (out, refl)
Result-cases (err e) = inr (e, refl)

push_all-Ends :
    (limits : RpcLimits) (chunks : List (List ℕ)) (b : RpcLineBuffer) (messages : List (List ℕ))
    → Ends (lines_of messages (text_of b) (flatten chunks)) (push_all limits b messages chunks)
unfolding push_all Ends lines_of flatten
push_all-Ends limits [] b messages = λ out h. ap (λ m. (m, text_of b)) (sym (ok_inj h))
push_all-Ends limits (chunk ∷ chunks) b messages = elim (Result-cases (push limits b chunk).1) [
  | inl (got, eq) ↦
      rw (push_all, eq)
        (λ out h.
          push_all-Ends limits chunks (push limits b chunk).0 (messages ++ got) out h
          ∙ ap (λ p. lines_of p.0 p.1 (flatten chunks))
              (push-lines_of limits b messages got chunk eq)
          ∙ sym (lines_of-append chunk (flatten chunks) messages (text_of b)))
  | inr (e, eq) ↦ rw (push_all, eq) (λ out h. cc h)
]

-- Of chunks that a buffer took without an error: the messages, and the text that is left, are those
-- that the lines of the whole stream give, wherever the stream was cut.
pub push_all-lines_of :
    (limits : RpcLimits) (chunks : List (List ℕ)) (out : List (List ℕ))
    → (push_all limits clear [] chunks).1 ≡ ok out
    → (out, text_of (push_all limits clear [] chunks).0) ≡ lines_of [] [] (flatten chunks)
unfolding Ends join
push_all-lines_of limits chunks = push_all-Ends limits chunks clear []
