-- ===== src/Protocol/Framing/Stream.antt =====
-- What a stream of bytes means: the frames that it holds, and the incomplete frame at its end.
use inkpi.Base.{
  ℕ, ◌≤◌, ◌<◌, ◌≡◌, refl, ap, ◌∙◌, sym, ◌⊎◌, inl, inr, List, [], ◌∷◌, ◌++◌, append_assoc, arith,
  length, length-append, append_inj,
}
use inkpi.Protocol.Framing.{max_uint32, be_bytes, be_value}

-- An incomplete frame: too short for a header, or fewer bytes than an admissible header announces.
abbrev pub Partial : ℕ → List ℕ → Type 0
Partial limit r =
    (length r < 4) ⊎ ((n : ℕ) × (q : List ℕ) × (r ≡ be_bytes n ++ q) × (n ≤ limit) × (length q < n))

-- `bytes` is the encoding of `frames`, one behind the other, and then the incomplete `rest`.
abbrev pub Splits : ℕ → List ℕ → List (List ℕ) → List ℕ → Type 0
Splits limit bytes [] rest = (bytes ≡ rest) × Partial limit rest
Splits limit bytes (p ∷ frames) rest =
    (more : List ℕ) × (bytes ≡ be_bytes (length p) ++ (p ++ more))
    × (length p ≤ limit)
    × Splits limit more frames rest

-- Behind `frames` stands a header that announces more than the limit.
abbrev pub Rejects : ℕ → List ℕ → List (List ℕ) → Type 0
Rejects limit bytes [] =
    (n : ℕ) × (q : List ℕ) × (bytes ≡ be_bytes n ++ q) × (limit < n) × (n ≤ max_uint32)
Rejects limit bytes (p ∷ frames) =
    (more : List ℕ) × (bytes ≡ be_bytes (length p) ++ (p ++ more))
    × (length p ≤ limit)
    × Rejects limit more frames

pub be_value-be_bytes : (n : ℕ) → n ≤ max_uint32 → be_value (be_bytes n) ≡ n
be_value-be_bytes n h = omega arith

header_inj :
    (n m : ℕ) (xs ys : List ℕ)
    → n ≤ max_uint32
    → m ≤ max_uint32
    → be_bytes n ++ xs ≡ be_bytes m ++ ys
    → (n ≡ m) × (xs ≡ ys)
header_inj n m xs ys hn hm e = (
  omega (arith, be_value-be_bytes n hn, be_value-be_bytes m hm, ap be_value e),
  (append_inj (be_bytes n) (be_bytes m) refl e).1,
)

frame_inj :
    (p q xs ys : List ℕ)
    → length p ≤ max_uint32
    → length q ≤ max_uint32
    → be_bytes (length p) ++ (p ++ xs) ≡ be_bytes (length q) ++ (q ++ ys)
    → (p ≡ q) × (xs ≡ ys)
frame_inj p q xs ys hp hq e =
    let (n, rest) = header_inj (length p) (length q) (p ++ xs) (q ++ ys) hp hq e in
    append_inj p q n rest

module _ (limit : ℕ) (small : limit ≤ max_uint32) where
  Partial-not-frame :
      (p more bytes : List ℕ)
      → bytes ≡ be_bytes (length p) ++ (p ++ more)
      → length p ≤ limit
      → ¬ Partial limit bytes
  Partial-not-frame p more bytes e h (inl short) = omega (arith, ap length e)
  Partial-not-frame p more bytes e h (inr (n, q, e', h', short)) =
      let (same, rest) =
        header_inj n (length p) q (p ++ more) (omega arith) (omega arith) (sym e' ∙ e) in
      omega (arith, same, ap length rest, length-append p more)

  Partial-not-rejected : (bytes : List ℕ) → Partial limit bytes → ¬ Rejects limit bytes []
  Partial-not-rejected bytes (inl short) (m, q, e, big, _) = omega (arith, ap length e)
  Partial-not-rejected bytes (inr (n, q, e, h, short)) (m, q', e', big, top) =
      let (same, _) = header_inj n m q q' (omega arith) top (sym e ∙ e') in omega (arith, same)

  -- A stream splits in one way.
  pub Splits-unique :
      (bytes : List ℕ) (fs gs : List (List ℕ)) {r s : List ℕ}
      → Splits limit bytes fs r
      → Splits limit bytes gs s
      → (fs ≡ gs) × (r ≡ s)
  Splits-unique bytes [] [] h k = (refl, cc (h.0, k.0))
  Splits-unique bytes [] (p ∷ gs) {r} h (more, e, b, _) =
      absurd (Partial-not-frame p more r (sym h.0 ∙ e) b h.1)
  Splits-unique bytes (p ∷ fs) [] {s = s} (more, e, b, _) k =
      absurd (Partial-not-frame p more s (sym k.0 ∙ e) b k.1)
  Splits-unique bytes (p ∷ fs) (q ∷ gs) {r} {s} (xs, e, b, h) (ys, e', b', k) =
      let (head, rest) = frame_inj p q xs ys (omega arith) (omega arith) (sym e ∙ e') in
      let k' : Splits limit xs gs s = rw rest k in
      let (tail, last) = Splits-unique xs fs gs {r = r} {s = s} h k' in (cc (head, tail), last)

  -- And never both splits and is rejected.
  pub Splits-not-rejected :
      (bytes : List ℕ) (fs gs : List (List ℕ)) (r : List ℕ)
      → Splits limit bytes fs r
      → ¬ Rejects limit bytes gs
  Splits-not-rejected bytes [] [] r h (n, q, e, big, top) =
      Partial-not-rejected r h.1 (n, q, sym h.0 ∙ e, big, top)
  Splits-not-rejected bytes [] (p ∷ gs) r h (more, e, b, _) =
      Partial-not-frame p more r (sym h.0 ∙ e) b h.1
  Splits-not-rejected bytes (p ∷ fs) [] r (more, e, b, _) (n, q, e', big, top) =
      let (same, _) = header_inj (length p) n (p ++ more) q (omega arith) top (sym e ∙ e') in
      omega (arith, same)
  Splits-not-rejected bytes (p ∷ fs) (q ∷ gs) r (xs, e, b, h) (ys, e', b', k) =
      let (head, rest) = frame_inj p q xs ys (omega arith) (omega arith) (sym e ∙ e') in
      let k' : Rejects limit xs gs = rw rest k in Splits-not-rejected xs fs gs r h k'

module _ (limit : ℕ) where
  regroup :
      (p more c : List ℕ) {bytes : List ℕ}
      → bytes ≡ be_bytes (length p) ++ (p ++ more)
      → bytes ++ c ≡ be_bytes (length p) ++ (p ++ (more ++ c))
  regroup p more c e = rw e (ap (be_bytes (length p) ++◌) (append_assoc p more c))

  -- Splitting goes on where it stopped.
  pub Splits-append :
      (bytes c : List ℕ) (fs gs : List (List ℕ)) (r s : List ℕ)
      → Splits limit bytes fs r
      → Splits limit (r ++ c) gs s
      → Splits limit (bytes ++ c) (fs ++ gs) s
  Splits-append bytes c [] gs r s h k = rw h.0 k
  Splits-append bytes c (p ∷ fs) gs r s (more, e, b, h) k =
      (more ++ c, regroup p more c e, b, Splits-append more c fs gs r s h k)

  pub Rejects-append :
      (bytes c : List ℕ) (fs gs : List (List ℕ)) (r : List ℕ)
      → Splits limit bytes fs r
      → Rejects limit (r ++ c) gs
      → Rejects limit (bytes ++ c) (fs ++ gs)
  Rejects-append bytes c [] gs r h k = rw h.0 k
  Rejects-append bytes c (p ∷ fs) gs r (more, e, b, h) k =
      (more ++ c, regroup p more c e, b, Rejects-append more c fs gs r h k)

  -- More bytes do not undo a rejection.
  pub Rejects-extend :
      (bytes c : List ℕ) (fs : List (List ℕ))
      → Rejects limit bytes fs
      → Rejects limit (bytes ++ c) fs
  Rejects-extend bytes c [] (n, q, e, h, k) = (n, q ++ c, rw e refl, h, k)
  Rejects-extend bytes c (p ∷ fs) (more, e, b, h) =
      (more ++ c, regroup p more c e, b, Rejects-extend more c fs h)
