-- ===== src/SessionBackends/Memory/Search.antt =====
-- `search` of packages/session-backends/src/memory.ts. Texts are UTF-16 code units, and `lower` is
-- `String.toLowerCase`, which may change how long a text is.
use Prim.Native.String.{String, ◌++◌}
use inkpi.Base.{
  ℕ, suc, ◌+◌, ◌-◌, Bool, true, false, ◌&&◌, Option, none, some, List, [], ◌∷◌, take, drop, length,
  leb, ◌==◌, min, if◌then◌else◌, Result, ok, ◌>>◌,
}
use inkpi.Base.Texts.{trim}
use inkpi.SessionBackends.Contract.{EntryError}
use inkpi.SessionBackends.Memory.{MemorySessionBackend, DocumentSnapshot, assert_open}

abbrev pub is_prefix : List ℕ → List ℕ → Bool
is_prefix [] text = true
is_prefix (c ∷ needle) [] = false
is_prefix (c ∷ needle) (d ∷ text) = c == d && is_prefix needle text

-- `text.indexOf(needle)`, and none where it is -1.
unfoldable pub position_of : List ℕ → List ℕ → Option ℕ
position_of needle [] = if is_prefix needle [] then some 0 else none
position_of needle (d ∷ text) =
    let rest = position_of needle text in
    if is_prefix needle (d ∷ text)
    then some 0
    else elim rest [ none ↦ none | some i ↦ some (suc i) ]

-- `text.slice(from, to)`
abbrev pub slice : ℕ → ℕ → List ℕ → List ℕ
slice from to text = take (to - from) (drop from text)

pub record FtsSearchResult : Type 0 where
  pub document_id : String
  pub title : String
  pub snippet : List ℕ
  pub order_index : ℕ

module _ (lower : List ℕ → List ℕ) (query : List ℕ) where
  -- Where a snapshot has the query.
  unfoldable pub match_in : DocumentSnapshot → Option ℕ
  match_in snap = elim snap.content_markdown [
    | none ↦ none
    | some content ↦ position_of (lower query) (lower content)
  ]

  abbrev pub snippet_at : DocumentSnapshot → ℕ → List ℕ
  snippet_at snap i = elim snap.content_markdown [
    | none ↦ []
    | some content ↦ trim (slice (i - 20) (min (length content) (i + 80)) content)
  ]

  abbrev pub result_of : String → DocumentSnapshot → ℕ → ℕ → FtsSearchResult
  result_of id snap i order = record {
    document_id = id;
    title = "Document " ++ id;
    snippet = snippet_at snap i;
    order_index = order;
  }

  -- The loop over the snapshots: `order` is one more than the results that it has.
  unfoldable pub search_loop : ℕ → ℕ → List (String × DocumentSnapshot) → List FtsSearchResult
  search_loop limit order [] = []
  search_loop limit order ((id, snap) ∷ snaps) =
      let skipped = search_loop limit order snaps in
      let more = search_loop limit (suc order) snaps in
      elim (match_in snap) [
        | none ↦ skipped
        | some i ↦ result_of id snap i order ∷ (if leb limit order then [] else more)
      ]

  unfoldable pub search : MemorySessionBackend → Option ℕ → Result EntryError (List FtsSearchResult)
  search b limit = do
    assert_open b
    ok (search_loop (elim limit [ none ↦ 20 | some n ↦ n ]) 1 b.snapshots)
