-- ===== src/AgentCore/Pipeline/Stages.antt =====
-- packages/agent-core/src/pipeline/stage-registry.ts.
use Prim.Native.String.{String}
use text.Mathlib.Text.{◌==◌ as str_eq}
use text.Mathlib.TextPositions.{eq_refl}
use inkpi.Base.{
  ◌≡◌, refl, sym, ap, ◌∙◌, inl, inr, Bool, false, ◌||◌, Option, none, some, List, [], ◌∷◌, ◌++◌,
  map, append_assoc, append-nil, if◌then◌else◌, Bool-cases, arith,
}
use inkpi.Base.Texts.{str_eq→eq}

-- `role_rest` is the description of a role and its level of thinking.
pub record AgentRoleConfig : Type 0 where
  pub role : String
  pub name : String
  pub system_prompt : String
  pub role_rest : Option String

-- The role of a stage: its own, the name of one, or none.
pub data StageRole : Type 0 where
  no_role : StageRole
  named : String → StageRole
  inline : AgentRoleConfig → StageRole

-- `config` is the rest of a stage: its functions and the rules of its gate.
pub record WorkflowStageConfig : Type 0 where
  pub id : String
  pub name : String
  pub role : StageRole
  pub system_prompt : Option String
  pub config : String

-- The stage at the first index with its identifier, or a new last one.
unfoldable pub register : List WorkflowStageConfig → WorkflowStageConfig → List WorkflowStageConfig
register [] s = s ∷ []
register (x ∷ xs) s = let rest = register xs s in if str_eq x.id s.id then s ∷ xs else x ∷ rest

unfoldable pub merge_stage_lists :
    List WorkflowStageConfig → List WorkflowStageConfig → List WorkflowStageConfig
merge_stage_lists base [] = base
merge_stage_lists base (s ∷ overrides) = merge_stage_lists (register base s) overrides

unfoldable pub find_stage : String → List WorkflowStageConfig → Option WorkflowStageConfig
find_stage id [] = none
find_stage id (x ∷ xs) = if str_eq x.id id then some x else find_stage id xs

-- The last of the overrides with the identifier, or what is given.
unfoldable pub last_override :
    String → List WorkflowStageConfig → Option WorkflowStageConfig → Option WorkflowStageConfig
last_override id [] found = found
last_override id (s ∷ overrides) found =
    last_override id overrides (if str_eq s.id id then some s else found)

find_stage-register :
    (id : String) (xs : List WorkflowStageConfig) (s : WorkflowStageConfig)
    → find_stage id (register xs s) ≡ (if str_eq s.id id then some s else find_stage id xs)
unfolding find_stage register
find_stage-register id [] s = refl
find_stage-register id (x ∷ xs) s = elim (Bool-cases (str_eq x.id s.id)) [
  | inl e ↦ rw (e, str_eq→eq x.id s.id e) (ground arith)
  | inr e ↦
      rw (e, find_stage-register id xs s)
        (ground (arith, str_eq→eq x.id id, str_eq→eq s.id id, eq_refl id))
]

find_stage-merge :
    (id : String) (base overrides : List WorkflowStageConfig)
    → find_stage id (merge_stage_lists base overrides)
      ≡ last_override id overrides (find_stage id base)
unfolding merge_stage_lists last_override
find_stage-merge id base [] = refl
find_stage-merge id base (s ∷ overrides) =
    find_stage-merge id (register base s) overrides
    ∙ ap (last_override id overrides) (find_stage-register id base s)

abbrev pub ids : List WorkflowStageConfig → List String
ids xs = map (λ s. s.id) xs

abbrev pub has_id : String → List String → Bool
has_id id [] = false
has_id id (x ∷ xs) = str_eq x id || has_id id xs

-- The identifiers that are not among those before, each once, in the order in which they first occur.
unfoldable pub new_ids : List String → List WorkflowStageConfig → List String
new_ids seen [] = []
new_ids seen (s ∷ overrides) =
    let more = new_ids (seen ++ (s.id ∷ [])) overrides in
    let same = new_ids seen overrides in if has_id s.id seen then same else s.id ∷ more

abbrev with_id : List String → String → List String
with_id seen id = if has_id id seen then seen else seen ++ (id ∷ [])

register-ids :
    (xs : List WorkflowStageConfig) (s : WorkflowStageConfig)
    → ids (register xs s) ≡ with_id (ids xs) s.id
unfolding register
register-ids [] s = refl
register-ids (x ∷ xs) s = elim (Bool-cases (str_eq x.id s.id)) [
  | inl e ↦ rw (e, str_eq→eq x.id s.id e) refl
  | inr e ↦ elim (Bool-cases (has_id s.id (ids xs))) [
    | inl known ↦ rw (e, register-ids xs s, known) refl
    | inr new ↦ rw (e, register-ids xs s, new) refl
  ]
]

merge-ids :
    (base overrides : List WorkflowStageConfig)
    → ids (merge_stage_lists base overrides) ≡ ids base ++ new_ids (ids base) overrides
unfolding merge_stage_lists new_ids
merge-ids base [] = sym (append-nil (ids base))
merge-ids base (s ∷ overrides) = elim (Bool-cases (has_id s.id (ids base))) [
  | inl known ↦
      let same : ids (register base s) ≡ ids base = rw (register-ids base s, known) refl in
      rw (merge-ids (register base s) overrides, same, known) refl
  | inr new ↦
      let more : ids (register base s) ≡ ids base ++ (s.id ∷ []) =
        rw (register-ids base s, new) refl in
      rw (merge-ids (register base s) overrides, more, new)
        (append_assoc (ids base) (s.id ∷ []) (new_ids (ids base ++ (s.id ∷ [])) overrides))
]

-- Stages that were merged: under each identifier stands the last override with it, and without one the
-- stage of the base; the base's identifiers keep their places, and behind them stand those that only
-- the overrides have, each once, in the order in which they first occur.
pub merge_stage_lists_lem :
    (base overrides : List WorkflowStageConfig)
    → ((id : String)
        → find_stage id (merge_stage_lists base overrides)
          ≡ last_override id overrides (find_stage id base))
      × (ids (merge_stage_lists base overrides) ≡ ids base ++ new_ids (ids base) overrides)
merge_stage_lists_lem base overrides =
    (λ id. find_stage-merge id base overrides, merge-ids base overrides)
