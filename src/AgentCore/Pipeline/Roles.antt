-- ===== src/AgentCore/Pipeline/Roles.antt =====
-- packages/agent-core/src/pipeline: roles.ts, and the role of a stage in stage-registry.ts.
use Prim.Native.String.{String}
use text.Mathlib.Text.{◌==◌ as str_eq}
use inkpi.Base.{Bool, true, false, Option, none, some, List, [], ◌∷◌, map, if◌then◌else◌}
use inkpi.AgentCore.Pipeline.Stages.{AgentRoleConfig, no_role, named, inline, WorkflowStageConfig}

-- The map of `RoleRegistry`, in the order of insertion.
abbrev pub RoleRegistry : Type 0
RoleRegistry = List (String × AgentRoleConfig)

unfoldable pub register_role : String → AgentRoleConfig → RoleRegistry → RoleRegistry
register_role id config [] = (id, config) ∷ []
register_role id config ((x, old) ∷ roles) =
    let rest = register_role id config roles in
    if str_eq x id then (x, config) ∷ roles else (x, old) ∷ rest

unfoldable pub register_all : List (String × AgentRoleConfig) → RoleRegistry → RoleRegistry
register_all [] roles = roles
register_all ((id, config) ∷ initial) roles = register_all initial (register_role id config roles)

-- The entries of `initialRoles`, in the order of `Object.entries`.
abbrev pub new_roles : Option (List (String × AgentRoleConfig)) → RoleRegistry
new_roles none = []
new_roles (some initial) = register_all initial []

unfoldable pub get_role : String → RoleRegistry → Option AgentRoleConfig
get_role id [] = none
get_role id ((x, config) ∷ roles) = if str_eq x id then some config else get_role id roles

abbrev pub has_role : String → RoleRegistry → Bool
has_role id roles = elim (get_role id roles) [ none ↦ false | some config ↦ true ]

abbrev pub get_all_roles : RoleRegistry → List AgentRoleConfig
get_all_roles roles = map (λ r. r.1) roles

abbrev pub role_id_of : WorkflowStageConfig → String
role_id_of s = elim s.role [ named role ↦ role | _ ↦ s.id ]

-- The role of a stage: its own, else that of the registry, else one made of the stage.
unfoldable pub resolve_stage_role : WorkflowStageConfig → RoleRegistry → AgentRoleConfig
resolve_stage_role s registry =
    let role_id = role_id_of s in
    let made : AgentRoleConfig = record {
      role = role_id;
      name = s.name;
      system_prompt = elim s.system_prompt [ none ↦ "" | some prompt ↦ prompt ];
      role_rest = none;
    } in
    elim s.role as (λ _. AgentRoleConfig) [
      | inline config ↦ config
      | _ ↦ elim (get_role role_id registry) [ none ↦ made | some config ↦ config ]
    ]

-- `stage.role?.role || stage.id` of a role that has a name or none.
abbrev pub id_or : String → String → String
id_or String.[] id = id
id_or (String.◌∷◌ c role) id = String.◌∷◌ c role

abbrev pub resolve_stage_role_id : WorkflowStageConfig → String
resolve_stage_role_id s = elim s.role [
  | no_role ↦ s.id
  | named role ↦ role
  | inline config ↦ id_or config.role s.id
]
