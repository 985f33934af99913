-- ===== src/AgentCore/Pipeline/Examples.antt =====
-- Runs of the registries, and the theorems at concrete inputs.
use Prim.Native.String.{String}
use inkpi.Base.{◌≡◌, refl, true, none, some, List, [], ◌∷◌, ◌++◌, ok, ◌==◌, if◌then◌else◌}
use inkpi.AgentCore.Pipeline.Roles.{register_role, get_role, resolve_stage_role}
use inkpi.AgentCore.Pipeline.Stages.{
  AgentRoleConfig, no_role, named, WorkflowStageConfig, register, merge_stage_lists, find_stage,
  last_override, ids, new_ids, merge_stage_lists_lem,
}
use inkpi.AgentCore.Pipeline.Gates.{
  RegExp, regex, QualityGateRule, QualityGateIssue, test_regex, test_pattern, detect_gate_issues,
  detect_gate_issues-again,
}

abbrev stage : String → String → WorkflowStageConfig
stage id config = record {
  id = id;
  name = id;
  role = no_role;
  system_prompt = none;
  config = config;
}

abbrev base : List WorkflowStageConfig
base = stage "plan" "1" ∷ stage "write" "1" ∷ []

abbrev overrides : List WorkflowStageConfig
overrides = stage "check" "2" ∷ stage "plan" "2" ∷ []

merge_run :
    merge_stage_lists base overrides ≡ stage "plan" "2" ∷ stage "write" "1" ∷ stage "check" "2" ∷ []
unfolding merge_stage_lists register
merge_run = refl

merge_stage_lists_lem_example :
    ((id : String)
      → find_stage id (merge_stage_lists base overrides)
        ≡ last_override id overrides (find_stage id base))
    × (ids (merge_stage_lists base overrides) ≡ ids base ++ new_ids (ids base) overrides)
merge_stage_lists_lem_example = merge_stage_lists_lem base overrides

-- A global regular expression that an earlier test has moved: it matches up to the index 1.
abbrev moved : RegExp
moved = record {
  is_global = true;
  last_index = 1;
  scan = λ content start. if start == 0 then some 1 else none;
}

abbrev rules : List (QualityGateRule String String)
rules =
    record {
      rule_type = "draft";
      description = "";
      severity = "low";
      pattern = some (regex moved);
      detector = none;
    }
    ∷ []

abbrev found : QualityGateIssue
found = record { issue_type = "draft"; description = ""; severity = "low" }

detect_run : (detect_gate_issues (λ _. none) "x" "s" "m" rules).1 ≡ ok (found ∷ [])
unfolding detect_gate_issues test_pattern test_regex
detect_run = refl

detect_gate_issues-again_example :
    (detect_gate_issues
      (λ _. none)
      "x"
      "s"
      "m"
      (detect_gate_issues (λ _. none) "y" "s" "m" rules).0).1
    ≡ (detect_gate_issues (λ _. none) "x" "s" "m" rules).1
detect_gate_issues-again_example =
    detect_gate_issues-again (λ _. none) "x" "s" "m" "y" "s" "m" rules

abbrev editor : AgentRoleConfig
editor = record { role = "editor"; name = "Editor"; system_prompt = "Cut."; role_rest = none }

-- A stage that names a role takes it from the registry.
resolve_run :
    resolve_stage_role
      (record (stage "review" "1") { role = named "editor" })
      (register_role "editor" editor [])
    ≡ editor
unfolding resolve_stage_role register_role get_role
resolve_run = refl
