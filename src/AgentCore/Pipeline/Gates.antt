-- ===== src/AgentCore/Pipeline/Gates.antt =====
-- packages/agent-core/src/pipeline: the rules of gate-rule-registry.ts and their detection in
-- gate-detection.ts. Regular expressions keep their `lastIndex` between calls, so a detection gives the
-- rules as it leaves them; what a pattern matches and what a detector answers is given by the caller.
use Prim.Native.String.{String}
use text.Mathlib.Text.{◌==◌ as str_eq}
use inkpi.Base.{
  ℕ, ◌≡◌, refl, sym, ap, ◌∙◌, ◌⊎◌, inl, inr, Bool, true, false, Option, none, some, List, [], ◌∷◌,
  ◌++◌, if◌then◌else◌, Result, ok, err, ◌>>=◌, Option-cases, Bool-cases,
}

-- A `RegExp`: whether it is global or sticky, where it goes on, and the end of the match that it finds
-- in a text from an index on.
pub record RegExp : Type 0 where
  pub is_global : Bool
  pub last_index : ℕ
  pub scan : String → ℕ → Option ℕ

pub data Pattern : Type 0 where
  source : String → Pattern
  regex : RegExp → Pattern

pub data GateError : Type 0 where
  invalid_pattern detector_failed : String → GateError

pub record QualityGateIssue : Type 0 where
  pub issue_type : String
  pub description : String
  pub severity : String

pub record QualityGateRule (Context Metadata : Type 0) : Type 0 where
  pub rule_type : String
  pub description : String
  pub severity : String
  pub pattern : Option Pattern
  pub detector : Option (String → Context → Metadata → Result GateError (Option QualityGateIssue))

-- `RegExp.test`
unfoldable pub test_regex : RegExp → String → RegExp × Bool
test_regex x content = elim (x.scan content (if x.is_global then x.last_index else 0)) [
  | none ↦ (if x.is_global then record x { last_index = 0 } else x, false)
  | some end ↦ (if x.is_global then record x { last_index = end } else x, true)
]

abbrev pub issue_list : Option QualityGateIssue → List QualityGateIssue
issue_list none = []
issue_list (some i) = i ∷ []

-- `compile` is what `new RegExp(source, 'g')` matches, or none if it throws.
module _ (compile : String → Option (String → ℕ → Option ℕ)) where
  compiled : String → String → Result GateError Bool
  unfolding test_regex
  compiled text content = elim (compile text) [
    | none ↦ err (invalid_pattern text)
    | some scan ↦
        ok (test_regex (record { is_global = true; last_index = 0; scan = scan }) content).1
  ]

  -- The pattern of a rule, tested from the start of the content; an empty source is no pattern.
  unfoldable pub test_pattern : Option Pattern → String → Option Pattern × Result GateError Bool
  unfolding compiled
  test_pattern none content = (none, ok false)
  test_pattern (some (source text)) content =
      (some (source text), if str_eq text "" then ok false else compiled text content)
  test_pattern (some (regex x)) content =
      let tested = test_regex (record x { last_index = 0 }) content in
      (some (regex tested.0), ok tested.1)

  module _ {Context Metadata : Type 0} where
    abbrev pub issue_of : QualityGateRule Context Metadata → QualityGateIssue
    issue_of r = record {
      issue_type = r.rule_type;
      description = r.description;
      severity = r.severity;
    }

    -- The rule as its pattern's test leaves it.
    abbrev pub tested_rule :
        QualityGateRule Context Metadata → String → QualityGateRule Context Metadata
    tested_rule r content = record r { pattern = (test_pattern r.pattern content).0 }

    abbrev pub pattern_issues :
        QualityGateRule Context Metadata → String → Result GateError (List QualityGateIssue)
    pattern_issues r content =
        (test_pattern r.pattern content).1 >>= λ hit. ok (if hit then issue_of r ∷ [] else [])

    abbrev pub detector_issues :
        QualityGateRule Context Metadata
        → String
        → Context
        → Metadata
        → Result GateError (List QualityGateIssue)
    detector_issues r content context metadata = elim r.detector [
      | none ↦ ok []
      | some detect ↦ detect content context metadata >>= λ issue. ok (issue_list issue)
    ]

    abbrev pub rule_issues :
        QualityGateRule Context Metadata
        → String
        → Context
        → Metadata
        → Result GateError (List QualityGateIssue)
    rule_issues r content context metadata = pattern_issues r content >>= λ hit.
        detector_issues r content context metadata >>= λ found. ok (hit ++ found)

    -- What is thrown leaves the rules behind untouched.
    unfoldable pub detect_gate_issues :
        String
        → Context
        → Metadata
        → List (QualityGateRule Context Metadata)
        → List (QualityGateRule Context Metadata) × Result GateError (List QualityGateIssue)
    detect_gate_issues content context metadata [] = ([], ok [])
    detect_gate_issues content context metadata (r ∷ rules) =
        let rest = detect_gate_issues content context metadata rules in
        elim (rule_issues r content context metadata)
          as (λ _.
            List (QualityGateRule Context Metadata) × Result GateError (List QualityGateIssue)) [
              | err e ↦ (tested_rule r content ∷ rules, err e)
              | ok issues ↦ (tested_rule r content ∷ rest.0, rest.1 >>= λ more. ok (issues ++ more))
            ]

-- `GateRuleRegistry`: `add`, and `forStage` of a stage with its own rules.
module _ {Context Metadata : Type 0} where
  abbrev pub add_rule :
      List (QualityGateRule Context Metadata)
      → QualityGateRule Context Metadata
      → List (QualityGateRule Context Metadata)
  add_rule rules r = rules ++ (r ∷ [])

  abbrev pub for_stage :
      List (QualityGateRule Context Metadata)
      → List (QualityGateRule Context Metadata)
      → List (QualityGateRule Context Metadata)
  for_stage rules gate_rules = rules ++ gate_rules

-- A test moves nothing but the index.
test_regex-reset :
    (x : RegExp) (content : String)
    → record (test_regex x content).0 { last_index = 0 } ≡ record x { last_index = 0 }
unfolding test_regex
test_regex-reset x content =
    elim (Option-cases (x.scan content (if x.is_global then x.last_index else 0))) [
      | inl missed ↦ elim (Bool-cases x.is_global) [
        | inl g ↦ rw (test_regex, missed, g) refl
        | inr g ↦ rw (test_regex, missed, g) refl
      ]
      | inr (end, matched) ↦ elim (Bool-cases x.is_global) [
        | inl g ↦ rw (test_regex, matched, g) refl
        | inr g ↦ rw (test_regex, matched, g) refl
      ]
    ]

result_cases {ℓ κ} :
    {E : Type κ} {A : Type ℓ} (r : Result E A) → ((e : E) × (r ≡ err e)) ⊎ ((a : A) × (r ≡ ok a))
result_cases (err e) = inl (e, refl)
result_cases (ok a) = inr (a, refl)

module _ (compile : String → Option (String → ℕ → Option ℕ)) where
  test_pattern-again :
      (p : Option Pattern) (before content : String)
      → (test_pattern compile (test_pattern compile p before).0 content).1
        ≡ (test_pattern compile p content).1
  unfolding test_pattern
  test_pattern-again none before content = refl
  test_pattern-again (some (source text)) before content = refl
  test_pattern-again (some (regex x)) before content =
      ap (λ (y : RegExp). ok (test_regex y content).1)
        (test_regex-reset (record x { last_index = 0 }) before)

  module _ {Context Metadata : Type 0} (content : String) (context : Context)
      (metadata : Metadata) where
    rule_issues-again :
        (r : QualityGateRule Context Metadata) (before : String)
        → rule_issues compile (tested_rule compile r before) content context metadata
          ≡ rule_issues compile r content context metadata
    rule_issues-again r before =
        ap
          (λ (t : Result GateError Bool).
            (t >>= λ hit. ok (if hit then issue_of compile r ∷ [] else [])) >>= λ hit.
            detector_issues compile r content context metadata >>= λ found. ok (hit ++ found))
          (test_pattern-again r.pattern before content)

    detect_gate_issues-rule :
        (r : QualityGateRule Context Metadata) (rules : List (QualityGateRule Context Metadata))
        → (detect_gate_issues compile content context metadata (r ∷ rules)).1 ≡ (
            rule_issues compile r content context metadata >>= λ issues.
            (detect_gate_issues compile content context metadata rules).1 >>= λ more.
            ok (issues ++ more))
    unfolding detect_gate_issues
    detect_gate_issues-rule r rules =
        elim (result_cases (rule_issues compile r content context metadata)) [
          | inl (e, thrown) ↦ rw (detect_gate_issues, thrown) refl
          | inr (issues, found) ↦ rw (detect_gate_issues, found) refl
        ]

    -- What a detection finds or throws does not depend on earlier ones with the same rules, of whatever
    -- contents, global and sticky regular expressions included.
    pub detect_gate_issues-again :
        (before : String) (context' : Context) (metadata' : Metadata)
        (rules : List (QualityGateRule Context Metadata))
        → (detect_gate_issues compile content context metadata
            (detect_gate_issues compile before context' metadata' rules).0).1
          ≡ (detect_gate_issues compile content context metadata rules).1
    unfolding detect_gate_issues
    detect_gate_issues-again before context' metadata' [] = refl
    detect_gate_issues-again before context' metadata' (r ∷ rules) =
        let t = tested_rule compile r before in
        let rest = (detect_gate_issues compile before context' metadata' rules).0 in
        let same = rule_issues-again r before in
        elim (result_cases (rule_issues compile r before context' metadata')) [
          | inl (e, thrown) ↦
              rw (detect_gate_issues, thrown)
                (detect_gate_issues-rule t rules
                  ∙ rw same refl
                  ∙ sym (detect_gate_issues-rule r rules))
          | inr (issues, found) ↦
              rw (detect_gate_issues, found)
                (detect_gate_issues-rule t rest
                  ∙ rw (same, detect_gate_issues-again before context' metadata' rules) refl
                  ∙ sym (detect_gate_issues-rule r rules))
        ]
