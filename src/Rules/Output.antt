-- ===== src/Rules/Output.antt =====
-- internal/rules/engine.go: what a run produces, and how a step ends. A result of a tool, of the
-- expression language or of a step is a value.
use multi_agent_system_turbo.Base.{
  ℕ, ◌+◌, Bool, false, not, ◌||◌, Option, List, [], ◌∷◌, ◌++◌, Str, bytes, if◌then◌else◌, is_empty,
  is_blank, member, keep, map,
}
use multi_agent_system_turbo.Base.Decimal.{numbered}
use multi_agent_system_turbo.Core.Model.{Evidence, Gap, GapReason, Severity, Finding}
use multi_agent_system_turbo.Rules.Playbook.{Args, Payload, Env}

-- What a tool call comes back with.
pub data Invoked (V : Type 0) : Type 0 where
  collected : Evidence → Payload V → Invoked V
  missed : Gap → Invoked V

-- What the expression language makes of an expression.
pub data Evaluated : Type 0 where
  rejected : Evaluated
  crashed : Evaluated
  truth : Bool → Evaluated
  no_truth : Evaluated

pub record Services (V : Type 0) : Type 0 where
  pub expand_signals : Args V → Option (Args V)
  pub expand_code : Str
  pub invoke : ℕ → Str → Args V → Invoked V
  pub evaluate : Str → Env V → Evaluated
  pub is_failure_mode : Str → Bool
  pub severity_named : Str → Severity

pub record Output : Type 0 where
  pub findings : List Finding
  pub evidence : List Evidence
  pub gaps : List Gap
  pub checks_passed : List Str
  pub conclusions : List Str
  pub truncated : Bool

abbrev pub no_output : Output
no_output = record {
  findings = [];
  evidence = [];
  gaps = [];
  checks_passed = [];
  conclusions = [];
  truncated = false;
}

abbrev pub add_gap : Str → GapReason → Str → Output → Output
add_gap intent reason code out = record out {
  gaps = out.gaps ++ record { id = []; intent = intent; reason = reason; code = code } ∷ [];
}

-- How a step ends.
pub data Verdict : Type 0 where
  go_on stop : Verdict
  fail : Str → Verdict

pub record Ran (V : Type 0) : Type 0 where
  pub env : Env V
  pub out : Output
  pub verdict : Verdict

abbrev pub step_name : Str → Str → Str
step_name playbook step = playbook ++ b'/' ∷ step

-- The names that satisfy a test, each once, sorted.
unfoldable pub distinct : (Str → Bool) → List Str → List Str → List Str
distinct wanted seen [] = []
distinct wanted seen (name ∷ names) =
    let skipped = distinct wanted seen names in
    let taken = name ∷ distinct wanted (name ∷ seen) names in
    if member name seen || not (wanted name) then skipped else taken

abbrev pub severity_or : (Str → Severity) → Str → Severity
severity_or named s = if is_blank s then named (bytes "major") else named s

unfoldable pub evidence_ids : List Evidence → List Str
evidence_ids evs = keep (λ id. not (is_empty id)) (map (λ e. e.id) evs)

abbrev pub with_pass : Str → Output → Output
with_pass s out =
    if is_empty s then out else record out { checks_passed = out.checks_passed ++ s ∷ [] }

-- The findings numbered on from `seq`.
unfoldable pub stamp : ℕ → List Finding → List Finding
stamp seq [] = []
stamp seq (f ∷ fs) = record f { id = numbered (bytes "f-") (seq + 1) } ∷ stamp (seq + 1) fs

abbrev pub merge : Output → List Finding → Output → Output
merge merged findings out = record {
  findings = merged.findings ++ findings;
  evidence = merged.evidence ++ out.evidence;
  gaps = merged.gaps ++ out.gaps;
  checks_passed = merged.checks_passed ++ out.checks_passed;
  conclusions = merged.conclusions ++ out.conclusions;
  truncated = merged.truncated || out.truncated;
}
