-- ===== src/Rules/Playbook.antt =====
-- internal/knowledge/pack.go: playbooks and their steps; internal/rules/env.go: what an expression
-- sees. The numbers of a series are floats, of a type V that nothing here looks into.
use multi_agent_system_turbo.Base.{
  ℕ, Bool, true, false, Option, none, some, List, [], ◌∷◌, Str, bytes, map, is_empty,
}
use multi_agent_system_turbo.Base.Int.{ℤ}
use multi_agent_system_turbo.Core.Text.{Text}

pub record StepFinding : Type 0 where
  pub severity : Str
  pub confidence : ℤ
  pub statement : Text
  pub detail : Text

pub data Arg (V : Type 0) : Type 0 where
  text_arg : Str → Arg V
  other_arg : V → Arg V

abbrev pub Args : Type 0 → Type 0
Args V = List (Str × Arg V)

pub record Collect (V : Type 0) : Type 0 where
  pub tool : Str
  pub args : Args V
  pub slot : Str

pub record Branch : Type 0 where
  pub finding : Option StepFinding
  pub pass : Text
  pub stop : Bool

pub record Conclude : Type 0 where
  pub failure_mode : Str
  pub condition : Str

pub record Step (V : Type 0) : Type 0 where
  pub id : Str
  pub collect : Option (Collect V)
  pub evaluate : Str
  pub on_true : Option Branch
  pub on_false : Option Branch
  pub conclude : Option Conclude

pub record Playbook (V : Type 0) : Type 0 where
  pub id : Str
  pub matches : List Str
  pub steps : List (Step V)

-- The figures of a metric that came back: `empty` says that there was no series.
pub record SeriesStats (V : Type 0) : Type 0 where
  pub empty : Bool
  pub series : ℕ
  pub count : ℕ
  pub figures : V

-- What evidence carries; an object may hold its lines under the key `lines`.
pub data Payload (V : Type 0) : Type 0 where
  series_payload : SeriesStats V → Payload V
  lines_payload : List Str → Payload V
  object_payload : List (Str × V) → Option (List Str) → Payload V
  absent : Payload V
  other_payload : V → Payload V

pub data View (V : Type 0) : Type 0 where
  metric_view : SeriesStats V → View V
  log_view : List Str → View V
  object_view : Bool → List (Str × V) → View V

unfoldable pub bind_evidence : {V : Type 0} → Payload V → View V
bind_evidence (series_payload s) = metric_view s
bind_evidence (lines_payload lines) = log_view lines
bind_evidence (object_payload entries (some lines)) = log_view lines
bind_evidence (object_payload entries none) = object_view (is_empty entries) entries
bind_evidence absent = object_view true []
bind_evidence (other_payload v) = object_view false []

-- A name of the environment stands for a helper function or for what a slot holds.
pub data Binding (V : Type 0) : Type 0 where
  helper : Binding V
  held : View V → Binding V

abbrev pub Env : Type 0 → Type 0
Env V = List (Str × Binding V)

unfoldable pub helpers : {V : Type 0} → Env V
helpers =
    map (λ name. (bytes name, helper))
      ("contains" ∷ "matches" ∷ "countMatching" ∷ "lower" ∷ "ratio" ∷ "pct" ∷ "isNaN" ∷ "finite"
        ∷ [])
