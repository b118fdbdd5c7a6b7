-- ===== src/Core/Model.antt =====
-- internal/core/model.go: evidence, gaps, findings, hypotheses and recommendations.
-- A confidence is a whole number of small units, `unit` of them making 1: the code compares
-- confidences and never computes with them. Times, payloads and the prose of a gap are left out.
use multi_agent_system_turbo.Base.{ℕ, Bool, List, Str}
use multi_agent_system_turbo.Base.Int.{ℤ, pos}

abbrev pub unit : ℤ
unit = pos 1000

pub record Evidence : Type 0 where
  pub id : Str
  pub kind : Str
  pub source : Str
  pub query : Str
  pub summary : Str
  pub truncated : Bool
  pub digest : Str

pub data GapReason : Type 0 where
  unavailable refused truncated not_configured unsupported not_applicable : GapReason

pub record Gap : Type 0 where
  pub id : Str
  pub intent : Str
  pub reason : GapReason
  pub code : Str

pub data Severity : Type 0 where
  critical major minor info : Severity
  unranked : Str → Severity

pub record Finding : Type 0 where
  pub id : Str
  pub origin : Str
  pub severity : Severity
  pub statement : Str
  pub detail : Str
  pub evidence : List Str
  pub confidence : ℤ

-- `unset` is the empty string.
pub data HypothesisStatus : Type 0 where
  unset proposed supported refuted inconclusive : HypothesisStatus

pub record Hypothesis : Type 0 where
  pub id : Str
  pub statement : Str
  pub status : HypothesisStatus
  pub confidence : ℤ
  pub supporting : List Str
  pub contradicting : List Str
  pub rationale : Str
  pub rank : ℕ

pub record Recommendation : Type 0 where
  pub statement : Str
  pub risk : Str
  pub rationale : Str
  pub refs : List Str
  pub advisory : Bool
