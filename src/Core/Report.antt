-- ===== src/Core/Report.antt =====
-- internal/core/model.go: the report, its two sorts and the part of its validation that is about the
-- ids of the evidence. Of a report only what these read is kept. A confidence is a whole number of
-- thousandths: NaN is none of them.
use multi_agent_system_turbo.Base.{
  ℕ, ◌+◌, Bool, true, false, not, ◌||◌, ◌&&◌, List, [], ◌∷◌, Str, if◌then◌else◌, ltb, is_empty,
  member, str_lt,
}
use multi_agent_system_turbo.Base.Int.{int_ltb, int_eq}
use multi_agent_system_turbo.Base.Sort.{sort}
use multi_agent_system_turbo.Core.Model.{
  Evidence, Severity, critical, major, minor, info, unranked, Finding, HypothesisStatus, refuted,
  Hypothesis, Recommendation,
}

pub record Report : Type 0 where
  pub schema : Str
  pub run_id : Str
  pub evidence : List Evidence
  pub hypotheses : List Hypothesis
  pub findings : List Finding
  pub recommendations : List Recommendation

abbrev pub is_refuted : HypothesisStatus → Bool
is_refuted refuted = true
is_refuted st = false

unfoldable pub hypothesis_less : Hypothesis → Hypothesis → Bool
hypothesis_less a b =
    let ar = is_refuted a.status in
    let br = is_refuted b.status in
    if (ar && not br) || (not ar && br)
    then br
    else if not (int_eq a.confidence b.confidence)
    then int_ltb b.confidence a.confidence
    else str_lt a.id b.id

unfoldable pub ranked_from : ℕ → List Hypothesis → List Hypothesis
ranked_from i [] = []
ranked_from i (h ∷ hs) = record h { rank = i } ∷ ranked_from (i + 1) hs

unfoldable pub sort_hypotheses : Report → Report
unfolding ranked_from sort hypothesis_less
sort_hypotheses r = record r { hypotheses = ranked_from 1 (sort hypothesis_less r.hypotheses) }

-- A key that the table lacks reads as 0.
unfoldable pub severity_rank : Severity → ℕ
severity_rank critical = 0
severity_rank major = 1
severity_rank minor = 2
severity_rank info = 3
severity_rank (unranked s) = 0

unfoldable pub finding_less : Finding → Finding → Bool
unfolding severity_rank
finding_less a b =
    if ltb (severity_rank a.severity) (severity_rank b.severity)
      || ltb (severity_rank b.severity) (severity_rank a.severity)
    then ltb (severity_rank a.severity) (severity_rank b.severity)
    else if not (int_eq a.confidence b.confidence)
    then int_ltb b.confidence a.confidence
    else str_lt a.id b.id

unfoldable pub sort_findings : Report → Report
unfolding sort finding_less
sort_findings r = record r { findings = sort finding_less r.findings }

pub data Problem : Type 0 where
  empty_evidence_id : Problem
  duplicate_evidence : Str → Problem

-- What the validation finds wrong with the ids of the evidence; `ids` are those seen.
unfoldable pub check_evidence : List Str → List Evidence → List Problem
check_evidence ids [] = []
check_evidence ids (e ∷ es) =
    let skipping = check_evidence ids es in
    let rest = check_evidence (e.id ∷ ids) es in
    if is_empty e.id
    then empty_evidence_id ∷ skipping
    else if member e.id ids
    then duplicate_evidence e.id ∷ rest
    else rest
