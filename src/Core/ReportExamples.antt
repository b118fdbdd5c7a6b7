-- ===== src/Core/ReportExamples.antt =====
-- A report sorted, and evidence validated.
use mathlib.Core.List.Perm
use multi_agent_system_turbo.Base.{
  ◌≡◌, refl, true, false, not, ◌&&◌, List, [], ◌∷◌, Str, bytes, text_run, is_empty, all, map,
}
use multi_agent_system_turbo.Base.Int.{pos}
use multi_agent_system_turbo.Base.Keyed.{has_distinct, has_distinct-IsKeyed}
use multi_agent_system_turbo.Core.Model.{Evidence, Hypothesis, Finding, supported, refuted, major}
use multi_agent_system_turbo.Core.Report.{
  Report, hypothesis_less, ranked_from, sort_hypotheses, sort_findings, duplicate_evidence,
  check_evidence,
}
use multi_agent_system_turbo.Base.Sort.{sort, insert}
use multi_agent_system_turbo.Core.ReportOrder.{sort_report-Perm}
use multi_agent_system_turbo.Core.ReportValid.{check_evidence_iff}

abbrev weak : Hypothesis
weak = record {
  id = bytes "h-1";
  statement = bytes "a disk is full";
  status = supported;
  confidence = pos 300;
  supporting = [];
  contradicting = [];
  rationale = [];
  rank = 0;
}

abbrev ruled_out : Hypothesis
ruled_out = record weak { id = bytes "h-2"; status = refuted; confidence = pos 900 }

abbrev full : Finding
full = record {
  id = bytes "f-1";
  origin = bytes "rule:disk/usage";
  severity = major;
  statement = bytes "the disk is full";
  detail = [];
  evidence = [];
  confidence = pos 900;
}

abbrev gathered : List Hypothesis → Report
gathered hs = record {
  schema = bytes "report/v1";
  run_id = bytes "run-1";
  evidence = [];
  hypotheses = hs;
  findings = full ∷ [];
  recommendations = [];
}

-- The refuted one comes last, however confident.
order_test :
    map (λ (h : Hypothesis). h.id) (sort_hypotheses (gathered (ruled_out ∷ weak ∷ []))).hypotheses
    ≡ bytes "h-1" ∷ bytes "h-2" ∷ []
unfolding sort_hypotheses ranked_from sort insert hypothesis_less text_run
order_test = refl

Hypothesis-set : IsSet Hypothesis
Hypothesis-set = hlevel

Finding-set : IsSet Finding
Finding-set = hlevel

two_ids : has_distinct (λ (h : Hypothesis). h.id) (ruled_out ∷ weak ∷ []) ≡ true
unfolding has_distinct
two_ids = refl

one_id : has_distinct (λ (f : Finding). f.id) (full ∷ []) ≡ true
unfolding has_distinct
one_id = refl

sort_report-Perm_example :
    ((sort_findings (sort_hypotheses (gathered (ruled_out ∷ weak ∷ [])))).hypotheses
      ≡ (sort_findings (sort_hypotheses (gathered (weak ∷ ruled_out ∷ [])))).hypotheses)
    × ((sort_findings (sort_hypotheses (gathered (ruled_out ∷ weak ∷ [])))).findings
        ≡ (sort_findings (sort_hypotheses (gathered (weak ∷ ruled_out ∷ [])))).findings)
sort_report-Perm_example =
    sort_report-Perm (gathered (ruled_out ∷ weak ∷ [])) (gathered (weak ∷ ruled_out ∷ []))
      (Perm.swap weak ruled_out []) (Perm.refl (full ∷ []))
      (has_distinct-IsKeyed (λ h. h.id) Hypothesis-set (ruled_out ∷ weak ∷ []) two_ids)
      (has_distinct-IsKeyed (λ f. f.id) Finding-set (full ∷ []) one_id)

abbrev reading : Str → Evidence
reading id = record {
  id = id;
  kind = bytes "metric";
  source = bytes "promql";
  query = bytes "up";
  summary = [];
  truncated = false;
  digest = [];
}

-- The second of one id is found.
repeated_test :
    check_evidence [] (reading (bytes "e-1") ∷ reading (bytes "e-1") ∷ [])
    ≡ duplicate_evidence (bytes "e-1") ∷ []
unfolding check_evidence text_run
repeated_test = refl

abbrev readings : List Evidence
readings = reading (bytes "e-1") ∷ reading (bytes "e-2") ∷ []

check_evidence_iff_example :
    is_empty (check_evidence [] readings)
    ≡ (all (λ e. not (is_empty e.id)) readings && has_distinct (λ (e : Evidence). e.id) readings)
check_evidence_iff_example = check_evidence_iff readings
