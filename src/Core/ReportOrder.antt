-- ===== src/Core/ReportOrder.antt =====
-- internal/core/model.go: the order of a report's hypotheses and findings does not depend on the
-- order in which they were gathered.
use mathlib.Core.List.{Perm}
use multi_agent_system_turbo.Base.{
  ◌≡◌, refl, ap, Bool, true, false, List, str_lt, arith, ltb, not, if◌then◌else◌,
}
use multi_agent_system_turbo.Base.Int.{ℤ, pos, negsuc, int_ltb, int_eq}
use multi_agent_system_turbo.Base.Stable.{IsStrict, IsKeyed, sort-Perm}
use multi_agent_system_turbo.Base.Lex.{
  IsWeak-IsStrict, IsWeak-same, lex, lex-IsWeak, by_key, by_key-IsWeak, bool_lt, bool_lt-IsWeak,
  int_gtb, int_gtb-IsWeak, ltb-IsWeak, str_lt-IsWeak, str_lt_total,
}
use multi_agent_system_turbo.Core.Model.{Finding, Hypothesis}
use multi_agent_system_turbo.Core.Report.{
  Report, is_refuted, hypothesis_less, ranked_from, sort_hypotheses, severity_rank, finding_less,
  sort_findings,
}

ℤ-set : IsSet ℤ
ℤ-set = hlevel

Hypothesis-set : IsSet (List Hypothesis)
Hypothesis-set = hlevel

Finding-set : IsSet (List Finding)
Finding-set = hlevel

int_eq-lex :
    (a b : ℤ) (t : Bool)
    → (if not (int_eq a b) then int_ltb b a else t)
      ≡ (if int_gtb a b then true else if int_gtb b a then false else t)
int_eq-lex (pos a) (pos b) t = ground arith
int_eq-lex (pos a) (negsuc b) t = refl
int_eq-lex (negsuc a) (pos b) t = refl
int_eq-lex (negsuc a) (negsuc b) t = ground arith

int_eq-apart : (a b : ℤ) → int_eq a b ≡ true → a ≡ b
int_eq-apart (pos a) (pos b) h = ap pos (ground arith)
int_eq-apart (pos a) (negsuc b) h = ground arith
int_eq-apart (negsuc a) (pos b) h = ground arith
int_eq-apart (negsuc a) (negsuc b) h = ap negsuc (ground arith)

abbrev by_refutation : Hypothesis → Hypothesis → Bool
by_refutation = by_key (λ h. is_refuted h.status) bool_lt

abbrev by_rest : Hypothesis → Hypothesis → Bool
by_rest = lex (by_key (λ h. h.confidence) int_gtb) (by_key (λ h. h.id) str_lt)

hypothesis_less-lex : (a b : Hypothesis) → hypothesis_less a b ≡ lex by_refutation by_rest a b
unfolding hypothesis_less
hypothesis_less-lex a b = ground (arith, int_eq-lex a.confidence b.confidence (str_lt a.id b.id))

hypothesis_less-IsStrict : IsStrict hypothesis_less
hypothesis_less-IsStrict = IsWeak-IsStrict hypothesis_less (
    IsWeak-same hypothesis_less (lex by_refutation by_rest) hypothesis_less-lex (
      lex-IsWeak by_refutation by_rest
        (by_key-IsWeak (λ h. is_refuted h.status) bool_lt bool_lt-IsWeak)
        (lex-IsWeak (by_key (λ h. h.confidence) int_gtb) (by_key (λ h. h.id) str_lt)
          (by_key-IsWeak (λ h. h.confidence) int_gtb int_gtb-IsWeak)
          (by_key-IsWeak (λ h. h.id) str_lt str_lt-IsWeak))))

hypothesis_less-total :
    (a b : Hypothesis) → hypothesis_less a b ≡ false → hypothesis_less b a ≡ false → a.id ≡ b.id
unfolding hypothesis_less
hypothesis_less-total a b p q =
    let x = hypothesis_less-lex a b in
    let y = hypothesis_less-lex b a in
    str_lt_total a.id b.id (ground (arith, x, y)) (ground (arith, x, y))

abbrev by_severity : Finding → Finding → Bool
by_severity = by_key (λ f. severity_rank f.severity) ltb

abbrev by_strength : Finding → Finding → Bool
by_strength = lex (by_key (λ f. f.confidence) int_gtb) (by_key (λ f. f.id) str_lt)

finding_less-lex : (a b : Finding) → finding_less a b ≡ lex by_severity by_strength a b
unfolding finding_less
finding_less-lex a b = ground (arith, int_eq-lex a.confidence b.confidence (str_lt a.id b.id))

finding_less-IsStrict : IsStrict finding_less
finding_less-IsStrict = IsWeak-IsStrict finding_less (
    IsWeak-same finding_less (lex by_severity by_strength) finding_less-lex (
      lex-IsWeak by_severity by_strength
        (by_key-IsWeak (λ f. severity_rank f.severity) ltb ltb-IsWeak)
        (lex-IsWeak (by_key (λ f. f.confidence) int_gtb) (by_key (λ f. f.id) str_lt)
          (by_key-IsWeak (λ f. f.confidence) int_gtb int_gtb-IsWeak)
          (by_key-IsWeak (λ f. f.id) str_lt str_lt-IsWeak))))

finding_less-total :
    (a b : Finding) → finding_less a b ≡ false → finding_less b a ≡ false → a.id ≡ b.id
finding_less-total a b p q =
    let x = finding_less-lex a b in
    let y = finding_less-lex b a in
    str_lt_total a.id b.id (ground (arith, x, y)) (ground (arith, x, y))

-- Two reports with the same hypotheses and the same findings, gathered in whatever order, come out
-- with the same ranked list of hypotheses and the same list of findings, where within a report no
-- two different hypotheses and no two different findings share an id.
pub sort_report-Perm :
    (r s : Report)
    → Perm r.hypotheses s.hypotheses
    → Perm r.findings s.findings
    → IsKeyed (λ h. h.id) r.hypotheses
    → IsKeyed (λ f. f.id) r.findings
    → ((sort_findings (sort_hypotheses r)).hypotheses
        ≡ (sort_findings (sort_hypotheses s)).hypotheses)
      × ((sort_findings (sort_hypotheses r)).findings
          ≡ (sort_findings (sort_hypotheses s)).findings)
unfolding sort_findings sort_hypotheses
sort_report-Perm r s p q k l = (
  ap (ranked_from 1) (
      sort-Perm hypothesis_less hypothesis_less-IsStrict r.hypotheses s.hypotheses Hypothesis-set p
        (λ a b m n x y. k a b m n (hypothesis_less-total a b x y))),
  sort-Perm finding_less finding_less-IsStrict r.findings s.findings Finding-set q
      (λ a b m n x y. l a b m n (finding_less-total a b x y)),
)
