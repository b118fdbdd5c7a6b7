-- ===== src/Core/ReportValid.antt =====
-- internal/core/model.go: what the validation of a report accepts of the evidence.
use multi_agent_system_turbo.Base.{
  ◌≡◌, refl, Bool, true, not, ◌&&◌, List, [], ◌∷◌, Str, str_eq, str_eq_iff, arith, is_empty, all,
  any, member,
}
use multi_agent_system_turbo.Base.Keyed.{has_distinct}
use multi_agent_system_turbo.Core.Model.{Evidence}
use multi_agent_system_turbo.Core.Report.{check_evidence}

-- None of the evidence has an id of the list.
abbrev is_new_to : List Str → List Evidence → Bool
is_new_to ids es = all (λ e. not (member e.id ids)) es

abbrev has_ids : List Evidence → Bool
has_ids es = all (λ e. not (is_empty e.id)) es

is_new_to-cons :
    (x : Evidence) (ids : List Str) (es : List Evidence)
    → is_new_to (x.id ∷ ids) es ≡ (not (any (λ y. str_eq x.id y.id) es) && is_new_to ids es)
is_new_to-cons x ids [] = refl
is_new_to-cons x ids (e ∷ es) =
    ground (arith, str_eq_iff x.id e.id, str_eq_iff e.id x.id, is_new_to-cons x ids es)

check_evidence_from :
    (ids : List Str) (es : List Evidence)
    → is_empty (check_evidence ids es)
      ≡ (has_ids es && (has_distinct (λ (e : Evidence). e.id) es && is_new_to ids es))
unfolding check_evidence has_distinct
check_evidence_from ids [] = refl
check_evidence_from ids (e ∷ es) =
    ground (arith, check_evidence_from (e.id ∷ ids) es, is_new_to-cons e ids es)

is_new_to-none : (es : List Evidence) → is_new_to [] es ≡ true
is_new_to-none [] = refl
is_new_to-none (e ∷ es) = is_new_to-none es

-- The validation finds nothing wrong with the evidence of a report exactly where each has an id
-- that is not empty and no two have the same.
pub check_evidence_iff :
    (es : List Evidence)
    → is_empty (check_evidence [] es)
      ≡ (all (λ e. not (is_empty e.id)) es && has_distinct (λ (e : Evidence). e.id) es)
check_evidence_iff es = ground (arith, check_evidence_from [] es, is_new_to-none es)
