-- ===== src/Eval/Verdicts.antt =====
-- internal/eval/score.go: what a hit means, and what the totals by topology say of the cost.
use multi_agent_system_turbo.Base.{
  ◌≡◌, refl, ◌∙◌, inl, inr, Bool, false, not, ◌&&◌, List, [], ◌∷◌, Str, arith, Bool-cases, any, all,
  is_empty, member, keep, str_eq, str_lt,
}
use multi_agent_system_turbo.Base.Sort.{sort, is_empty-sort, any-sort}
use multi_agent_system_turbo.Core.Cost.{add_usage}
use multi_agent_system_turbo.Core.CostLaws.{unknown-add_cost}
use multi_agent_system_turbo.Eval.Score.{
  Outcome, Expect, Report, declared_codes, score, hit, class_of, Totals, new_totals, count_outcome,
  count_in, count_all, by_topology,
}
use multi_agent_system_turbo.Eval.Compare.{is_hit}

pub is_empty-keep {ℓ} :
    {A : Type ℓ} (p : A → Bool) (xs : List A) → is_empty (keep p xs) ≡ not (any p xs)
is_empty-keep p [] = refl
is_empty-keep p (x ∷ xs) = elim (Bool-cases (p x)) [
  | inl y ↦ rw y
  | inr n ↦ rw n (is_empty-keep p xs)
]

any-not {ℓ} : {A : Type ℓ} (p : A → Bool) (xs : List A) → not (any (λ x. not (p x)) xs) ≡ all p xs
any-not p [] = refl
any-not p (x ∷ xs) = ground (arith, any-not p xs)

none_left :
    (p : Str → Bool) (xs : List Str) → is_empty (sort str_lt (keep (λ x. not (p x)) xs)) ≡ all p xs
none_left p xs = is_empty-sort str_lt _ ∙ is_empty-keep (λ x. not (p x)) xs ∙ any-not p xs

-- A scored report is a hit exactly when it concludes every failure mode that the case expects,
-- concludes none that the case rules out, and declares every gap that the case expects by a code.
-- The class that a baseline records is a hit exactly then.
pub score-hit :
    (case_id : Str) (expect : Expect) (report : Report)
    → let o = score case_id expect report in
      (hit o ≡ (
        all (λ want. member want report.conclusions) expect.failure_modes
        && (not (any (λ ruled. member ruled report.conclusions) expect.not_failure_modes)
            && all (λ want. member want (declared_codes report.gaps)) expect.gaps)))
      × (is_hit (class_of o) ≡ hit o)
unfolding score hit class_of
score-hit case_id expect report =
    let m = none_left (λ want. member want report.conclusions) expect.failure_modes in
    let f =
      is_empty-sort str_lt
        (keep (λ ruled. member ruled report.conclusions) expect.not_failure_modes)
      ∙ is_empty-keep (λ ruled. member ruled report.conclusions) expect.not_failure_modes in
    let g = none_left (λ want. member want (declared_codes report.gaps)) expect.gaps in
    (rw (m, f, g), ground arith)

abbrev pub cost_known : Totals → Bool
cost_known t = t.usage.cost.known

count_outcome-unknown :
    (o : Outcome) (t : Totals) → cost_known t ≡ false → cost_known (count_outcome o t) ≡ false
unfolding count_outcome add_usage
count_outcome-unknown o t h = unknown-add_cost t.usage.cost o.usage.cost h

count_in-unknown :
    (o : Outcome) (ts : List Totals)
    → any cost_known ts ≡ false
    → any cost_known (count_in o ts) ≡ false
unfolding count_in
count_in-unknown o [] h = rw (count_outcome-unknown o (new_totals o.topology) refl)
count_in-unknown o (t ∷ ts) h = elim (Bool-cases (str_eq t.topology o.topology)) [
  | inl same ↦ rw (same, count_outcome-unknown o t (ground arith)) (ground arith)
  | inr other ↦ rw other (ground (arith, count_in-unknown o ts (ground arith)))
]

count_all-unknown :
    (os : List Outcome) (ts : List Totals)
    → any cost_known ts ≡ false
    → any cost_known (count_all os ts) ≡ false
unfolding count_all
count_all-unknown [] ts h = h
count_all-unknown (o ∷ os) ts h = count_all-unknown os (count_in o ts) (count_in-unknown o ts h)

-- The total cost of a topology is never known, even where the cost of every outcome is: each
-- total starts from the zero cost, which is not known.
pub by_topology-unknown : (os : List Outcome) → any cost_known (by_topology os) ≡ false
unfolding by_topology
by_topology-unknown os =
    any-sort (λ a b. str_lt a.topology b.topology) (λ a t. cost_known t) (new_totals [])
      (count_all os [])
    ∙ count_all-unknown os [] refl
