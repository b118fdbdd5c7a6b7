-- ===== src/Eval/Regressions.antt =====
-- internal/eval/compare.go, Gate: a build fails for regressions, and for them only.
use multi_agent_system_turbo.Base.{
  ◌≡◌, refl, ◌∙◌, ◌↔◌, inl, inr, Bool, false, not, ◌&&◌, Option, none, some, List, [], ◌∷◌, ◌++◌,
  Str, arith, Bool-cases, Option-cases, any, any-append, map,
}
use multi_agent_system_turbo.Base.Sort.{any-sort}
use multi_agent_system_turbo.Eval.Score.{Outcome, hit_class}
use multi_agent_system_turbo.Eval.Compare.{
  Cell, cell_of, index, find_cell, is_hit, same_failure, transition_of, not_run, Change,
  changes_now, changes_gone, shown_before, compare, is_regressed, gate,
}
use multi_agent_system_turbo.Eval.Verdicts.{is_empty-keep}

-- The cell was a hit in the baseline.
abbrev pub was_hit : Option Cell → Bool
was_hit none = false
was_hit (some c) = is_hit c.class

abbrev pub has_regressed : List (Str × Cell) → Str × Cell → Bool
has_regressed was (key, cell) = was_hit (find_cell key was) && not (is_hit cell.class)

changes_gone-none : (now was : List (Str × Cell)) → any is_regressed (changes_gone now was) ≡ false
unfolding changes_gone
changes_gone-none now [] = refl
changes_gone-none now ((key, cell) ∷ was) = elim (Option-cases (find_cell key now)) [
  | inl e ↦ rw (changes_gone, e) (changes_gone-none now was)
  | inr (c, e) ↦ rw (changes_gone, e) (changes_gone-none now was)
]

changes_now-any :
    (was now : List (Str × Cell))
    → any is_regressed (changes_now was now) ≡ any (has_regressed was) now
unfolding changes_now transition_of
changes_now-any was [] = refl
changes_now-any was ((key, cell) ∷ now) =
    let rest = changes_now-any was now in
    elim (Option-cases (find_cell key was)) [
      | inl e ↦ rw (changes_now, e) rest
      | inr (prior, e) ↦
          rw (changes_now, e)
            (elim (Bool-cases (is_hit prior.class)) [
              | inl p ↦ elim (Bool-cases (is_hit cell.class)) [
                | inl c ↦ rw (p, c) rest
                | inr c ↦ rw (p, c)
              ]
              | inr p ↦ elim (Bool-cases (is_hit cell.class)) [
                | inl c ↦ rw (p, c) rest
                | inr c ↦
                    rw (p, c)
                      (elim (Bool-cases (same_failure cell prior)) [
                        | inl f ↦ rw f rest
                        | inr f ↦ rw f rest
                      ])
              ]
            ])
    ]

compare-any :
    (base : List Cell) (outcomes : List Outcome)
    → any is_regressed (compare base outcomes)
      ≡ any (has_regressed (index base)) (index (map cell_of outcomes))
unfolding compare
compare-any base outcomes =
    let was = index base in
    let now = index (map cell_of outcomes) in
    let any_change : Change = record {
      key = [];
      cell = record {
        case_id = [];
        topology = [];
        model = [];
        class = hit_class;
        missing = [];
        false_conclusions = [];
        gaps_missed = [];
      };
      transition = not_run;
    } in
    any-sort shown_before (λ a c. is_regressed c) any_change
      (changes_now was now ++ changes_gone now was)
    ∙ any-append is_regressed (changes_now was now) (changes_gone now was)
    ∙ ground (arith, changes_gone-none now was, changes_now-any was now)

-- The gate lets a comparison pass exactly when no cell of the run, the last outcome of its key,
-- was a hit in the baseline and is none now. Improvements elsewhere, cells that are new or did not
-- run, and failures that the baseline knows decide nothing.
pub gate_iff :
    (base : List Cell) (outcomes : List Outcome)
    → (gate (compare base outcomes) ≡ none)
      ↔ (any (has_regressed (index base)) (index (map cell_of outcomes)) ≡ false)
unfolding gate
gate_iff base outcomes =
    let e = compare-any base outcomes in
    let k = is_empty-keep is_regressed (compare base outcomes) in ground (arith, e, k)
