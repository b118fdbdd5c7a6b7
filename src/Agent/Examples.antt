-- ===== src/Agent/Examples.antt =====
-- The shared state run on operations, and its theorems there.
use multi_agent_system_turbo.Base.{
  ◌+◌, ◌⊎◌, ◌≤◌, ◌≡◌, refl, true, false, List, [], ◌∷◌, ◌++◌, bytes, length, arith, if◌then◌else◌,
  any, text_run,
}
use multi_agent_system_turbo.Base.Int.{pos}
use multi_agent_system_turbo.Base.Decimal.{numbered}
use multi_agent_system_turbo.Core.Model.{unset, supported, Evidence, Hypothesis}
use multi_agent_system_turbo.Agent.State.{
  Budget, State, new_state, add_evidence, known_refs, kept_refs, resolved, add_hypothesis,
  consume_step, citation_gap,
}
use multi_agent_system_turbo.Agent.Ops.{Op, see, propose, judge, take_step, perform_all}
use multi_agent_system_turbo.Agent.Invariant.{IsValid, perform_all-IsValid}
use multi_agent_system_turbo.Agent.Budget.{IsSpent, consume_step_lem, perform_all-IsBounded}
use multi_agent_system_turbo.Agent.Citations.{is_dangling, is_sound, count, add_hypothesis-gaps}
use multi_agent_system_turbo.Agent.HypothesisIds.{HasDistinctIds, perform_all-HasDistinctIds}

abbrev two_steps : Budget
two_steps = record { max_steps = 2; max_tool_calls = 0; max_tokens = 0; max_wall = 0 }

abbrev first_state : State
first_state = new_state [] two_steps 100

abbrev reading : Evidence
reading = record {
  id = bytes "ev-1";
  kind = bytes "metric";
  source = bytes "prometheus";
  query = bytes "up";
  summary = bytes "1";
  truncated = false;
  digest = bytes "d1";
}

abbrev guess : Hypothesis
guess = record {
  id = bytes "";
  statement = bytes "the disk is full";
  status = unset;
  confidence = pos 400;
  supporting = bytes " ev-1 " ∷ bytes "ev-9" ∷ [];
  contradicting = [];
  rationale = bytes "";
  rank = 0;
}

abbrev work : List Op
work =
    see reading
    ∷ take_step 101
    ∷ propose guess
    ∷ propose guess
    ∷ judge (bytes "h-2") supported (pos 900) (bytes "seen")
    ∷ take_step 102
    ∷ take_step 103
    ∷ []

abbrev worked : State
worked = perform_all work first_state

perform_all-IsValid_example : IsValid worked
perform_all-IsValid_example = perform_all-IsValid work [] two_steps 100

perform_all-IsBounded_example : worked.steps ≤ 2
perform_all-IsBounded_example = perform_all-IsBounded work [] two_steps 100 (omega arith)

consume_step_lem_example :
    let (s', granted) = consume_step 101 first_state in
    (IsSpent 101 first_state
      × (granted ≡ false)
      × (s'.truncated ≡ true)
      × (s'.steps ≡ first_state.steps))
    ⊎ (¬ IsSpent 101 first_state
        × (granted ≡ true)
        × (s'.truncated ≡ first_state.truncated)
        × (s'.steps ≡ first_state.steps + 1))
consume_step_lem_example = consume_step_lem 101 first_state

abbrev seen : State
seen = add_evidence reading first_state

add_hypothesis-gaps_example :
    let s' = (add_hypothesis guess seen).0 in
    (s'.gaps ≡ (
      if any (is_dangling seen) (guess.supporting ++ guess.contradicting)
      then seen.gaps
        ++ record citation_gap { id = numbered (bytes "gap-a") (length seen.gaps + 1) } ∷ []
      else seen.gaps))
    × (length (resolved seen guess).supporting ≡ count (is_sound seen) guess.supporting)
    × (length (resolved seen guess).contradicting ≡ count (is_sound seen) guess.contradicting)
    × (s'.hypotheses ≡ seen.hypotheses ++ resolved seen guess ∷ [])
add_hypothesis-gaps_example = add_hypothesis-gaps guess seen

-- One reference is kept, trimmed, and the other is recorded as a gap.
citation_test : (resolved seen guess).supporting ≡ bytes "ev-1" ∷ []
unfolding text_run resolved kept_refs known_refs add_evidence new_state
citation_test = refl

perform_all-HasDistinctIds_example : HasDistinctIds worked.hypotheses
perform_all-HasDistinctIds_example =
    perform_all-HasDistinctIds work [] two_steps 100
      (tt, (tt, (refl, (refl, (tt, (tt, (tt, tt)))))))
