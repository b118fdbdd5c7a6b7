-- ===== src/Agent/InterleavedExamples.antt =====
-- Two calls of AddHypothesis that are interleaved.
use multi_agent_system_turbo.Base.{◌≡◌, refl, false, List, [], ◌∷◌, bytes, map, text_run}
use multi_agent_system_turbo.Base.Int.{pos}
use multi_agent_system_turbo.Core.Model.{unset, Evidence, Hypothesis}
use multi_agent_system_turbo.Agent.State.{
  Budget, new_state, add_evidence, add_gap, known_refs, kept_refs, unresolved_refs, note_unresolved,
}
use multi_agent_system_turbo.Agent.Ops.{see, perform}
use multi_agent_system_turbo.Agent.Invariant.{IsValid}
use multi_agent_system_turbo.Agent.Interleaved.{
  begun, append_hypothesis, advance, Shared, Event, act, call, go_on, advance_at, happen,
  happen_all,
}
use multi_agent_system_turbo.Agent.Interleavings.{happen_all-IsValid}

abbrev no_limit : Budget
no_limit = record { max_steps = 0; max_tool_calls = 0; max_tokens = 0; max_wall = 0 }

abbrev reading : Evidence
reading = record {
  id = bytes "ev-1";
  kind = bytes "metric";
  source = bytes "prometheus";
  query = bytes "up";
  summary = bytes "1";
  truncated = false;
  digest = bytes "d1";
}

-- It cites the same reading for and against.
abbrev guess : Hypothesis
guess = record {
  id = [];
  statement = bytes "the disk is full";
  status = unset;
  confidence = pos 400;
  supporting = bytes "ev-1" ∷ [];
  contradicting = bytes "ev-1" ∷ [];
  rationale = [];
  rank = 0;
}

abbrev idle : Shared
idle = record { state = new_state [] no_limit 100; calls = [] }

-- The reading is collected when the first call has resolved the one list and not the other, and a
-- second call overtakes it.
abbrev events : List Event
events =
    call guess
    ∷ go_on 0
    ∷ act (see reading)
    ∷ call guess
    ∷ go_on 0
    ∷ go_on 1
    ∷ go_on 0
    ∷ go_on 0
    ∷ go_on 0
    ∷ go_on 0
    ∷ go_on 0
    ∷ []

-- The one that came first is recorded last, without the reference that named nothing at its time.
overtaken_test :
    map (λ (h : Hypothesis). h.supporting) (happen_all events idle).state.hypotheses
    ≡ (bytes "ev-1" ∷ []) ∷ [] ∷ []
unfolding happen_all happen advance_at advance append_hypothesis kept_refs unresolved_refs
    note_unresolved known_refs add_evidence add_gap perform new_state text_run
overtaken_test = refl

happen_all-IsValid_example : IsValid (happen_all events idle).state
happen_all-IsValid_example = happen_all-IsValid events [] no_limit 100

abbrev busy : Shared
busy = record { state = add_evidence reading idle.state; calls = begun guess ∷ [] }
