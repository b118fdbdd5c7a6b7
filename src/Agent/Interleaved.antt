-- ===== src/Agent/Interleaved.antt =====
-- internal/agent/state.go, AddHypothesis among concurrent agents: its four locked parts, and any
-- operations of others between them.
use multi_agent_system_turbo.Base.{ℕ, zero, suc, ◌+◌, List, [], ◌∷◌, ◌++◌, Str, bytes}
use multi_agent_system_turbo.Core.Model.{Hypothesis}
use multi_agent_system_turbo.Agent.State.{
  State, kept_refs, unresolved_refs, note_unresolved, or_numbered, or_proposed,
}
use multi_agent_system_turbo.Agent.Ops.{Op, perform}

-- How far a call has come, with the hypothesis it holds and the references that named nothing.
pub data Stage : Type 0 where
  begun : Hypothesis → Stage
  half_resolved : Hypothesis → List Str → Stage
  resolved_both : Hypothesis → List Str → Stage
  gap_noted : Hypothesis → Stage

unfoldable pub append_hypothesis : Hypothesis → State → State
append_hypothesis h s =
    let h' = record h {
      id = or_numbered h.id (bytes "h-") (s.hyp_seq + 1);
      status = or_proposed h.status;
    } in
    record s { hypotheses = s.hypotheses ++ h' ∷ []; hyp_seq = s.hyp_seq + 1 }

-- The next locked part of a call: the call as it is left, none where it has returned, and the state.
unfoldable pub advance : Stage → State → List Stage × State
unfolding append_hypothesis
advance (begun h) s = (
  half_resolved (record h { supporting = kept_refs s h.supporting })
        (unresolved_refs s h.supporting)
      ∷ [],
  s,
)
advance (half_resolved h us) s = (
  resolved_both (record h { contradicting = kept_refs s h.contradicting })
        (us ++ unresolved_refs s h.contradicting)
      ∷ [],
  s,
)
advance (resolved_both h us) s = (gap_noted h ∷ [], note_unresolved us s)
advance (gap_noted h) s = ([], append_hypothesis h s)

pub record Shared : Type 0 where
  pub state : State
  pub calls : List Stage

-- An agent makes an operation, or calls AddHypothesis, or the next part of a call is made.
pub data Event : Type 0 where
  act : Op → Event
  call : Hypothesis → Event
  go_on : ℕ → Event

unfoldable pub advance_at : ℕ → List Stage → State → List Stage × State
unfolding advance
advance_at i [] s = ([], s)
advance_at zero (c ∷ cs) s = let (left, s') = advance c s in (left ++ cs, s')
advance_at (suc i) (c ∷ cs) s = let (cs', s') = advance_at i cs s in (c ∷ cs', s')

unfoldable pub happen : Event → Shared → Shared
unfolding advance_at perform
happen (act op) w = record w { state = perform op w.state }
happen (call h) w = record w { calls = begun h ∷ w.calls }
happen (go_on i) w =
    let (calls, s) = advance_at i w.calls w.state in record { state = s; calls = calls }

unfoldable pub happen_all : List Event → Shared → Shared
unfolding happen
happen_all [] w = w
happen_all (e ∷ es) w = happen_all es (happen e w)
