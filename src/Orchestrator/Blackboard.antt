-- ===== src/Orchestrator/Blackboard.antt =====
-- internal/orchestrator/blackboard.go: the control loop. The map of the investigated domains is a
-- list; the active domains do not change in a run, for the registry does not.
use multi_agent_system_turbo.Base.{
  ℕ, zero, suc, ◌+◌, Bool, true, false, not, ◌&&◌, ◌||◌, List, [], ◌∷◌, ◌++◌, Str, bytes,
  if◌then◌else◌, ltb, ◌==◌, length, is_empty, is_blank, keep, member, str_eq, ◌⊎◌, inl, inr,
}
use multi_agent_system_turbo.Base.Decimal.{decimal}
use multi_agent_system_turbo.Core.Model.{Hypothesis}
use multi_agent_system_turbo.Agent.State.{State, add_note, sort_notes}
use multi_agent_system_turbo.Orchestrator.Agents.{
  Role, planner, correlator, critic, reporter, investigator, Step, is_proposed, note_order,
  evidence_digest,
}

abbrev pub max_blackboard_rounds : ℕ
max_blackboard_rounds = 4

-- The workspace and what the loop keeps beside it. `asked` is not kept by the code: it is the trace
-- of a run, the agents whose step was made, the last one first, which no operation reads.
pub record Board : Type 0 where
  pub state : State
  pub investigated : List Str
  pub last_correlated : Str
  pub asked : List Role

pub record BoardState : Type 0 where
  pub notes : ℕ
  pub evidence : ℕ
  pub hypotheses : ℕ
  pub assessed : ℕ
  pub summary : Bool
  pub domains_without : List Str
  pub evidence_digest : Str
  pub last_correlated : Str

unfoldable pub assessed_count : List Hypothesis → ℕ
assessed_count [] = 0
assessed_count (h ∷ hs) =
    let rest = assessed_count hs in if is_proposed h.status then rest else rest + 1

abbrev pub pending : List Str → List Str → List Str
pending active investigated = keep (λ d. not (member d investigated)) active

unfoldable pub observe : List Str → Board → BoardState
observe active b = record {
  notes = length b.state.notes;
  evidence = length b.state.evidence;
  hypotheses = length b.state.hypotheses;
  assessed = assessed_count b.state.hypotheses;
  summary = not (is_blank b.state.summary);
  domains_without = pending active b.investigated;
  evidence_digest = evidence_digest b.state;
  last_correlated = b.last_correlated;
}

abbrev same : Bool → Bool → Bool
same true b = b
same false b = not b

unfoldable pub changed : BoardState → BoardState → Bool
changed before after =
    not (before.notes == after.notes)
    || (not (before.evidence == after.evidence)
        || (not (before.hypotheses == after.hypotheses)
            || (not (before.assessed == after.assessed)
                || (not (same before.summary after.summary)
                    || not (length before.domains_without == length after.domains_without)))))

pub data Contributor : Type 0 where
  plans investigates correlates criticises reports : Contributor

abbrev pub contributors : List Contributor
contributors = plans ∷ investigates ∷ correlates ∷ criticises ∷ reports ∷ []

unfoldable pub eligible : Contributor → BoardState → Bool
eligible plans v = v.notes == 0
eligible investigates v = not (is_empty v.domains_without)
eligible correlates v = ltb 0 v.notes && not (str_eq v.evidence_digest v.last_correlated)
eligible criticises v = ltb v.assessed v.hypotheses
eligible reports v = ltb 0 v.hypotheses && not v.summary

-- How a run ends, where no agent fails.
pub data Reason : Type 0 where
  none_eligible nothing_changed cut_short capped : Reason

pub record Settled : Type 0 where
  pub board : Board
  pub rounds : ℕ
  pub reason : Reason

-- What the active domains are, and what a step of each agent does.
module _ (active : List Str) (step : Role → Step) where
  abbrev pub on_state : Role → Board → Str ⊎ State → Str ⊎ Board
  on_state r b (inl e) = inl e
  on_state r b (inr s) = inr (record b { state = s; asked = r ∷ b.asked })

  unfoldable pub investigate_all : List Str → Board → Str ⊎ Board
  investigate_all [] b = inr b
  investigate_all (d ∷ ds) b =
      if member d b.investigated
      then investigate_all ds b
      else elim (step (investigator d) b.state) [
        | inl e ↦ inl e
        | inr s ↦ investigate_all ds (record b {
          state = s;
          investigated = d ∷ b.investigated;
          asked = investigator d ∷ b.asked;
        })
      ]

  unfoldable pub run_contributor : Contributor → Board → Str ⊎ Board
  unfolding investigate_all sort_notes
  run_contributor plans b = on_state planner b (step planner b.state)
  run_contributor investigates b = elim (investigate_all active b) [
    | inl e ↦ inl e
    | inr c ↦ inr (record c { state = sort_notes (note_order active) c.state })
  ]
  run_contributor correlates b =
      on_state correlator (record b { last_correlated = evidence_digest b.state })
        (step correlator b.state)
  run_contributor criticises b = on_state critic b (step critic b.state)
  run_contributor reports b = on_state reporter b (step reporter b.state)

  -- The contributors that the view makes eligible, one after the other; with those that ran.
  unfoldable pub run_eligible :
      BoardState → List Contributor → Board → List Contributor → Str ⊎ Board × List Contributor
  unfolding eligible run_contributor
  run_eligible before [] b ran = inr (b, ran)
  run_eligible before (c ∷ cs) b ran =
      if not (eligible c before) then run_eligible before cs b ran else elim (run_contributor c b) [
        | inl e ↦ inl e
        | inr b' ↦ run_eligible before cs b' (ran ++ c ∷ [])
      ]

  unfoldable pub run_rounds : ℕ → ℕ → Board → Str ⊎ Settled
  unfolding observe changed run_eligible
  run_rounds zero rounds b = inr (record { board = b; rounds = rounds; reason = capped })
  run_rounds (suc k) rounds b =
      let before = observe active b in
      elim (run_eligible before contributors b []) [
        | inl e ↦ inl e
        | inr (b', ran) ↦
            let rest = run_rounds k (rounds + 1) b' in
            if is_empty ran
            then inr (record { board = b'; rounds = rounds; reason = none_eligible })
            else if not (changed before (observe active b'))
            then inr (record { board = b'; rounds = rounds + 1; reason = nothing_changed })
            else if b'.state.truncated
            then inr (record { board = b'; rounds = rounds + 1; reason = cut_short })
            else rest
      ]

  abbrev pub control_note : ℕ → Str
  control_note rounds =
      bytes "Blackboard control: settled after "
      ++ (decimal rounds
          ++ (bytes " round(s). Contributors act when the shared "
              ++ bytes
                  "state makes them eligible, so this path reflects what evidence this run could reach."))

  unfoldable pub run_blackboard : State → Str ⊎ Settled
  unfolding run_rounds add_note
  run_blackboard s =
      let start : Board = record {
        state = s;
        investigated = [];
        last_correlated = [];
        asked = [];
      } in
      elim (run_rounds max_blackboard_rounds 0 start) [
        | inl e ↦ inl e
        | inr r ↦ inr (record r {
          board = record r.board { state = add_note (control_note r.rounds) r.board.state };
        })
      ]
