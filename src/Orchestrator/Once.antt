-- ===== src/Orchestrator/Once.antt =====
-- internal/orchestrator/blackboard.go: a run asks the investigator of each active domain once.
use multi_agent_system_turbo.Base.{
  result_cases, ℕ, zero, suc, ◌+◌, ◌≡◌, refl, subst, ◌⊎◌, inl, inr, true, not, List, [], Str,
  Bool-cases, is_empty, arith,
}
use multi_agent_system_turbo.Base.Keyed.{has_distinct}
use multi_agent_system_turbo.Agent.State.{State}
use multi_agent_system_turbo.Orchestrator.Agents.{Role, Step}
use multi_agent_system_turbo.Orchestrator.Blackboard.{
  Board, observe, Contributor, investigates, contributors, eligible, run_eligible, changed,
  run_rounds, run_blackboard, Settled, pending, run_contributor,
}
use multi_agent_system_turbo.Orchestrator.Eligible.{
  which_of, run_eligible-keeps, run_eligible-makes,
}
use multi_agent_system_turbo.Orchestrator.Traced.{
  domains_of, AllIn, IsTraced, run_contributor-IsTraced, Covers, pending-Covers,
  investigates-Covers, run_contributor-Covers,
}

-- The investigators among the agents are those of the active domains, each once.
abbrev pub AsksEachOnce : List Str → List Role → Type 0
AsksEachOnce active asked =
    (has_distinct (λ (d : Str). d) (domains_of asked) ≡ true)
    × (AllIn active (domains_of asked) × AllIn (domains_of asked) active)

module _ (active : List Str) (step : Role → Step) where
  -- A round that no agent fails.
  abbrev Round : Board → Board → List Contributor → Type 0
  Round b b' ran = run_eligible active step (observe active b) contributors b [] ≡ inr (b', ran)

  eligible-investigates :
      (b : Board)
      → eligible investigates (observe active b) ≡ not (is_empty (pending active b.investigated))
  unfolding eligible observe
  eligible-investigates b = refl

  run_eligible-Covers : (b b' : Board) (ran : List Contributor) → Round b b' ran → Covers active b'
  run_eligible-Covers b b' ran e =
      let before = observe active b in
      let keeps =
        λ (c : Contributor) (x x' : Board) (on : eligible c before ≡ true) (p : Covers active x)
            (q : run_contributor active step c x ≡ inr x').
          run_contributor-Covers active step c x x' p q in
      elim (Bool-cases (eligible investigates before)) [
        | inl on ↦
            run_eligible-makes active step (Covers active) before keeps investigates on
              (investigates-Covers active step) contributors b b' [] ran (inr (inl refl)) e
        | inr off ↦
            let none_left : is_empty (pending active b.investigated) ≡ true =
              (let q = eligible-investigates b in ground (arith, off, q)) in
            run_eligible-keeps active step (Covers active) before keeps contributors b b' [] ran
              (pending-Covers active b none_left) e
      ]

  run_eligible-IsTraced :
      (b b' : Board) (ran : List Contributor)
      → IsTraced active b
      → Round b b' ran
      → IsTraced active b'
  run_eligible-IsTraced b b' ran h e =
      run_eligible-keeps active step (IsTraced active) (observe active b)
        (λ c x x' on p q. run_contributor-IsTraced active step c x x' p q) contributors b b' [] ran
        h e

  settled_is : (r t : Settled) → Path (Str ⊎ Settled) (inr r) (inr t) → r.board ≡ t.board
  settled_is r t e = cc

  -- A run begins with a round, and ends with it or goes on.
  run_rounds-inv :
      (k n : ℕ) (b : Board) (r : Settled)
      → run_rounds active step (suc k) n b ≡ inr r
      → (b' : Board) × ((ran : List Contributor) × (Round b b' ran
            × ((b' ≡ r.board) ⊎ (run_rounds active step k (n + 1) b' ≡ inr r))))
  unfolding run_rounds
  run_rounds-inv k n b r e =
      elim (result_cases (run_eligible active step (observe active b) contributors b [])) [
        | inl (code, failed) ↦ (let e' = rw (run_rounds, failed) at e in absurd (cc))
        | inr ((b', ran), ok) ↦ (
          b',
          (
            ran,
            (
              ok,
              elim (which_of (is_empty ran) (rw (run_rounds, ok) at e)) [
                | inl idle ↦ inl (settled_is _ r idle)
                | inr busy ↦
                    elim (which_of (not (changed (observe active b) (observe active b'))) busy) [
                      | inl still ↦ inl (settled_is _ r still)
                      | inr moved ↦ elim (which_of b'.state.truncated moved) [
                        | inl cut ↦ inl (settled_is _ r cut)
                        | inr goes_on ↦ inr goes_on
                      ]
                    ]
              ],
            ),
          ),
        )
      ]

  run_rounds-keeps :
      (P : Board → Type 0)
      → ((b b' : Board) (ran : List Contributor) → P b → Round b b' ran → P b')
      → (k n : ℕ) (b : Board) (r : Settled) → P b
      → run_rounds active step k n b ≡ inr r
      → P r.board
  unfolding run_rounds
  run_rounds-keeps P keeps zero n b r p e =
      let same : b ≡ r.board = settled_is _ r e in subst P same p
  run_rounds-keeps P keeps (suc k) n b r p e =
      let (b', (ran, (ok, ends))) = run_rounds-inv k n b r e in
      elim ends [
        | inl over ↦ subst P over (keeps b b' ran p ok)
        | inr goes_on ↦ run_rounds-keeps P keeps k (n + 1) b' r (keeps b b' ran p ok) goes_on
      ]

  run_rounds-Covers :
      (k n : ℕ) (b : Board) (r : Settled)
      → run_rounds active step (suc k) n b ≡ inr r
      → Covers active r.board
  run_rounds-Covers k n b r e =
      let (b', (ran, (ok, ends))) = run_rounds-inv k n b r e in
      elim ends [
        | inl over ↦ subst (Covers active) over (run_eligible-Covers b b' ran ok)
        | inr goes_on ↦
            run_rounds-keeps (Covers active) (λ x x' l p q. run_eligible-Covers x x' l q) k (n + 1)
              b' r (run_eligible-Covers b b' ran ok) goes_on
      ]

-- Whatever the agents do, in a run that no agent fails the steps of investigators that were made are
-- one for each active domain: no domain's investigator is asked twice, none of another domain is
-- asked, and none of an active one is left out.
pub run_blackboard-asks :
    (active : List Str) (step : Role → Step) (s : State) (r : Settled)
    → run_blackboard active step s ≡ inr r
    → AsksEachOnce active r.board.asked
unfolding run_blackboard has_distinct domains_of
run_blackboard-asks active step s r e =
    let start : Board = record { state = s; investigated = []; last_correlated = []; asked = [] } in
    let begun : IsTraced active start = record { traced = refl; once = refl; active_ones = tt } in
    elim (result_cases (run_rounds active step 4 0 start)) [
      | inl (code, failed) ↦ (let e' = rw (run_blackboard, failed) at e in absurd (cc))
      | inr (t, ok) ↦
          let k =
            run_rounds-keeps active step (IsTraced active) (run_eligible-IsTraced active step) 4 0
              start t begun ok in
          let all_of = run_rounds-Covers active step 3 0 start t ok in
          let e' = rw (run_blackboard, ok) at e in
          let same : t.board.asked ≡ r.board.asked = cc in
          subst (AsksEachOnce active) same (rw k.traced (k.once, (k.active_ones, all_of)))
    ]
