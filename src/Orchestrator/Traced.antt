-- ===== src/Orchestrator/Traced.antt =====
-- internal/orchestrator/blackboard.go: the domains marked as investigated are those whose
-- investigator was asked.
use multi_agent_system_turbo.Base.{
  result_cases, ◌≡◌, refl, subst, ◌⊎◌, inl, inr, true, List, [], ◌∷◌, Str, Bool-cases, member,
  is_empty, All, arith, str_eq_refl, ◌∙◌,
}
use multi_agent_system_turbo.Base.Keyed.{has_distinct}
use multi_agent_system_turbo.Agent.State.{State, sort_notes}
use multi_agent_system_turbo.Orchestrator.Agents.{
  Role, planner, correlator, critic, reporter, investigator, Step, evidence_digest, note_order,
}
use multi_agent_system_turbo.Orchestrator.Blackboard.{
  Board, pending, Contributor, plans, investigates, correlates, criticises, reports, on_state,
  investigate_all, run_contributor,
}

-- The domains of the investigators among the agents.
unfoldable pub domains_of : List Role → List Str
domains_of [] = []
domains_of (investigator d ∷ rs) = d ∷ domains_of rs
domains_of (r ∷ rs) = domains_of rs

abbrev pub AllIn : List Str → List Str → Type 0
AllIn all ds = All (λ d. member d all ≡ true) ds

AllIn-cons : (x : Str) (all ds : List Str) → AllIn all ds → AllIn (x ∷ all) ds
AllIn-cons x all [] h = tt
AllIn-cons x all (d ∷ ds) (h, hs) = (ground arith, AllIn-cons x all ds hs)

pub AllIn-self : (ds : List Str) → AllIn ds ds
AllIn-self [] = tt
AllIn-self (d ∷ ds) = (let same = str_eq_refl d in ground arith, AllIn-cons d ds ds (AllIn-self ds))

-- The bookkeeping agrees with the trace: no domain is marked twice, and each is an active one.
pub record IsTraced (active : List Str) (b : Board) : Type 0 where
  pub traced : domains_of b.asked ≡ b.investigated
  pub once : has_distinct (λ (d : Str). d) b.investigated ≡ true
  pub active_ones : AllIn active b.investigated

module _ (active : List Str) (step : Role → Step) where
  pub investigate_all-IsTraced :
      (ds : List Str) (b b' : Board)
      → AllIn active ds
      → IsTraced active b
      → investigate_all active step ds b ≡ inr b'
      → IsTraced active b'
  unfolding investigate_all has_distinct domains_of
  investigate_all-IsTraced [] b b' among t e =
      let same : b ≡ b' = cc in subst (IsTraced active) same t
  investigate_all-IsTraced (d ∷ ds) b b' (here, among) t e =
      elim (Bool-cases (member d b.investigated)) [
        | inl done ↦ investigate_all-IsTraced ds b b' among t (rw done at e)
        | inr new ↦ elim (result_cases (step (investigator d) b.state)) [
          | inl (code, failed) ↦ (let e' = rw (new, failed) at e in absurd (cc))
          | inr (s, ok) ↦
              let c : Board = record b {
                state = s;
                investigated = d ∷ b.investigated;
                asked = investigator d ∷ b.asked;
              } in
              let marked : IsTraced active c = record {
                traced = rw t.traced;
                once = (let o = t.once in ground arith);
                active_ones = (here, t.active_ones);
              } in
              investigate_all-IsTraced ds c b' among marked (rw (new, ok) at e)
        ]
      ]

  -- An agent that is no investigator leaves the marks as they are.
  on_state-IsTraced :
      (r : Role) (b b' : Board) (out : Str ⊎ State)
      → domains_of (r ∷ b.asked) ≡ domains_of b.asked
      → IsTraced active b
      → on_state active step r b out ≡ inr b'
      → IsTraced active b'
  on_state-IsTraced r b b' (inl x) other t e = absurd (cc)
  on_state-IsTraced r b b' (inr s) other t e =
      let c : Board = record b { state = s; asked = r ∷ b.asked } in
      let same : c ≡ b' = cc in
      let kept : IsTraced active c = record {
        traced = other ∙ t.traced;
        once = t.once;
        active_ones = t.active_ones;
      } in
      subst (IsTraced active) same kept

  pub run_contributor-IsTraced :
      (c : Contributor) (b b' : Board)
      → IsTraced active b
      → run_contributor active step c b ≡ inr b'
      → IsTraced active b'
  unfolding run_contributor domains_of
  run_contributor-IsTraced plans b b' t e = on_state-IsTraced planner b b' _ refl t e
  run_contributor-IsTraced investigates b b' t e =
      elim (result_cases (investigate_all active step active b)) [
        | inl (code, failed) ↦ (let e' = rw (run_contributor, failed) at e in absurd (cc))
        | inr (c, ok) ↦
            let k = investigate_all-IsTraced active b c (AllIn-self active) t ok in
            let e' = rw (run_contributor, ok) at e in
            let d : Board = record c { state = sort_notes (note_order active) c.state } in
            let same : d ≡ b' = cc in
            let kept : IsTraced active d = record {
              traced = k.traced;
              once = k.once;
              active_ones = k.active_ones;
            } in
            subst (IsTraced active) same kept
      ]
  run_contributor-IsTraced correlates b b' t e =
      let c : Board = record b { last_correlated = evidence_digest b.state } in
      let kept : IsTraced active c = record {
        traced = t.traced;
        once = t.once;
        active_ones = t.active_ones;
      } in
      on_state-IsTraced correlator c b' _ refl kept e
  run_contributor-IsTraced criticises b b' t e = on_state-IsTraced critic b b' _ refl t e
  run_contributor-IsTraced reports b b' t e = on_state-IsTraced reporter b b' _ refl t e

-- Every domain of the list is marked.
abbrev pub Covers : List Str → Board → Type 0
Covers ds b = AllIn b.investigated ds

pub pending-Covers :
    (ds : List Str) (b : Board) → is_empty (pending ds b.investigated) ≡ true → Covers ds b
pending-Covers [] b h = tt
pending-Covers (d ∷ ds) b h = elim (Bool-cases (member d b.investigated)) [
  | inl done ↦ (done, pending-Covers ds b (rw done at h))
  | inr new ↦ (let h' = rw new at h in absurd (cc))
]

module _ (active : List Str) (step : Role → Step) where
  abbrev Grows : Board → Board → Type 0
  Grows b b' = (x : Str) → member x b.investigated ≡ true → member x b'.investigated ≡ true

  investigate_all-Covers :
      (ds : List Str) (b b' : Board)
      → investigate_all active step ds b ≡ inr b'
      → Covers ds b' × Grows b b'
  unfolding investigate_all
  investigate_all-Covers [] b b' e =
      let same : b ≡ b' = cc in (tt, λ x h. subst (λ y. member x y.investigated ≡ true) same h)
  investigate_all-Covers (d ∷ ds) b b' e = elim (Bool-cases (member d b.investigated)) [
    | inl done ↦
        let rest = investigate_all-Covers ds b b' (rw done at e) in
        ((rest.1 d done, rest.0), rest.1)
    | inr new ↦ elim (result_cases (step (investigator d) b.state)) [
      | inl (code, failed) ↦ (let e' = rw (new, failed) at e in absurd (cc))
      | inr (s, ok) ↦
          let c : Board = record b {
            state = s;
            investigated = d ∷ b.investigated;
            asked = investigator d ∷ b.asked;
          } in
          let rest = investigate_all-Covers ds c b' (rw (new, ok) at e) in
          (
            (rest.1 d (let r = str_eq_refl d in ground arith), rest.0),
            λ x h. rest.1 x (ground arith),
          )
    ]
  ]

  pub investigates-Covers :
      (b b' : Board) → run_contributor active step investigates b ≡ inr b' → Covers active b'
  unfolding run_contributor
  investigates-Covers b b' e = elim (result_cases (investigate_all active step active b)) [
    | inl (code, failed) ↦ (let e' = rw (run_contributor, failed) at e in absurd (cc))
    | inr (c, ok) ↦
        let e' = rw (run_contributor, ok) at e in
        let same : c.investigated ≡ b'.investigated = cc in
        subst (λ l. AllIn l active) same (investigate_all-Covers active b c ok).0
  ]

  on_state-Covers :
      (r : Role) (b b' : Board) (out : Str ⊎ State)
      → Covers active b
      → on_state active step r b out ≡ inr b'
      → Covers active b'
  on_state-Covers r b b' (inl x) h e = absurd (cc)
  on_state-Covers r b b' (inr s) h e =
      let same : b.investigated ≡ b'.investigated = cc in subst (λ l. AllIn l active) same h

  pub run_contributor-Covers :
      (c : Contributor) (b b' : Board)
      → Covers active b
      → run_contributor active step c b ≡ inr b'
      → Covers active b'
  unfolding run_contributor
  run_contributor-Covers plans b b' h e = on_state-Covers planner b b' _ h e
  run_contributor-Covers investigates b b' h e = investigates-Covers b b' e
  run_contributor-Covers correlates b b' h e =
      on_state-Covers correlator (record b { last_correlated = evidence_digest b.state }) b' _ h e
  run_contributor-Covers criticises b b' h e = on_state-Covers critic b b' _ h e
  run_contributor-Covers reports b b' h e = on_state-Covers reporter b b' _ h e
