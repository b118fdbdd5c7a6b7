-- ===== src/Agent/Budget.antt =====
-- The budget of a run: when a step is refused, what the refusal records, and the bound on steps.
use multi_agent_system_turbo.Base.{
  ℕ, ◌+◌, ◌-◌, ◌≤◌, ◌<◌, ◌≡◌, ◌≢◌, refl, sym, subst, ◌∙◌, ◌++◌, ◌⊎◌, inl, inr, true, false, ◌&&◌,
  ◌||◌, List, [], ◌∷◌, Str, arith, ltb, leb, Bool-cases, any, is_empty,
}
use multi_agent_system_turbo.Core.Model.{Finding}
use multi_agent_system_turbo.Agent.State.{
  Budget, TruncReason, no_reason, wall_spent, steps_spent, tokens_spent, stated, State, new_state,
  is_duplicate, add_evidence, add_gap, note_unresolved, unresolved_refs, add_hypothesis,
  update_hypothesis, add_recommendation, add_note, set_summary, spend, first_reason, stated_reason,
  cut_short, truncate, consume_step,
}
use multi_agent_system_turbo.Agent.Ops.{
  Op, see, miss, propose, judge, advise, say, sum_up, use_model, give_up, take_step, perform,
  perform_all,
}

-- One of the limits that are set is reached.
abbrev pub IsSpent : ℕ → State → Type 0
IsSpent now s =
    (0 < s.budget.max_wall × s.budget.max_wall < now - s.started_at)
    ⊎ (0 < s.budget.max_steps × s.budget.max_steps ≤ s.steps)
    ⊎ (0 < s.budget.max_tokens
        × s.budget.max_tokens ≤ s.usage.prompt_tokens + s.usage.completion_tokens)

-- A step is refused exactly when a limit that is set is reached: the wall time passed, the steps
-- used up or the tokens used up. A refusal marks the run truncated and leaves the count of steps,
-- a step that is granted raises the count by one and leaves the mark.
pub consume_step_lem :
    (now : ℕ) (s : State)
    → let (s', granted) = consume_step now s in
      (IsSpent now s × (granted ≡ false) × (s'.truncated ≡ true) × (s'.steps ≡ s.steps))
      ⊎ (¬ IsSpent now s
          × (granted ≡ true)
          × (s'.truncated ≡ s.truncated)
          × (s'.steps ≡ s.steps + 1))
unfolding consume_step cut_short
consume_step_lem now s = ground arith

-- What each operation keeps of the budget: its limits, the bound on steps, and the mark.
record Keeps (s s' : State) : Type 0 where
  same_budget : s'.budget ≡ s.budget
  bounded : 0 < s.budget.max_steps → s.steps ≤ s.budget.max_steps → s'.steps ≤ s.budget.max_steps
  marked : s.truncated ≡ true → s'.truncated ≡ true
  reasoned : s.trunc_reason ≢ no_reason → s'.trunc_reason ≡ s.trunc_reason

Keeps-refl : (s : State) → Keeps s s
Keeps-refl s = record {
  same_budget = refl;
  bounded = λ p b. b;
  marked = λ t. t;
  reasoned = λ r. refl;
}

first_reason-kept : (r new : TruncReason) → r ≢ no_reason → first_reason r new ≡ r
first_reason-kept no_reason new n = elim (n refl) [ ]
first_reason-kept (wall_spent k) new n = refl
first_reason-kept (steps_spent k) new n = refl
first_reason-kept (tokens_spent k) new n = refl
first_reason-kept (stated t) new n = refl

Keeps-cut_short : (r : TruncReason) (s : State) → Keeps s (cut_short r s)
unfolding cut_short
Keeps-cut_short r s = record {
  same_budget = refl;
  bounded = λ p b. b;
  marked = λ t. refl;
  reasoned = λ n. first_reason-kept s.trunc_reason r n;
}

Keeps-consume_step : (now : ℕ) (s : State) → Keeps s (consume_step now s).0
unfolding consume_step
Keeps-consume_step now s =
    elim (Bool-cases (ltb 0 s.budget.max_wall && ltb s.budget.max_wall (now - s.started_at))) [
      | inl wall ↦ rw wall (Keeps-cut_short _ s)
      | inr w ↦
          rw w (elim (Bool-cases (ltb 0 s.budget.max_steps && leb s.budget.max_steps s.steps)) [
            | inl steps ↦ rw steps (Keeps-cut_short _ s)
            | inr n ↦
                rw n
                  (elim (Bool-cases (
                    ltb 0 s.budget.max_tokens
                    && leb s.budget.max_tokens
                        (s.usage.prompt_tokens + s.usage.completion_tokens))) [
                          | inl tokens ↦ rw tokens (Keeps-cut_short _ s)
                          | inr m ↦ rw m (record {
                            same_budget = refl;
                            bounded = λ p b. ground arith;
                            marked = λ t. t;
                            reasoned = λ r. refl;
                          })
                        ])
          ])
    ]

Keeps-note_unresolved : (refs : List Str) (s : State) → Keeps s (note_unresolved refs s)
unfolding note_unresolved add_gap
Keeps-note_unresolved [] s = Keeps-refl s
Keeps-note_unresolved (r ∷ refs) s = record {
  same_budget = refl;
  bounded = λ p b. b;
  marked = λ t. t;
  reasoned = λ n. refl;
}

Keeps-perform : (op : Op) (s : State) → Keeps s (perform op s)
unfolding perform add_evidence add_gap add_hypothesis update_hypothesis add_recommendation add_note
    set_summary spend truncate
Keeps-perform (see ev) s = elim (Bool-cases (is_empty ev.id || any (is_duplicate ev) s.evidence)) [
  | inl skip ↦ rw skip (Keeps-refl s)
  | inr fresh ↦
      rw fresh
        (record { same_budget = refl; bounded = λ p b. b; marked = λ t. t; reasoned = λ n. refl })
]
Keeps-perform (miss g) s = record {
  same_budget = refl;
  bounded = λ p b. b;
  marked = λ t. t;
  reasoned = λ n. refl;
}
Keeps-perform (propose h) s =
    let k =
      Keeps-note_unresolved (unresolved_refs s h.supporting ++ unresolved_refs s h.contradicting)
        s in
    record {
      same_budget = k.same_budget;
      bounded = k.bounded;
      marked = k.marked;
      reasoned = k.reasoned;
    }
Keeps-perform (judge id st confidence rationale) s = record {
  same_budget = refl;
  bounded = λ p b. b;
  marked = λ t. t;
  reasoned = λ n. refl;
}
Keeps-perform (advise r) s = record {
  same_budget = refl;
  bounded = λ p b. b;
  marked = λ t. t;
  reasoned = λ n. refl;
}
Keeps-perform (say note) s = elim (Bool-cases (is_empty note)) [
  | inl blank ↦ rw blank (Keeps-refl s)
  | inr text ↦
      rw text
        (record { same_budget = refl; bounded = λ p b. b; marked = λ t. t; reasoned = λ n. refl })
]
Keeps-perform (sum_up v) s = record {
  same_budget = refl;
  bounded = λ p b. b;
  marked = λ t. t;
  reasoned = λ n. refl;
}
Keeps-perform (use_model u) s = record {
  same_budget = refl;
  bounded = λ p b. b;
  marked = λ t. t;
  reasoned = λ n. refl;
}
Keeps-perform (give_up reason) s = Keeps-cut_short (stated_reason reason) s
Keeps-perform (take_step now) s = Keeps-consume_step now s

perform_all-Keeps : (ops : List Op) (s : State) → Keeps s (perform_all ops s)
unfolding perform_all
perform_all-Keeps [] s = Keeps-refl s
perform_all-Keeps (op ∷ ops) s =
    let one = Keeps-perform op s in
    let rest = perform_all-Keeps ops (perform op s) in
    record {
      same_budget = rest.same_budget ∙ one.same_budget;
      bounded = λ p b.
          subst (λ g. (perform_all ops (perform op s)).steps ≤ g.max_steps) one.same_budget
            (rest.bounded (subst (λ g. 0 < g.max_steps) (sym one.same_budget) p) (
              subst (λ g. (perform op s).steps ≤ g.max_steps) (sym one.same_budget)
                (one.bounded p b)));
      marked = λ t. rest.marked (one.marked t);
      reasoned = λ n. rest.reasoned (λ e. n (sym (one.reasoned n) ∙ e)) ∙ one.reasoned n;
    }

-- A run whose budget limits the steps never counts more of them, whatever operations its agents
-- make.
pub perform_all-IsBounded :
    (ops : List Op) (prior : List Finding) (budget : Budget) (now : ℕ)
    → 0 < budget.max_steps
    → (perform_all ops (new_state prior budget now)).steps ≤ budget.max_steps
unfolding new_state
perform_all-IsBounded ops prior budget now p =
    (perform_all-Keeps ops (new_state prior budget now)).bounded p (omega arith)

-- Once a run is marked truncated with a reason, no operations take the mark back or change the
-- reason: the first reason is the one reported.
pub perform_all-reason :
    (ops : List Op) (s : State)
    → s.truncated ≡ true
    → s.trunc_reason ≢ no_reason
    → ((perform_all ops s).truncated ≡ true) × ((perform_all ops s).trunc_reason ≡ s.trunc_reason)
perform_all-reason ops s t r = let k = perform_all-Keeps ops s in (k.marked t, k.reasoned r)
