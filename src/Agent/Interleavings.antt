-- ===== src/Agent/Interleavings.antt =====
-- internal/agent/state.go: the shared state where the parts of AddHypothesis are interleaved.
use multi_agent_system_turbo.Base.{
  ℕ, zero, suc, ◌≡◌, refl, true, inl, inr, ◌||◌, List, [], ◌∷◌, ◌++◌, Str, arith, Bool-cases, any,
  is_empty, All, All-append,
}
use multi_agent_system_turbo.Core.Model.{Evidence, Finding, Hypothesis}
use multi_agent_system_turbo.Agent.State.{
  Budget, State, new_state, is_duplicate, add_evidence, add_gap, knows, kept_refs, unresolved_refs,
  note_unresolved, add_hypothesis, update_hypothesis, add_recommendation, add_note, set_summary,
  spend, cut_short, truncate, consume_step, citation_gap,
}
use multi_agent_system_turbo.Agent.Ops.{
  Op, see, miss, propose, judge, advise, say, sum_up, use_model, give_up, take_step, perform,
}
use multi_agent_system_turbo.Agent.Invariant.{
  IsGrounded, IsValid, known_refs-grow, All-map, kept_refs-known, noted-IsValid, perform-IsValid,
}
use multi_agent_system_turbo.Agent.Interleaved.{
  Stage, begun, half_resolved, resolved_both, gap_noted, append_hypothesis, advance, Shared, Event,
  act, call, go_on, advance_at, happen, happen_all,
}

-- What may be cited of one state may be cited of the other.
abbrev Keeps : State → State → Type 0
Keeps s s' = (r : Str) → knows s r ≡ true → knows s' r ≡ true

Keeps-of : (s s' : State) → s'.evidence ≡ s.evidence → s'.prior ≡ s.prior → Keeps s s'
Keeps-of s s' e p r h = rw (e, p) h

add_evidence-Keeps : (ev : Evidence) (s : State) → Keeps s (add_evidence ev s)
unfolding add_evidence
add_evidence-Keeps ev s r h =
    elim (Bool-cases (is_empty ev.id || any (is_duplicate ev) s.evidence)) [
      | inl skip ↦ rw skip h
      | inr fresh ↦ rw fresh (known_refs-grow r s.evidence ev s.prior h)
    ]

note_unresolved-Keeps : (refs : List Str) (s : State) → Keeps s (note_unresolved refs s)
unfolding note_unresolved add_gap
note_unresolved-Keeps [] s r h = h
note_unresolved-Keeps (x ∷ refs) s r h = h

add_hypothesis-Keeps : (h : Hypothesis) (s : State) → Keeps s (add_hypothesis h s).0
unfolding add_hypothesis
add_hypothesis-Keeps h s r k =
    note_unresolved-Keeps (unresolved_refs s h.supporting ++ unresolved_refs s h.contradicting) s r
      k

consume_step-evidence :
    (now : ℕ) (s : State)
    → ((consume_step now s).0.evidence ≡ s.evidence) × ((consume_step now s).0.prior ≡ s.prior)
unfolding consume_step cut_short
consume_step-evidence now s = ground arith

perform-Keeps : (op : Op) (s : State) → Keeps s (perform op s)
unfolding perform add_gap update_hypothesis add_recommendation set_summary spend truncate cut_short
perform-Keeps (see ev) s r h = add_evidence-Keeps ev s r h
perform-Keeps (miss g) s r h = h
perform-Keeps (propose x) s r h = add_hypothesis-Keeps x s r h
perform-Keeps (judge id st confidence rationale) s r h = h
perform-Keeps (advise x) s r h = h
perform-Keeps (say note) s r h = elim (Bool-cases (is_empty note)) [
  | inl blank ↦ unfold add_note in rw blank h
  | inr text ↦ unfold add_note in rw text h
]
perform-Keeps (sum_up summary) s r h = h
perform-Keeps (use_model u) s r h = h
perform-Keeps (give_up reason) s r h = h
perform-Keeps (take_step now) s r h =
    let (e, p) = consume_step-evidence now s in Keeps-of s (consume_step now s).0 e p r h

-- The references that a call has resolved may still be cited.
abbrev IsResolved : State → Stage → Type 0
IsResolved s (begun h) = Unit
IsResolved s (half_resolved h us) = All (λ r. knows s r ≡ true) h.supporting
IsResolved s (resolved_both h us) = IsGrounded s.evidence s.prior h
IsResolved s (gap_noted h) = IsGrounded s.evidence s.prior h

IsResolved-Keeps : (s s' : State) → Keeps s s' → (c : Stage) → IsResolved s c → IsResolved s' c
IsResolved-Keeps s s' k (begun h) p = tt
IsResolved-Keeps s s' k (half_resolved h us) p = All-map k _ p
IsResolved-Keeps s s' k (resolved_both h us) p = All-map k _ p
IsResolved-Keeps s s' k (gap_noted h) p = All-map k _ p

-- What a step keeps and what it leaves of the call.
abbrev IsFine : State → List Stage × State → Type 0
IsFine s (left, s') = IsValid s' × (All (IsResolved s') left × Keeps s s')

note_unresolved-IsValid :
    (refs : List Str) (s : State) → IsValid s → IsValid (note_unresolved refs s)
unfolding note_unresolved perform
note_unresolved-IsValid [] s v = v
note_unresolved-IsValid (r ∷ refs) s v = perform-IsValid (miss citation_gap) s v

append_hypothesis-IsValid :
    (h : Hypothesis) (s : State)
    → IsGrounded s.evidence s.prior h
    → IsValid s
    → IsValid (append_hypothesis h s)
unfolding append_hypothesis note_unresolved
append_hypothesis-IsValid h s g v = noted-IsValid [] _ s g v

advance-IsFine : (c : Stage) (s : State) → IsValid s → IsResolved s c → IsFine s (advance c s)
unfolding advance append_hypothesis
advance-IsFine (begun h) s v p = (v, ((kept_refs-known s h.supporting, tt), λ r k. k))
advance-IsFine (half_resolved h us) s v p = (
  v,
  (
    (
      All-append _ h.supporting (kept_refs s h.contradicting) p (kept_refs-known s h.contradicting),
      tt,
    ),
    λ r k. k,
  ),
)
advance-IsFine (resolved_both h us) s v p =
    let k = note_unresolved-Keeps us s in (note_unresolved-IsValid us s v, ((All-map k _ p, tt), k))
advance-IsFine (gap_noted h) s v p = (append_hypothesis-IsValid h s p v, (tt, λ r k. k))

advance_at-IsFine :
    (i : ℕ) (cs : List Stage) (s : State)
    → IsValid s
    → All (IsResolved s) cs
    → IsFine s (advance_at i cs s)
unfolding advance_at
advance_at-IsFine i [] s v p = (v, (tt, λ r k. k))
advance_at-IsFine zero (c ∷ cs) s v (p, ps) =
    let (v', (ps', k)) = advance-IsFine c s v p in
    (
      v',
      (
        All-append _ (advance c s).0 cs ps' (All-map (IsResolved-Keeps s (advance c s).1 k) cs ps),
        k,
      ),
    )
advance_at-IsFine (suc i) (c ∷ cs) s v (p, ps) =
    let (v', (ps', k)) = advance_at-IsFine i cs s v ps in
    (v', ((IsResolved-Keeps s (advance_at i cs s).1 k c p, ps'), k))

happen_all-keeps :
    (es : List Event) (w : Shared)
    → IsValid w.state
    → All (IsResolved w.state) w.calls
    → IsValid (happen_all es w).state
unfolding happen_all happen
happen_all-keeps [] w v p = v
happen_all-keeps (act op ∷ es) w v p =
    happen_all-keeps es (record w { state = perform op w.state }) (perform-IsValid op w.state v)
      (All-map (IsResolved-Keeps w.state (perform op w.state) (perform-Keeps op w.state)) w.calls p)
happen_all-keeps (call h ∷ es) w v p =
    happen_all-keeps es (record w { calls = begun h ∷ w.calls }) v (tt, p)
happen_all-keeps (go_on i ∷ es) w v p =
    let (v', (p', k)) = advance_at-IsFine i w.calls w.state v p in
    happen_all-keeps es (happen (go_on i) w) v' p'

-- However the locked parts of any number of calls of AddHypothesis are interleaved with one another
-- and with the operations of other agents, the shared state of a run stays well-formed: a reference
-- that a call resolved before others went on still names evidence or a prior finding when the
-- hypothesis is recorded, and the counter counts the hypotheses.
pub happen_all-IsValid :
    (es : List Event) (prior : List Finding) (budget : Budget) (now : ℕ)
    → IsValid (happen_all es (record { state = new_state prior budget now; calls = [] })).state
unfolding new_state
happen_all-IsValid es prior budget now =
    happen_all-keeps es (record { state = new_state prior budget now; calls = [] })
      (record { grounded = tt; distinct = tt; identified = tt; advisory = tt; counted = refl }) tt

abbrev pub uninterrupted : Hypothesis → List Event
uninterrupted h = call h ∷ go_on 0 ∷ go_on 0 ∷ go_on 0 ∷ go_on 0 ∷ []
