-- ===== src/Agent/Invariant.antt =====
-- What holds of the shared state after any operations.
use multi_agent_system_turbo.Base.{
  ℕ, ◌+◌, ◌-◌, ◌≡◌, refl, inl, inr, true, false, ◌&&◌, ◌||◌, List, [], ◌∷◌, ◌++◌, Str, arith, ltb,
  leb, Bool-cases, any, is_empty, member, All, All-append, str_eq, trim_space, length,
}
use multi_agent_system_turbo.Base.Int.{ℤ}
use multi_agent_system_turbo.Core.Model.{Evidence, Finding, HypothesisStatus, Hypothesis}
use multi_agent_system_turbo.Agent.State.{
  Budget, State, new_state, is_duplicate, add_evidence, add_gap, has_text, known_refs, knows,
  kept_refs, unresolved_refs, note_unresolved, resolved, add_hypothesis, update_first, assess,
  update_hypothesis, add_recommendation, add_note, set_summary, spend, cut_short, truncate,
  consume_step,
}
use multi_agent_system_turbo.Agent.Ops.{
  Op, see, miss, propose, judge, advise, say, sum_up, use_model, give_up, take_step, perform,
  perform_all,
}

-- Every reference of the hypothesis names evidence or a finding that the run has.
abbrev pub IsGrounded : List Evidence → List Finding → Hypothesis → Type 0
IsGrounded evidence prior h =
    All (λ r. member r (known_refs evidence prior) ≡ true) (h.supporting ++ h.contradicting)

-- No later item repeats a digest that is not empty.
abbrev pub HasDistinctDigests : List Evidence → Type 0
HasDistinctDigests [] = Unit
HasDistinctDigests (e ∷ es) = All (λ later. is_duplicate later e ≡ false) es × HasDistinctDigests es

pub record IsValid (s : State) : Type 0 where
  pub grounded : All (IsGrounded s.evidence s.prior) s.hypotheses
  pub distinct : HasDistinctDigests s.evidence
  pub identified : All (λ e. is_empty e.id ≡ false) s.evidence
  pub advisory : All (λ r. r.advisory ≡ true) s.recommendations
  pub counted : length s.hypotheses ≡ s.hyp_seq

-- Collected evidence only adds names that may be cited.
pub known_refs-grow :
    (r : Str) (es : List Evidence) (ev : Evidence) (prior : List Finding)
    → member r (known_refs es prior) ≡ true
    → member r (known_refs (es ++ ev ∷ []) prior) ≡ true
unfolding known_refs
known_refs-grow r [] ev prior h = elim (Bool-cases (has_text ev.id)) [
  | inl t ↦ rw t (ground arith)
  | inr n ↦ rw n h
]
known_refs-grow r (e ∷ es) ev prior h = elim (Bool-cases (has_text e.id)) [
  | inl t ↦ rw t (elim (Bool-cases (str_eq r e.id)) [
    | inl same ↦ rw same
    | inr other ↦ rw other (known_refs-grow r es ev prior (rw other at (rw t at h)))
  ])
  | inr n ↦ rw n (known_refs-grow r es ev prior (rw n at h))
]

pub All-map {ℓ} :
    {A : Type ℓ} {P Q : A → Type 0} → ((a : A) → P a → Q a) → (xs : List A) → All P xs → All Q xs
All-map f [] h = tt
All-map f (x ∷ xs) (p, h) = (f x p, All-map f xs h)

distinct-snoc :
    (es : List Evidence) (ev : Evidence)
    → HasDistinctDigests es
    → any (is_duplicate ev) es ≡ false
    → HasDistinctDigests (es ++ ev ∷ [])
distinct-snoc [] ev h n = (tt, tt)
distinct-snoc (e ∷ es) ev (a, h) n = (
  All-append (λ later. is_duplicate later e ≡ false) es (ev ∷ []) a (ground arith, tt),
  distinct-snoc es ev h (ground arith),
)

length-snoc {ℓ} : {A : Type ℓ} (xs : List A) (x : A) → length (xs ++ x ∷ []) ≡ length xs + 1
length-snoc [] x = omega arith
length-snoc (y ∷ xs) x = omega (arith, length-snoc xs x)

add_evidence-IsValid : (ev : Evidence) (s : State) → IsValid s → IsValid (add_evidence ev s)
unfolding add_evidence
add_evidence-IsValid ev s v =
    elim (Bool-cases (is_empty ev.id || any (is_duplicate ev) s.evidence)) [
      | inl skip ↦ rw skip v
      | inr fresh ↦ rw fresh (record {
        grounded =
            All-map (λ h g. All-map (λ r k. known_refs-grow r s.evidence ev s.prior k) _ g)
              s.hypotheses v.grounded;
        distinct = distinct-snoc s.evidence ev v.distinct (ground arith);
        identified = All-append _ s.evidence (ev ∷ []) v.identified (ground arith, tt);
        advisory = v.advisory;
        counted = v.counted;
      })
    ]

pub kept_refs-known : (s : State) (refs : List Str) → All (λ r. knows s r ≡ true) (kept_refs s refs)
unfolding kept_refs
kept_refs-known s [] = tt
kept_refs-known s (r ∷ refs) = elim (Bool-cases (is_empty (trim_space r))) [
  | inl blank ↦ rw blank (kept_refs-known s refs)
  | inr text ↦ rw text (elim (Bool-cases (knows s (trim_space r))) [
    | inl k ↦ rw k (k, kept_refs-known s refs)
    | inr n ↦ rw n (kept_refs-known s refs)
  ])
]

resolved-IsGrounded : (h : Hypothesis) (s : State) → IsGrounded s.evidence s.prior (resolved s h)
unfolding resolved
resolved-IsGrounded h s =
    All-append _ (kept_refs s h.supporting) (kept_refs s h.contradicting)
      (kept_refs-known s h.supporting) (kept_refs-known s h.contradicting)

-- What reads none of the fields it speaks of leaves it true.
IsValid-of :
    (s s' : State)
    → s'.prior ≡ s.prior
    → s'.evidence ≡ s.evidence
    → s'.hypotheses ≡ s.hypotheses
    → s'.recommendations ≡ s.recommendations
    → s'.hyp_seq ≡ s.hyp_seq
    → IsValid s
    → IsValid s'
IsValid-of s s' p e h r n v = record {
  grounded = rw p (rw e (rw h v.grounded));
  distinct = rw e v.distinct;
  identified = rw e v.identified;
  advisory = rw r v.advisory;
  counted = rw h (rw n v.counted);
}

-- Recording a grounded hypothesis, whatever gap is noted beside it.
pub noted-IsValid :
    (refs : List Str) (h : Hypothesis) (s : State)
    → IsGrounded s.evidence s.prior h
    → IsValid s
    → IsValid (record (note_unresolved refs s) {
      hypotheses = s.hypotheses ++ h ∷ [];
      hyp_seq = s.hyp_seq + 1;
    })
unfolding note_unresolved add_gap
noted-IsValid [] h s g v = record {
  grounded = All-append _ s.hypotheses (h ∷ []) v.grounded (g, tt);
  distinct = v.distinct;
  identified = v.identified;
  advisory = v.advisory;
  counted = omega (arith, length-snoc s.hypotheses h, v.counted);
}
noted-IsValid (r ∷ refs) h s g v = record {
  grounded = All-append _ s.hypotheses (h ∷ []) v.grounded (g, tt);
  distinct = v.distinct;
  identified = v.identified;
  advisory = v.advisory;
  counted = omega (arith, length-snoc s.hypotheses h, v.counted);
}

add_hypothesis-IsValid : (h : Hypothesis) (s : State) → IsValid s → IsValid (add_hypothesis h s).0
unfolding add_hypothesis
add_hypothesis-IsValid h s v =
    noted-IsValid (unresolved_refs s h.supporting ++ unresolved_refs s h.contradicting)
      (resolved s h) s (resolved-IsGrounded h s) v

All-update_first :
    {P : Hypothesis → Type 0} (id : Str) (f : Hypothesis → Hypothesis)
    → ((h : Hypothesis) → P h → P (f h))
    → (hs : List Hypothesis) → All P hs
    → All P (update_first id f hs)
unfolding update_first
All-update_first id f keeps [] a = tt
All-update_first id f keeps (h ∷ hs) (p, a) = elim (Bool-cases (str_eq h.id id)) [
  | inl same ↦ rw same (keeps h p, a)
  | inr other ↦ rw other (p, All-update_first id f keeps hs a)
]

length-update_first :
    (id : Str) (f : Hypothesis → Hypothesis) (hs : List Hypothesis)
    → length (update_first id f hs) ≡ length hs
unfolding update_first
length-update_first id f [] = refl
length-update_first id f (h ∷ hs) = elim (Bool-cases (str_eq h.id id)) [
  | inl same ↦ rw same
  | inr other ↦ rw other (omega (arith, length-update_first id f hs))
]

update_hypothesis-IsValid :
    (id : Str) (st : HypothesisStatus) (confidence : ℤ) (rationale : Str) (s : State)
    → IsValid s
    → IsValid (update_hypothesis id st confidence rationale s).0
unfolding update_hypothesis assess
update_hypothesis-IsValid id st confidence rationale s v = record {
  grounded =
      All-update_first id (assess st confidence rationale) (λ h g. g) s.hypotheses v.grounded;
  distinct = v.distinct;
  identified = v.identified;
  advisory = v.advisory;
  counted =
      omega
        (arith, length-update_first id (assess st confidence rationale) s.hypotheses, v.counted);
}

consume_step-IsValid : (now : ℕ) (s : State) → IsValid s → IsValid (consume_step now s).0
unfolding consume_step cut_short
consume_step-IsValid now s v =
    elim (Bool-cases (ltb 0 s.budget.max_wall && ltb s.budget.max_wall (now - s.started_at))) [
      | inl wall ↦ rw wall (IsValid-of s _ refl refl refl refl refl v)
      | inr w ↦
          rw w (elim (Bool-cases (ltb 0 s.budget.max_steps && leb s.budget.max_steps s.steps)) [
            | inl steps ↦ rw steps (IsValid-of s _ refl refl refl refl refl v)
            | inr n ↦
                rw n
                  (elim (Bool-cases (
                    ltb 0 s.budget.max_tokens
                    && leb s.budget.max_tokens
                        (s.usage.prompt_tokens + s.usage.completion_tokens))) [
                          | inl tokens ↦ rw tokens (IsValid-of s _ refl refl refl refl refl v)
                          | inr m ↦ rw m (IsValid-of s _ refl refl refl refl refl v)
                        ])
          ])
    ]

pub perform-IsValid : (op : Op) (s : State) → IsValid s → IsValid (perform op s)
unfolding perform add_gap add_recommendation add_note set_summary spend truncate cut_short
perform-IsValid (see ev) s v = add_evidence-IsValid ev s v
perform-IsValid (miss g) s v = IsValid-of s _ refl refl refl refl refl v
perform-IsValid (propose h) s v = add_hypothesis-IsValid h s v
perform-IsValid (judge id st confidence rationale) s v =
    update_hypothesis-IsValid id st confidence rationale s v
perform-IsValid (advise r) s v = record {
  grounded = v.grounded;
  distinct = v.distinct;
  identified = v.identified;
  advisory =
      All-append _ s.recommendations (record r { advisory = true } ∷ []) v.advisory (refl, tt);
  counted = v.counted;
}
perform-IsValid (say note) s v = elim (Bool-cases (is_empty note)) [
  | inl blank ↦ rw blank v
  | inr text ↦ rw text (IsValid-of s _ refl refl refl refl refl v)
]
perform-IsValid (sum_up summary) s v = IsValid-of s _ refl refl refl refl refl v
perform-IsValid (use_model u) s v = IsValid-of s _ refl refl refl refl refl v
perform-IsValid (give_up reason) s v = IsValid-of s _ refl refl refl refl refl v
perform-IsValid (take_step now) s v = consume_step-IsValid now s v

perform_all-keeps : (ops : List Op) (s : State) → IsValid s → IsValid (perform_all ops s)
unfolding perform_all
perform_all-keeps [] s v = v
perform_all-keeps (op ∷ ops) s v = perform_all-keeps ops (perform op s) (perform-IsValid op s v)

-- Whatever operations the agents make, in any order, the shared state of a run stays well-formed:
-- each reference of a recorded hypothesis names evidence or a prior finding that the run has, no
-- two pieces of evidence share a digest that is not empty, each has an id, each recommendation is
-- advisory, and the hypotheses are as many as the counter says.
pub perform_all-IsValid :
    (ops : List Op) (prior : List Finding) (budget : Budget) (now : ℕ)
    → IsValid (perform_all ops (new_state prior budget now))
unfolding new_state
perform_all-IsValid ops prior budget now =
    perform_all-keeps ops (new_state prior budget now)
      (record { grounded = tt; distinct = tt; identified = tt; advisory = tt; counted = refl })
