-- ===== src/Agent/HypothesisIds.antt =====
-- internal/agent/state.go, AddHypothesis: the ids that the counter gives out.
use multi_agent_system_turbo.Base.{
  ℕ, ◌+◌, ◌≤◌, ◌≡◌, ◌≢◌, refl, sym, ◌∙◌, inl, inr, ◌||◌, List, [], ◌∷◌, ◌++◌, Str, bytes, arith,
  Bool-cases, any, is_empty, All, All-append, str_eq,
}
use multi_agent_system_turbo.Base.Decimal.{numbered, numbered-injective}
use multi_agent_system_turbo.Core.Model.{Finding, Hypothesis}
use multi_agent_system_turbo.Agent.State.{
  Budget, State, new_state, is_duplicate, add_evidence, add_gap, resolved, add_hypothesis,
  update_first, assess, update_hypothesis, add_recommendation, add_note, set_summary, spend,
  cut_short, truncate, consume_step,
}
use multi_agent_system_turbo.Agent.Ops.{
  Op, see, miss, propose, judge, advise, say, sum_up, use_model, give_up, take_step, perform,
  perform_all,
}

abbrev pub HasDistinctIds : List Hypothesis → Type 0
HasDistinctIds [] = Unit
HasDistinctIds (h ∷ hs) = All (λ later. h.id ≢ later.id) hs × HasDistinctIds hs

-- The id is one that the counter has given out.
abbrev IsIssued : ℕ → Hypothesis → Type 0
IsIssued n h = (k : ℕ) × (k ≤ n) × (h.id ≡ numbered (bytes "h-") k)

-- The hypothesis leaves its id to the counter.
abbrev pub IsUnnamed : Op → Type 0
IsUnnamed (propose h) = h.id ≡ []
IsUnnamed op = Unit

All-weaken {ℓ} :
    {A : Type ℓ} {P Q : A → Type 0} → ((a : A) → P a → Q a) → (xs : List A) → All P xs → All Q xs
All-weaken f [] h = tt
All-weaken f (x ∷ xs) (p, h) = (f x p, All-weaken f xs h)

IsIssued-fresh :
    (n : ℕ) (h h' : Hypothesis)
    → IsIssued n h
    → h'.id ≡ numbered (bytes "h-") (n + 1)
    → h.id ≢ h'.id
IsIssued-fresh n h h' (k, le, e) e' same =
    let clash : k ≡ n + 1 = numbered-injective (bytes "h-") k (n + 1) (sym e ∙ same ∙ e') in
    omega (arith, clash, le)

distinct_ids-snoc :
    (n : ℕ) (hs : List Hypothesis) (h : Hypothesis)
    → HasDistinctIds hs
    → All (IsIssued n) hs
    → h.id ≡ numbered (bytes "h-") (n + 1)
    → HasDistinctIds (hs ++ h ∷ [])
distinct_ids-snoc n [] h d i e = (tt, tt)
distinct_ids-snoc n (x ∷ hs) h (a, d) (i, is) e =
    (All-append _ hs (h ∷ []) a (IsIssued-fresh n x h i e, tt), distinct_ids-snoc n hs h d is e)

record IsNumbered (s : State) : Type 0 where
  distinct_ids : HasDistinctIds s.hypotheses
  issued : All (IsIssued s.hyp_seq) s.hypotheses

IsNumbered-of :
    (s s' : State)
    → s'.hypotheses ≡ s.hypotheses
    → s'.hyp_seq ≡ s.hyp_seq
    → IsNumbered s
    → IsNumbered s'
IsNumbered-of s s' h n v = record {
  distinct_ids = rw h v.distinct_ids;
  issued = rw h (rw n v.issued);
}

resolved-id :
    (h : Hypothesis) (s : State)
    → h.id ≡ []
    → (resolved s h).id ≡ numbered (bytes "h-") (s.hyp_seq + 1)
unfolding resolved
resolved-id h s e = rw e

add_hypothesis-IsNumbered :
    (h : Hypothesis) (s : State) → h.id ≡ [] → IsNumbered s → IsNumbered (add_hypothesis h s).0
unfolding add_hypothesis
add_hypothesis-IsNumbered h s e v = record {
  distinct_ids =
      distinct_ids-snoc s.hyp_seq s.hypotheses (resolved s h) v.distinct_ids v.issued
        (resolved-id h s e);
  issued =
      All-append _ s.hypotheses (resolved s h ∷ [])
        (All-weaken (λ x (k, le, same). (k, omega (arith, le), same)) s.hypotheses v.issued)
        ((s.hyp_seq + 1, omega arith, resolved-id h s e), tt);
}

-- Assessing the first hypothesis of an id changes no id.
update_first-ids :
    (id : Str) (f : Hypothesis → Hypothesis) (P : Str → Type 0)
    → ((h : Hypothesis) → (f h).id ≡ h.id)
    → (hs : List Hypothesis) → All (λ h. P h.id) hs
    → All (λ h. P h.id) (update_first id f hs)
unfolding update_first
update_first-ids id f P same [] a = tt
update_first-ids id f P same (h ∷ hs) (p, a) = elim (Bool-cases (str_eq h.id id)) [
  | inl e ↦ rw e (rw (same h) p, a)
  | inr n ↦ rw n (p, update_first-ids id f P same hs a)
]

update_first-distinct :
    (id : Str) (f : Hypothesis → Hypothesis)
    → ((h : Hypothesis) → (f h).id ≡ h.id)
    → (hs : List Hypothesis) → HasDistinctIds hs
    → HasDistinctIds (update_first id f hs)
unfolding update_first
update_first-distinct id f same [] d = tt
update_first-distinct id f same (h ∷ hs) (a, d) = elim (Bool-cases (str_eq h.id id)) [
  | inl e ↦ rw e (rw (same h) a, d)
  | inr n ↦
      rw n (update_first-ids id f (λ i. h.id ≢ i) same hs a, update_first-distinct id f same hs d)
]

consume_step-same :
    (now : ℕ) (s : State)
    → ((consume_step now s).0.hypotheses ≡ s.hypotheses)
      × ((consume_step now s).0.hyp_seq ≡ s.hyp_seq)
unfolding consume_step cut_short
consume_step-same now s = ground arith

perform-IsNumbered : (op : Op) (s : State) → IsUnnamed op → IsNumbered s → IsNumbered (perform op s)
unfolding perform add_evidence add_gap update_hypothesis assess add_recommendation add_note
    set_summary spend truncate cut_short
perform-IsNumbered (see ev) s u v =
    elim (Bool-cases (is_empty ev.id || any (is_duplicate ev) s.evidence)) [
      | inl skip ↦ rw skip v
      | inr fresh ↦ rw fresh (IsNumbered-of s _ refl refl v)
    ]
perform-IsNumbered (miss g) s u v = IsNumbered-of s _ refl refl v
perform-IsNumbered (propose h) s u v = add_hypothesis-IsNumbered h s u v
perform-IsNumbered (judge id st confidence rationale) s u v = record {
  distinct_ids =
      update_first-distinct id (assess st confidence rationale) (λ h. refl) s.hypotheses
        v.distinct_ids;
  issued =
      update_first-ids id (assess st confidence rationale)
        (λ i. (k : ℕ) × (k ≤ s.hyp_seq) × (i ≡ numbered (bytes "h-") k)) (λ h. refl) s.hypotheses
        v.issued;
}
perform-IsNumbered (advise r) s u v = IsNumbered-of s _ refl refl v
perform-IsNumbered (say note) s u v = elim (Bool-cases (is_empty note)) [
  | inl blank ↦ rw blank v
  | inr text ↦ rw text (IsNumbered-of s _ refl refl v)
]
perform-IsNumbered (sum_up summary) s u v = IsNumbered-of s _ refl refl v
perform-IsNumbered (use_model usage) s u v = IsNumbered-of s _ refl refl v
perform-IsNumbered (give_up reason) s u v = IsNumbered-of s _ refl refl v
perform-IsNumbered (take_step now) s u v =
    let (same, seq) = consume_step-same now s in IsNumbered-of s _ same seq v

perform_all-IsNumbered :
    (ops : List Op) (s : State) → All IsUnnamed ops → IsNumbered s → IsNumbered (perform_all ops s)
unfolding perform_all
perform_all-IsNumbered [] s u v = v
perform_all-IsNumbered (op ∷ ops) s (u, us) v =
    perform_all-IsNumbered ops (perform op s) us (perform-IsNumbered op s u v)

-- If every proposed hypothesis leaves its id to the state, then after any operations no two
-- recorded hypotheses have the same id, so an assessment by id reaches the one it means.
pub perform_all-HasDistinctIds :
    (ops : List Op) (prior : List Finding) (budget : Budget) (now : ℕ)
    → All IsUnnamed ops
    → HasDistinctIds (perform_all ops (new_state prior budget now)).hypotheses
unfolding new_state
perform_all-HasDistinctIds ops prior budget now u =
    let v =
      perform_all-IsNumbered ops (new_state prior budget now) u
        (record { distinct_ids = tt; issued = tt }) in
    v.distinct_ids
