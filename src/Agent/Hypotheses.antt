-- ===== src/Agent/Hypotheses.antt =====
-- internal/agent/state.go, UpdateHypothesis: an assessment and the lookup of a hypothesis by id.
use multi_agent_system_turbo.Base.{
  ◌≡◌, ◌≢◌, refl, ◌↔◌, inl, inr, false, Option, none, some, List, [], ◌∷◌, Str, arith,
  if◌then◌else◌, Bool-cases, any, str_eq, str_eq_sound,
}
use multi_agent_system_turbo.Base.Int.{ℤ}
use multi_agent_system_turbo.Core.Model.{HypothesisStatus, Hypothesis}
use multi_agent_system_turbo.Agent.State.{State, update_first, has_id, assess, update_hypothesis}

abbrev pub find_hypothesis : Str → List Hypothesis → Option Hypothesis
find_hypothesis id [] = none
find_hypothesis id (h ∷ hs) = if str_eq h.id id then some h else find_hypothesis id hs

abbrev pub assessed : (Hypothesis → Hypothesis) → Option Hypothesis → Option Hypothesis
assessed f none = none
assessed f (some h) = some (f h)

update_first-find :
    (id : Str) (f : Hypothesis → Hypothesis)
    → ((h : Hypothesis) → (f h).id ≡ h.id)
    → (hs : List Hypothesis)
    → find_hypothesis id (update_first id f hs) ≡ assessed f (find_hypothesis id hs)
unfolding update_first
update_first-find id f same [] = refl
update_first-find id f same (h ∷ hs) = elim (Bool-cases (str_eq h.id id)) [
  | inl e ↦ rw e (rw (same h) (rw e))
  | inr n ↦ rw n (rw n (update_first-find id f same hs))
]

update_first-find_other :
    (id other : Str) (f : Hypothesis → Hypothesis)
    → ((h : Hypothesis) → (f h).id ≡ h.id)
    → str_eq id other ≡ false
    → (hs : List Hypothesis)
    → find_hypothesis other (update_first id f hs) ≡ find_hypothesis other hs
unfolding update_first
update_first-find_other id other f same d [] = refl
update_first-find_other id other f same d (h ∷ hs) = elim (Bool-cases (str_eq h.id id)) [
  | inl e ↦
      let unlike : str_eq h.id other ≡ false = rw (str_eq_sound h.id id e) d in
      rw e (rw (same h) (rw unlike))
  | inr n ↦ rw n (elim (Bool-cases (str_eq h.id other)) [
    | inl e ↦ rw e
    | inr m ↦ rw m (update_first-find_other id other f same d hs)
  ])
]

unequal : (s t : Str) → s ≢ t → str_eq s t ≡ false
unequal s t d = elim (Bool-cases (str_eq s t)) [
  | inl e ↦ elim (d (str_eq_sound s t e)) [ ]
  | inr n ↦ n
]

found_iff :
    (id : Str) (hs : List Hypothesis)
    → (any (has_id id) hs ≡ false) ↔ (find_hypothesis id hs ≡ none)
found_iff id [] = ground arith
found_iff id (h ∷ hs) =
    let rest = found_iff id hs in
    elim (Bool-cases (str_eq h.id id)) [ inl e ↦ rw e (ground arith) | inr n ↦ rw n rest ]

-- An assessment changes the hypothesis that a lookup by its id finds, in the way stated, and leaves
-- the lookup of every other id; it reports false exactly when the lookup finds nothing.
pub update_hypothesis-find :
    (id : Str) (st : HypothesisStatus) (confidence : ℤ) (rationale : Str) (s : State) (other : Str)
    → id ≢ other
    → let (s', found) = update_hypothesis id st confidence rationale s in
      (find_hypothesis id s'.hypotheses
        ≡ assessed (assess st confidence rationale) (find_hypothesis id s.hypotheses))
      × (find_hypothesis other s'.hypotheses ≡ find_hypothesis other s.hypotheses)
      × ((found ≡ false) ↔ (find_hypothesis id s.hypotheses ≡ none))
unfolding update_hypothesis assess
update_hypothesis-find id st confidence rationale s other d = (
  update_first-find id (assess st confidence rationale) (λ h. refl) s.hypotheses,
  update_first-find_other id other (assess st confidence rationale) (λ h. refl) (unequal id other d)
      s.hypotheses,
  found_iff id s.hypotheses,
)
