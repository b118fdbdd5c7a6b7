-- ===== src/Agent/Citations.antt =====
-- internal/agent/state.go, AddHypothesis: what becomes of the references of a hypothesis.
use multi_agent_system_turbo.Base.{
  ℕ, ◌+◌, ◌≡◌, refl, ◌∙◌, inl, inr, Bool, not, ◌&&◌, List, [], ◌∷◌, ◌++◌, Str, bytes, arith,
  if◌then◌else◌, Bool-cases, any, any-append, is_empty, trim_space, length,
}
use multi_agent_system_turbo.Base.Decimal.{numbered}
use multi_agent_system_turbo.Core.Model.{Hypothesis}
use multi_agent_system_turbo.Agent.State.{
  State, add_gap, knows, kept_refs, unresolved_refs, citation_gap, note_unresolved, resolved,
  add_hypothesis,
}

-- A reference with text that names nothing the run has.
abbrev pub is_dangling : State → Str → Bool
is_dangling s r = not (is_empty (trim_space r)) && not (knows s (trim_space r))

abbrev pub is_sound : State → Str → Bool
is_sound s r = not (is_empty (trim_space r)) && knows s (trim_space r)

is_empty-unresolved_refs :
    (s : State) (refs : List Str)
    → is_empty (unresolved_refs s refs) ≡ not (any (is_dangling s) refs)
unfolding unresolved_refs
is_empty-unresolved_refs s [] = refl
is_empty-unresolved_refs s (r ∷ refs) = elim (Bool-cases (is_empty (trim_space r))) [
  | inl blank ↦ rw blank (is_empty-unresolved_refs s refs)
  | inr text ↦ rw text (elim (Bool-cases (knows s (trim_space r))) [
    | inl k ↦ rw k (is_empty-unresolved_refs s refs)
    | inr n ↦ rw n
  ])
]

-- Each reference with text is kept or left out, and none is lost otherwise.
abbrev pub count : (Str → Bool) → List Str → ℕ
count p [] = 0
count p (x ∷ xs) = if p x then count p xs + 1 else count p xs

length-kept_refs :
    (s : State) (refs : List Str) → length (kept_refs s refs) ≡ count (is_sound s) refs
unfolding kept_refs
length-kept_refs s [] = refl
length-kept_refs s (r ∷ refs) = elim (Bool-cases (is_empty (trim_space r))) [
  | inl blank ↦ rw blank (length-kept_refs s refs)
  | inr text ↦ rw text (elim (Bool-cases (knows s (trim_space r))) [
    | inl k ↦ rw k (omega (arith, length-kept_refs s refs))
    | inr n ↦ rw n (length-kept_refs s refs)
  ])
]

is_empty-append : (xs ys : List Str) → is_empty (xs ++ ys) ≡ (is_empty xs && is_empty ys)
is_empty-append [] ys = refl
is_empty-append (x ∷ xs) ys = refl

gaps-note_unresolved :
    (refs : List Str) (s : State)
    → (note_unresolved refs s).gaps
      ≡ (if is_empty refs then s.gaps else (add_gap citation_gap s).gaps)
unfolding note_unresolved
gaps-note_unresolved [] s = refl
gaps-note_unresolved (r ∷ refs) s = refl

unresolved-any :
    (s : State) (h : Hypothesis)
    → is_empty (unresolved_refs s h.supporting ++ unresolved_refs s h.contradicting)
      ≡ not (any (is_dangling s) (h.supporting ++ h.contradicting))
unresolved-any s h =
    rw
      (
        is_empty-append (unresolved_refs s h.supporting) (unresolved_refs s h.contradicting),
        is_empty-unresolved_refs s h.supporting,
        is_empty-unresolved_refs s h.contradicting,
        any-append (is_dangling s) h.supporting h.contradicting,
      )
      (ground arith)

-- Recording a hypothesis adds one gap, of code MAS-2010, exactly when one of its references has
-- text and names neither evidence nor a prior finding of the run, and otherwise no gap; the
-- hypothesis recorded last keeps as many references on each side as have text and name something.
pub add_hypothesis-gaps :
    (h : Hypothesis) (s : State)
    → let s' = (add_hypothesis h s).0 in
      (s'.gaps ≡ (
        if any (is_dangling s) (h.supporting ++ h.contradicting)
        then s.gaps
          ++ record citation_gap { id = numbered (bytes "gap-a") (length s.gaps + 1) } ∷ []
        else s.gaps))
      × (length (resolved s h).supporting ≡ count (is_sound s) h.supporting)
      × (length (resolved s h).contradicting ≡ count (is_sound s) h.contradicting)
      × (s'.hypotheses ≡ s.hypotheses ++ resolved s h ∷ [])
unfolding add_hypothesis add_gap resolved
add_hypothesis-gaps h s = (
  gaps-note_unresolved (unresolved_refs s h.supporting ++ unresolved_refs s h.contradicting) s
      ∙ (rw (unresolved-any s h)
          (elim (Bool-cases (any (is_dangling s) (h.supporting ++ h.contradicting))) [
            | inl d ↦ rw d
            | inr n ↦ rw n
          ])),
  length-kept_refs s h.supporting,
  length-kept_refs s h.contradicting,
  refl,
)
