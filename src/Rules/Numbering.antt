-- ===== src/Rules/Numbering.antt =====
-- internal/rules/engine.go, RunAll: the ids of the findings, over all the playbooks of a run.
use multi_agent_system_turbo.Base.{
  ℕ, ◌+◌, ◌≡◌, refl, subst, inl, inr, List, [], ◌∷◌, ◌++◌, Str, bytes, arith, length, length-append,
  Option-cases,
}
use multi_agent_system_turbo.Base.Decimal.{numbered}
use multi_agent_system_turbo.Core.Model.{Finding, unsupported}
use multi_agent_system_turbo.Rules.Playbook.{Playbook}
use multi_agent_system_turbo.Rules.Output.{Services, Output, no_output, add_gap, stamp, merge}
use multi_agent_system_turbo.Rules.Engine.{run, run_selected}

length-stamp : (seq : ℕ) (fs : List Finding) → length (stamp seq fs) ≡ length fs
unfolding stamp
length-stamp seq [] = refl
length-stamp seq (f ∷ fs) = omega (arith, length-stamp (seq + 1) fs)

-- Findings that carry the ids of the counter, in order.
abbrev pub IsCounted : ℕ → List Finding → Type 0
IsCounted seq [] = Unit
IsCounted seq (f ∷ fs) = (f.id ≡ numbered (bytes "f-") (seq + 1)) × IsCounted (seq + 1) fs

stamp-IsCounted : (seq : ℕ) (fs : List Finding) → IsCounted seq (stamp seq fs)
unfolding stamp
stamp-IsCounted seq [] = tt
stamp-IsCounted seq (f ∷ fs) = (refl, stamp-IsCounted (seq + 1) fs)

append-IsCounted :
    (seq n : ℕ) (fs gs : List Finding)
    → IsCounted seq fs
    → n ≡ seq + length fs
    → IsCounted n gs
    → IsCounted seq (fs ++ gs)
append-IsCounted seq n [] gs h e k = subst (λ m. IsCounted m gs) (omega (arith, e)) k
append-IsCounted seq n (f ∷ fs) gs (p, h) e k =
    (p, append-IsCounted (seq + 1) n fs gs h (omega (arith, e)) k)

module _ {V : Type 0} (services : Services V) (language : Str) (max_steps : ℕ) where
  run_selected-IsCounted_from :
      (pbs : List (Playbook V)) (seq : ℕ) (merged : Output)
      → seq ≡ length merged.findings
      → IsCounted 0 merged.findings
      → IsCounted 0 (run_selected services language max_steps pbs seq merged).findings
  unfolding run_selected
  run_selected-IsCounted_from [] seq merged e h = h
  run_selected-IsCounted_from (pb ∷ pbs) seq merged e h =
      let out = (run services language max_steps pb).0 in
      elim (Option-cases (run services language max_steps pb).1) [
        | inr (code, failed) ↦
            rw (run_selected, failed)
              (run_selected-IsCounted_from pbs seq
                (add_gap (bytes "playbook " ++ pb.id) unsupported code merged) e h)
        | inl done ↦
            rw (run_selected, done)
              (run_selected-IsCounted_from pbs (seq + length out.findings)
                (merge merged (stamp seq out.findings) out)
                (omega (
                  arith,
                  e,
                  length-append merged.findings (stamp seq out.findings),
                  length-stamp seq out.findings,
                ))
                (append-IsCounted 0 seq merged.findings (stamp seq out.findings) h
                  (omega (arith, e)) (stamp-IsCounted seq out.findings)))
      ]

  -- The findings of all the playbooks that a symptom selects carry the ids f-1, f-2 and so on
  -- without a gap, whichever of the playbooks fail and whatever ids the steps gave.
  pub run_selected-IsCounted :
      (pbs : List (Playbook V))
      → IsCounted 0 (run_selected services language max_steps pbs 0 no_output).findings
  run_selected-IsCounted pbs = run_selected-IsCounted_from pbs 0 no_output refl tt
