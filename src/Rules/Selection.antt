-- ===== src/Rules/Selection.antt =====
-- internal/knowledge/pack.go, MatchingPlaybooks: the playbooks that a symptom activates.
use multi_agent_system_turbo.Base.{
  ℕ, ◌+◌, Bool, not, ◌&&◌, ◌||◌, List, [], ◌∷◌, map, Str, if◌then◌else◌, ltb, ◌==◌, is_empty, any,
  to_lower, contains_text, str_lt,
}
use multi_agent_system_turbo.Base.Sort.{sort}
use multi_agent_system_turbo.Rules.Playbook.{Playbook}

-- A text of the playbook occurs in the symptom, whatever the case; an empty one does not count.
abbrev pub occurs_in : Str → Str → Bool
occurs_in symptom m = not (is_empty m) && contains_text (to_lower symptom) (to_lower m)

unfoldable pub score_of : Str → List Str → ℕ
score_of symptom [] = 0
score_of symptom (m ∷ ms) =
    if occurs_in symptom m then score_of symptom ms + 1 else score_of symptom ms

module _ {V : Type 0} where
  unfoldable pub scored : Str → List (Playbook V) → List (ℕ × Playbook V)
  unfolding score_of
  scored symptom [] = []
  scored symptom (pb ∷ pbs) =
      let rest = scored symptom pbs in
      let score = score_of symptom pb.matches in
      if is_empty pb.matches
      then (0, pb) ∷ rest
      else if ltb 0 score
      then (score, pb) ∷ rest
      else rest

  abbrev pub comes_first : ℕ × Playbook V → ℕ × Playbook V → Bool
  comes_first (s, p) (t, q) = if s == t then str_lt p.id q.id else ltb t s

  unfoldable pub matching_playbooks : Str → List (Playbook V) → List (Playbook V)
  unfolding scored
  matching_playbooks symptom pbs = map (λ x. x.1) (sort comes_first (scored symptom pbs))

  -- The playbook names no text, or one that occurs.
  abbrev pub is_relevant : Str → Playbook V → Bool
  is_relevant symptom pb = is_empty pb.matches || any (occurs_in symptom) pb.matches

  -- A playbook with its score.
  abbrev pub with_score : Str → Playbook V → ℕ × Playbook V
  with_score symptom pb = (score_of symptom pb.matches, pb)

  -- The order of two playbooks for a symptom.
  abbrev pub precedes : Str → Playbook V → Playbook V → Bool
  precedes symptom p q = comes_first (with_score symptom p) (with_score symptom q)
