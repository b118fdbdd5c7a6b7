-- ===== src/Knowledge/Placed.antt =====
-- internal/knowledge/resolve.go: what becomes of each rule of a pack.
use multi_agent_system_turbo.Base.{
  ◌≡◌, inl, inr, true, List, [], ◌∷◌, Str, bytes, ◌==◌, Bool-cases, All, member, is_blank,
}
use multi_agent_system_turbo.Knowledge.Version.{applies_to_version}
use multi_agent_system_turbo.Knowledge.Resolve.{Notes, named, note, gap, count_id, place_rules}

module _ {ℓ} {T : Type ℓ} (id range : T → Str) where
  place_rules-apply :
      (rules : List T) (version kind : Str) (rs : List T) (placed : List Str) (n : Notes)
      → All
          (λ r. applies_to_version (range r) version ≡ true)
          (place_rules id range rules version kind rs placed n).0
  unfolding place_rules
  place_rules-apply rules version kind [] placed n = tt
  place_rules-apply rules version kind (r ∷ rs) placed n =
      elim (Bool-cases (count_id id range (id r) rules == 1)) [
        | inl single ↦ elim (Bool-cases (applies_to_version (range r) version)) [
          | inl fits ↦ rw (single, fits) (fits, place_rules-apply rules version kind rs placed n)
          | inr not_here ↦
              rw (single, not_here)
                (place_rules-apply rules version kind rs placed (note kind (id r) n))
        ]
        | inr several ↦ elim (Bool-cases (is_blank version)) [
          | inl unknown ↦ elim (Bool-cases (member (id r) placed)) [
            | inl before ↦
                rw (several, unknown, before) (place_rules-apply rules version kind rs placed n)
            | inr first ↦
                rw (several, unknown, first)
                  (place_rules-apply rules version kind rs (id r ∷ placed)
                    (gap (bytes "MAS-5018") (named kind (id r)) n))
          ]
          | inr known ↦ elim (Bool-cases (applies_to_version (range r) version)) [
            | inr not_here ↦
                rw (several, known, not_here) (place_rules-apply rules version kind rs placed n)
            | inl fits ↦ elim (Bool-cases (member (id r) placed)) [
              | inl before ↦
                  rw (several, known, fits, before)
                    (place_rules-apply rules version kind rs placed n)
              | inr first ↦
                  rw (several, known, fits, first)
                    (fits, place_rules-apply rules version kind rs (id r ∷ placed) n)
            ]
          ]
        ]
      ]
