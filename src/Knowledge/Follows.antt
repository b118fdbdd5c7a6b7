-- ===== src/Knowledge/Follows.antt =====
-- internal/knowledge/resolve.go: what the loop over the rules does with each of them.
use multi_agent_system_turbo.Base.{
  ◌≡◌, refl, sym, ap, subst, inl, inr, Bool, true, false, not, ◌&&◌, ◌||◌, List, [], ◌∷◌, Str,
  bytes, ◌==◌, arith, Bool-cases, any, member, str_eq, str_eq_sound, str_eq_complete, is_blank,
  any-append,
}
use multi_agent_system_turbo.Knowledge.Version.{applies_to_version}
use multi_agent_system_turbo.Knowledge.Resolve.{Notes, named, note, gap, count_id, place_rules}

-- A rule of that id is among those skipped, or a gap names it.
unfoldable pub noted : Str → Str → Notes → Bool
noted kind i n = member (named kind i) n.skipped || any (λ g. str_eq (named kind i) g.1) n.gaps

noted-note :
    (kind i j : Str) (n : Notes)
    → noted kind i (note kind j n) ≡ (noted kind i n || str_eq (named kind i) (named kind j))
unfolding noted
noted-note kind i j n =
    let e = any-append (str_eq (named kind i)) n.skipped (named kind j ∷ []) in ground (arith, e)

pub noted-gap :
    (kind i code j : Str) (n : Notes)
    → noted kind i (gap code (named kind j) n)
      ≡ (noted kind i n || str_eq (named kind i) (named kind j))
unfolding noted
noted-gap kind i code j n =
    let e =
      any-append (λ (g : Str × Str). str_eq (named kind i) g.1) n.gaps
        ((code, named kind j) ∷ []) in
    ground (arith, e)

module _ {ℓ} {T : Type ℓ} (id range : T → Str) (rules : List T) (version kind : Str) where
  abbrev pub has : Str → List T → Bool
  has i rs = any (λ r. str_eq (id r) i) rs

  abbrev pub several : Str → Bool
  several i = not (count_id id range i rules == 1) && not (is_blank version)

  -- Notes stay; what is placed is kept or noted; and each rule is kept, noted, placed before, or
  -- one of several.
  pub record Follows (i : Str) (rs : List T) (placed : List Str) (n : Notes)
      (r : List T × (List Str × Notes)) : Type 0 where
    pub stays : (not (noted kind i n) || noted kind i r.1.1) ≡ true
    pub places :
        (not (member i r.1.0) || (member i placed || (has i r.0 || noted kind i r.1.1))) ≡ true
    pub covers :
        (not (has i rs) || ((has i r.0 || noted kind i r.1.1) || (member i placed || several i)))
        ≡ true

  same_id :
      (i : Str) (r : T)
      → str_eq (id r) i ≡ true
      → ((count_id id range (id r) rules == 1) ≡ (count_id id range i rules == 1))
        × (str_eq (named kind i) (named kind (id r)) ≡ true)
  same_id i r h =
      let e = str_eq_sound (id r) i h in
      (
        ap (λ x. count_id id range x rules == 1) e,
        str_eq_complete (named kind i) (named kind (id r)) (ap (named kind) (sym e)),
      )

  member_same :
      (i : Str) (r : T) (placed : List Str)
      → member (id r) placed ≡ true
      → str_eq (id r) i ≡ true
      → member i placed ≡ true
  member_same i r placed h e = subst (λ x. member x placed ≡ true) (str_eq_sound (id r) i e) h

  turned : (i : Str) (r : T) → str_eq i (id r) ≡ true → str_eq (id r) i ≡ true
  turned i r h = str_eq_complete (id r) i (sym (str_eq_sound i (id r) h))

  abbrev Placing : Type ℓ
  Placing = List T × (List Str × Notes)

  abbrev with_rule : T → Placing → Placing
  with_rule r (out, rest) = (r ∷ out, rest)

  Follows-kept :
      (i : Str) (r : T) (rs : List T) (placed : List Str) (n : Notes) (p : Placing)
      → Follows i rs placed n p
      → Follows i (r ∷ rs) placed n (with_rule r p)
  Follows-kept i r rs placed n p f = record {
    stays = f.stays;
    places = ground (arith, f.places);
    covers = ground (arith, f.covers);
  }

  Follows-note :
      (i : Str) (r : T) (rs : List T) (placed : List Str) (n : Notes) (p : Placing)
      → Follows i rs placed (note kind (id r) n) p
      → Follows i (r ∷ rs) placed n p
  Follows-note i r rs placed n p f =
      let e = noted-note kind i (id r) n in
      let same = same_id i r in
      record {
        stays = ground (arith, f.stays, e);
        places = f.places;
        covers = ground (arith, f.covers, f.stays, e, same);
      }

  Follows-before :
      (i : Str) (r : T) (rs : List T) (placed : List Str) (n : Notes) (p : Placing)
      → member (id r) placed ≡ true
      → Follows i rs placed n p
      → Follows i (r ∷ rs) placed n p
  Follows-before i r rs placed n p before f =
      let m = member_same i r placed before in
      record { stays = f.stays; places = f.places; covers = ground (arith, f.covers, m) }

  Follows-gap :
      (i : Str) (r : T) (rs : List T) (placed : List Str) (n : Notes) (p : Placing)
      → Follows i rs (id r ∷ placed) (gap (bytes "MAS-5018") (named kind (id r)) n) p
      → Follows i (r ∷ rs) placed n p
  Follows-gap i r rs placed n p f =
      let e = noted-gap kind i (bytes "MAS-5018") (id r) n in
      let same = same_id i r in
      let turn = turned i r in
      record {
        stays = ground (arith, f.stays, e);
        places = ground (arith, f.places, f.stays, e, same, turn);
        covers = ground (arith, f.covers, f.stays, e, same, turn);
      }

  Follows-several :
      (i : Str) (r : T) (rs : List T) (placed : List Str) (n : Notes) (p : Placing)
      → (count_id id range (id r) rules == 1) ≡ false
      → is_blank version ≡ false
      → Follows i rs placed n p
      → Follows i (r ∷ rs) placed n p
  Follows-several i r rs placed n p multi known f =
      let same = same_id i r in
      record { stays = f.stays; places = f.places; covers = ground (arith, f.covers, same) }

  Follows-chosen :
      (i : Str) (r : T) (rs : List T) (placed : List Str) (n : Notes) (p : Placing)
      → Follows i rs (id r ∷ placed) n p
      → Follows i (r ∷ rs) placed n (with_rule r p)
  Follows-chosen i r rs placed n p f =
      let turn = turned i r in
      record {
        stays = f.stays;
        places = ground (arith, f.places, turn);
        covers = ground (arith, f.covers, turn);
      }

  pub place_rules-Follows :
      (i : Str) (rs : List T) (placed : List Str) (n : Notes)
      → Follows i rs placed n (place_rules id range rules version kind rs placed n)
  unfolding place_rules
  place_rules-Follows i [] placed n = record {
    stays = ground arith;
    places = ground arith;
    covers = refl;
  }
  place_rules-Follows i (r ∷ rs) placed n =
      elim (Bool-cases (count_id id range (id r) rules == 1)) [
        | inl single ↦ elim (Bool-cases (applies_to_version (range r) version)) [
          | inl fits ↦
              rw (single, fits) (Follows-kept i r rs placed n _ (place_rules-Follows i rs placed n))
          | inr not_here ↦
              rw (single, not_here)
                (Follows-note i r rs placed n _
                  (place_rules-Follows i rs placed (note kind (id r) n)))
        ]
        | inr multi ↦ elim (Bool-cases (is_blank version)) [
          | inl unknown ↦ elim (Bool-cases (member (id r) placed)) [
            | inl before ↦
                rw (multi, unknown, before)
                  (Follows-before i r rs placed n _ before (place_rules-Follows i rs placed n))
            | inr first ↦
                rw (multi, unknown, first)
                  (Follows-gap i r rs placed n _ (
                    place_rules-Follows i rs (id r ∷ placed)
                      (gap (bytes "MAS-5018") (named kind (id r)) n)))
          ]
          | inr known ↦ elim (Bool-cases (applies_to_version (range r) version)) [
            | inr not_here ↦
                rw (multi, known, not_here)
                  (Follows-several i r rs placed n _ multi known
                    (place_rules-Follows i rs placed n))
            | inl fits ↦ elim (Bool-cases (member (id r) placed)) [
              | inl before ↦
                  rw (multi, known, fits, before)
                    (Follows-before i r rs placed n _ before (place_rules-Follows i rs placed n))
              | inr first ↦
                  rw (multi, known, fits, first)
                    (Follows-chosen i r rs placed n _ (place_rules-Follows i rs (id r ∷ placed) n))
            ]
          ]
        ]
      ]
