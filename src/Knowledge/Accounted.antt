-- ===== src/Knowledge/Accounted.antt =====
-- internal/knowledge/resolve.go: resolution drops no rule in silence.
use multi_agent_system_turbo.Base.{
  ◌<◌, ◌≡◌, sym, ap, subst, inl, inr, true, not, ◌&&◌, ◌||◌, List, [], ◌∷◌, Str, bytes, ltb, arith,
  Bool-cases, any, member, str_eq, str_eq_sound, str_eq_complete, is_blank,
}
use multi_agent_system_turbo.Knowledge.Resolve.{
  Notes, named, gap, count_id, place_rules, distinct_ids, note_holes, resolve_rules,
}
use multi_agent_system_turbo.Knowledge.Follows.{noted, noted-gap, has, place_rules-Follows}

module _ {ℓ} {T : Type ℓ} (id range : T → Str) (rules : List T) (version kind : Str) where
  holes_stay :
      (i : Str) (placed ids : List Str) (n : Notes)
      → noted kind i n ≡ true
      → noted kind i (note_holes id range rules version kind placed ids n) ≡ true
  unfolding note_holes
  holes_stay i placed [] n h = h
  holes_stay i placed (j ∷ ids) n h =
      elim (Bool-cases
        (ltb 1 (count_id id range j rules) && (not (member j placed) && not (is_blank version)))) [
          | inr filled ↦ rw filled (holes_stay i placed ids n h)
          | inl hole ↦
              let e = noted-gap kind i (bytes "MAS-5017") j n in
              rw hole (
                holes_stay i placed ids (gap (bytes "MAS-5017") (named kind j) n)
                  (ground (arith, e)))
        ]

  holes_noted :
      (i : Str) (placed ids : List Str) (n : Notes)
      → member i ids ≡ true
      → (ltb 1 (count_id id range i rules) && (not (member i placed) && not (is_blank version)))
        ≡ true
      → noted kind i (note_holes id range rules version kind placed ids n) ≡ true
  unfolding note_holes
  holes_noted i placed [] n m open_hole = absurd (ground arith)
  holes_noted i placed (j ∷ ids) n m open_hole = elim (Bool-cases (str_eq i j)) [
    | inl here ↦
        let e : i ≡ j = str_eq_sound i j here in
        let hole =
          subst
            (λ x.
              (ltb 1 (count_id id range x rules)
                && (not (member x placed) && not (is_blank version)))
              ≡ true)
            e open_hole in
        let g = noted-gap kind i (bytes "MAS-5017") j n in
        let s = str_eq_complete (named kind i) (named kind j) (ap (named kind) e) in
        rw hole
          (holes_stay i placed ids (gap (bytes "MAS-5017") (named kind j) n) (ground (arith, g, s)))
    | inr other ↦
        let rest = λ (k : Notes). holes_noted i placed ids k (ground arith) open_hole in
        elim (Bool-cases (
          ltb 1 (count_id id range j rules) && (not (member j placed) && not (is_blank version)))) [
            | inr filled ↦ rw filled (rest n)
            | inl hole ↦ rw hole (rest (gap (bytes "MAS-5017") (named kind j) n))
          ]
  ]

  distinct_ids-has :
      (i : Str) (seen : List Str) (rs : List T)
      → has id range rules version kind i rs ≡ true
      → (member i seen || member i (distinct_ids id range seen rs)) ≡ true
  unfolding distinct_ids
  distinct_ids-has i seen [] h = absurd (ground arith)
  distinct_ids-has i seen (r ∷ rs) h = elim (Bool-cases (str_eq (id r) i)) [
    | inl here ↦
        let e = str_eq_sound (id r) i here in
        let s = str_eq_complete i (id r) (sym e) in
        let m = ap (λ x. member x seen) e in ground (arith, m, s)
    | inr other ↦
        let one = distinct_ids-has i seen rs (ground arith) in
        let two = distinct_ids-has i (id r ∷ seen) rs (ground arith) in ground (arith, one, two)
  ]

  count_id-has :
      (i : Str) (rs : List T)
      → has id range rules version kind i rs ≡ true
      → 0 < count_id id range i rs
  unfolding count_id
  count_id-has i [] h = absurd (ground arith)
  count_id-has i (r ∷ rs) h = ground (arith, count_id-has i rs)

-- Whatever the order in which the map of ids is read: each rule of the pack has its id among the
-- rules kept, or is itemised as skipped, or has a gap that names it.
pub resolve_rules-accounts {ℓ} :
    {T : Type ℓ} (id range : T → Str) (map_order : List Str → List Str) (rules : List T)
    (version kind : Str) (n : Notes) (i : Str)
    → ((j : Str) (ids : List Str) → member j ids ≡ true → member j (map_order ids) ≡ true)
    → any (λ r. str_eq (id r) i) rules ≡ true
    → (any (λ r. str_eq (id r) i) (resolve_rules id range map_order rules version kind n).0
        || noted kind i (resolve_rules id range map_order rules version kind n).1)
      ≡ true
unfolding resolve_rules
resolve_rules-accounts id range map_order rules version kind n i keeps h =
    let placed = place_rules id range rules version kind rules [] n in
    let f = place_rules-Follows id range rules version kind i rules [] n in
    let ids = map_order (distinct_ids id range [] rules) in
    let listed =
      keeps i (distinct_ids id range [] rules)
        (distinct_ids-has id range rules version kind i [] rules h) in
    let some_of = count_id-has id range rules version kind i rules h in
    let stays = holes_stay id range rules version kind i placed.1.0 ids placed.1.1 in
    let holes = holes_noted id range rules version kind i placed.1.0 ids placed.1.1 listed in
    ground (arith, f.places, f.covers, stays, holes, some_of)
