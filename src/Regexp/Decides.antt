-- ===== src/Regexp/Decides.antt =====
-- The matcher decides the meaning of a pattern.
use multi_agent_system_turbo.Base.{
  ℕ, ◌≡◌, refl, sym, ap, ◌∙◌, ◌↔◌, inl, inr, true, false, [], ◌∷◌, ◌++◌, Str, Bool-cases, subst,
  if◌then◌else◌,
}
use multi_agent_system_turbo.Regexp.{
  Re, never, empty, one_of, none_of, seq, alt, star, in_ranges, nullable, join_then, deriv, derivs,
  matches,
}
use multi_agent_system_turbo.Regexp.Lang.{
  Repeats, stop, more, Lang, nullable_sound, nullable_complete, join_then_sound, join_then_complete,
  join_or_sound, join_or_complete,
}

deriv_sound : (r : Re) (c : ℕ) (w : Str) → Lang (deriv r c) w → Lang r (c ∷ w)
unfolding deriv
deriv_sound never c w l = absurd l
deriv_sound empty c w l = absurd l
deriv_sound (one_of rs) c w l = elim (Bool-cases (in_ranges rs c)) [
  | inl h ↦ (c, ap (λ t. c ∷ t) (rw h at l), h)
  | inr h ↦ absurd (rw h at l)
]
deriv_sound (none_of rs) c w l = elim (Bool-cases (in_ranges rs c)) [
  | inl h ↦ absurd (rw h at l)
  | inr h ↦ (c, ap (λ t. c ∷ t) (rw h at l), h)
]
deriv_sound (seq r s) c w l =
    elim (join_or_sound (join_then (deriv r c) s) (if nullable r then deriv s c else never) w l) [
      | inl a ↦
          let (u, v, p, lu, lv) = join_then_sound (deriv r c) s w a in
          (c ∷ u, v, ap (λ t. c ∷ t) p, deriv_sound r c u lu, lv)
      | inr b ↦ elim (Bool-cases (nullable r)) [
        | inl h ↦ ([], c ∷ w, refl, nullable_sound r h, deriv_sound s c w (rw h at b))
        | inr h ↦ absurd (rw h at b)
      ]
    ]
deriv_sound (alt r s) c w l = elim (join_or_sound (deriv r c) (deriv s c) w l) [
  | inl a ↦ inl (deriv_sound r c w a)
  | inr b ↦ inr (deriv_sound s c w b)
]
deriv_sound (star r) c w l =
    let (u, v, p, lu, lv) = join_then_sound (deriv r c) (star r) w l in
    more (c ∷ u) v (ap (λ t. c ∷ t) p) (deriv_sound r c u lu) lv

-- The first part that is not empty, of a repetition that is not.
Repeats-cons :
    {P : Str → Type 0} {x : Str} (c : ℕ) (w : Str)
    → x ≡ c ∷ w
    → Repeats P x
    → (u : Str) × (v : Str) × (w ≡ u ++ v) × P (c ∷ u) × Repeats P v
Repeats-cons c w e (stop n) = cc
Repeats-cons {P} c w e (more [] v p h k) = Repeats-cons c w (sym p ∙ e) k
Repeats-cons {P} c w e (more (d ∷ u) v p h k) = (u, v, cc, subst (λ a. P (a ∷ u)) (cc) h, k)

deriv_complete : (r : Re) (c : ℕ) (w x : Str) → x ≡ c ∷ w → Lang r x → Lang (deriv r c) w
unfolding deriv
deriv_complete never c w x e l = absurd l
deriv_complete empty c w x e l = cc
deriv_complete (one_of rs) c w x e (d, p, h) =
    let same : d ≡ c = cc in let here : in_ranges rs c ≡ true = rw (← same) h in rw here (cc)
deriv_complete (none_of rs) c w x e (d, p, h) =
    let same : d ≡ c = cc in let here : in_ranges rs c ≡ false = rw (← same) h in rw here (cc)
deriv_complete (seq r s) c w x e ([], v, p, lu, lv) =
    let h = nullable_complete r [] refl lu in
    join_or_complete (join_then (deriv r c) s) (if nullable r then deriv s c else never) w
      (inr (rw h (deriv_complete s c w v (sym p ∙ e) lv)))
deriv_complete (seq r s) c w x e (d ∷ u, v, p, lu, lv) =
    join_or_complete (join_then (deriv r c) s) (if nullable r then deriv s c else never) w (
      inl (join_then_complete (deriv r c) s w (u, v, cc, deriv_complete r c u (d ∷ u) (cc) lu, lv)))
deriv_complete (alt r s) c w x e (inl l) =
    join_or_complete (deriv r c) (deriv s c) w (inl (deriv_complete r c w x e l))
deriv_complete (alt r s) c w x e (inr l) =
    join_or_complete (deriv r c) (deriv s c) w (inr (deriv_complete s c w x e l))
deriv_complete (star r) c w x e l =
    let (u, v, p, lu, lv) = Repeats-cons c w e l in
    join_then_complete (deriv r c) (star r) w (u, v, p, deriv_complete r c u (c ∷ u) refl lu, lv)

pub matches_sound : (r : Re) (w : Str) → matches r w ≡ true → Lang r w
unfolding matches
matches_sound r [] h = nullable_sound r h
matches_sound r (c ∷ w) h = deriv_sound r c w (matches_sound (deriv r c) w h)

pub matches_complete : (r : Re) (w : Str) → Lang r w → matches r w ≡ true
unfolding matches
matches_complete r [] l = nullable_complete r [] refl l
matches_complete r (c ∷ w) l = matches_complete (deriv r c) w (deriv_complete r c w (c ∷ w) refl l)

-- A text passes the test exactly when the pattern describes it.
pub matches_iff : (r : Re) (w : Str) → (matches r w ≡ true) ↔ Lang r w
matches_iff r w = (matches_sound r w, matches_complete r w)

-- A text that begins with `p` is matched by what is left of the pattern after `p`.
pub matches-append : (r : Re) (p w : Str) → matches r (p ++ w) ≡ matches (derivs r p) w
unfolding matches
matches-append r [] w = refl
matches-append r (c ∷ p) w = matches-append (deriv r c) p w
