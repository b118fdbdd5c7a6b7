-- ===== src/Regexp/Lang.antt =====
-- What a pattern means: the texts that it describes. `matches` decides it.
use multi_agent_system_turbo.Base.{
  ℕ, ◌≡◌, refl, ◌∙◌, ◌⊎◌, inl, inr, true, false, [], ◌∷◌, ◌++◌, Str, arith, Bool-cases,
}
use multi_agent_system_turbo.Regexp.{
  Re, never, empty, one_of, none_of, seq, alt, star, in_ranges, nullable, join_then, join_or,
}

-- Repetition of the texts that `P` describes.
pub data Repeats (P : Str → Type 0) : Str → Type 0 where
  stop : {w : Str} → w ≡ [] → Repeats P w
  more : {w : Str} (u v : Str) → w ≡ u ++ v → P u → Repeats P v → Repeats P w

abbrev pub Lang : Re → Str → Type 0
Lang never w = ⊥
Lang empty w = w ≡ []
Lang (one_of rs) w = (c : ℕ) × (w ≡ c ∷ []) × (in_ranges rs c ≡ true)
Lang (none_of rs) w = (c : ℕ) × (w ≡ c ∷ []) × (in_ranges rs c ≡ false)
Lang (seq r s) w = (u : Str) × (v : Str) × (w ≡ u ++ v) × Lang r u × Lang s v
Lang (alt r s) w = Lang r w ⊎ Lang s w
Lang (star r) w = Repeats (Lang r) w

pub nullable_sound : (r : Re) → nullable r ≡ true → Lang r []
unfolding nullable
nullable_sound never h = cc
nullable_sound empty h = refl
nullable_sound (one_of rs) h = cc
nullable_sound (none_of rs) h = cc
nullable_sound (seq r s) h =
    ([], [], refl, nullable_sound r (ground arith), nullable_sound s (ground arith))
nullable_sound (alt r s) h = elim (Bool-cases (nullable r)) [
  | inl yes_r ↦ inl (nullable_sound r yes_r)
  | inr no_r ↦ inr (nullable_sound s (ground arith))
]
nullable_sound (star r) h = stop refl

append-eq-nil_left : (u v : Str) → [] ≡ u ++ v → [] ≡ u
append-eq-nil_left [] v e = refl
append-eq-nil_left (x ∷ u) v e = cc

append-eq-nil_right : (u v : Str) → [] ≡ u ++ v → [] ≡ v
append-eq-nil_right [] v e = e
append-eq-nil_right (x ∷ u) v e = cc

pub nullable_complete : (r : Re) (w : Str) → [] ≡ w → Lang r w → nullable r ≡ true
unfolding nullable
nullable_complete never w e l = absurd l
nullable_complete empty w e l = refl
nullable_complete (one_of rs) w e (c, p, h) = cc
nullable_complete (none_of rs) w e (c, p, h) = cc
nullable_complete (seq r s) w e (u, v, p, lu, lv) = ground (
  arith,
  nullable_complete r u (append-eq-nil_left u v (e ∙ p)) lu,
  nullable_complete s v (append-eq-nil_right u v (e ∙ p)) lv,
)
nullable_complete (alt r s) w e (inl l) = ground (arith, nullable_complete r w e l)
nullable_complete (alt r s) w e (inr l) = ground (arith, nullable_complete s w e l)
nullable_complete (star r) w e l = refl

pub join_then_sound : (r s : Re) (w : Str) → Lang (join_then r s) w → Lang (seq r s) w
unfolding join_then
join_then_sound never s w l = absurd l
join_then_sound empty s w l = ([], w, refl, refl, l)
join_then_sound (one_of rs) s w l = l
join_then_sound r s w l = l

pub join_then_complete : (r s : Re) (w : Str) → Lang (seq r s) w → Lang (join_then r s) w
unfolding join_then
join_then_complete never s w (u, v, p, lu, lv) = absurd lu
join_then_complete empty s w (u, v, p, lu, lv) = rw (p, lu) lv
join_then_complete (one_of rs) s w l = l
join_then_complete r s w l = l

pub join_or_sound : (r s : Re) (w : Str) → Lang (join_or r s) w → Lang r w ⊎ Lang s w
unfolding join_or
join_or_sound never s w l = inr l
join_or_sound r never w l = inl l
join_or_sound r s w l = l

pub join_or_complete : (r s : Re) (w : Str) → Lang r w ⊎ Lang s w → Lang (join_or r s) w
unfolding join_or
join_or_complete never s w (inl l) = absurd l
join_or_complete never s w (inr l) = l
join_or_complete r never w (inl l) = l
join_or_complete r never w (inr l) = absurd l
join_or_complete r s w l = l
