-- ===== src/Regexp/Slashes.antt =====
-- How many slashes a text of a pattern can hold.
use multi_agent_system_turbo.Base.{
  ℕ, ◌+◌, ◌≤◌, ◌≡◌, inl, inr, Bool, true, false, ◌&&◌, [], ◌∷◌, ◌++◌, Str, arith, if◌then◌else◌,
  ◌==◌, Bool-cases, ==_iff, and-true_left, and-true_right,
}
use multi_agent_system_turbo.Regexp.{Re, never, empty, one_of, none_of, seq, alt, star, in_ranges}
use multi_agent_system_turbo.Regexp.Lang.{Repeats, stop, more, Lang}

abbrev pub count_slashes : Str → ℕ
count_slashes [] = 0
count_slashes (c ∷ s) = (if c == b'/' then 1 else 0) + count_slashes s

-- A number of slashes that no text of the pattern exceeds, if `is_bounded` holds.
unfoldable pub max_slashes : Re → ℕ
max_slashes never = 0
max_slashes empty = 0
max_slashes (one_of rs) = if in_ranges rs b'/' then 1 else 0
max_slashes (none_of rs) = if in_ranges rs b'/' then 0 else 1
max_slashes (seq r s) = max_slashes r + max_slashes s
max_slashes (alt r s) = max_slashes r + max_slashes s
max_slashes (star r) = 0

unfoldable pub is_bounded : Re → Bool
unfolding max_slashes
is_bounded never = true
is_bounded empty = true
is_bounded (one_of rs) = true
is_bounded (none_of rs) = true
is_bounded (seq r s) = is_bounded r && is_bounded s
is_bounded (alt r s) = is_bounded r && is_bounded s
is_bounded (star r) = is_bounded r && (max_slashes r == 0)

pub count_slashes-append : (u v : Str) → count_slashes (u ++ v) ≡ count_slashes u + count_slashes v
count_slashes-append [] v = omega arith
count_slashes-append (c ∷ u) v = omega (arith, count_slashes-append u v)

Repeats-no_slash :
    {P : Str → Type 0}
    → ((w : Str) → P w → count_slashes w ≤ 0)
    → (w : Str) → Repeats P w
    → count_slashes w ≤ 0
Repeats-no_slash h w (stop e) = rw e (omega arith)
Repeats-no_slash h w (more u v e p k) =
    rw e (omega (arith, count_slashes-append u v, h u p, Repeats-no_slash h v k))

-- Where the class takes a slash, its bound is 1; where it takes none, it adds no slash.
slash_if :
    (admits : ℕ → Bool) (c : ℕ)
    → admits c ≡ true
    → count_slashes (c ∷ []) ≤ (if admits b'/' then 1 else 0)
slash_if admits c h = elim (Bool-cases (c == b'/')) [
  | inl same ↦
      let e : c ≡ b'/' = (==_iff c b'/').0 same in
      let slash : admits b'/' ≡ true = rw e at h in rw (e, slash) (omega arith)
  | inr other ↦ rw other (omega arith)
]

slash_unless :
    (admits : ℕ → Bool) (c : ℕ)
    → admits c ≡ false
    → count_slashes (c ∷ []) ≤ (if admits b'/' then 0 else 1)
slash_unless admits c h = elim (Bool-cases (c == b'/')) [
  | inl same ↦
      let e : c ≡ b'/' = (==_iff c b'/').0 same in
      let slash : admits b'/' ≡ false = rw e at h in rw (e, slash) (omega arith)
  | inr other ↦ rw other (omega arith)
]

pub max_slashes_bound :
    (r : Re) (w : Str) → is_bounded r ≡ true → Lang r w → count_slashes w ≤ max_slashes r
unfolding is_bounded
max_slashes_bound never w b l = absurd l
max_slashes_bound empty w b l = rw l (omega arith)
max_slashes_bound (one_of rs) w b (c, p, h) = rw p (slash_if (in_ranges rs) c h)
max_slashes_bound (none_of rs) w b (c, p, h) = rw p (slash_unless (in_ranges rs) c h)
max_slashes_bound (seq r s) w b (u, v, p, lu, lv) = rw p (
    omega (
      arith,
      count_slashes-append u v,
      max_slashes_bound r u (and-true_left _ _ b) lu,
      max_slashes_bound s v (and-true_right _ _ b) lv,
    ))
max_slashes_bound (alt r s) w b (inl l) =
    omega (arith, max_slashes_bound r w (and-true_left _ _ b) l)
max_slashes_bound (alt r s) w b (inr l) =
    omega (arith, max_slashes_bound s w (and-true_right _ _ b) l)
max_slashes_bound (star r) w b l =
    let z : max_slashes r ≡ 0 =
      (==_iff (max_slashes r) 0).0 (and-true_right (is_bounded r) (max_slashes r == 0) b) in
    Repeats-no_slash (λ u lu. omega (arith, max_slashes_bound r u (and-true_left _ _ b) lu, z)) w l
