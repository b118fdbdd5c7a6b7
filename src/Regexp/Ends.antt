-- ===== src/Regexp/Ends.antt =====
-- Which byte a text of a pattern can end in.
use mathlib.Core.List.{append-nil}
use multi_agent_system_turbo.Base.{
  ℕ, ◌≡◌, ◌≢◌, refl, sym, ap, ◌∙◌, inl, inr, Bool, true, false, not, ◌&&◌, ◌||◌, Option, none, some,
  [], ◌∷◌, ◌++◌, Str, arith, and-true_left, and-true_right,
}
use multi_agent_system_turbo.Regexp.{
  Re, never, empty, one_of, none_of, seq, alt, star, in_ranges, nullable,
}
use multi_agent_system_turbo.Regexp.Lang.{Repeats, stop, more, Lang, nullable_complete}

unfoldable pub last_byte : Str → Option ℕ
last_byte [] = none
last_byte (c ∷ []) = some c
last_byte (c ∷ d ∷ s) = last_byte (d ∷ s)

pub last_byte-append : (u : Str) (c : ℕ) (v : Str) → last_byte (u ++ c ∷ v) ≡ last_byte (c ∷ v)
unfolding last_byte
last_byte-append [] c v = refl
last_byte-append (d ∷ []) c v = refl
last_byte-append (d ∷ e ∷ u) c v = last_byte-append (e ∷ u) c v

-- No text of the pattern ends in `c`.
unfoldable pub never_ends : ℕ → Re → Bool
unfolding nullable
never_ends c never = true
never_ends c empty = true
never_ends c (one_of rs) = not (in_ranges rs c)
never_ends c (none_of rs) = in_ranges rs c
never_ends c (seq r s) = never_ends c s && (not (nullable s) || never_ends c r)
never_ends c (alt r s) = never_ends c r && never_ends c s
never_ends c (star r) = never_ends c r

Repeats-never_ends :
    {P : Str → Type 0} (c : ℕ)
    → ((w : Str) → P w → last_byte w ≢ some c)
    → (w : Str) → Repeats P w
    → last_byte w ≢ some c
unfolding last_byte
Repeats-never_ends c h w (stop e) q = cc
Repeats-never_ends c h w (more u [] e p k) q = h u p (rw (append-nil u) at (rw e at q))
Repeats-never_ends c h w (more u (d ∷ v) e p k) q =
    Repeats-never_ends c h (d ∷ v) k (sym (last_byte-append u d v) ∙ (rw e at q))

pub never_ends_sound :
    (c : ℕ) (r : Re) (w : Str) → never_ends c r ≡ true → Lang r w → last_byte w ≢ some c
unfolding never_ends last_byte
never_ends_sound c never w b l q = l
never_ends_sound c empty w b l q = cc (ap last_byte l)
never_ends_sound c (one_of rs) w b (d, p, h) q =
    let same : some d ≡ some c = sym (ap last_byte p) ∙ q in
    let e : d ≡ c = cc in let here : in_ranges rs c ≡ true = rw e at h in cc (ap not here)
never_ends_sound c (none_of rs) w b (d, p, h) q =
    let same : some d ≡ some c = sym (ap last_byte p) ∙ q in
    let e : d ≡ c = cc in let here : in_ranges rs c ≡ false = rw e at h in cc
never_ends_sound c (seq r s) w b (u, [], p, lu, lv) q =
    let n = nullable_complete s [] refl lv in
    let r_too : never_ends c r ≡ true = ground arith in
    let whole : u ≡ w = sym (p ∙ append-nil u) in never_ends_sound c r u r_too lu (rw whole q)
never_ends_sound c (seq r s) w b (u, d ∷ v, p, lu, lv) q =
    never_ends_sound c s (d ∷ v) (and-true_left _ _ b) lv
      (sym (last_byte-append u d v) ∙ (rw p at q))
never_ends_sound c (alt r s) w b (inl l) q = never_ends_sound c r w (and-true_left _ _ b) l q
never_ends_sound c (alt r s) w b (inr l) q = never_ends_sound c s w (and-true_right _ _ b) l q
never_ends_sound c (star r) w b l q =
    Repeats-never_ends c (λ u lu. never_ends_sound c r u b lu) w l q
