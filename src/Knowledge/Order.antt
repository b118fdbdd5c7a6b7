-- ===== src/Knowledge/Order.antt =====
-- The order of versions: compareVersions orders them all, with transitivity.
use multi_agent_system_turbo.Base.{◌≡◌, refl, Bool, true, false, List, [], ◌∷◌, arith}
use multi_agent_system_turbo.Base.Int.{ℤ, pos, negsuc, int_eq}
use multi_agent_system_turbo.Knowledge.Version.{
  Comparison, below, level, above, or_later, compare_versions,
}

abbrev pub flipped : Comparison → Comparison
flipped below = above
flipped level = level
flipped above = below

or_later-flipped :
    (a b : ℤ) (r s : Comparison) → s ≡ flipped r → or_later b a s ≡ flipped (or_later a b r)
or_later-flipped (pos a) (pos b) r s e = ground arith
or_later-flipped (pos a) (negsuc b) r s e = refl
or_later-flipped (negsuc a) (pos b) r s e = refl
or_later-flipped (negsuc a) (negsuc b) r s e = ground arith

-- Comparing the other way round flips the result.
pub compare_versions-flipped :
    (v w : List ℤ) → compare_versions w v ≡ flipped (compare_versions v w)
unfolding compare_versions
compare_versions-flipped [] [] = refl
compare_versions-flipped (a ∷ v) [] = or_later-flipped a (pos 0) _ _ (compare_versions-flipped v [])
compare_versions-flipped [] (b ∷ w) = or_later-flipped (pos 0) b _ _ (compare_versions-flipped [] w)
compare_versions-flipped (a ∷ v) (b ∷ w) = or_later-flipped a b _ _ (compare_versions-flipped v w)

abbrev pub is_at_most : Comparison → Bool
is_at_most above = false
is_at_most c = true

abbrev pub at_most : List ℤ → List ℤ → Bool
at_most v w = is_at_most (compare_versions v w)

int_eq_sound : (a b : ℤ) → int_eq a b ≡ true → a ≡ b
int_eq_sound (pos a) (pos b) h = ground arith
int_eq_sound (pos a) (negsuc b) h = ground arith
int_eq_sound (negsuc a) (pos b) h = ground arith
int_eq_sound (negsuc a) (negsuc b) h = ground arith

-- A first component decides, and a tie leaves it to the rest.
or_later_trans :
    (a b c : ℤ) (r s t : Comparison)
    → (is_at_most r ≡ true → is_at_most s ≡ true → is_at_most t ≡ true)
    → is_at_most (or_later a b r) ≡ true
    → is_at_most (or_later b c s) ≡ true
    → is_at_most (or_later a c t) ≡ true
or_later_trans (pos a) (pos b) (pos c) r s t f h k = ground arith
or_later_trans (pos a) (pos b) (negsuc c) r s t f h k = ground arith
or_later_trans (pos a) (negsuc b) c r s t f h k = ground arith
or_later_trans (negsuc a) (pos b) (pos c) r s t f h k = ground arith
or_later_trans (negsuc a) (pos b) (negsuc c) r s t f h k = ground arith
or_later_trans (negsuc a) (negsuc b) (pos c) r s t f h k = ground arith
or_later_trans (negsuc a) (negsuc b) (negsuc c) r s t f h k = ground arith

pub at_most_trans : (u v w : List ℤ) → at_most u v ≡ true → at_most v w ≡ true → at_most u w ≡ true
unfolding compare_versions
at_most_trans [] [] [] h k = k
at_most_trans [] [] (c ∷ w) h k = k
at_most_trans [] (b ∷ v) [] h k = refl
at_most_trans [] (b ∷ v) (c ∷ w) h k = or_later_trans (pos 0) b c _ _ _ (at_most_trans [] v w) h k
at_most_trans (a ∷ u) [] [] h k = h
at_most_trans (a ∷ u) [] (c ∷ w) h k = or_later_trans a (pos 0) c _ _ _ (at_most_trans u [] w) h k
at_most_trans (a ∷ u) (b ∷ v) [] h k = or_later_trans a b (pos 0) _ _ _ (at_most_trans u v []) h k
at_most_trans (a ∷ u) (b ∷ v) (c ∷ w) h k = or_later_trans a b c _ _ _ (at_most_trans u v w) h k
