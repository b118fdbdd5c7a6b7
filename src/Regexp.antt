-- ===== src/Regexp.antt =====
-- The fragment of package regexp that the sources use: syntax trees, matched by derivatives.
-- An anchored pattern is matched against the whole text; `found` is the unanchored search.
pub mod Lang
pub mod Decides
pub mod Slashes
pub mod Ends
use multi_agent_system_turbo.Base.{
  ℕ, Bool, true, false, ◌&&◌, ◌||◌, List, [], ◌∷◌, Str, if◌then◌else◌, leb, any,
}

pub data Re : Type 0 where
  never : Re
  empty : Re
  one_of : List (ℕ × ℕ) → Re
  none_of : List (ℕ × ℕ) → Re
  seq : Re → Re → Re
  alt : Re → Re → Re
  star : Re → Re

abbrev pub in_range : ℕ → (ℕ × ℕ) → Bool
in_range c (lo, hi) = leb lo c && leb c hi

abbrev pub in_ranges : List (ℕ × ℕ) → ℕ → Bool
in_ranges rs c = any (in_range c) rs

unfoldable pub nullable : Re → Bool
nullable never = false
nullable empty = true
nullable (one_of rs) = false
nullable (none_of rs) = false
nullable (seq r s) = nullable r && nullable s
nullable (alt r s) = nullable r || nullable s
nullable (star r) = true

-- Joins that drop what cannot match, so that derivatives stay small.
unfoldable pub join_then : Re → Re → Re
join_then never s = never
join_then empty s = s
join_then r s = seq r s

unfoldable pub join_or : Re → Re → Re
join_or never s = s
join_or r never = r
join_or r s = alt r s

unfoldable pub deriv : Re → ℕ → Re
unfolding join_then join_or nullable
deriv never c = never
deriv empty c = never
deriv (one_of rs) c = if in_ranges rs c then empty else never
deriv (none_of rs) c = if in_ranges rs c then never else empty
deriv (seq r s) c = join_or (join_then (deriv r c) s) (if nullable r then deriv s c else never)
deriv (alt r s) c = join_or (deriv r c) (deriv s c)
deriv (star r) c = join_then (deriv r c) (star r)

unfoldable pub derivs : Re → Str → Re
unfolding deriv
derivs r [] = r
derivs r (c ∷ s) = derivs (deriv r c) s

-- `^r$`
unfoldable pub matches : Re → Str → Bool
unfolding derivs
matches r s = nullable (derivs r s)

-- Notation for the patterns of the sources.
abbrev pub any_byte : Re
any_byte = none_of []

abbrev pub chr : ℕ → Re
chr c = one_of ((c, c) ∷ [])

abbrev pub lit : Str → Re
lit [] = empty
lit (c ∷ []) = chr c
lit (c ∷ s) = seq (chr c) (lit s)

abbrev pub alts : List Re → Re
alts [] = never
alts (r ∷ []) = r
alts (r ∷ rs) = alt r (alts rs)

abbrev pub seqs : List Re → Re
seqs [] = empty
seqs (r ∷ []) = r
seqs (r ∷ rs) = seq r (seqs rs)

abbrev pub some_of : Re → Re
some_of r = seq r (star r)

abbrev pub maybe : Re → Re
maybe r = alt empty r

-- `r`, anywhere in the text
abbrev pub found : Re → Re
found r = seq (star any_byte) (seq r (star any_byte))
