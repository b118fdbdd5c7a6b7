-- ===== src/Base/Text.antt =====
-- Text as Go sees it: a list of bytes, with the functions of package strings that the sources call.
-- Letter case is folded for ASCII; a byte of any other character is left as it is.
use Prim.Native.Nat.{ℕ, ◌+◌, ◌-◌}
use Prim.Native.Char.{code}
use Prim.Native.String.{String}
use mathlib.Core.Path.{◌≡◌, refl}
use mathlib.Core.Logic.{◌↔◌}
use mathlib.Core.Bool.{Bool, true, false, ◌&&◌, ◌||◌}
use mathlib.Core.List.{List, [], ◌∷◌, ◌++◌, map, reverse}
use native.Mathlib.Omega.{arith}
use multi_agent_system_turbo.Base.Tests.{leb, ◌==◌, if◌then◌else◌}
use multi_agent_system_turbo.Base.Lists.{any}

abbrev pub Str : Type 0
Str = List ℕ

-- The bytes of a literal; every literal of the sources that is modelled is ASCII.
abbrev pub bytes : String → Str
bytes String.[] = []
bytes (String.◌∷◌ c s) = code c ∷ bytes s

unfoldable pub str_eq : Str → Str → Bool
str_eq [] [] = true
str_eq (x ∷ xs) (y ∷ ys) = (x == y) && str_eq xs ys
str_eq [] (y ∷ ys) = false
str_eq (x ∷ xs) [] = false

pub str_eq_sound : (s t : Str) → str_eq s t ≡ true → s ≡ t
unfolding str_eq
str_eq_sound [] [] h = refl
str_eq_sound (x ∷ xs) (y ∷ ys) h = ground (arith, str_eq_sound xs ys)
str_eq_sound [] (y ∷ ys) h = ground arith
str_eq_sound (x ∷ xs) [] h = ground arith

pub str_eq_refl : (s : Str) → str_eq s s ≡ true
unfolding str_eq
str_eq_refl [] = refl
str_eq_refl (x ∷ xs) = ground (arith, str_eq_refl xs)

pub str_eq_complete : (s t : Str) → s ≡ t → str_eq s t ≡ true
str_eq_complete s t e = rw e (str_eq_refl t)

pub str_eq_iff : (s t : Str) → (str_eq s t ≡ true) ↔ (s ≡ t)
str_eq_iff s t = (str_eq_sound s t, str_eq_complete s t)

-- Membership, as the sources read it off a map to true or find it by a loop.
abbrev pub member : Str → List Str → Bool
member s = any (str_eq s)

abbrev pub is_blank_byte : ℕ → Bool
is_blank_byte c = (c == 32) || (leb 9 c && leb c 13)

unfoldable pub starts_with : Str → Str → Bool
starts_with s [] = true
starts_with [] (p ∷ ps) = false
starts_with (c ∷ s) (p ∷ ps) = (c == p) && starts_with s ps

unfoldable pub contains_text : Str → Str → Bool
contains_text [] p = starts_with [] p
contains_text (c ∷ s) p = starts_with (c ∷ s) p || contains_text s p

unfoldable pub ends_with : Str → Str → Bool
ends_with s p = starts_with (reverse s) (reverse p)

abbrev pub lower_byte : ℕ → ℕ
lower_byte c = if leb 65 c && leb c 90 then c + 32 else c

abbrev pub upper_byte : ℕ → ℕ
upper_byte c = if leb 97 c && leb c 122 then c - 32 else c

unfoldable pub to_lower : Str → Str
to_lower s = map lower_byte s

unfoldable pub to_upper : Str → Str
to_upper s = map upper_byte s

unfoldable pub equal_fold : Str → Str → Bool
equal_fold s t = str_eq (to_lower s) (to_lower t)

unfoldable pub trim_left : ℕ → Str → Str
trim_left c [] = []
trim_left c (x ∷ s) = if x == c then trim_left c s else x ∷ s

unfoldable pub trim_blank_left : Str → Str
trim_blank_left [] = []
trim_blank_left (x ∷ s) = if is_blank_byte x then trim_blank_left s else x ∷ s

unfoldable pub trim_space : Str → Str
trim_space s = reverse (trim_blank_left (reverse (trim_blank_left s)))

abbrev pub is_blank : Str → Bool
is_blank s = str_eq (trim_space s) []

-- `sep.join(parts)`.
unfoldable pub join : Str → List Str → Str
join sep [] = []
join sep (s ∷ []) = s
join sep (s ∷ t ∷ ts) = s ++ (sep ++ join sep (t ∷ ts))

-- The order of Go's `<` on strings: by bytes, a prefix first.
unfoldable pub str_lt : Str → Str → Bool
str_lt [] [] = false
str_lt [] (y ∷ ys) = true
str_lt (x ∷ xs) [] = false
str_lt (x ∷ xs) (y ∷ ys) = if x == y then str_lt xs ys else leb x y

-- What a test that runs on text unfolds.
unfoldable pub text_run : Unit {0}
unfolding str_eq starts_with contains_text ends_with to_lower to_upper equal_fold trim_left
    trim_blank_left trim_space join str_lt
text_run = tt

trim_space_test : trim_space (bytes " a b\n") ≡ bytes "a b"
unfolding text_run
trim_space_test = refl

contains_text_test : contains_text (bytes "a/../b") (bytes "..") ≡ true
unfolding text_run
contains_text_test = refl
