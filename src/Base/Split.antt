-- ===== src/Base/Split.antt =====
-- Cutting text: strings.Fields, strings.Split, strings.TrimPrefix, strings.IndexAny and
-- strconv.Atoi, with 64-bit integers.
use Prim.Native.Nat.{ℕ, zero, suc, ◌+◌, ◌-◌, ◌*◌}
use mathlib.Core.Path.{◌≡◌, refl}
use mathlib.Core.Bool.{Bool, true, false, ◌&&◌}
use mathlib.Core.Option.{Option, none, some}
use mathlib.Core.List.{List, [], ◌∷◌, ◌++◌}
use multi_agent_system_turbo.Base.Tests.{leb, ltb, ◌==◌, if◌then◌else◌}
use multi_agent_system_turbo.Base.Lists.{is_empty}
use multi_agent_system_turbo.Base.Text.{Str, bytes, is_blank_byte, starts_with}
use multi_agent_system_turbo.Base.Int.{ℤ, pos, negsuc}

-- A first word put before a list of words.
abbrev pub word_before : Str → List Str → List Str
word_before w ws = if is_empty w then ws else w ∷ ws

-- The words between blanks; `word` is the word that the scan is in.
unfoldable pub fields_from : Str → Str → List Str
fields_from word [] = word_before word []
fields_from word (c ∷ s) =
    let ends = word_before word (fields_from [] s) in
    let goes_on = fields_from (word ++ c ∷ []) s in if is_blank_byte c then ends else goes_on

unfoldable pub fields : Str → List Str
unfolding fields_from
fields s = fields_from [] s

unfoldable pub split_from : ℕ → Str → Str → List Str
split_from sep part [] = part ∷ []
split_from sep part (c ∷ s) =
    let ends = part ∷ split_from sep [] s in
    let goes_on = split_from sep (part ++ c ∷ []) s in if c == sep then ends else goes_on

unfoldable pub split : ℕ → Str → List Str
unfolding split_from
split sep s = split_from sep [] s

abbrev pub drop_prefix : Str → Str → Str
drop_prefix s [] = s
drop_prefix [] (p ∷ ps) = []
drop_prefix (c ∷ s) (p ∷ ps) = drop_prefix s ps

unfoldable pub trim_prefix : Str → Str → Str
unfolding starts_with
trim_prefix s p = if starts_with s p then drop_prefix s p else s

-- What stands before the first byte that satisfies `stop`.
unfoldable pub before_any : (ℕ → Bool) → Str → Str
before_any stop [] = []
before_any stop (c ∷ s) = let rest = before_any stop s in if stop c then [] else c ∷ rest

-- The number that digits write; none for a byte that is no digit.
unfoldable pub digits_value : ℕ → Str → Option ℕ
digits_value v [] = some v
digits_value v (c ∷ s) =
    let rest = digits_value (v * 10 + (c - 48)) s in if leb 48 c && leb c 57 then rest else none

abbrev pub negated : ℕ → ℤ
negated zero = pos 0
negated (suc n) = negsuc n

-- 2 to the 63.
abbrev pub int_limit : ℕ
int_limit = 9223372036854775808

abbrev pub atoi_digits : Bool → Str → Option ℤ
atoi_digits negative s = if is_empty s then none else elim (digits_value 0 s) [
  | none ↦ none
  | some n ↦
      if negative
      then if leb n int_limit then some (negated n) else none
      else if ltb n int_limit
      then some (pos n)
      else none
]

unfoldable pub atoi : Str → Option ℤ
unfolding digits_value
atoi [] = none
atoi (c ∷ s) =
    if c == b'-'
    then atoi_digits true s
    else if c == b'+'
    then atoi_digits false s
    else atoi_digits false (c ∷ s)

fields_test : fields (bytes " >=5.0  <8.0") ≡ bytes ">=5.0" ∷ bytes "<8.0" ∷ []
unfolding fields
fields_test = refl

split_test : split b'.' (bytes "7..4") ≡ bytes "7" ∷ bytes "" ∷ bytes "4" ∷ []
unfolding split
split_test = refl

atoi_test : atoi (bytes "-12") ≡ some (negsuc 11)
unfolding atoi
atoi_test = refl
