-- ===== src/Knowledge/Version.antt =====
-- internal/knowledge/pack.go: version ranges. An error is none: its text is left out. What
-- compareVersions returns below, at and above 0 is `below`, `level` and `above`.
use multi_agent_system_turbo.Base.{
  ℕ, ◌≡◌, refl, Bool, true, false, ◌&&◌, ◌||◌, Option, none, some, List, [], ◌∷◌, Str, bytes,
  if◌then◌else◌, ◌==◌, ◌>>=◌, is_empty, starts_with, trim_space, text_run,
}
use multi_agent_system_turbo.Base.Int.{ℤ, pos, int_ltb, int_eq}
use multi_agent_system_turbo.Base.Split.{fields, split, trim_prefix, before_any, atoi}

pub data Op : Type 0 where
  ge le ne eq gt lt : Op

pub record VersionCheck : Type 0 where
  pub op : Op
  pub version : List ℤ

pub data Comparison : Type 0 where
  below level above : Comparison

abbrev is_suffix_byte : ℕ → Bool
is_suffix_byte c = (c == b'-') || (c == b'+')

-- The suffix is dropped only where something stands before it.
unfoldable pub drop_suffix : Str → Str
drop_suffix [] = []
drop_suffix (c ∷ s) = if is_suffix_byte c then c ∷ s else c ∷ before_any is_suffix_byte s

unfoldable pub parse_parts : List Str → Option (List ℤ)
parse_parts [] = some []
parse_parts (p ∷ ps) = do n ← atoi p; ns ← parse_parts ps; some (n ∷ ns)

unfoldable pub parse_version : Str → Option (List ℤ)
unfolding drop_suffix
parse_version raw =
    let s = trim_space (trim_prefix (trim_space raw) (bytes "v")) in
    if is_empty s then none else parse_parts (split b'.' (drop_suffix s))

-- The operator and the text behind it; the longer operators are tried first.
unfoldable pub parse_op : Str → Op × Str
parse_op part =
    if starts_with part (bytes ">=")
    then (ge, trim_prefix part (bytes ">="))
    else if starts_with part (bytes "<=")
    then (le, trim_prefix part (bytes "<="))
    else if starts_with part (bytes "!=")
    then (ne, trim_prefix part (bytes "!="))
    else if starts_with part (bytes "==")
    then (eq, trim_prefix part (bytes "=="))
    else if starts_with part (bytes ">")
    then (gt, trim_prefix part (bytes ">"))
    else if starts_with part (bytes "<")
    then (lt, trim_prefix part (bytes "<"))
    else if starts_with part (bytes "=")
    then (eq, trim_prefix part (bytes "="))
    else (eq, part)

unfoldable pub parse_checks : List Str → Option (List VersionCheck)
unfolding parse_op
parse_checks [] = some []
parse_checks (part ∷ parts) = do
  v ← parse_version (parse_op part).1
  rest ← parse_checks parts
  some (record { op = (parse_op part).0; version = v } ∷ rest)

unfoldable pub parse_version_range : Str → Option (List VersionCheck)
unfolding parse_checks
parse_version_range raw = parse_checks (fields (trim_space raw))

abbrev pub or_later : ℤ → ℤ → Comparison → Comparison
or_later a b rest = if int_eq a b then rest else if int_ltb a b then below else above

-- A component that is missing counts as 0.
unfoldable pub compare_versions : List ℤ → List ℤ → Comparison
compare_versions [] [] = level
compare_versions (a ∷ v) [] = or_later a (pos 0) (compare_versions v [])
compare_versions [] (b ∷ w) = or_later (pos 0) b (compare_versions [] w)
compare_versions (a ∷ v) (b ∷ w) = or_later a b (compare_versions v w)

abbrev pub accepts : Op → Comparison → Bool
accepts ge below = false
accepts ge c = true
accepts le above = false
accepts le c = true
accepts gt above = true
accepts gt c = false
accepts lt below = true
accepts lt c = false
accepts eq level = true
accepts eq c = false
accepts ne level = false
accepts ne c = true

unfoldable pub satisfies : List ℤ → List VersionCheck → Bool
satisfies v [] = true
satisfies v (c ∷ cs) = accepts c.op (compare_versions v c.version) && satisfies v cs

unfoldable pub applies : List VersionCheck → Str → Bool
unfolding satisfies
applies checks version =
    if is_empty checks || is_empty (trim_space version)
    then true
    else elim (parse_version version) [ none ↦ true | some v ↦ satisfies v checks ]

-- A range that does not parse covers every version.
unfoldable pub applies_to_version : Str → Str → Bool
unfolding applies
applies_to_version raw version = elim (parse_version_range raw) [
  | none ↦ true
  | some checks ↦ applies checks version
]

-- What a test that runs on versions unfolds.
unfoldable pub version_run : Unit {0}
unfolding text_run fields split trim_prefix before_any atoi parse_parts parse_version
    parse_version_range compare_versions applies_to_version
version_run = tt

range_test : applies_to_version (bytes ">=5.0 <8.0") (bytes "v7.2.4-rc1") ≡ true
unfolding version_run
range_test = refl

range_test_out : applies_to_version (bytes ">=5.0 <8.0") (bytes "8") ≡ false
unfolding version_run
range_test_out = refl
