-- ===== src/Safety/Args.antt =====
-- internal/safety/guard.go: splitArgs, containsSequence and validPathComponent.
-- `flagValues` is an association list with the latest assignment first.
use multi_agent_system_turbo.Base.{
  Bool, true, false, ◌&&◌, ◌||◌, Option, none, some, List, [], ◌∷◌, ◌++◌, Str, bytes, if◌then◌else◌,
  ltb, ◌==◌, length, is_empty, member, starts_with, contains_text, equal_fold,
}
use multi_agent_system_turbo.Regexp.{matches}
use multi_agent_system_turbo.Safety.Tables.Paths.{dns1123}

pub record SplitArgs : Type 0 where
  pub positionals : List Str
  pub flag_values : List (Str × Str)

-- The text before and after the first `=`.
unfoldable pub cut_equals : Str → Option (Str × Str)
cut_equals [] = none
cut_equals (c ∷ s) =
    if c == b'='
    then some ([], s)
    else elim (cut_equals s) [ none ↦ none | some (k, v) ↦ some (c ∷ k, v) ]

abbrev assign : Str → Str → SplitArgs → SplitArgs
assign k v r = record r { flag_values = r.flag_values ++ (k, v) ∷ [] }

abbrev positional : Str → SplitArgs → SplitArgs
positional a r = record r { positionals = a ∷ r.positionals }

-- An argument that takes nothing with it.
unfoldable pub alone : Str → SplitArgs → SplitArgs
alone a r =
    if starts_with a (bytes "-")
    then elim (cut_equals a) [ none ↦ positional a r | some (k, v) ↦ assign k v r ]
    else positional a r

-- Whether the flag takes the next argument as its value.
unfoldable pub takes_next : List Str → Str → Bool
takes_next flags_with_value a =
    starts_with a (bytes "-")
    && (elim (cut_equals a) [ none ↦ true | some _ ↦ false ])
    && member a flags_with_value

unfoldable pub split_args : List Str → List Str → SplitArgs
split_args flags_with_value [] = record { positionals = []; flag_values = [] }
split_args flags_with_value (a ∷ []) = alone a (record { positionals = []; flag_values = [] })
split_args flags_with_value (a ∷ b ∷ rest) =
    let past = assign a b (split_args flags_with_value rest) in
    let next = alone a (split_args flags_with_value (b ∷ rest)) in
    if takes_next flags_with_value a then past else next

-- Whether the sequence stands at the head of the positionals.
unfoldable pub at_head : List Str → List Str → Bool
at_head positionals [] = true
at_head [] (want ∷ wants) = false
at_head (p ∷ positionals) (want ∷ wants) = equal_fold p want && at_head positionals wants

unfoldable pub occurs : List Str → List Str → Bool
occurs [] sequence = at_head [] sequence
occurs (p ∷ positionals) sequence =
    at_head (p ∷ positionals) sequence || occurs positionals sequence

unfoldable pub contains_sequence : List Str → List Str → Bool
contains_sequence positionals sequence =
    if is_empty sequence || ltb (length positionals) (length sequence)
    then false
    else occurs positionals sequence

unfoldable pub valid_path_component : Str → Bool
valid_path_component v =
    if is_empty v || ltb 253 (length v) || contains_text v (bytes "..")
    then false
    else matches dns1123 v
