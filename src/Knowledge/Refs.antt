-- ===== src/Knowledge/Refs.antt =====
-- internal/knowledge/pack.go and resolve.go: the signals that the arguments of a step name.
use multi_agent_system_turbo.Base.{
  ℕ, Bool, not, ◌&&◌, ◌||◌, Option, none, some, List, [], ◌∷◌, ◌++◌, Str, bytes, if◌then◌else◌, leb,
  ◌==◌, is_empty, all, member, str_lt, starts_with,
}
use multi_agent_system_turbo.Base.Sort.{sort}
use multi_agent_system_turbo.Base.Split.{drop_prefix}
use multi_agent_system_turbo.Rules.Playbook.{text_arg, other_arg, Args}

-- The ids that a text names as {{signal:id}}.
abbrev pub signal_open : Str
signal_open = bytes "{{signal:"

abbrev pub is_ref_byte : ℕ → Bool
is_ref_byte c =
    (leb 65 c && leb c 90)
    || ((leb 97 c && leb c 122)
        || ((leb 48 c && leb c 57) || ((c == b'_') || ((c == b'.') || (c == b'-')))))

-- The id that stands at the start of the text, before two closing braces.
unfoldable pub ref_before : Str → Str → Option Str
ref_before id [] = none
ref_before id (c ∷ s) =
    let rest = ref_before (id ++ c ∷ []) s in
    if is_ref_byte c
    then rest
    else if not (is_empty id) && starts_with (c ∷ s) (bytes "}}")
    then some id
    else none

abbrev pub with_ref : Option Str → List Str → List Str
with_ref none refs = refs
with_ref (some id) refs = id ∷ refs

unfoldable pub refs_in : Str → List Str
unfolding ref_before
refs_in [] = []
refs_in (c ∷ s) =
    let rest = refs_in s in
    if starts_with (c ∷ s) signal_open
    then with_ref (ref_before [] (drop_prefix (c ∷ s) signal_open)) rest
    else rest

module _ {V : Type 0} where
  unfoldable pub arg_refs : Args V → List Str
  unfolding refs_in
  arg_refs [] = []
  arg_refs ((k, text_arg s) ∷ args) = refs_in s ++ arg_refs args
  arg_refs ((k, other_arg v) ∷ args) = arg_refs args

  unfoldable pub signal_refs : Args V → List Str
  unfolding arg_refs sort str_lt
  signal_refs args = sort str_lt (arg_refs args)

  unfoldable pub refs_resolve : Args V → List Str → Bool
  unfolding signal_refs
  refs_resolve args signals = all (λ ref. member ref signals) (signal_refs args)
