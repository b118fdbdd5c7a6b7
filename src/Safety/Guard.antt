-- ===== src/Safety/Guard.antt =====
-- internal/safety/guard.go: NewGuard and Authorize, with one function for each kind of effect.
-- `none` is the nil error: the call may proceed. What package net/url makes of a text is the
-- parameter `parse_url`; what package regexp makes of a configured pattern is `compile`.
use multi_agent_system_turbo.Base.{
  ℕ, Bool, true, not, ◌||◌, Option, none, some, List, [], ◌∷◌, ◌++◌, map, Str, bytes, if◌then◌else◌,
  ◌==◌, any, all, keep, is_empty, member, str_eq, contains_text, to_lower, trim_left, trim_space,
}
use multi_agent_system_turbo.Regexp.{matches}
use multi_agent_system_turbo.Safety.Effects.{
  CommandEffect, CommandRule, Regexp, CompiledCommandRule, Guard, mas_8001, mas_8002, mas_8005,
  Refusal, refuse,
}
use multi_agent_system_turbo.Safety.Tables.Patterns.{dangerous_arg_patterns, mutating_positionals}
use multi_agent_system_turbo.Safety.Tables.Commands.{default_command_rules}
use multi_agent_system_turbo.Safety.Tables.Paths.{default_path_rules}
use multi_agent_system_turbo.Safety.Args.{split_args, contains_sequence}

-- internal/config/config.go: the part of the configuration that the guard reads.
pub record SafetyConfig : Type 0 where
  pub max_response_bytes : ℕ
  pub max_timeout : ℕ
  pub extra_denied_binaries : List Str
  pub extra_denied_args : List Str

abbrev pub or_default : ℕ → ℕ → ℕ
or_default n d = if n == 0 then d else n

unfoldable pub compile_command_rule : CommandRule → CompiledCommandRule
compile_command_rule r = record {
  rule = r;
  flags_with_value = r.flags_with_value;
  allowed_verbs = map to_lower r.allowed_verbs;
  denied_sequences = r.denied_sequences;
  value_allow_list = map (λ (flag, pats). (flag, map matches pats)) r.value_allow_list;
}

abbrev pub is_kept : List Str → CommandRule → Bool
is_kept denied r = not (member (to_lower r.binary) denied)

module _ (compile : Str → Option Regexp) where
  unfoldable pub compile_all : List Str → Option (List Regexp)
  compile_all [] = some []
  compile_all (p ∷ ps) = elim (compile p) [
    | none ↦ none
    | some re ↦ elim (compile_all ps) [ none ↦ none | some res ↦ some (re ∷ res) ]
  ]

  -- `none` is the error MAS-9001: a configured pattern does not compile.
  unfoldable pub new_guard : SafetyConfig → Option Guard
  new_guard cfg =
      let denied = map (λ b. to_lower (trim_space b)) cfg.extra_denied_binaries in
      elim (compile_all cfg.extra_denied_args) [
        | none ↦ none
        | some extra ↦ some (record {
          commands =
              map (λ r. (r.binary, compile_command_rule r))
                (keep (is_kept denied) default_command_rules);
          paths =
              map
                (λ p. record {
                  method = p.method;
                  pattern = matches p.pattern;
                  desc = p.description;
                })
                default_path_rules;
          denied_args = map matches dangerous_arg_patterns ++ extra;
          max_bytes = or_default cfg.max_response_bytes 8388608;
          max_timeout = or_default cfg.max_timeout 120000000000;
        })
      ]

abbrev is_separator : ℕ → Bool
is_separator c = (c == b'/') || (c == 92)

-- What stands after the last separator, `cur` being what was read since the last one.
unfoldable pub last_part : Str → Str → Str
last_part cur [] = cur
last_part cur (c ∷ s) = last_part (if is_separator c then [] else cur ++ c ∷ []) s

unfoldable pub base_name : Str → Str
base_name bin = last_part [] bin

unfoldable pub find_rule {ℓ} : {A : Type ℓ} → Str → List (Str × A) → Option A
find_rule k [] = none
find_rule k ((j, v) ∷ m) = if str_eq j k then some v else find_rule k m

abbrev pub matches_any : List Regexp → Str → Bool
matches_any res s = any (λ re. re s) res

-- A flag that was given is on its allow-list.
abbrev pub value_allowed : List (Str × Str) → (Str × List Regexp) → Bool
value_allowed flag_values (flag, res) = elim (find_rule flag flag_values) [
  | none ↦ true
  | some v ↦ matches_any res v
]

abbrev pub is_mutating : Str → Bool
is_mutating p = member (to_lower (trim_left b'-' p)) mutating_positionals

unfoldable pub check_verb : CompiledCommandRule → Str → List Str → Option Refusal
check_verb rule tool [] = if is_empty rule.allowed_verbs then none else refuse mas_8002 tool
check_verb rule tool (p ∷ ps) =
    if is_empty rule.allowed_verbs || member (to_lower p) rule.allowed_verbs
    then none
    else refuse mas_8002 tool

unfoldable pub check_args : Guard → CompiledCommandRule → Str → List Str → Option Refusal
check_args g rule tool args =
    let split = split_args rule.flags_with_value args in
    if any (matches_any g.denied_args) args
    then refuse mas_8005 tool
    else if not (all (value_allowed split.flag_values) rule.value_allow_list)
    then refuse mas_8005 tool
    else if any is_mutating split.positionals
    then refuse mas_8001 tool
    else if any (contains_sequence split.positionals) rule.denied_sequences
    then refuse mas_8001 tool
    else check_verb rule tool split.positionals

unfoldable pub authorize_command : Guard → Str → CommandEffect → Option Refusal
authorize_command g tool c =
    if contains_text c.binary (bytes "..")
    then refuse mas_8005 tool
    else elim (find_rule (base_name c.binary) g.commands) [
      | none ↦ refuse mas_8002 tool
      | some rule ↦ check_args g rule tool c.args
    ]
