-- ===== src/Safety/Permitted.antt =====
-- What the guard has checked when it lets a call proceed.
use multi_agent_system_turbo.Base.{
  ◌≡◌, refl, ◌⊎◌, inl, inr, true, false, ◌||◌, Option, none, some, List, [], ◌∷◌, ◌++◌, map, Str,
  bytes, arith, Option-cases, Bool-cases, any, all, keep, is_empty, member, All, Any, any-false-All,
  str_eq, str_eq_sound, contains_text, to_lower, trim_space,
}
use multi_agent_system_turbo.Regexp.{Re, matches}
use multi_agent_system_turbo.Safety.Effects.{
  CommandEffect, CommandRule, Regexp, CompiledCommandRule, Guard,
}
use multi_agent_system_turbo.Safety.Tables.Patterns.{dangerous_arg_patterns}
use multi_agent_system_turbo.Safety.Tables.Commands.{default_command_rules}
use multi_agent_system_turbo.Safety.Tables.Paths.{default_path_rules}
use multi_agent_system_turbo.Safety.Args.{split_args, contains_sequence}
use multi_agent_system_turbo.Safety.Guard.{
  SafetyConfig, or_default, compile_all, compile_command_rule, is_kept, new_guard, base_name,
  find_rule, matches_any, value_allowed, is_mutating, check_verb, check_args, authorize_command,
}

-- The subcommand of a rule that restricts it.
abbrev pub HasAllowedVerb : List Str → List Str → Type 0
HasAllowedVerb verbs [] = verbs ≡ []
HasAllowedVerb verbs (p ∷ ps) = (verbs ≡ []) ⊎ (member (to_lower p) (map to_lower verbs) ≡ true)

-- A command that only reads, told from the tables of the guard.
pub record IsPermitted (cfg : SafetyConfig) (c : CommandEffect) : Type 0 where
  pub rule : CommandRule
  pub listed : Any (λ r. r ≡ rule) default_command_rules
  pub named : rule.binary ≡ base_name c.binary
  pub kept :
      member (to_lower rule.binary) (map (λ b. to_lower (trim_space b)) cfg.extra_denied_binaries)
      ≡ false
  pub upward : contains_text c.binary (bytes "..") ≡ false
  pub harmless : All (λ a. any (λ re. matches re a) dangerous_arg_patterns ≡ false) c.args
  pub reads : All (λ p. is_mutating p ≡ false) (split_args rule.flags_with_value c.args).positionals
  pub undenied :
      All
        (λ s. contains_sequence (split_args rule.flags_with_value c.args).positionals s ≡ false)
        rule.denied_sequences
  pub verb : HasAllowedVerb rule.allowed_verbs (split_args rule.flags_with_value c.args).positionals

-- The rule that a lookup in the compiled list finds is compiled from a listed one.
record IsCompiledFrom (denied : List Str) (rules : List CommandRule) (name : Str)
    (c : CompiledCommandRule) : Type 0 where
  rule : CommandRule
  listed : Any (λ r. r ≡ rule) rules
  named : rule.binary ≡ name
  kept : member (to_lower rule.binary) denied ≡ false
  compiled : compile_command_rule rule ≡ c

abbrev pub compiled_rules : List Str → List CommandRule → List (Str × CompiledCommandRule)
compiled_rules denied rules =
    map (λ r. (r.binary, compile_command_rule r)) (keep (is_kept denied) rules)

IsCompiledFrom-cons :
    (denied : List Str) (r : CommandRule) (rules : List CommandRule) (name : Str)
    (c : CompiledCommandRule)
    → IsCompiledFrom denied rules name c
    → IsCompiledFrom denied (r ∷ rules) name c
IsCompiledFrom-cons denied r rules name c f = record {
  rule = f.rule;
  listed = inr f.listed;
  named = f.named;
  kept = f.kept;
  compiled = f.compiled;
}

find_rule-IsCompiledFrom :
    (denied : List Str) (rules : List CommandRule) (name : Str) (c : CompiledCommandRule)
    → find_rule name (compiled_rules denied rules) ≡ some c
    → IsCompiledFrom denied rules name c
unfolding find_rule
find_rule-IsCompiledFrom denied [] name c e = absurd (cc)
find_rule-IsCompiledFrom denied (r ∷ rules) name c e =
    elim (Bool-cases (member (to_lower r.binary) denied)) [
      | inl dropped ↦
          IsCompiledFrom-cons denied r rules name c
            (find_rule-IsCompiledFrom denied rules name c (rw dropped at e))
      | inr stays ↦ elim (Bool-cases (str_eq r.binary name)) [
        | inl same ↦ record {
          rule = r;
          listed = inl refl;
          named = str_eq_sound r.binary name same;
          kept = stays;
          compiled = cc (rw same at (rw stays at e));
        }
        | inr other ↦
            IsCompiledFrom-cons denied r rules name c
              (find_rule-IsCompiledFrom denied rules name c (rw other at (rw stays at e)))
      ]
    ]

-- The parts of a guard that was built from a configuration.
pub record IsBuilt (compile : Str → Option Regexp) (cfg : SafetyConfig) (g : Guard) : Type 0 where
  pub extra : List Regexp
  pub compiled : compile_all compile cfg.extra_denied_args ≡ some extra
  pub commands :
      g.commands
      ≡ compiled_rules
          (map (λ b. to_lower (trim_space b)) cfg.extra_denied_binaries)
          default_command_rules
  pub denied : g.denied_args ≡ map matches dangerous_arg_patterns ++ extra
  pub paths :
      g.paths
      ≡ map
          (λ p. record { method = p.method; pattern = matches p.pattern; desc = p.description })
          default_path_rules
  pub size : g.max_bytes ≡ or_default cfg.max_response_bytes 8388608
  pub time : g.max_timeout ≡ or_default cfg.max_timeout 120000000000

pub new_guard-IsBuilt :
    (compile : Str → Option Regexp) (cfg : SafetyConfig) (g : Guard)
    → new_guard compile cfg ≡ some g
    → IsBuilt compile cfg g
unfolding new_guard
new_guard-IsBuilt compile cfg g e =
    elim (Option-cases (compile_all compile cfg.extra_denied_args)) [
      | inl fails ↦ ground arith
      | inr (extra, compiles) ↦ record {
        extra = extra;
        compiled = compiles;
        commands = ground arith;
        denied = ground arith;
        paths = ground arith;
        size = ground arith;
        time = ground arith;
      }
    ]

patterns_miss :
    (ps : List Re) (extra : List Regexp) (a : Str)
    → matches_any (map matches ps ++ extra) a ≡ false
    → any (λ re. matches re a) ps ≡ false
patterns_miss [] extra a h = refl
patterns_miss (p ∷ ps) extra a h = ground (arith, patterns_miss ps extra a)

All-harmless :
    (g : Guard) (extra : List Regexp) (args : List Str)
    → g.denied_args ≡ map matches dangerous_arg_patterns ++ extra
    → any (matches_any g.denied_args) args ≡ false
    → All (λ a. any (λ re. matches re a) dangerous_arg_patterns ≡ false) args
All-harmless g extra [] d h = tt
All-harmless g extra (a ∷ args) d h = (
  patterns_miss dangerous_arg_patterns extra a (rw d at (head_misses a args h)),
  All-harmless g extra args d (ground arith),
)
  where
    head_misses :
        (b : Str) (bs : List Str)
        → any (matches_any g.denied_args) (b ∷ bs) ≡ false
        → matches_any g.denied_args b ≡ false
    head_misses b bs k = ground arith

verb_allowed :
    (verbs : List Str) (p : Str)
    → (is_empty (map to_lower verbs) || member (to_lower p) (map to_lower verbs)) ≡ true
    → (verbs ≡ []) ⊎ (member (to_lower p) (map to_lower verbs) ≡ true)
verb_allowed [] p h = inl refl
verb_allowed (v ∷ verbs) p h = inr h

no_verb_allowed : (verbs : List Str) → is_empty (map to_lower verbs) ≡ true → verbs ≡ []
no_verb_allowed [] h = refl
no_verb_allowed (v ∷ verbs) h = cc

check_verb-HasAllowedVerb :
    (r : CommandRule) (tool : Str) (positionals : List Str)
    → check_verb (compile_command_rule r) tool positionals ≡ none
    → HasAllowedVerb r.allowed_verbs positionals
unfolding check_verb compile_command_rule
check_verb-HasAllowedVerb r tool [] e = no_verb_allowed r.allowed_verbs (ground arith)
check_verb-HasAllowedVerb r tool (p ∷ ps) e = verb_allowed r.allowed_verbs p (ground arith)

-- The tests that arguments have passed.
pub record ArgsPass (g : Guard) (rule : CompiledCommandRule) (tool : Str) (args : List Str)
    : Type 0 where
  pub harmless : any (matches_any g.denied_args) args ≡ false
  pub values :
      all (value_allowed (split_args rule.flags_with_value args).flag_values) rule.value_allow_list
      ≡ true
  pub reads : any is_mutating (split_args rule.flags_with_value args).positionals ≡ false
  pub undenied :
      any
        (contains_sequence (split_args rule.flags_with_value args).positionals)
        rule.denied_sequences
      ≡ false
  pub verb : check_verb rule tool (split_args rule.flags_with_value args).positionals ≡ none

pub check_args-ArgsPass :
    (g : Guard) (rule : CompiledCommandRule) (tool : Str) (args : List Str)
    → check_args g rule tool args ≡ none
    → ArgsPass g rule tool args
unfolding check_args
check_args-ArgsPass g rule tool args e = ground arith

pub ArgsPass-check_args :
    (g : Guard) (rule : CompiledCommandRule) (tool : Str) (args : List Str)
    → ArgsPass g rule tool args
    → check_args g rule tool args ≡ none
unfolding check_args
ArgsPass-check_args g rule tool args p = ground arith

IsPermitted-by :
    (cfg : SafetyConfig) (g : Guard) (tool : Str) (c : CommandEffect) (rule : CommandRule)
    (extra : List Regexp)
    → g.denied_args ≡ map matches dangerous_arg_patterns ++ extra
    → Any (λ r. r ≡ rule) default_command_rules
    → rule.binary ≡ base_name c.binary
    → member (to_lower rule.binary) (map (λ b. to_lower (trim_space b)) cfg.extra_denied_binaries)
      ≡ false
    → contains_text c.binary (bytes "..") ≡ false
    → ArgsPass g (compile_command_rule rule) tool c.args
    → IsPermitted cfg c
unfolding compile_command_rule
IsPermitted-by cfg g tool c rule extra d listed named kept upward p = record {
  rule = rule;
  listed = listed;
  named = named;
  kept = kept;
  upward = upward;
  harmless = All-harmless g extra c.args d p.harmless;
  reads = any-false-All is_mutating _ p.reads;
  undenied = any-false-All _ rule.denied_sequences p.undenied;
  verb = check_verb-HasAllowedVerb rule tool _ p.verb;
}

-- A guard built from any configuration lets a command proceed only if the command reads: its
-- binary is listed and not denied by the configuration, no argument matches a dangerous pattern,
-- no positional is a mutating verb behind its dashes, no denied sequence occurs, and the
-- subcommand is listed where the rule lists any.
pub authorize_command-IsPermitted :
    (compile : Str → Option Regexp) (cfg : SafetyConfig) (g : Guard) (tool : Str)
    (c : CommandEffect)
    → new_guard compile cfg ≡ some g
    → authorize_command g tool c ≡ none
    → IsPermitted cfg c
unfolding authorize_command
authorize_command-IsPermitted compile cfg g tool c made e =
    let b = new_guard-IsBuilt compile cfg g made in
    elim (Option-cases (find_rule (base_name c.binary) g.commands)) [
      | inl missing ↦ ground arith
      | inr (rule, found) ↦
          let f =
            find_rule-IsCompiledFrom (map (λ b. to_lower (trim_space b)) cfg.extra_denied_binaries)
              default_command_rules (base_name c.binary) rule (rw b.commands at found) in
          let checked : check_args g rule tool c.args ≡ none = ground arith in
          IsPermitted-by cfg g tool c f.rule b.extra b.denied f.listed f.named f.kept (ground arith)
            (rw f.compiled (check_args-ArgsPass g rule tool c.args checked))
    ]
