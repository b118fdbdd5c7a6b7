-- ===== src/Safety/RepeatedFlag.antt =====
-- A flag that is given twice: the guard reads the value that was given last.
use multi_agent_system_turbo.Base.{
  ◌≡◌, refl, true, false, none, some, List, [], ◌∷◌, Str, arith, all,
}
use multi_agent_system_turbo.Safety.Effects.{Regexp, CompiledCommandRule, Guard}
use multi_agent_system_turbo.Safety.Args.{takes_next, split_args}
use multi_agent_system_turbo.Safety.Guard.{
  base_name, find_rule, matches_any, value_allowed, authorize_command,
}
use multi_agent_system_turbo.Safety.Permitted.{ArgsPass, check_args-ArgsPass, ArgsPass-check_args}

module _ (flags : List Str) (f v w : Str) (taken : takes_next flags f ≡ true) where
  split_once :
      split_args flags (f ∷ w ∷ []) ≡ record { positionals = []; flag_values = (f, w) ∷ [] }
  unfolding split_args
  split_once = rw taken

  split_twice :
      split_args flags (f ∷ v ∷ f ∷ w ∷ [])
      ≡ record { positionals = []; flag_values = (f, w) ∷ (f, v) ∷ [] }
  unfolding split_args
  split_twice = rw taken

value_allowed_twice :
    (f v w : Str) (entry : Str × List Regexp)
    → value_allowed ((f, w) ∷ (f, v) ∷ []) entry ≡ value_allowed ((f, w) ∷ []) entry
unfolding find_rule
value_allowed_twice f v w (flag, res) = ground arith

values_twice :
    (f v w : Str) (entries : List (Str × List Regexp))
    → all (value_allowed ((f, w) ∷ (f, v) ∷ [])) entries ≡ all (value_allowed ((f, w) ∷ [])) entries
values_twice f v w [] = refl
values_twice f v w (e ∷ entries) = cc (value_allowed_twice f v w e, values_twice f v w entries)

args_twice :
    (g : Guard) (rule : CompiledCommandRule) (tool f v w : Str)
    → takes_next rule.flags_with_value f ≡ true
    → matches_any g.denied_args v ≡ false
    → ArgsPass g rule tool (f ∷ w ∷ [])
    → ArgsPass g rule tool (f ∷ v ∷ f ∷ w ∷ [])
args_twice g rule tool f v w t safe p =
    let once = split_once rule.flags_with_value f v w t in
    let twice = split_twice rule.flags_with_value f v w t in
    record {
      harmless = ground (arith, p.harmless);
      values = rw (twice, values_twice f v w rule.value_allow_list) (rw once at p.values);
      reads = rw twice (rw once at p.reads);
      undenied = rw twice (rw once at p.undenied);
      verb = rw twice (rw once at p.verb);
    }

-- Where a flag takes a value and the guard lets the command with the value `w` proceed, it lets
-- the same flag proceed with any value `v` before it that no denied pattern matches: of a flag
-- given twice only the last value is held against the allow-list.
pub repeated_flag_unchecked :
    (g : Guard) (rule : CompiledCommandRule) (tool binary f v w : Str)
    → find_rule (base_name binary) g.commands ≡ some rule
    → takes_next rule.flags_with_value f ≡ true
    → matches_any g.denied_args v ≡ false
    → authorize_command g tool (record { binary = binary; args = f ∷ w ∷ [] }) ≡ none
    → authorize_command g tool (record { binary = binary; args = f ∷ v ∷ f ∷ w ∷ [] }) ≡ none
unfolding authorize_command
repeated_flag_unchecked g rule tool binary f v w found taken safe e =
    let p = check_args-ArgsPass g rule tool (f ∷ w ∷ []) (ground arith) in
    let q =
      ArgsPass-check_args g rule tool (f ∷ v ∷ f ∷ w ∷ [])
        (args_twice g rule tool f v w taken safe p) in
    ground arith
