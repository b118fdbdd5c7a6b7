-- ===== src/Safety/Narrowing.antt =====
-- Configuration may only narrow what the guard authorises.
use multi_agent_system_turbo.Base.{
  ◌≡◌, refl, sym, ◌∙◌, inl, inr, true, false, Option, none, some, List, [], ◌∷◌, ◌++◌, map, Str,
  arith, Option-cases, Bool-cases, any, member, str_eq, str_eq_sound, to_lower,
}
use multi_agent_system_turbo.Regexp.{matches}
use multi_agent_system_turbo.Safety.Effects.{
  HttpEffect, CommandEffect, ExecEffect, FileEffect, Call, CommandRule, Regexp, CompiledCommandRule,
  Guard, Url,
}
use multi_agent_system_turbo.Safety.Tables.Patterns.{dangerous_arg_patterns}
use multi_agent_system_turbo.Safety.Tables.Commands.{default_command_rules}
use multi_agent_system_turbo.Safety.Guard.{
  SafetyConfig, compile_all, new_guard, base_name, find_rule, matches_any, check_args,
  authorize_command,
}
use multi_agent_system_turbo.Safety.Authorize.{
  authorize_http, authorize_exec, authorize_effect, authorize,
}
use multi_agent_system_turbo.Safety.Permitted.{
  compiled_rules, new_guard-IsBuilt, check_args-ArgsPass, ArgsPass-check_args,
}

-- Whatever `g` lets proceed, `g0` has no ground of its own to refuse.
record IsNarrower (g g0 : Guard) : Type 0 where
  rules :
      (k : Str) (c : CompiledCommandRule)
      → find_rule k g.commands ≡ some c
      → find_rule k g0.commands ≡ some c
  patterns : (a : Str) → matches_any g.denied_args a ≡ false → matches_any g0.denied_args a ≡ false
  same_paths : g.paths ≡ g0.paths
  same_bytes : g.max_bytes ≡ g0.max_bytes
  same_timeout : g.max_timeout ≡ g0.max_timeout

find_rule-dropped :
    (denied : List Str) (rules : List CommandRule) (k : Str)
    → member (to_lower k) denied ≡ true
    → find_rule k (compiled_rules denied rules) ≡ none
unfolding find_rule
find_rule-dropped denied [] k h = refl
find_rule-dropped denied (r ∷ rules) k h = elim (Bool-cases (member (to_lower r.binary) denied)) [
  | inl dropped ↦ rw dropped (find_rule-dropped denied rules k h)
  | inr stays ↦ elim (Bool-cases (str_eq r.binary k)) [
    | inl same ↦
        let e = str_eq_sound r.binary k same in
        let gone : member (to_lower r.binary) denied ≡ true = rw e h in cc
    | inr other ↦ rw (stays, other) (find_rule-dropped denied rules k h)
  ]
]

find_rule-kept :
    (denied : List Str) (rules : List CommandRule) (k : Str) (c : CompiledCommandRule)
    → find_rule k (compiled_rules denied rules) ≡ some c
    → find_rule k (compiled_rules [] rules) ≡ some c
unfolding find_rule
find_rule-kept denied [] k c e = e
find_rule-kept denied (r ∷ rules) k c e = elim (Bool-cases (str_eq r.binary k)) [
  | inl same ↦ elim (Bool-cases (member (to_lower r.binary) denied)) [
    | inl dropped ↦
        let gone : member (to_lower k) denied ≡ true =
          rw (str_eq_sound r.binary k same) at dropped in
        absurd (cc (find_rule-dropped denied (r ∷ rules) k gone))
    | inr stays ↦ rw same (rw same at (rw stays at e))
  ]
  | inr other ↦ elim (Bool-cases (member (to_lower r.binary) denied)) [
    | inl dropped ↦ rw other (find_rule-kept denied rules k c (rw dropped at e))
    | inr stays ↦ rw other (find_rule-kept denied rules k c (rw other at (rw stays at e)))
  ]
]

abbrev pub without_extras : SafetyConfig → SafetyConfig
without_extras cfg = record cfg { extra_denied_binaries = []; extra_denied_args = [] }

matches_any-append_left :
    (ps extra : List Regexp) (a : Str)
    → matches_any (ps ++ extra) a ≡ false
    → matches_any (ps ++ []) a ≡ false
matches_any-append_left [] extra a h = refl
matches_any-append_left (p ∷ ps) extra a h = ground (arith, matches_any-append_left ps extra a)

none_extra :
    (compile : Str → Option Regexp) (extra : List Regexp)
    → compile_all compile [] ≡ some extra
    → extra ≡ []
unfolding compile_all
none_extra compile extra e = cc

new_guard-IsNarrower :
    (compile : Str → Option Regexp) (cfg : SafetyConfig) (g g0 : Guard)
    → new_guard compile cfg ≡ some g
    → new_guard compile (without_extras cfg) ≡ some g0
    → IsNarrower g g0
new_guard-IsNarrower compile cfg g g0 e e0 =
    let b = new_guard-IsBuilt compile cfg g e in
    let b0 = new_guard-IsBuilt compile (without_extras cfg) g0 e0 in
    record {
      rules = λ k c found.
          rw (b0.commands) (find_rule-kept _ default_command_rules k c (rw (b.commands) at found));
      patterns = λ a miss.
          rw (b0.denied, none_extra compile b0.extra b0.compiled)
            (matches_any-append_left (map matches dangerous_arg_patterns) b.extra a
              (rw (b.denied) at miss));
      same_paths = b.paths ∙ sym b0.paths;
      same_bytes = b.size ∙ sym b0.size;
      same_timeout = b.time ∙ sym b0.time;
    }

module _ {g g0 : Guard} (n : IsNarrower g g0) where
  args-none :
      (args : List Str)
      → any (matches_any g.denied_args) args ≡ false
      → any (matches_any g0.denied_args) args ≡ false
  args-none [] h = refl
  args-none (a ∷ args) h = ground (arith, n.patterns a, args-none args)

  command_narrows :
      (tool : Str) (c : CommandEffect)
      → authorize_command g tool c ≡ none
      → authorize_command g0 tool c ≡ none
  unfolding authorize_command
  command_narrows tool c e = elim (Option-cases (find_rule (base_name c.binary) g.commands)) [
    | inl missing ↦ ground arith
    | inr (rule, found) ↦
        let p = check_args-ArgsPass g rule tool c.args (ground arith) in
        let p0 : check_args g0 rule tool c.args ≡ none =
          ArgsPass-check_args g0 rule tool c.args (record {
            harmless = args-none c.args p.harmless;
            values = p.values;
            reads = p.reads;
            undenied = p.undenied;
            verb = p.verb;
          }) in
        ground (arith, n.rules (base_name c.binary) rule found)
  ]

  exec_narrows :
      (tool : Str) (x : ExecEffect)
      → authorize_exec g tool x ≡ none
      → authorize_exec g0 tool x ≡ none
  unfolding authorize_exec
  exec_narrows tool x e =
      ground (arith, command_narrows tool (record { binary = x.binary; args = x.args }))

  module _ (parse_url : Str → Option Url) where
    effect_narrows :
        (tool : Str) (h : Option HttpEffect) (c : Option CommandEffect) (x : Option ExecEffect)
        (f : Option FileEffect)
        → authorize_effect parse_url g tool h c x f ≡ none
        → authorize_effect parse_url g0 tool h c x f ≡ none
    unfolding authorize_effect authorize_http
    effect_narrows tool (some h) c x f e = ground (arith, n.same_paths)
    effect_narrows tool none (some c) x f e = command_narrows tool c e
    effect_narrows tool none none (some x) f e = exec_narrows tool x e
    effect_narrows tool none none none (some f) e = e
    effect_narrows tool none none none none e = e

    authorize_narrows :
        (c : Call) → authorize parse_url g c ≡ none → authorize parse_url g0 c ≡ none
    unfolding authorize
    authorize_narrows c e =
        ground (
          arith,
          n.same_bytes,
          n.same_timeout,
          effect_narrows c.tool c.http c.command c.exec c.file,
        )

-- A call that a configured guard lets proceed, the guard without the configured denials lets
-- proceed too: extra denied binaries and patterns can only take calls away.
pub new_guard_narrows :
    (parse_url : Str → Option Url) (compile : Str → Option Regexp) (cfg : SafetyConfig)
    (g g0 : Guard) (c : Call)
    → new_guard compile cfg ≡ some g
    → new_guard compile (without_extras cfg) ≡ some g0
    → authorize parse_url g c ≡ none
    → authorize parse_url g0 c ≡ none
new_guard_narrows parse_url compile cfg g g0 c e e0 =
    authorize_narrows (new_guard-IsNarrower compile cfg g g0 e e0) parse_url c
