-- ===== src/Safety/ExecEndpoint.antt =====
-- The exec endpoint of a pod is out of reach of a plain HTTP effect.
use multi_agent_system_turbo.Base.{
  ◌≤◌, ◌≡◌, ◌≢◌, refl, ◌∙◌, inl, inr, Bool, true, false, ◌&&◌, ◌||◌, Option, none, some, List, [],
  ◌∷◌, ◌++◌, map, Str, bytes, arith, ltb, ltb→lt, Bool-cases, and-true_left, and-true_right, any,
  all, to_upper,
}
use multi_agent_system_turbo.Regexp.{Re, matches, derivs}
use multi_agent_system_turbo.Regexp.Decides.{matches_sound, matches-append}
use multi_agent_system_turbo.Regexp.Slashes.{
  count_slashes, count_slashes-append, max_slashes, is_bounded, max_slashes_bound,
}
use multi_agent_system_turbo.Regexp.Ends.{last_byte, last_byte-append, never_ends, never_ends_sound}
use multi_agent_system_turbo.Safety.Effects.{
  HttpEffect, Call, PathRule, CompiledPathRule, Regexp, Guard, Url,
}
use multi_agent_system_turbo.Safety.Tables.Paths.{default_path_rules}
use multi_agent_system_turbo.Safety.Guard.{SafetyConfig, new_guard}
use multi_agent_system_turbo.Safety.Authorize.{
  exec_endpoint, rule_admits, authorize_http, authorize,
}

abbrev prefix : Str
prefix = bytes "/api/v1/namespaces/"

abbrev tail_of : Str → Str → Str
tail_of namespace pod = namespace ++ (bytes "/pods/" ++ (pod ++ bytes "/exec"))

-- What is left of the pattern after the prefix has too few slashes for the endpoint, or ends in
-- another letter.
excludes_endpoint : Re → Bool
excludes_endpoint r =
    let rest = derivs r prefix in
    (is_bounded rest && ltb (max_slashes rest) 3) || never_ends b'c' rest

count_slashes-tail : (namespace pod : Str) → 3 ≤ count_slashes (tail_of namespace pod)
count_slashes-tail namespace pod = omega (
  arith,
  count_slashes-append namespace (bytes "/pods/" ++ (pod ++ bytes "/exec")),
  count_slashes-append pod (bytes "/exec"),
)

last_byte-tail : (namespace pod : Str) → last_byte (tail_of namespace pod) ≡ some b'c'
unfolding last_byte
last_byte-tail namespace pod =
    last_byte-append namespace b'/' (bytes "pods/" ++ (pod ++ bytes "/exec"))
    ∙ last_byte-append (bytes "/pods/" ++ pod) b'/' (bytes "exec")

tail_excluded :
    (rest : Re) (namespace pod : Str)
    → ((is_bounded rest && ltb (max_slashes rest) 3) || never_ends b'c' rest) ≡ true
    → matches rest (tail_of namespace pod) ≢ true
tail_excluded rest namespace pod h e =
    let l = matches_sound rest (tail_of namespace pod) e in
    elim (Bool-cases (never_ends b'c' rest)) [
      | inl n ↦
          never_ends_sound b'c' rest (tail_of namespace pod) n l (last_byte-tail namespace pod)
      | inr n ↦
          let few : (is_bounded rest && ltb (max_slashes rest) 3) ≡ true = ground arith in
          absurd (
            omega (
              arith,
              ltb→lt (max_slashes rest) 3 (and-true_right (is_bounded rest) _ few),
              max_slashes_bound rest (tail_of namespace pod) (and-true_left (is_bounded rest) _ few)
                  l,
              count_slashes-tail namespace pod,
            ))
    ]

matches-endpoint :
    (r : Re) (namespace pod : Str)
    → excludes_endpoint r ≡ true
    → matches r (exec_endpoint namespace pod) ≡ false
unfolding excludes_endpoint
matches-endpoint r namespace pod h =
    rw (matches-append r prefix (tail_of namespace pod))
      (elim (Bool-cases (matches (derivs r prefix) (tail_of namespace pod))) [
        | inr e ↦ e
        | inl e ↦ absurd (tail_excluded (derivs r prefix) namespace pod h e)
      ])

path_rules_exclude : all (λ p. excludes_endpoint p.pattern) default_path_rules ≡ true
unfolding default_path_rules excludes_endpoint derivs is_bounded max_slashes never_ends
path_rules_exclude = refl

abbrev compile_path_rule : PathRule → CompiledPathRule
compile_path_rule p = record {
  method = p.method;
  pattern = matches p.pattern;
  desc = p.description;
}

no_rule_admits :
    (rules : List PathRule) (method namespace pod : Str)
    → all (λ p. excludes_endpoint p.pattern) rules ≡ true
    → any (rule_admits method (exec_endpoint namespace pod)) (map compile_path_rule rules) ≡ false
no_rule_admits [] method namespace pod h = refl
no_rule_admits (r ∷ rules) method namespace pod h =
    ground
      (arith, matches-endpoint r.pattern namespace pod, no_rule_admits rules method namespace pod)

new_guard-paths :
    (compile : Str → Option Regexp) (cfg : SafetyConfig) (g : Guard)
    → new_guard compile cfg ≡ some g
    → g.paths ≡ map compile_path_rule default_path_rules
unfolding new_guard
new_guard-paths compile cfg g e = ground arith

module _ (parse_url : Str → Option Url) (compile : Str → Option Regexp) (cfg : SafetyConfig) where
  authorize_http-endpoint :
      (g : Guard) (tool namespace pod : Str) (h : HttpEffect) (u : Url)
      → new_guard compile cfg ≡ some g
      → parse_url h.url ≡ some u
      → u.escaped_path ≡ exec_endpoint namespace pod
      → authorize_http parse_url g tool h ≢ none
  unfolding authorize_http
  authorize_http-endpoint g tool namespace pod h u made parsed path =
      let refused : any (rule_admits (to_upper h.method) u.escaped_path) g.paths ≡ false =
        rw (new_guard-paths compile cfg g made, path)
          (no_rule_admits default_path_rules (to_upper h.method) namespace pod
            path_rules_exclude) in
      ground arith

  -- Whatever the configuration, a call that declares an HTTP effect on the exec endpoint of a
  -- pod, in any namespace and for any method, is refused.
  pub authorize-exec_endpoint :
      (g : Guard) (c : Call) (namespace pod : Str) (h : HttpEffect) (u : Url)
      → new_guard compile cfg ≡ some g
      → c.http ≡ some h
      → parse_url h.url ≡ some u
      → u.escaped_path ≡ exec_endpoint namespace pod
      → authorize parse_url g c ≢ none
  unfolding authorize
  authorize-exec_endpoint g c namespace pod h u made http parsed path e =
      authorize_http-endpoint g c.tool namespace pod h u made parsed path (ground arith)
