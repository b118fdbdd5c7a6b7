-- ===== src/Safety/Authorize.antt =====
-- internal/safety/guard.go: Authorize, and the checks of HTTP, exec and file effects.
use multi_agent_system_turbo.Base.{
  ℕ, Bool, true, false, not, ◌&&◌, ◌||◌, Option, none, some, List, [], ◌∷◌, ◌++◌, ◌+◌, map, Str,
  bytes, if◌then◌else◌, ltb, ◌==◌, any, is_empty, str_eq, starts_with, ends_with, contains_text,
  to_upper,
}
use multi_agent_system_turbo.Regexp.{matches}
use multi_agent_system_turbo.Safety.Effects.{
  Class, read_only, mutating, undeclared, HttpEffect, CommandEffect, ExecEffect, FileEffect, Call,
  CompiledPathRule, Guard, Url, mas_8001, mas_8003, mas_8005, mas_8010, Refusal, refuse,
}
use multi_agent_system_turbo.Safety.Tables.Paths.{exec_path}
use multi_agent_system_turbo.Safety.Args.{valid_path_component}
use multi_agent_system_turbo.Safety.Guard.{authorize_command}

abbrev pub rule_admits : Str → Str → CompiledPathRule → Bool
rule_admits method path r = str_eq r.method method && r.pattern path

abbrev pub forbidden_prefixes : List Str
forbidden_prefixes =
    map bytes
      ("/etc/shadow" ∷ "/etc/gshadow" ∷ "/proc/self/environ" ∷ "/root/.ssh" ∷ "/etc/sudoers" ∷ [])

unfoldable pub authorize_file : Str → FileEffect → Option Refusal
authorize_file tool f =
    if contains_text f.path (bytes "..")
    then refuse mas_8005 tool
    else if any (λ c. c == 0) f.path
    then refuse mas_8005 tool
    else if any (starts_with f.path) forbidden_prefixes
    then refuse mas_8003 tool
    else if contains_text f.path (bytes "/.ssh/")
        || (ends_with f.path (bytes "/.netrc") || ends_with f.path (bytes "id_rsa"))
    then refuse mas_8003 tool
    else none

abbrev pub exec_endpoint : Str → Str → Str
exec_endpoint namespace pod =
    bytes "/api/v1/namespaces/" ++ (namespace ++ (bytes "/pods/" ++ (pod ++ bytes "/exec")))

abbrev pub valid_names : ExecEffect → Bool
valid_names e =
    valid_path_component e.namespace
    && (valid_path_component e.pod && (is_empty e.container || valid_path_component e.container))

unfoldable pub authorize_exec : Guard → Str → ExecEffect → Option Refusal
authorize_exec g tool e =
    if not (valid_names e)
    then refuse mas_8005 tool
    else elim (authorize_command g tool (record { binary = e.binary; args = e.args })) [
      | some refusal ↦ some refusal
      | none ↦
          if not (matches exec_path (exec_endpoint e.namespace e.pod))
          then refuse mas_8003 tool
          else none
    ]

abbrev pub is_declared {ℓ} : {A : Type ℓ} → Option A → ℕ
is_declared none = 0
is_declared (some _) = 1

abbrev pub declared : Call → ℕ
declared c = is_declared c.http + is_declared c.command + is_declared c.exec + is_declared c.file

abbrev pub is_read_only : Class → Bool
is_read_only read_only = true
is_read_only mutating = false
is_read_only (undeclared _) = false

module _ (parse_url : Str → Option Url) where
  unfoldable pub authorize_http : Guard → Str → HttpEffect → Option Refusal
  authorize_http g tool h =
      let method = to_upper h.method in
      if not (str_eq method (bytes "GET") || str_eq method (bytes "POST"))
      then refuse mas_8001 tool
      else elim (parse_url h.url) [
        | none ↦ refuse mas_8005 tool
        | some u ↦
            if contains_text u.path (bytes "..")
            then refuse mas_8005 tool
            else if any (rule_admits method u.escaped_path) g.paths
            then none
            else refuse mas_8003 tool
      ]

  -- The switch over the declared effect, its cases in the order of the source.
  unfoldable pub authorize_effect :
      Guard
      → Str
      → Option HttpEffect
      → Option CommandEffect
      → Option ExecEffect
      → Option FileEffect
      → Option Refusal
  authorize_effect g tool (some h) c e f = authorize_http g tool h
  authorize_effect g tool none (some c) e f = authorize_command g tool c
  authorize_effect g tool none none (some e) f = authorize_exec g tool e
  authorize_effect g tool none none none (some f) = authorize_file tool f
  authorize_effect g tool none none none none = none

  unfoldable pub authorize : Guard → Call → Option Refusal
  unfolding authorize_effect
  authorize g c =
      if not (is_read_only c.class)
      then refuse mas_8001 c.tool
      else if ltb 0 g.max_bytes && ltb g.max_bytes c.size
      then refuse mas_8010 c.tool
      else if ltb 0 g.max_timeout && ltb g.max_timeout c.timeout
      then refuse mas_8010 c.tool
      else if not (declared c == 1)
      then refuse mas_8005 c.tool
      else authorize_effect g c.tool c.http c.command c.exec c.file
