-- ===== src/Safety/Exec.antt =====
-- An exec effect is refused only for its names or for its command.
use multi_agent_system_turbo.Base.{◌≤◌, ◌≡◌, refl, ◌↔◌, true, none, [], ◌∷◌, Str, bytes, arith}
use multi_agent_system_turbo.Regexp.{Re, none_of, lit, matches}
use multi_agent_system_turbo.Regexp.Lang.{Repeats, stop, more, Lang}
use multi_agent_system_turbo.Regexp.Decides.{matches_sound, matches_complete}
use multi_agent_system_turbo.Regexp.Slashes.{
  count_slashes, max_slashes, is_bounded, max_slashes_bound,
}
use multi_agent_system_turbo.Safety.Effects.{ExecEffect, Guard}
use multi_agent_system_turbo.Safety.Tables.Paths.{segment, exec_path, dns1123}
use multi_agent_system_turbo.Safety.Args.{valid_path_component}
use multi_agent_system_turbo.Safety.Guard.{authorize_command}
use multi_agent_system_turbo.Safety.Authorize.{exec_endpoint, valid_names, authorize_exec}

abbrev no_slash : Re
no_slash = none_of ((47, 47) ∷ [])

chars_repeat : (s : Str) → count_slashes s ≤ 0 → Repeats (Lang no_slash) s
chars_repeat [] h = stop refl
chars_repeat (c ∷ s) h = more (c ∷ []) s refl (c, refl, ground arith) (chars_repeat s (omega arith))

segment_of_name : (v : Str) → matches dns1123 v ≡ true → Lang segment v
unfolding dns1123 matches max_slashes is_bounded
segment_of_name [] h = absurd (cc)
segment_of_name (c ∷ s) h =
    let few = max_slashes_bound dns1123 (c ∷ s) refl (matches_sound dns1123 (c ∷ s) h) in
    (c ∷ [], s, refl, (c, refl, ground arith), chars_repeat s (omega arith))

lit_self : (s : Str) → Lang (lit s) s
lit_self [] = refl
lit_self (c ∷ []) = (c, refl, ground arith)
lit_self (c ∷ d ∷ s) = (c ∷ [], d ∷ s, refl, (c, refl, ground arith), lit_self (d ∷ s))

endpoint-matches :
    (namespace pod : Str)
    → Lang segment namespace
    → Lang segment pod
    → matches exec_path (exec_endpoint namespace pod) ≡ true
unfolding exec_path
endpoint-matches namespace pod n p = matches_complete exec_path (exec_endpoint namespace pod) (
  bytes "/api/v1/namespaces/",
  _,
  refl,
  lit_self (bytes "/api/v1/namespaces/"),
  (
    namespace,
    _,
    refl,
    n,
    (
      bytes "/pods/",
      _,
      refl,
      lit_self (bytes "/pods/"),
      (pod, bytes "/exec", refl, p, lit_self (bytes "/exec")),
    ),
  ),
)

name_is_segment : (v : Str) → valid_path_component v ≡ true → Lang segment v
unfolding valid_path_component
name_is_segment v h = segment_of_name v (ground arith)

-- The guard lets an exec proceed exactly when its namespace, pod and container are names, the
-- container possibly left out, and it lets the same command proceed on its own: exec changes
-- where a command runs, never which commands run.
pub authorize_exec_iff :
    (g : Guard) (tool : Str) (e : ExecEffect)
    → (authorize_exec g tool e ≡ none) ↔ (
        (valid_names e ≡ true)
        × (authorize_command g tool (record { binary = e.binary; args = e.args }) ≡ none))
unfolding authorize_exec
authorize_exec_iff g tool e = (
  λ h. (ground arith, ground arith),
  λ (names, command).
      let reached =
        endpoint-matches e.namespace e.pod (name_is_segment e.namespace (ground arith))
          (name_is_segment e.pod (ground arith)) in
      ground arith,
)
