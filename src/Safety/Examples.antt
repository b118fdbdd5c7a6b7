-- ===== src/Safety/Examples.antt =====
-- The guard run on commands, and its theorems at concrete calls.
use multi_agent_system_turbo.Base.{
  ◌≤◌, ◌≡◌, ◌≢◌, refl, ◌↔◌, true, false, Option, none, some, List, [], ◌∷◌, Str, bytes, map,
  text_run,
}
use multi_agent_system_turbo.Regexp.{matches}
use multi_agent_system_turbo.Safety.Effects.{
  read_only, HttpEffect, CommandEffect, ExecEffect, Call, Regexp, Guard, Url, mas_8001, mas_8002,
  mas_8005, refuse,
}
use multi_agent_system_turbo.Safety.Tables.Patterns.{dangerous_arg_patterns, mutating_positionals}
use multi_agent_system_turbo.Safety.Tables.Commands.{default_command_rules, mongosh_rule}
use multi_agent_system_turbo.Safety.Tables.Paths.{default_path_rules, exec_path, dns1123}
use multi_agent_system_turbo.Safety.Args.{
  cut_equals, alone, takes_next, split_args, at_head, occurs, contains_sequence,
  valid_path_component,
}
use multi_agent_system_turbo.Safety.Guard.{
  SafetyConfig, compile_command_rule, compile_all, new_guard, last_part, base_name, find_rule,
  matches_any, check_verb, check_args, authorize_command,
}
use multi_agent_system_turbo.Safety.Authorize.{
  valid_names, authorize_file, authorize_exec, authorize_http, authorize_effect, declared,
  authorize,
}
use multi_agent_system_turbo.Safety.ExecEndpoint.{authorize-exec_endpoint}
use multi_agent_system_turbo.Safety.Permitted.{IsPermitted, authorize_command-IsPermitted}
use multi_agent_system_turbo.Safety.Narrowing.{new_guard_narrows}
use multi_agent_system_turbo.Safety.Exec.{authorize_exec_iff}
use multi_agent_system_turbo.Safety.Sequences.{Occurs, contains_sequence_iff}
use multi_agent_system_turbo.Safety.Ceilings.{authorize_ceilings}
use multi_agent_system_turbo.Safety.RepeatedFlag.{repeated_flag_unchecked}

abbrev no_pattern : Str → Option Regexp
no_pattern p = none

abbrev same_path : Str → Option Url
same_path s = some (record { path = s; escaped_path = s })

abbrev plain : SafetyConfig
plain = record {
  max_response_bytes = 0;
  max_timeout = 0;
  extra_denied_binaries = [];
  extra_denied_args = [];
}

abbrev without_git : SafetyConfig
without_git = record plain { extra_denied_binaries = bytes " Git " ∷ [] }

abbrev or_empty : Option Guard → Guard
or_empty none = record {
  commands = [];
  paths = [];
  denied_args = [];
  max_bytes = 0;
  max_timeout = 0;
}
or_empty (some g) = g

built : SafetyConfig → Guard
built cfg = or_empty (new_guard no_pattern cfg)

made : new_guard no_pattern plain ≡ some (built plain)
unfolding built new_guard compile_all
made = refl

made_without_git : new_guard no_pattern without_git ≡ some (built without_git)
unfolding built new_guard compile_all
made_without_git = refl

-- What a run of the guard unfolds.
guard_run : Unit {0}
unfolding text_run matches dangerous_arg_patterns mutating_positionals default_command_rules
    default_path_rules exec_path dns1123 cut_equals alone takes_next split_args at_head occurs
    contains_sequence valid_path_component compile_command_rule compile_all new_guard last_part
    base_name find_rule check_verb check_args authorize_command authorize_file authorize_exec
    authorize_http authorize_effect authorize built
guard_run = tt

abbrev command : Str → List Str → CommandEffect
command binary args = record { binary = binary; args = args }

abbrev cli : List Str → CommandEffect
cli args = command (bytes "redis-cli") args

command_tests :
    (authorize_command (built plain) [] (cli (map bytes ("-h" ∷ "db" ∷ "INFO" ∷ []))) ≡ none)
    × (authorize_command (built plain) [] (cli (map bytes ("FlushAll" ∷ []))) ≡ refuse mas_8001 [])
    × (authorize_command (built plain) [] (cli (map bytes ("config" ∷ "REWRITE" ∷ [])))
        ≡ refuse mas_8001 [])
    × (authorize_command (built plain) [] (cli (map bytes ("info" ∷ "a;b" ∷ [])))
        ≡ refuse mas_8005 [])
    × (authorize_command (built without_git) [] (command (bytes "git") (bytes "log" ∷ []))
        ≡ refuse mas_8002 [])
unfolding guard_run
command_tests = (refl, refl, refl, refl, refl)

-- The first argument after `--tls` is read as its value, so the verb behind it is not looked at.
tls_hides_verb :
    authorize_command (built plain) [] (cli (map bytes ("--tls" ∷ "del" ∷ "info" ∷ []))) ≡ none
unfolding guard_run
tls_hides_verb = refl

abbrev call_of : Option HttpEffect → Option CommandEffect → Call
call_of h c = record {
  tool = bytes "t";
  class = read_only;
  http = h;
  command = c;
  exec = none;
  file = none;
  size = 100;
  timeout = 5;
}

abbrev exec_request : HttpEffect
exec_request = record { method = bytes "get"; url = bytes "/api/v1/namespaces/a/pods/b/exec" }

authorize-exec_endpoint_example :
    authorize same_path (built plain) (call_of (some exec_request) none) ≢ none
authorize-exec_endpoint_example =
    authorize-exec_endpoint same_path no_pattern plain (built plain)
      (call_of (some exec_request) none) (bytes "a") (bytes "b") exec_request
      (record {
        path = bytes "/api/v1/namespaces/a/pods/b/exec";
        escaped_path = bytes "/api/v1/namespaces/a/pods/b/exec";
      })
      made refl refl refl

abbrev info : CommandEffect
info = cli (map bytes ("-h" ∷ "db" ∷ "INFO" ∷ []))

authorize_command-IsPermitted_example : IsPermitted plain info
authorize_command-IsPermitted_example =
    authorize_command-IsPermitted no_pattern plain (built plain) [] info made command_tests.0

info_narrow : authorize same_path (built without_git) (call_of none (some info)) ≡ none
unfolding guard_run
info_narrow = refl

new_guard_narrows_example : authorize same_path (built plain) (call_of none (some info)) ≡ none
new_guard_narrows_example =
    new_guard_narrows same_path no_pattern without_git (built without_git) (built plain)
      (call_of none (some info)) made_without_git made info_narrow

authorize_ceilings_example :
    (read_only ≡ read_only)
    × (declared (call_of none (some info)) ≡ 1)
    × (100 ≤ 8388608)
    × (5 ≤ 120000000000)
authorize_ceilings_example =
    authorize_ceilings same_path no_pattern without_git (built without_git)
      (call_of none (some info)) made_without_git info_narrow

abbrev exec_info : ExecEffect
exec_info = record {
  namespace = bytes "prod";
  pod = bytes "redis-0";
  container = [];
  binary = bytes "redis-cli";
  args = bytes "INFO" ∷ [];
}

authorize_exec_iff_example : (authorize_exec (built plain) [] exec_info ≡ none) ↔ (
    (valid_names exec_info ≡ true)
    × (authorize_command (built plain) [] (command (bytes "redis-cli") (bytes "INFO" ∷ [])) ≡ none))
authorize_exec_iff_example = authorize_exec_iff (built plain) [] exec_info

contains_sequence_iff_example :
    (contains_sequence (map bytes ("x" ∷ "CONFIG" ∷ "set" ∷ [])) (map bytes ("config" ∷ "set" ∷ []))
      ≡ true)
    ↔ ((map bytes ("config" ∷ "set" ∷ []) ≢ [])
        × Occurs (map bytes ("x" ∷ "CONFIG" ∷ "set" ∷ [])) (map bytes ("config" ∷ "set" ∷ [])))
contains_sequence_iff_example =
    contains_sequence_iff (map bytes ("x" ∷ "CONFIG" ∷ "set" ∷ []))
      (map bytes ("config" ∷ "set" ∷ []))

abbrev evals : List Str → CommandEffect
evals values = command (bytes "mongosh") values

stats_allowed :
    authorize_command (built plain) [] (evals (map bytes ("--eval" ∷ "db.stats()" ∷ []))) ≡ none
unfolding guard_run
stats_allowed = refl

mongosh_found :
    find_rule (bytes "mongosh") (built plain).commands ≡ some (compile_command_rule mongosh_rule)
unfolding guard_run
mongosh_found = refl

eval_taken : takes_next (compile_command_rule mongosh_rule).flags_with_value (bytes "--eval") ≡ true
unfolding guard_run mongosh_rule
eval_taken = refl

drop_harmless : matches_any (built plain).denied_args (bytes "db.dropDatabase()") ≡ false
unfolding guard_run
drop_harmless = refl

-- A command that drops a database, with a harmless one behind it.
repeated_flag_unchecked_example :
    authorize_command
      (built plain)
      []
      (evals (map bytes ("--eval" ∷ "db.dropDatabase()" ∷ "--eval" ∷ "db.stats()" ∷ [])))
    ≡ none
unfolding base_name last_part
repeated_flag_unchecked_example =
    repeated_flag_unchecked (built plain) (compile_command_rule mongosh_rule) [] (bytes "mongosh")
      (bytes "--eval") (bytes "db.dropDatabase()") (bytes "db.stats()") mongosh_found eval_taken
      drop_harmless stats_allowed
