-- ===== src/HttpApi/Examples.antt =====
-- The API asked by a caller of one of two tenants.
use multi_agent_system_turbo.Base.{
  ◌≡◌, refl, sym, ap, ◌⊎◌, inr, true, false, ◌&&◌, ◌||◌, none, some, List, [], ◌∷◌, Str, bytes,
  text_run, Bool,
}
use multi_agent_system_turbo.Base.Keyed.{has_distinct, has_distinct-IsKeyed}
use multi_agent_system_turbo.HttpApi.Config.{
  Target, TokenConfig, ServerConfig, multi_tenant, tenant_of,
}
use multi_agent_system_turbo.HttpApi.Auth.{
  Principal, Request, is_anonymous, Authorizer, passed, Audit, new_authorizer, wrap, principal_of,
  add_tokens, put, find, presented, cut, identify, scope_for, can,
}
use multi_agent_system_turbo.HttpApi.Guarded.{IsGranted}
use multi_agent_system_turbo.HttpApi.Admission.{Net, is_loopback, admit}
use multi_agent_system_turbo.HttpApi.Exposed.{admit-IsGranted}
use multi_agent_system_turbo.HttpApi.Tenancy.{RunRecord, kept_targets, may_reach, reachable_targets}
use multi_agent_system_turbo.HttpApi.Handlers.{
  DiagnoseRequest, Service, Web, Call, target_list, respond, handle_diagnoses, handle_diagnosis,
  handle_targets,
}
use multi_agent_system_turbo.HttpApi.Isolation.{IsOwn, AllOwn, tenants_shown, handlers-IsOwn}

-- Stands for a digest.
abbrev digest : Str → Str
digest s = b'#' ∷ s

abbrev reader : TokenConfig
reader = record {
  name = bytes "status";
  token = inr (bytes "t1");
  scopes = bytes "read" ∷ [];
  tenants = bytes "blue" ∷ [];
}

abbrev exposed : ServerConfig
exposed = record {
  addr = bytes ":8080";
  tokens = reader ∷ [];
  tls_enabled = true;
  terminated_by_proxy = false;
}

abbrev no_net : Net Bool
no_net = record {
  host_of = λ s. some [];
  parse_ip = λ s. none;
  lookup_ip = λ s. none;
  is_loopback_ip = λ b. b;
}

abbrev authorizer : Authorizer
authorizer = record { tokens = (digest (bytes "t1"), principal_of reader) ∷ []; on = true }

abbrev listing : Request
listing = record {
  method = bytes "GET";
  path = bytes "/api/v1/targets";
  authorization = bytes "Bearer t1";
}

abbrev entry : Audit
entry = record { principal = bytes "status"; allowed = true; detail = bytes "read" }

made : new_authorizer digest exposed ≡ inr authorizer
unfolding new_authorizer add_tokens put text_run
made = refl

admitted : admit no_net exposed ≡ none
unfolding admit is_loopback text_run
admitted = refl

guarded : (is_loopback no_net exposed.addr && false) ≡ false
unfolding is_loopback text_run
guarded = refl

goes_through : wrap digest authorizer listing ≡ (passed (principal_of reader), entry ∷ [])
unfolding wrap is_anonymous scope_for identify presented cut find can text_run
goes_through = refl

digest-injective : (s t : Str) → digest s ≡ digest t → s ≡ t
digest-injective s t e = cc

admit-IsGranted_example :
    ((is_anonymous listing.path ≡ true)
      ⊎ IsGranted exposed listing (principal_of reader) (entry ∷ []))
    × ((is_loopback no_net exposed.addr || (exposed.tls_enabled || exposed.terminated_by_proxy))
        ≡ true)
admit-IsGranted_example =
    admit-IsGranted no_net digest exposed authorizer listing (principal_of reader) (entry ∷ [])
      admitted guarded made (λ c plain token m t shown e. digest-injective plain token e)
      goes_through

abbrev targets : List Target
targets =
    record { id = bytes "a"; tenant = bytes "blue" }
    ∷ record { id = bytes "b"; tenant = bytes "red" }
    ∷ []

abbrev red_run : RunRecord
red_run = record { id = bytes "r"; tenant = bytes "red"; principal = bytes "x" }

abbrev service : Service
service = record {
  admit = λ q. inr q;
  diagnose = λ q. inr (bytes "report");
  runs = λ n. inr (record { id = bytes "r"; tenant = bytes "red" } ∷ []);
  run = λ id. inr red_run;
}

abbrev web : Web
web = record { decode = λ s. none; parse_duration = λ s. none; before = λ t d. t; now = 0 }

abbrev read_run : Call
read_run = record {
  method = bytes "GET";
  path = bytes "/api/v1/diagnoses/r";
  body = [];
  wait = [];
  limit = [];
}

abbrev blue : Principal
blue = principal_of reader

many : multi_tenant targets ≡ true
unfolding multi_tenant
many = refl

targets-set : IsSet Target
targets-set = hlevel

distinct : has_distinct (λ (t : Target). t.id) targets ≡ true
unfolding has_distinct
distinct = refl

admits : (q r : DiagnoseRequest) → service.admit q ≡ inr r → q ≡ r
admits q r e = cc

handlers-IsOwn_example :
    IsOwn blue (handle_diagnoses targets service web blue read_run)
    × (AllOwn blue (tenants_shown (handle_diagnosis targets service web blue read_run).body)
        × AllOwn blue (tenants_shown (handle_targets targets service web blue read_run).body))
handlers-IsOwn_example =
    handlers-IsOwn targets service web blue read_run many
      (has_distinct-IsKeyed (λ t. t.id) targets-set targets distinct)
      (λ q r e. ap (λ (x : DiagnoseRequest). x.tenant) (sym (admits q r e)))

-- The caller of the other tenant sees the target that is of it.
targets_test :
    handle_targets targets service web blue read_run
    ≡ respond 200 (target_list (record { id = bytes "a"; tenant = bytes "blue" } ∷ []))
unfolding handle_targets reachable_targets kept_targets may_reach multi_tenant tenant_of text_run
targets_test = refl
