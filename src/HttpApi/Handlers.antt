-- ===== src/HttpApi/Handlers.antt =====
-- internal/httpapi/server.go: the handlers that show or change something of the estate. The service
-- behind them is a record of its operations; JSON, times and durations are the parameters of Web. Of
-- a request its options and its budget are left out, and of the server the set of runs in flight.
-- A body is what is shown in it.
use multi_agent_system_turbo.Base.{
  ℕ, not, ◌||◌, Option, none, some, List, [], ◌∷◌, Str, bytes, if◌then◌else◌, ltb, ◌==◌, is_empty,
  str_eq, ◌⊎◌, inl, inr,
}
use multi_agent_system_turbo.Base.Int.{ℤ, pos, int_ltb}
use multi_agent_system_turbo.Base.Split.{atoi, drop_prefix}
use multi_agent_system_turbo.HttpApi.Config.{Target}
use multi_agent_system_turbo.HttpApi.Auth.{Principal, diagnosis_prefix}
use multi_agent_system_turbo.HttpApi.Tenancy.{
  RunSummary, RunRecord, may_reach, tenant_for, reachable_targets, reachable_runs, may_read_run,
}

-- The body of a request to diagnose; `since` is empty where it is not given.
pub record RequestBody : Type 0 where
  pub target : Str
  pub symptom : Str
  pub since : Str
  pub from : Option ℕ
  pub to : Option ℕ
  pub mode : Str
  pub topology : Str
  pub language : Str

pub record DiagnoseRequest : Type 0 where
  pub target : Str
  pub symptom : Str
  pub mode : Str
  pub topology : Str
  pub language : Str
  pub window : Option (ℕ × ℕ)
  pub principal : Str
  pub tenant : Str

-- An error is its code.
pub record Service : Type 0 where
  pub admit : DiagnoseRequest → Str ⊎ DiagnoseRequest
  pub diagnose : DiagnoseRequest → Str ⊎ Str
  pub runs : ℕ → Str ⊎ List RunSummary
  pub run : Str → Str ⊎ RunRecord

pub record Web : Type 0 where
  pub decode : Str → Option RequestBody
  pub parse_duration : Str → Option ℤ
  pub before : ℕ → ℤ → ℕ
  pub now : ℕ

pub record Call : Type 0 where
  pub method : Str
  pub path : Str
  pub body : Str
  pub wait : Str
  pub limit : Str

pub data Body : Type 0 where
  coded : Str → Body
  report : DiagnoseRequest → Str → Body
  accepted : DiagnoseRequest → Body
  run_list : List RunSummary → Body
  run_view : RunRecord → Body
  target_list : List Target → Body

pub record Response : Type 0 where
  pub status : ℕ
  pub body : Body

abbrev pub write_error : ℕ → Str → Response
write_error status code = record {
  status = status;
  body = coded (if is_empty code then bytes "MAS-7003" else code);
}

abbrev pub respond : ℕ → Body → Response
respond status body = record { status = status; body = body }

-- The domain of a code is told by its fifth byte.
unfoldable pub fifth : Str → Option ℕ
fifth (a ∷ b ∷ c ∷ d ∷ e ∷ s) = some e
fifth s = none

abbrev pub domain_status : ℕ → Str → ℕ
domain_status c code =
    if c == b'1'
    then if str_eq code (bytes "MAS-1005") then 404 else 400
    else if c == b'8'
    then 403
    else if c == b'6'
    then if str_eq code (bytes "MAS-6001") then 404 else 500
    else if c == b'3'
    then if str_eq code (bytes "MAS-3001") then 400 else 500
    else if (c == b'2') || (c == b'4')
    then 502
    else 500

unfoldable pub status_for : Str → ℕ
unfolding fifth
status_for code = elim (fifth code) [ none ↦ 500 | some c ↦ domain_status c code ]

-- Refused in the words for a target or a run that was never configured.
abbrev pub refuse_as_unknown : Response
refuse_as_unknown = write_error 404 (bytes "MAS-7404")

abbrev pub plain_request : RequestBody → Option (ℕ × ℕ) → DiagnoseRequest
plain_request b window = record {
  target = b.target;
  symptom = b.symptom;
  mode = b.mode;
  topology = b.topology;
  language = b.language;
  window = window;
  principal = [];
  tenant = [];
}

module _ (web : Web) where
  unfoldable pub since_window : RequestBody → Option (ℕ × ℕ)
  since_window b = elim (web.parse_duration b.since) [
    | none ↦ none
    | some d ↦ if not (int_ltb (pos 0) d) then none else some (web.before web.now d, web.now)
  ]

  unfoldable pub to_core : RequestBody → Str ⊎ DiagnoseRequest
  unfolding since_window
  to_core b = elim b.from [
    | some f ↦ elim b.to [
      | some t ↦ inr (plain_request b (some (f, t)))
      | none ↦ inl (bytes "MAS-7001")
    ]
    | none ↦ elim b.to [
      | some t ↦ inl (bytes "MAS-7001")
      | none ↦ if is_empty b.since then inr (plain_request b none) else elim (since_window b) [
        | none ↦ inl (bytes "MAS-7001")
        | some w ↦ inr (plain_request b (some w))
      ]
    ]
  ]

-- 20 unless the query names a positive number.
unfoldable pub limit_of : Option ℤ → ℕ
limit_of (some (pos n)) = if ltb 0 n then n else 20
limit_of o = 20

module _ (targets : List Target) (service : Service) (web : Web) where
  -- The admitted request, run while the caller waits or in the background.
  unfoldable pub start : Call → DiagnoseRequest → Response × List DiagnoseRequest
  unfolding status_for
  start c req =
      if str_eq c.wait (bytes "true")
      then elim (service.diagnose req) [
        | inl code ↦ (write_error (status_for code) code, req ∷ [])
        | inr rep ↦ (respond 200 (report req rep), req ∷ [])
      ]
      else (respond 202 (accepted req), req ∷ [])

  -- The request as the server completes it: the principal and the tenant are never the client's.
  abbrev pub attributed : Principal → DiagnoseRequest → DiagnoseRequest
  attributed p req = record req { principal = p.name; tenant = tenant_for targets req.target }

  -- The response, and the runs that are started.
  unfoldable pub create_diagnosis : Principal → Call → Response × List DiagnoseRequest
  unfolding to_core may_reach tenant_for status_for start
  create_diagnosis p c = elim (web.decode c.body) [
    | none ↦ (write_error 400 (bytes "MAS-7001"), [])
    | some b ↦ elim (to_core web b) [
      | inl code ↦ (write_error 400 code, [])
      | inr req ↦
          if not (may_reach targets p req.target)
          then (refuse_as_unknown, [])
          else elim (service.admit (attributed p req)) [
            | inl code ↦ (write_error (status_for code) code, [])
            | inr admitted ↦ start c admitted
          ]
    ]
  ]

  unfoldable pub list_diagnoses : Principal → Call → Response
  unfolding atoi limit_of status_for reachable_runs
  list_diagnoses p c = elim (service.runs (limit_of (atoi c.limit))) [
    | inl code ↦ write_error (status_for code) code
    | inr runs ↦ respond 200 (run_list (reachable_runs targets p runs))
  ]

  unfoldable pub handle_diagnoses : Principal → Call → Response × List DiagnoseRequest
  unfolding create_diagnosis list_diagnoses
  handle_diagnoses p c =
      if str_eq c.method (bytes "POST")
      then create_diagnosis p c
      else if str_eq c.method (bytes "GET")
      then (list_diagnoses p c, [])
      else (write_error 405 (bytes "MAS-7002"), [])

  unfoldable pub handle_diagnosis : Principal → Call → Response
  unfolding status_for may_read_run
  handle_diagnosis p c =
      let id = drop_prefix c.path diagnosis_prefix in
      if not (str_eq c.method (bytes "GET"))
      then write_error 405 (bytes "MAS-7002")
      else if is_empty id
      then write_error 404 (bytes "MAS-7404")
      else elim (service.run id) [
        | inl code ↦ write_error (status_for code) code
        | inr rec ↦
            if not (may_read_run targets p rec)
            then refuse_as_unknown
            else respond 200 (run_view rec)
      ]

  unfoldable pub handle_targets : Principal → Call → Response
  unfolding reachable_targets
  handle_targets p c =
      if not (str_eq c.method (bytes "GET"))
      then write_error 405 (bytes "MAS-7002")
      else respond 200 (target_list (reachable_targets targets p targets))
