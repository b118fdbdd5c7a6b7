-- ===== src/HttpApi/Isolation.antt =====
-- internal/httpapi: no handler shows a caller what belongs to a tenant that is not the caller's.
use mathlib.Core.List.{Mem, mem-cons_self, mem-cons_of_mem, not-mem-nil, eq-or-mem_of_mem-cons}
use mathlib.Core.Logic.Or
use multi_agent_system_turbo.Base.{
  result_cases, ◌≡◌, sym, ap, inl, inr, true, false, Option, some, List, [], ◌∷◌, Str, arith,
  Bool-cases, Option-cases, member, All, map, str_eq, str_eq_sound, str_eq_complete, is_empty,
  bytes,
}
use multi_agent_system_turbo.Base.Split.{drop_prefix, atoi}
use multi_agent_system_turbo.Base.Stable.{IsKeyed}
use multi_agent_system_turbo.HttpApi.Config.{Target, multi_tenant, tenant_of}
use multi_agent_system_turbo.HttpApi.Auth.{Principal, diagnosis_prefix}
use multi_agent_system_turbo.HttpApi.Tenancy.{
  RunSummary, may_reach, tenant_for, kept_targets, reachable_targets, kept_runs, reachable_runs,
  may_read_run,
}
use multi_agent_system_turbo.HttpApi.Handlers.{
  DiagnoseRequest, Service, Web, Call, Body, coded, report, accepted, run_list, run_view,
  target_list, Response, start, attributed, create_diagnosis, list_diagnoses, handle_diagnoses,
  handle_diagnosis, handle_targets, to_core, limit_of,
}

-- The tenants of what a body shows.
abbrev pub tenants_shown : Body → List Str
tenants_shown (coded code) = []
tenants_shown (report req rep) = req.tenant ∷ []
tenants_shown (accepted req) = req.tenant ∷ []
tenants_shown (run_list rs) = map (λ r. r.tenant) rs
tenants_shown (run_view rec) = rec.tenant ∷ []
tenants_shown (target_list ts) = map (λ t. t.tenant) ts

abbrev pub AllOwn : Principal → List Str → Type 0
AllOwn p = All (λ t. member t p.tenants ≡ true)

-- Of a response and the runs started with it.
abbrev pub IsOwn : Principal → Response × List DiagnoseRequest → Type 0
IsOwn p (r, started) = AllOwn p (tenants_shown r.body) × AllOwn p (map (λ q. q.tenant) started)

tenant-set : IsSet (Option Str)
tenant-set = hlevel

tenant_of-IsKeyed :
    (ts : List Target) (t : Target)
    → IsKeyed (λ x. x.id) ts
    → Mem t ts
    → tenant_of t.id ts ≡ some t.tenant
unfolding tenant_of
tenant_of-IsKeyed [] t keyed m = absurd (not-mem-nil m)
tenant_of-IsKeyed (u ∷ ts) t keyed m = elim (Bool-cases (str_eq u.id t.id)) [
  | inl same ↦
      let e : u ≡ t = keyed u t mem-cons_self m (str_eq_sound u.id t.id same) in
      rw same (ap (λ (x : Target). some x.tenant) e)
  | inr other ↦ rw other (
      Or.elim (tenant-set (tenant_of t.id ts) (some t.tenant)) (eq-or-mem_of_mem-cons m)
        (λ e. absurd (ne_of_other e other))
        (λ n.
          tenant_of-IsKeyed ts t
            (λ a b ma mb. keyed a b (mem-cons_of_mem u ma) (mem-cons_of_mem u mb)) n))
]
  where
    ne_of_other : {t u : Target} → t ≡ u → str_eq u.id t.id ≡ false → ⊥
    ne_of_other {t} {u} e h =
        let held = str_eq_complete u.id t.id (sym (ap (λ (x : Target). x.id) e)) in
        ground (arith, held)

module _ (targets : List Target) (p : Principal) (many : multi_tenant targets ≡ true) where
  kept_runs-AllOwn :
      (rs : List RunSummary) → AllOwn p (map (λ r. r.tenant) (kept_runs targets p rs))
  unfolding kept_runs
  kept_runs-AllOwn [] = tt
  kept_runs-AllOwn (r ∷ rs) = elim (Bool-cases (member r.tenant p.tenants)) [
    | inl own ↦ rw own (own, kept_runs-AllOwn rs)
    | inr foreign ↦ rw foreign (kept_runs-AllOwn rs)
  ]

  tenant_for-own :
      (id : Str) → may_reach targets p id ≡ true → member (tenant_for targets id) p.tenants ≡ true
  unfolding may_reach tenant_for
  tenant_for-own id h = elim (Option-cases (tenant_of id targets)) [
    | inl unknown ↦ (let h' = rw (many, unknown) at h in absurd (cc))
    | inr (t, found) ↦ rw (tenant_for, found) (rw (many, found) at h)
  ]

  may_reach-own :
      (id τ : Str)
      → may_reach targets p id ≡ true
      → tenant_of id targets ≡ some τ
      → member τ p.tenants ≡ true
  unfolding may_reach
  may_reach-own id τ h found = rw (many, found) at h

  kept_targets-AllOwn :
      (ts : List Target)
      → ((t : Target) → Mem t ts → tenant_of t.id targets ≡ some t.tenant)
      → AllOwn p (map (λ t. t.tenant) (kept_targets targets p ts))
  unfolding kept_targets
  kept_targets-AllOwn [] found = tt
  kept_targets-AllOwn (t ∷ ts) found =
      let rest = kept_targets-AllOwn ts (λ u m. found u (mem-cons_of_mem t m)) in
      elim (Bool-cases (may_reach targets p t.id)) [
        | inl reached ↦
            rw reached (may_reach-own t.id t.tenant reached (found t mem-cons_self), rest)
        | inr hidden ↦ rw hidden rest
      ]

  handle_targets-AllOwn :
      (service : Service) (web : Web) (c : Call)
      → IsKeyed (λ t. t.id) targets
      → AllOwn p (tenants_shown (handle_targets targets service web p c).body)
  unfolding handle_targets reachable_targets
  handle_targets-AllOwn service web c keyed = elim (Bool-cases (str_eq c.method (bytes "GET"))) [
    | inl get ↦
        rw (get, many) (kept_targets-AllOwn targets (λ t m. tenant_of-IsKeyed targets t keyed m))
    | inr other ↦ rw other tt
  ]

  handle_diagnosis-AllOwn :
      (service : Service) (web : Web) (c : Call)
      → AllOwn p (tenants_shown (handle_diagnosis targets service web p c).body)
  unfolding handle_diagnosis may_read_run
  handle_diagnosis-AllOwn service web c = elim (Bool-cases (str_eq c.method (bytes "GET"))) [
    | inr other ↦ rw other tt
    | inl get ↦ elim (Bool-cases (is_empty (drop_prefix c.path diagnosis_prefix))) [
      | inl blank ↦ rw (get, blank) tt
      | inr named ↦ elim (result_cases (service.run (drop_prefix c.path diagnosis_prefix))) [
        | inl (code, failed) ↦ rw (get, named, failed) tt
        | inr (rec, found) ↦ elim (Bool-cases (member rec.tenant p.tenants)) [
          | inl own ↦ rw (get, named, found, many, own) (own, tt)
          | inr foreign ↦ rw (get, named, found, many, foreign) tt
        ]
      ]
    ]
  ]

  list_diagnoses-AllOwn :
      (service : Service) (web : Web) (c : Call)
      → AllOwn p (tenants_shown (list_diagnoses targets service web p c).body)
  unfolding list_diagnoses reachable_runs
  list_diagnoses-AllOwn service web c =
      elim (result_cases (service.runs (limit_of (atoi c.limit)))) [
        | inl (code, failed) ↦ rw (list_diagnoses, failed) tt
        | inr (rs, found) ↦ rw (list_diagnoses, found, many) (kept_runs-AllOwn rs)
      ]

  start-IsOwn :
      (service : Service) (web : Web) (c : Call) (req : DiagnoseRequest)
      → member req.tenant p.tenants ≡ true
      → IsOwn p (start targets service web c req)
  unfolding start
  start-IsOwn service web c req own = elim (Bool-cases (str_eq c.wait (bytes "true"))) [
    | inr other ↦ rw other ((own, tt), (own, tt))
    | inl waits ↦ elim (result_cases (service.diagnose req)) [
      | inl (code, failed) ↦ rw (waits, failed) (tt, (own, tt))
      | inr (rep, done) ↦ rw (waits, done) ((own, tt), (own, tt))
    ]
  ]

  create_diagnosis-IsOwn :
      (service : Service) (web : Web) (c : Call)
      → ((q r : DiagnoseRequest) → service.admit q ≡ inr r → r.tenant ≡ q.tenant)
      → IsOwn p (create_diagnosis targets service web p c)
  unfolding create_diagnosis
  create_diagnosis-IsOwn service web c keeps = elim (Option-cases (web.decode c.body)) [
    | inl malformed ↦ rw (create_diagnosis, malformed) (tt, tt)
    | inr (b, decoded) ↦ elim (result_cases (to_core web b)) [
      | inl (code, failed) ↦ rw (create_diagnosis, decoded, failed) (tt, tt)
      | inr (req, made) ↦ elim (Bool-cases (may_reach targets p req.target)) [
        | inr hidden ↦ rw (create_diagnosis, decoded, made, hidden) (tt, tt)
        | inl reached ↦
            let q = attributed targets service web p req in
            elim (result_cases (service.admit q)) [
              | inl (code, refused) ↦
                  rw (create_diagnosis, decoded, made, reached, refused) (tt, tt)
              | inr (admitted, ok) ↦
                  let own = tenant_for-own req.target reached in
                  rw (create_diagnosis, decoded, made, reached, ok)
                    (start-IsOwn service web c admitted (rw (keeps q admitted ok) own))
            ]
      ]
    ]
  ]

-- With several tenants, no two targets of one id, and an admission that leaves the tenant of a
-- request as it is: whatever a caller asks of the diagnoses, of a stored run or of the list of
-- targets, every run, target and report in the response, and every run that is started, is of one
-- of the caller's tenants.
pub handlers-IsOwn :
    (targets : List Target) (service : Service) (web : Web) (p : Principal) (c : Call)
    → multi_tenant targets ≡ true
    → IsKeyed (λ t. t.id) targets
    → ((q r : DiagnoseRequest) → service.admit q ≡ inr r → r.tenant ≡ q.tenant)
    → IsOwn p (handle_diagnoses targets service web p c)
      × (AllOwn p (tenants_shown (handle_diagnosis targets service web p c).body)
          × AllOwn p (tenants_shown (handle_targets targets service web p c).body))
unfolding handle_diagnoses
handlers-IsOwn targets service web p c many keyed keeps = (
  elim (Bool-cases (str_eq c.method (bytes "POST"))) [
    | inl post ↦ rw post (create_diagnosis-IsOwn targets p many service web c keeps)
    | inr other ↦ elim (Bool-cases (str_eq c.method (bytes "GET"))) [
      | inl get ↦ rw (other, get) (list_diagnoses-AllOwn targets p many service web c, tt)
      | inr neither ↦ rw (other, neither) (tt, tt)
    ]
  ],
  (
    handle_diagnosis-AllOwn targets p many service web c,
    handle_targets-AllOwn targets p many service web c keyed,
  ),
)
