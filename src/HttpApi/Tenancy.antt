-- ===== src/HttpApi/Tenancy.antt =====
-- internal/httpapi/tenancy.go: what of the estate a principal may reach.
use multi_agent_system_turbo.Base.{
  Bool, true, false, not, none, some, List, [], ◌∷◌, Str, if◌then◌else◌, member,
}
use multi_agent_system_turbo.HttpApi.Config.{Target, multi_tenant, tenant_of}
use multi_agent_system_turbo.HttpApi.Auth.{Principal}

pub record RunSummary : Type 0 where
  pub id : Str
  pub tenant : Str

-- A stored run, of which the report is left out.
pub record RunRecord : Type 0 where
  pub id : Str
  pub tenant : Str
  pub principal : Str

module _ (targets : List Target) where
  unfoldable pub may_reach : Principal → Str → Bool
  unfolding multi_tenant tenant_of
  may_reach p id =
      if not (multi_tenant targets)
      then true
      else elim (tenant_of id targets) [ none ↦ false | some tenant ↦ member tenant p.tenants ]

  -- The empty text for an unknown target.
  unfoldable pub tenant_for : Str → Str
  unfolding tenant_of
  tenant_for id = elim (tenant_of id targets) [ none ↦ [] | some tenant ↦ tenant ]

  unfoldable pub kept_targets : Principal → List Target → List Target
  unfolding may_reach
  kept_targets p [] = []
  kept_targets p (t ∷ ts) =
      let rest = kept_targets p ts in if may_reach p t.id then t ∷ rest else rest

  unfoldable pub reachable_targets : Principal → List Target → List Target
  unfolding multi_tenant kept_targets
  reachable_targets p ts = if not (multi_tenant targets) then ts else kept_targets p ts

  unfoldable pub kept_runs : Principal → List RunSummary → List RunSummary
  kept_runs p [] = []
  kept_runs p (r ∷ rs) =
      let rest = kept_runs p rs in if member r.tenant p.tenants then r ∷ rest else rest

  unfoldable pub reachable_runs : Principal → List RunSummary → List RunSummary
  unfolding multi_tenant kept_runs
  reachable_runs p rs = if not (multi_tenant targets) then rs else kept_runs p rs

  unfoldable pub may_read_run : Principal → RunRecord → Bool
  unfolding multi_tenant
  may_read_run p rec = if not (multi_tenant targets) then true else member rec.tenant p.tenants
