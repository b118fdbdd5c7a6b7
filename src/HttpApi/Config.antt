-- ===== src/HttpApi/Config.antt =====
-- internal/config: the parts of a configuration that the API reads; tenancy.go in full.
use multi_agent_system_turbo.Base.{
  Bool, true, false, not, Option, none, some, List, [], ◌∷◌, Str, if◌then◌else◌, is_empty, member,
  str_eq, str_lt, ◌⊎◌,
}
use multi_agent_system_turbo.Base.Sort.{sort}

pub record Target : Type 0 where
  pub id : Str
  pub tenant : Str

-- `token` is what the secret reveals, or the code of the error.
pub record TokenConfig : Type 0 where
  pub name : Str
  pub token : Str ⊎ Str
  pub scopes : List Str
  pub tenants : List Str

pub record ServerConfig : Type 0 where
  pub addr : Str
  pub tokens : List TokenConfig
  pub tls_enabled : Bool
  pub terminated_by_proxy : Bool

pub record Config : Type 0 where
  pub targets : List Target
  pub server : ServerConfig

unfoldable pub multi_tenant : List Target → Bool
multi_tenant [] = false
multi_tenant (t ∷ ts) = if not (is_empty t.tenant) then true else multi_tenant ts

-- The tenant of the first target of that id.
unfoldable pub tenant_of : Str → List Target → Option Str
tenant_of id [] = none
tenant_of id (t ∷ ts) = if str_eq t.id id then some t.tenant else tenant_of id ts

-- `seen` are the tenants listed so far.
unfoldable pub tenants_from : List Str → List Target → List Str
tenants_from seen [] = []
tenants_from seen (t ∷ ts) =
    let next = t.tenant ∷ tenants_from (t.tenant ∷ seen) ts in
    let rest = tenants_from seen ts in
    if is_empty t.tenant then rest else if member t.tenant seen then rest else next

unfoldable pub tenants : List Target → List Str
unfolding tenants_from sort str_lt
tenants ts = sort str_lt (tenants_from [] ts)
