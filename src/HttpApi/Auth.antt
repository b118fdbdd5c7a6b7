-- ===== src/HttpApi/Auth.antt =====
-- internal/httpapi/auth.go: the authorizer. SHA-256 is the parameter `sha256`; the table of tokens
-- is keyed by digests, so a later token with the same text replaces an earlier one.
use multi_agent_system_turbo.Base.{
  ℕ, zero, suc, Bool, true, false, not, ◌&&◌, ◌||◌, Option, none, some, List, [], ◌∷◌, ◌++◌, Str,
  bytes, if◌then◌else◌, leb, length, is_empty, member, str_eq, starts_with, equal_fold, trim_space,
  ◌⊎◌, inl, inr,
}
use multi_agent_system_turbo.HttpApi.Config.{TokenConfig, ServerConfig}

pub record Principal : Type 0 where
  pub name : Str
  pub scopes : List Str
  pub tenants : List Str

abbrev pub anonymous : Principal
anonymous = record { name = bytes "anonymous"; scopes = []; tenants = [] }

abbrev pub scope_read : Str
scope_read = bytes "read"

abbrev pub scope_diagnose : Str
scope_diagnose = bytes "diagnose"

unfoldable pub can : Principal → Str → Bool
can p s = member s p.scopes

-- `authorization` is the value of that header, empty where there is none.
pub record Request : Type 0 where
  pub method : Str
  pub path : Str
  pub authorization : Str

abbrev pub console_prefix : Str
console_prefix = bytes "/ui/"

abbrev pub anonymous_routes : List Str
anonymous_routes = bytes "/healthz" ∷ bytes "/readyz" ∷ bytes "/ui" ∷ bytes "/ui/" ∷ []

unfoldable pub is_anonymous : Str → Bool
is_anonymous path = if member path anonymous_routes then true else starts_with path console_prefix

abbrev pub diagnoses_path : Str
diagnoses_path = bytes "/api/v1/diagnoses"

abbrev pub diagnosis_prefix : Str
diagnosis_prefix = bytes "/api/v1/diagnoses/"

abbrev pub read_routes : List Str
read_routes =
    diagnoses_path
    ∷ diagnosis_prefix
    ∷ bytes "/api/v1/targets"
    ∷ bytes "/api/v1/topologies"
    ∷ bytes "/api/v1/packs"
    ∷ bytes "/metrics"
    ∷ bytes "/"
    ∷ []

-- The scope that the request needs, and whether the route is known.
unfoldable pub scope_for : Request → Str × Bool
unfolding is_anonymous
scope_for r =
    if is_anonymous r.path
    then ([], false)
    else if str_eq r.path diagnoses_path && str_eq r.method (bytes "POST")
    then (scope_diagnose, true)
    else if member r.path read_routes
    then (scope_read, true)
    else if starts_with r.path diagnosis_prefix
    then (scope_read, true)
    else ([], true)

abbrev pub Tokens : Type 0
Tokens = List (Str × Principal)

unfoldable pub put : Str → Principal → Tokens → Tokens
put k p [] = (k, p) ∷ []
put k p ((j, q) ∷ ts) = if str_eq j k then (k, p) ∷ ts else (j, q) ∷ put k p ts

unfoldable pub find : Str → Tokens → Option Principal
find k [] = none
find k ((j, p) ∷ ts) = if str_eq j k then some p else find k ts

abbrev pub principal_of : TokenConfig → Principal
principal_of t = record { name = t.name; scopes = t.scopes; tenants = t.tenants }

pub record Authorizer : Type 0 where
  pub tokens : Tokens
  pub on : Bool

pub record Audit : Type 0 where
  pub principal : Str
  pub allowed : Bool
  pub detail : Str

-- What comes of a request: the handler runs for a principal, or a status and a code are written.
pub data Wrapped : Type 0 where
  passed : Principal → Wrapped
  refused : ℕ → Str → Wrapped

abbrev pub bearer : Str
bearer = bytes "Bearer "

-- The header cut after the length of the prefix: what stands before, and the rest.
unfoldable pub cut : ℕ → Str → Str × Str
cut zero s = ([], s)
cut (suc n) [] = ([], [])
cut (suc n) (c ∷ s) = let rest = cut n s in (c ∷ rest.0, rest.1)

-- The text of the bearer token that a request presents.
unfoldable pub presented : Request → Option Str
unfolding cut
presented r =
    let parts = cut (length bearer) r.authorization in
    if leb (length r.authorization) (length bearer) || not (equal_fold parts.0 bearer)
    then none
    else some (trim_space parts.1)

abbrev pub checked : Str × Bool → Principal → Wrapped × List Audit
checked (scope, known) p =
    if not known || (is_empty scope || not (can p scope))
    then (
      refused 403 (bytes "MAS-7014"),
      record { principal = p.name; allowed = false; detail = bytes "missing scope " ++ scope } ∷ [],
    )
    else (passed p, record { principal = p.name; allowed = true; detail = scope } ∷ [])

module _ (sha256 : Str → Str) where
  unfoldable pub add_tokens : List TokenConfig → Authorizer → Str ⊎ Authorizer
  unfolding put
  add_tokens [] a = inr a
  add_tokens (t ∷ ts) a = elim t.token [
    | inl code ↦ inl code
    | inr plain ↦
        add_tokens ts (record { tokens = put (sha256 plain) (principal_of t) a.tokens; on = true })
  ]

  unfoldable pub new_authorizer : ServerConfig → Str ⊎ Authorizer
  unfolding add_tokens
  new_authorizer cfg = add_tokens cfg.tokens (record { tokens = []; on = false })

  unfoldable pub identify : Authorizer → Request → Option Principal
  unfolding presented find
  identify a r = elim (presented r) [ none ↦ none | some token ↦ find (sha256 token) a.tokens ]

  -- What the middleware makes of a request, with what it writes to the audit log.
  unfoldable pub wrap : Authorizer → Request → Wrapped × List Audit
  unfolding is_anonymous scope_for identify can
  wrap a r =
      if is_anonymous r.path
      then (passed anonymous, [])
      else if not a.on
      then (passed anonymous, [])
      else elim (identify a r) [
        | none ↦ (
          refused 401 (bytes "MAS-7012"),
          record {
            principal = anonymous.name;
            allowed = false;
            detail = bytes "no usable credential";
          }
              ∷ [],
        )
        | some p ↦ checked (scope_for r) p
      ]
