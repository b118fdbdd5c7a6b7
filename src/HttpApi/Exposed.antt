-- ===== src/HttpApi/Exposed.antt =====
-- internal/httpapi: admission and the authorizer together.
use multi_agent_system_turbo.Base.{
  ◌≡◌, ◌⊎◌, true, false, not, ◌&&◌, ◌||◌, none, some, List, Str, arith, is_empty, Bool-cases, inl,
  inr,
}
use mathlib.Core.List.{Mem}
use multi_agent_system_turbo.HttpApi.Config.{TokenConfig, ServerConfig}
use multi_agent_system_turbo.HttpApi.Auth.{
  Principal, Request, is_anonymous, Authorizer, passed, Audit, new_authorizer, presented, wrap,
}
use multi_agent_system_turbo.HttpApi.Guarded.{IsGranted, wrap-IsGranted}
use multi_agent_system_turbo.HttpApi.Admission.{Net, is_loopback, admit}

admit-safe :
    {Ip : Type 0} (net : Net Ip) (cfg : ServerConfig)
    → admit net cfg ≡ none
    → (is_loopback net cfg.addr
        || (not (is_empty cfg.tokens) && (cfg.tls_enabled || cfg.terminated_by_proxy)))
      ≡ true
unfolding admit
admit-safe net cfg e = elim (Bool-cases (is_loopback net cfg.addr)) [
  | inl loop ↦ rw loop
  | inr exposed ↦ (let e' = rw exposed at e in rw exposed (ground (arith, e')))
]

-- On a server that starts, unless it is bound to a loopback address with no token configured: a
-- request that reaches its handler asks for an anonymous path, or presents the text of a configured
-- token one of whose scopes is the one that its route needs, on a route that is known, and is
-- audited under the token's name; and the address is a loopback one, or the server is configured to
-- terminate TLS itself or declared by its operator to stand behind a proxy that does. The condition
-- on SHA-256 is that the text presented does not collide with that of a configured token.
pub admit-IsGranted :
    {Ip : Type 0} (net : Net Ip) (sha256 : Str → Str) (cfg : ServerConfig) (a : Authorizer)
    (r : Request) (p : Principal) (log : List Audit)
    → admit net cfg ≡ none
    → (is_loopback net cfg.addr && is_empty cfg.tokens) ≡ false
    → new_authorizer sha256 cfg ≡ inr a
    → ((c : TokenConfig) (plain token : Str)
        → Mem c cfg.tokens
        → c.token ≡ inr plain
        → presented r ≡ some token
        → sha256 plain ≡ sha256 token
        → plain ≡ token)
    → wrap sha256 a r ≡ (passed p, log)
    → ((is_anonymous r.path ≡ true) ⊎ IsGranted cfg r p log)
      × ((is_loopback net cfg.addr || (cfg.tls_enabled || cfg.terminated_by_proxy)) ≡ true)
admit-IsGranted net sha256 cfg a r p log admitted guarded made no_collision e =
    let safe = admit-safe net cfg admitted in
    (
      wrap-IsGranted sha256 cfg a r p log made (ground (arith, safe)) no_collision e,
      ground (arith, safe),
    )
