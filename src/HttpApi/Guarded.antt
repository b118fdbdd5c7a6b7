-- ===== src/HttpApi/Guarded.antt =====
-- internal/httpapi/auth.go: with a credential configured, what reaches a handler.
use multi_agent_system_turbo.Base.{
  result_cases, ◌≡◌, refl, sym, ap, subst, ◌∙◌, str_eq_complete, ◌⊎◌, inl, inr, Bool, true, false,
  not, ◌||◌, some, List, [], ◌∷◌, Str, arith, Bool-cases, Option-cases, is_empty, member,
  str_eq_sound, str_eq, starts_with, if◌then◌else◌,
}
use mathlib.Core.List.{Mem, mem-cons_self, mem-cons_of_mem}
use multi_agent_system_turbo.HttpApi.Config.{TokenConfig, ServerConfig}
use multi_agent_system_turbo.HttpApi.Auth.{
  Principal, can, Request, is_anonymous, scope_for, Tokens, put, find, principal_of, Authorizer,
  passed, Audit, add_tokens, new_authorizer, presented, identify, wrap, checked, read_routes,
  diagnosis_prefix,
}

-- The principal is that of a token of the configuration whose text has the digest.
pub record IsIssued (sha256 : Str → Str) (configs : List TokenConfig) (digest : Str) (p : Principal)
    : Type 0 where
  pub config : TokenConfig
  pub plain : Str
  pub listed : Mem config configs
  pub reveals : config.token ≡ inr plain
  pub digested : sha256 plain ≡ digest
  pub named : principal_of config ≡ p

module _ (sha256 : Str → Str) (configs : List TokenConfig) where
  -- Every entry of the table is issued.
  abbrev AllIssued : Tokens → Type 0
  AllIssued ts = (k : Str) (p : Principal) → find k ts ≡ some p → IsIssued sha256 configs k p

  find-put :
      (k j : Str) (p : Principal) (ts : Tokens)
      → find k (put j p ts) ≡ (if str_eq j k then some p else find k ts)
  unfolding find put
  find-put k j p [] = refl
  find-put k j p ((i, q) ∷ ts) = elim (Bool-cases (str_eq i j)) [
    | inl same ↦
        let e = ap (λ x. str_eq x k) (str_eq_sound i j same) in rw (same) (ground (arith, e))
    | inr other ↦
        let apart = λ (x : str_eq i k ≡ true) (y : str_eq j k ≡ true).
          str_eq_complete i j (str_eq_sound i k x ∙ sym (str_eq_sound j k y)) in
        rw (other) (ground (arith, find-put k j p ts, apart))
  ]

  put-AllIssued :
      (j : Str) (p : Principal) (ts : Tokens)
      → IsIssued sha256 configs j p
      → AllIssued ts
      → AllIssued (put j p ts)
  put-AllIssued j p ts issued all k q found = elim (Bool-cases (str_eq j k)) [
    | inl same ↦
        let e : some p ≡ some q = sym (rw same at (find-put k j p ts)) ∙ found in
        subst (λ x. IsIssued sha256 configs x q) (str_eq_sound j k same)
          (subst (IsIssued sha256 configs j) (cc) issued)
    | inr other ↦ all k q (sym (rw other at (find-put k j p ts)) ∙ found)
  ]

  add_tokens-AllIssued :
      (cs : List TokenConfig) (a b : Authorizer)
      → ((c : TokenConfig) → Mem c cs → Mem c configs)
      → AllIssued a.tokens
      → add_tokens sha256 cs a ≡ inr b
      → AllIssued b.tokens
  unfolding add_tokens
  add_tokens-AllIssued [] a b sub all e =
      let same : a ≡ b = cc in subst (λ x. AllIssued x.tokens) same all
  add_tokens-AllIssued (c ∷ cs) a b sub all e = elim (result_cases c.token) [
    | inl (code, t) ↦ (let e' = rw t at e in cc)
    | inr (plain, t) ↦
        add_tokens-AllIssued cs
          (record { tokens = put (sha256 plain) (principal_of c) a.tokens; on = true }) b
          (λ d m. sub d (mem-cons_of_mem c m))
          (put-AllIssued (sha256 plain) (principal_of c) a.tokens
            (record {
              config = c;
              plain = plain;
              listed = sub c mem-cons_self;
              reveals = t;
              digested = refl;
              named = refl;
            })
            all)
          (rw t at e)
  ]

  add_tokens-on :
      (cs : List TokenConfig) (a b : Authorizer)
      → add_tokens sha256 cs a ≡ inr b
      → b.on ≡ (a.on || not (is_empty cs))
  unfolding add_tokens
  add_tokens-on [] a b e =
      let same : a ≡ b = cc in subst (λ x. x.on ≡ (a.on || false)) same (ground arith)
  add_tokens-on (c ∷ cs) a b e = elim (result_cases c.token) [
    | inl (code, t) ↦ (let e' = rw t at e in cc)
    | inr (plain, t) ↦
        let on =
          add_tokens-on cs
            (record { tokens = put (sha256 plain) (principal_of c) a.tokens; on = true }) b
            (rw t at e) in
        ground (arith, on)
  ]

-- The principal is that of a token of the configuration with this text.
pub record HasText (configs : List TokenConfig) (text : Str) (p : Principal) : Type 0 where
  pub config : TokenConfig
  pub listed : Mem config configs
  pub reveals : config.token ≡ inr text
  pub named : principal_of config ≡ p

-- What let a request through to its handler as `p`.
pub record IsGranted (cfg : ServerConfig) (r : Request) (p : Principal) (log : List Audit)
    : Type 0 where
  pub token : Str
  pub presents : presented r ≡ some token
  pub issued : HasText cfg.tokens token p
  pub scope : Str
  pub needed : scope_for r ≡ (scope, true)
  pub routed : (member r.path read_routes || starts_with r.path diagnosis_prefix) ≡ true
  pub holds : can p scope ≡ true
  pub logged : log ≡ record { principal = p.name; allowed = true; detail = scope } ∷ []

scope_for-routed :
    (r : Request) (scope : Str)
    → scope_for r ≡ (scope, true)
    → is_empty scope ≡ false
    → (member r.path read_routes || starts_with r.path diagnosis_prefix) ≡ true
unfolding scope_for
scope_for-routed r scope e h = elim (Bool-cases (is_anonymous r.path)) [
  | inl open_route ↦ (let e' = rw open_route at e in ground (arith, ap (λ x. x.1) e'))
  | inr shut ↦ elim (Bool-cases (member r.path read_routes)) [
    | inl listed ↦ rw listed
    | inr other ↦ elim (Bool-cases (starts_with r.path diagnosis_prefix)) [
      | inl below ↦ rw (other, below)
      | inr none_of ↦ (let e' = rw (shut, other, none_of) at e in ground (arith, e'))
    ]
  ]
]

-- What the last test of the middleware lets through.
checked-passed :
    (s : Str × Bool) (p q : Principal) (log : List Audit)
    → checked s p ≡ (passed q, log)
    → (p ≡ q)
      × ((is_empty s.0 ≡ false)
          × ((s ≡ (s.0, true))
              × ((can p s.0 ≡ true)
                  × (log ≡ record { principal = p.name; allowed = true; detail = s.0 } ∷ []))))
checked-passed (scope, false) p q log e = absurd (cc)
checked-passed (scope, true) p q log e = elim (Bool-cases (is_empty scope)) [
  | inl blank ↦ (let e' = rw blank at e in absurd (cc))
  | inr named ↦ elim (Bool-cases (can p scope)) [
    | inr lacks ↦ (let e' = rw (named, lacks) at e in absurd (cc))
    | inl holds ↦
        (let e' = rw (named, holds) at e in (cc, (named, (refl, (holds, sym (ap (λ x. x.1) e'))))))
  ]
]

module _ (sha256 : Str → Str) (cfg : ServerConfig) (a : Authorizer) where
  -- With a token configured, a request that reaches its handler asks for an anonymous path, or
  -- presents the text of a token whose scopes have the one that its route needs.
  pub wrap-IsGranted :
      (r : Request) (p : Principal) (log : List Audit)
      → new_authorizer sha256 cfg ≡ inr a
      → is_empty cfg.tokens ≡ false
      → ((c : TokenConfig) (plain token : Str)
          → Mem c cfg.tokens
          → c.token ≡ inr plain
          → presented r ≡ some token
          → sha256 plain ≡ sha256 token
          → plain ≡ token)
      → wrap sha256 a r ≡ (passed p, log)
      → (is_anonymous r.path ≡ true) ⊎ IsGranted cfg r p log
  unfolding new_authorizer wrap identify
  wrap-IsGranted r p log made some_token no_collision e = elim (Bool-cases (is_anonymous r.path)) [
    | inl open_route ↦ inl open_route
    | inr shut ↦
        let start : Authorizer = record { tokens = []; on = false } in
        let on : a.on ≡ true =
          rw some_token at (add_tokens-on sha256 cfg.tokens cfg.tokens start a made) in
        elim (Option-cases (presented r)) [
          | inl missing ↦ (let e' = rw (shut, on, missing) at e in absurd (cc))
          | inr (token, shown) ↦ elim (Option-cases (find (sha256 token) a.tokens)) [
            | inl unknown ↦ (let e' = rw (shut, on, shown, unknown) at e in absurd (cc))
            | inr (q, found) ↦
                let e' = rw (shut, on, shown, found) at e in
                let c = checked-passed (scope_for r) q p log e' in
                let i =
                  add_tokens-AllIssued sha256 cfg.tokens cfg.tokens start a (λ d m. m)
                    (λ k x none_found. absurd (cc)) made (sha256 token) q found in
                let same =
                  no_collision i.config i.plain token i.listed i.reveals shown i.digested in
                inr (record {
                  token = token;
                  presents = shown;
                  issued = record {
                    config = i.config;
                    listed = i.listed;
                    reveals = i.reveals ∙ ap inr same;
                    named = i.named ∙ c.0;
                  };
                  scope = (scope_for r).0;
                  needed = c.1.1.0;
                  routed = scope_for-routed r (scope_for r).0 c.1.1.0 c.1.0;
                  holds = rw c.0 at c.1.1.1.0;
                  logged = rw c.0 at c.1.1.1.1;
                })
          ]
        ]
  ]
