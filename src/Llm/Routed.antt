-- ===== src/Llm/Routed.antt =====
-- internal/llm/router.go: every role's work goes to a provider that is open.
use multi_agent_system_turbo.Base.{
  result_cases, ◌≡◌, refl, sym, subst, ◌⊎◌, inl, inr, false, some, List, [], ◌∷◌, Str, bytes,
  Bool-cases, Option-cases, is_empty, str_eq, str_eq_sound, trim_space,
}
use multi_agent_system_turbo.Llm.Router.{
  ProviderConfig, AgentModel, LlmConfig, inherit, find_named, Route, Router, with_override,
  named_route, open_named, add_roles, new_router, route_for,
}

module _ {P : Type 0} (open_provider : LlmConfig → Str ⊎ P) (cfg : LlmConfig) where
  -- The provider is open under a declared name, with what the name leaves out inherited.
  pub record IsDeclared (name : Str) (p : P) : Type 0 where
    pub named : ProviderConfig
    pub declared : find_named name cfg.providers ≡ some named
    pub opened : open_provider (inherit cfg named) ≡ inr p

  -- A route to the default provider, or to a declared one under its name.
  abbrev pub IsRouted : Route P → Type 0
  IsRouted r =
      ((r.name ≡ bytes "default") × (open_provider cfg ≡ inr r.provider))
      ⊎ IsDeclared r.name r.provider

  record IsSound (r : Router P) : Type 0 where
    kept :
        (k : Str) (p : P) → is_empty k ≡ false → find_named k r.providers ≡ some p → IsDeclared k p
    routed : (role : Str) (t : Route P) → find_named role r.by_role ≡ some t → IsRouted t
    falls_back : IsRouted r.fallback

  only_blank : (k : Str) (q p : P) → is_empty k ≡ false → find_named k (([], p) ∷ []) ≡ some q → ⊥
  unfolding find_named str_eq
  only_blank [] q p f g = cc
  only_blank (c ∷ k) q p f g = cc

  found_or :
      (name : Str) (q : P) (opened : List (Str × P)) (k : Str) (x : P)
      → IsDeclared name q
      → (find_named k opened ≡ some x → IsDeclared k x)
      → find_named k ((name, q) ∷ opened) ≡ some x
      → IsDeclared k x
  unfolding find_named
  found_or name q opened k x new old e = elim (Bool-cases (str_eq name k)) [
    | inl same ↦
        let e' = rw same at e in
        let value : q ≡ x = cc in
        subst (λ n. IsDeclared n x) (str_eq_sound name k same) (subst (IsDeclared name) value new)
    | inr other ↦ old (rw other at e)
  ]

  open_named-IsDeclared :
      (name : Str) (opened : List (Str × P)) (p : P) (named : ProviderConfig)
      (after : List (Str × P))
      → is_empty name ≡ false
      → ((k : Str) (q : P) → is_empty k ≡ false → find_named k opened ≡ some q → IsDeclared k q)
      → open_named open_provider cfg name opened ≡ inr ((p, named), after)
      → IsDeclared name p
        × ((k : Str) (q : P) → is_empty k ≡ false → find_named k after ≡ some q → IsDeclared k q)
  unfolding open_named
  open_named-IsDeclared name opened p named after filled sound e =
      elim (Option-cases (find_named name cfg.providers)) [
        | inl unknown ↦ (let e' = rw (open_named, unknown) at e in absurd (cc))
        | inr (c, declared) ↦ elim (Option-cases (find_named name opened)) [
          | inr (q, there) ↦
              let e' = rw (open_named, declared, there) at e in
              let same : q ≡ p = cc in
              let rest : opened ≡ after = cc in
              (
                subst (IsDeclared name) same (sound name q filled there),
                λ k x f g. sound k x f (subst (λ l. find_named k l ≡ some x) (sym rest) g),
              )
          | inl missing ↦ elim (result_cases (open_provider (inherit cfg c))) [
            | inl (code, failed) ↦
                (let e' = rw (open_named, declared, missing, failed) at e in absurd (cc))
            | inr (q, ok) ↦
                let e' = rw (open_named, declared, missing, ok) at e in
                let same : q ≡ p = cc in
                let rest : Path (List (Str × P)) ((name, q) ∷ opened) after = cc in
                let new : IsDeclared name q = record {
                  named = c;
                  declared = declared;
                  opened = ok;
                } in
                (
                  subst (IsDeclared name) same new,
                  λ k x f g.
                      found_or name q opened k x new (sound k x f)
                        (subst (λ l. find_named k l ≡ some x) (sym rest) g),
                )
          ]
        ]
      ]

  found_route :
      (role : Str) (t : Route P) (routes : List (Str × Route P)) (k : Str) (x : Route P)
      → IsRouted t
      → (find_named k routes ≡ some x → IsRouted x)
      → find_named k ((role, t) ∷ routes) ≡ some x
      → IsRouted x
  unfolding find_named
  found_route role t routes k x new old e = elim (Bool-cases (str_eq role k)) [
    | inl same ↦ (let e' = rw same at e in let value : t ≡ x = cc in subst IsRouted value new)
    | inr other ↦ old (rw other at e)
  ]

  add_roles-IsSound :
      (roles : List (Str × AgentModel)) (r r' : Router P)
      → IsSound r
      → add_roles open_provider cfg roles r ≡ inr r'
      → IsSound r'
  unfolding add_roles
  add_roles-IsSound [] r r' s e = let same : r ≡ r' = cc in subst IsSound same s
  add_roles-IsSound ((role, o) ∷ roles) r r' s e =
      let name = trim_space o.provider in
      elim (Bool-cases (is_empty name)) [
        | inl unnamed ↦
            let t = with_override open_provider cfg o r.fallback in
            add_roles-IsSound roles (record r { by_role = (role, t) ∷ r.by_role }) r'
              (record {
                kept = s.kept;
                routed = λ k x g. found_route role t r.by_role k x s.falls_back (s.routed k x) g;
                falls_back = s.falls_back;
              })
              (rw unnamed at e)
        | inr filled ↦ elim (result_cases (open_named open_provider cfg name r.providers)) [
          | inl (code, failed) ↦ (let e' = rw (filled, failed) at e in absurd (cc))
          | inr (((p, named), opened), ok) ↦
              let d = open_named-IsDeclared name r.providers p named opened filled s.kept ok in
              let t =
                with_override open_provider cfg o (named_route open_provider cfg name p named) in
              add_roles-IsSound roles
                (record r { providers = opened; by_role = (role, t) ∷ r.by_role }) r'
                (record {
                  kept = d.1;
                  routed = λ k x g. found_route role t r.by_role k x (inr d.0) (s.routed k x) g;
                  falls_back = s.falls_back;
                })
                (rw (filled, ok) at e)
        ]
      ]

  -- Where a router is built: the work of each role, whether anything is declared for it or not,
  -- goes to a provider that was opened, under the default settings for the route named default, or
  -- under the settings declared for the route's name with what they leave out inherited.
  pub new_router-IsRouted :
      (r : Router P) (role : Str)
      → new_router open_provider cfg ≡ inr r
      → IsRouted (route_for r role)
  unfolding new_router route_for find_named
  new_router-IsRouted r role e = elim (result_cases (open_provider cfg)) [
    | inl (code, failed) ↦ (let e' = rw (new_router, failed) at e in absurd (cc))
    | inr (p, ok) ↦
        let first : Router P = record {
          providers = ([], p) ∷ [];
          by_role = [];
          fallback = record {
            name = bytes "default";
            provider = p;
            model = cfg.base.model;
            temperature = cfg.base.temperature;
          };
        } in
        let s =
          add_roles-IsSound cfg.per_agent first r
            (record {
              kept = λ k q f g. absurd (only_blank k q p f g);
              routed = λ k x g. absurd (cc);
              falls_back = inl (refl, ok);
            })
            (rw (new_router, ok) at e) in
        elim (Option-cases (find_named role r.by_role)) [
          | inl missing ↦ rw (route_for, missing) s.falls_back
          | inr (t, found) ↦ rw (route_for, found) (s.routed role t found)
        ]
  ]
