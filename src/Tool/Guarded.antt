-- ===== src/Tool/Guarded.antt =====
-- internal/tool/tool.go, Invoke: what an effect went through before it reached a tool, and the
-- budget of calls while invocations come one after the other.
use multi_agent_system_turbo.Base.{
  ℕ, ◌+◌, ◌≤◌, ◌≡◌, refl, ◌⊎◌, inl, inr, false, not, ◌&&◌, Option, none, some, List, [], ◌∷◌, ◌++◌,
  Str, arith, Bool-cases, Option-cases, All, All-append, length, length-append,
}
use multi_agent_system_turbo.Core.Model.{Evidence}
use multi_agent_system_turbo.Safety.Effects.{read_only, Call, Regexp}
use multi_agent_system_turbo.Safety.Guard.{SafetyConfig, new_guard}
use multi_agent_system_turbo.Safety.Authorize.{declared, authorize}
use multi_agent_system_turbo.Safety.Ceilings.{authorize_ceilings}
use multi_agent_system_turbo.Tool.Registry.{Reading, got, failed, timed_out, Args, Tool, get_tool}
use multi_agent_system_turbo.Tool.Invoker.{
  Invoker, Counters, new_counters, give_gap, completed, read_evidence, authorise_and_read,
  invoke_tool, is_exhausted, invoke, invoke_all,
}

-- An effect that reached the tool of that name: the tool is registered, the run is online if the
-- tool needs it, the call carries the tool's name, and the guard lets it proceed.
abbrev pub IsAuthorized : {V : Type 0} → Invoker V → Str × Call → Type 0
IsAuthorized {V} inv (name, call) =
    ((t : Tool V) × (get_tool name inv.registry ≡ some t)
      × ((t.needs_online && not inv.online) ≡ false))
    × (call.tool ≡ name)
    × (authorize inv.parse_url inv.guard call ≡ none)

abbrev IsWithin : ℕ → ℕ → Type 0
IsWithin max n = (max ≡ 0) ⊎ (n ≤ max)

Sum-cases {ℓ κ} :
    {A : Type ℓ} {B : Type κ} (s : A ⊎ B) → ((a : A) × (s ≡ inl a)) ⊎ ((b : B) × (s ≡ inr b))
Sum-cases (inl a) = inl (a, refl)
Sum-cases (inr b) = inr (b, refl)

Reading-cases :
    (r : Reading)
    → ((ev : Evidence) × (r ≡ got ev)) ⊎ (((code : Str) × (r ≡ failed code)) ⊎ (r ≡ timed_out))
Reading-cases (got ev) = inl (ev, refl)
Reading-cases (failed code) = inr (inl (code, refl))
Reading-cases timed_out = inr (inr refl)

module _ {V : Type 0} (inv : Invoker V) where
  -- What one invocation leaves: effects reached a tool only authorised, and at most one more did.
  record Extends (w w' : Counters) : Type 0 where
    authorized : All (IsAuthorized inv) w.reached → All (IsAuthorized inv) w'.reached
    at_most_one : length w'.reached ≤ length w.reached + 1
    same_calls : w'.calls ≡ w.calls

  Extends-of : (w w' : Counters) → w'.reached ≡ w.reached → w'.calls ≡ w.calls → Extends w w'
  Extends-of w w' r c = record {
    authorized = λ h. rw r h;
    at_most_one = rw r (omega arith);
    same_calls = c;
  }

  Extends-reached :
      (w w' : Counters) (x : Str × Call)
      → w'.reached ≡ w.reached ++ x ∷ []
      → w'.calls ≡ w.calls
      → IsAuthorized inv x
      → Extends w w'
  Extends-reached w w' x r c h = record {
    authorized = λ a. rw r (All-append (IsAuthorized inv) w.reached (x ∷ []) a (h, tt));
    at_most_one = rw r (omega (arith, length-append w.reached (x ∷ [])));
    same_calls = c;
  }

  read_evidence-Extends :
      (t : Tool V) (name : Str) (args : Args V) (call : Call) (w : Counters)
      → IsAuthorized inv (name, call)
      → Extends w (read_evidence inv t name args call w).0
  unfolding read_evidence give_gap
  read_evidence-Extends t name args call w h = elim (Reading-cases (t.read w.calls args)) [
    | inl (ev, e) ↦ rw (read_evidence, e) (Extends-reached w _ (name, call) refl refl h)
    | inr (inl (code, e)) ↦ rw (read_evidence, e) (Extends-reached w _ (name, call) refl refl h)
    | inr (inr e) ↦ rw (read_evidence, e) (Extends-reached w _ (name, call) refl refl h)
  ]

  authorise_and_read-Extends :
      (t : Tool V) (name : Str) (args : Args V) (w : Counters)
      → get_tool name inv.registry ≡ some t
      → (t.needs_online && not inv.online) ≡ false
      → Extends w (authorise_and_read inv t name args w).0
  unfolding authorise_and_read give_gap completed
  authorise_and_read-Extends t name args w found mode = elim (Sum-cases (t.plan args)) [
    | inl (code, e) ↦ rw (authorise_and_read, e) (Extends-of w _ refl refl)
    | inr (planned, e) ↦
        let call = completed inv t name planned in
        elim (Option-cases (authorize inv.parse_url inv.guard call)) [
          | inr (r, a) ↦ rw (authorise_and_read, e, a) (Extends-of w _ refl refl)
          | inl a ↦
              rw (authorise_and_read, e, a)
                (read_evidence-Extends t name args call w ((t, found, mode), refl, a))
        ]
  ]

  invoke_tool-Extends :
      (t : Tool V) (name : Str) (args : Args V) (w : Counters)
      → get_tool name inv.registry ≡ some t
      → Extends w (invoke_tool inv t name args w).0
  unfolding invoke_tool give_gap
  invoke_tool-Extends t name args w found = elim (Bool-cases (t.needs_online && not inv.online)) [
    | inl offline ↦ rw (invoke_tool, offline) (Extends-of w _ refl refl)
    | inr mode ↦ elim (Sum-cases (t.validate args)) [
      | inl (code, e) ↦ rw (invoke_tool, mode, e) (Extends-of w _ refl refl)
      | inr (ok, e) ↦ rw (invoke_tool, mode, e) (authorise_and_read-Extends t name ok w found mode)
    ]
  ]

  -- The counts of a run: what reached a tool was counted, and the count is within the budget.
  pub record IsSound (w : Counters) : Type 0 where
    pub authorized : All (IsAuthorized inv) w.reached
    pub counted : length w.reached ≤ w.calls
    pub within : IsWithin inv.max_calls w.calls

  invoke-IsSound :
      (name : Str) (args : Args V) (w : Counters) → IsSound w → IsSound (invoke inv name args w).0
  unfolding invoke give_gap
  invoke-IsSound name args w v = elim (Option-cases (get_tool name inv.registry)) [
    | inl e ↦
        rw (invoke, e)
          (record { authorized = v.authorized; counted = v.counted; within = v.within })
    | inr (t, e) ↦ elim (Bool-cases (is_exhausted inv w.calls)) [
      | inl spent ↦
          rw (invoke, e, spent)
            (record { authorized = v.authorized; counted = v.counted; within = v.within })
      | inr left ↦
          let counted_call : Counters = record w { calls = w.calls + 1 } in
          let x = invoke_tool-Extends t name args counted_call e in
          rw (invoke, e, left)
            (record {
              authorized = x.authorized v.authorized;
              counted = omega (arith, x.at_most_one, x.same_calls, v.counted);
              within = room (invoke_tool inv t name args counted_call).0.calls x.same_calls left;
            })
    ]
  ]
    where
      room : (n : ℕ) → n ≡ w.calls + 1 → is_exhausted inv w.calls ≡ false → IsWithin inv.max_calls n
      room n e left = ground arith

  invoke_all-IsSound :
      (requests : List (Str × Args V)) (w : Counters)
      → IsSound w
      → IsSound (invoke_all inv requests w).0
  unfolding invoke_all
  invoke_all-IsSound [] w v = v
  invoke_all-IsSound ((name, args) ∷ requests) w v =
      invoke_all-IsSound requests (invoke inv name args w).0 (invoke-IsSound name args w v)

-- The effect is a read that its tool was asked for: declared read-only, exactly one effect, on a
-- registered tool that the mode of the run allows.
abbrev pub IsRead : {V : Type 0} → Invoker V → Str × Call → Type 0
IsRead inv (name, call) =
    IsAuthorized inv (name, call) × (call.class ≡ read_only) × (declared call ≡ 1)

All-IsRead :
    {V : Type 0} (compile : Str → Option Regexp) (cfg : SafetyConfig) (inv : Invoker V)
    → new_guard compile cfg ≡ some inv.guard
    → (xs : List (Str × Call)) → All (IsAuthorized inv) xs
    → All (IsRead inv) xs
All-IsRead compile cfg inv made [] h = tt
All-IsRead compile cfg inv made ((name, call) ∷ xs) (a, h) =
    let (class, one, size, time) =
      authorize_ceilings inv.parse_url compile cfg inv.guard call made a.2 in
    ((a, class, one), All-IsRead compile cfg inv made xs h)

-- Whatever tools are registered and whatever is asked of them, with a guard built from any
-- configuration: each effect that reaches a tool is authorised by the guard under the tool's
-- name, declared read-only, exactly one effect, and allowed by the mode of the run; and while
-- invocations come one after the other no more effects reach a tool than the budget allows, where
-- one is set.
pub invoke_all-IsRead :
    {V : Type 0} (compile : Str → Option Regexp) (cfg : SafetyConfig) (inv : Invoker V)
    (requests : List (Str × Args V))
    → new_guard compile cfg ≡ some inv.guard
    → let reached = (invoke_all inv requests new_counters).0.reached in
      All (IsRead inv) reached × ((inv.max_calls ≡ 0) ⊎ (length reached ≤ inv.max_calls))
invoke_all-IsRead compile cfg inv requests made =
    let s =
      invoke_all-IsSound inv requests new_counters
        (record { authorized = tt; counted = omega arith; within = inr (omega arith) }) in
    let reached = (invoke_all inv requests new_counters).0.reached in
    (All-IsRead compile cfg inv made reached s.authorized, within_budget s.within s.counted)
  where
    within_budget :
        {n k : ℕ}
        → (inv.max_calls ≡ 0) ⊎ (n ≤ inv.max_calls)
        → k ≤ n
        → (inv.max_calls ≡ 0) ⊎ (k ≤ inv.max_calls)
    within_budget h le = ground arith
