-- ===== src/Llm/Balance.antt =====
-- The breakdown by role never drifts from the totals.
use multi_agent_system_turbo.Base.{
  ℕ, ◌+◌, ◌≡◌, refl, sym, ap, ◌∙◌, Bool, ◌&&◌, List, [], ◌∷◌, Str, arith, str_eq, str_eq_sound,
  str_eq_complete, all, All, Bool-cases, inl, inr, keep, if◌then◌else◌,
}
use multi_agent_system_turbo.Core.Cost.{Usd, plus, no_usd, known_cost, Cost, add_cost}
use multi_agent_system_turbo.Core.CostLaws.{IsHonest, add_cost-IsHonest, known-add_cost}
use multi_agent_system_turbo.Llm.Ledger.{
  RoleUsage, Exchange, Ledger, new_ledger, role_of, new_entry, charge, charge_role, record_exchange,
  record_all,
}

abbrev pub sum_of : (RoleUsage → ℕ) → List RoleUsage → ℕ
sum_of f [] = 0
sum_of f (r ∷ rs) = f r + sum_of f rs

-- A figure that charging an exchange raises by `d`, from 0 in a new entry.
sum_of-charge_role :
    (f : RoleUsage → ℕ) (d : ℕ) (e : Exchange)
    → ((r : RoleUsage) → f (charge e r) ≡ f r + d)
    → f (new_entry e) ≡ 0
    → (rs : List RoleUsage) → sum_of f (charge_role e rs) ≡ sum_of f rs + d
unfolding charge_role
sum_of-charge_role f d e up zero_at [] = omega (arith, up (new_entry e), zero_at)
sum_of-charge_role f d e up zero_at (r ∷ rs) = elim (Bool-cases (str_eq r.role (role_of e))) [
  | inl same ↦ rw same (omega (arith, up r))
  | inr other ↦ rw other (omega (arith, sum_of-charge_role f d e up zero_at rs))
]

-- What the amounts of the exchanges come to, added in their order.
abbrev pub added_up : Usd → List Exchange → Usd
added_up sum [] = sum
added_up sum (e ∷ es) = added_up (plus sum e.cost.usd) es

abbrev pub of_role : Str → Exchange → Bool
of_role name e = str_eq (role_of e) name

-- What the breakdown says of a role; nothing where it has no entry.
unfoldable pub spent_by : Str → List RoleUsage → Usd
spent_by name [] = no_usd
spent_by name (r ∷ rs) = if str_eq r.role name then r.cost.usd else spent_by name rs

-- Each count is the sum of its figures over the roles; the money is that of the exchanges, added in
-- their order, and the money of a role is that of its own exchanges.
pub record IsBalanced (es : List Exchange) (l : Ledger) : Type 0 where
  pub calls : l.calls ≡ sum_of (λ r. r.calls) l.by_role
  pub prompt : l.prompt_tokens ≡ sum_of (λ r. r.prompt_tokens) l.by_role
  pub completion : l.completion_tokens ≡ sum_of (λ r. r.completion_tokens) l.by_role
  pub money : l.cost.usd ≡ added_up no_usd es
  pub shares : (name : Str) → spent_by name l.by_role ≡ added_up no_usd (keep (of_role name) es)

usd-add_cost : (c o : Cost) → (add_cost c o).usd ≡ plus c.usd o.usd
unfolding add_cost
usd-add_cost c o = refl

spent_by-charge_role :
    (name : Str) (e : Exchange) (rs : List RoleUsage)
    → spent_by name (charge_role e rs)
      ≡ (if of_role name e then plus (spent_by name rs) e.cost.usd else spent_by name rs)
unfolding charge_role charge spent_by
spent_by-charge_role name e [] = elim (Bool-cases (of_role name e)) [
  | inl its ↦ rw (its) (usd-add_cost (known_cost no_usd) e.cost)
  | inr other ↦ rw other
]
spent_by-charge_role name e (r ∷ rs) = elim (Bool-cases (str_eq r.role (role_of e))) [
  | inl same ↦
      let role : r.role ≡ role_of e = str_eq_sound r.role (role_of e) same in
      elim (Bool-cases (of_role name e)) [
        | inl its ↦ rw (same, role, its) (usd-add_cost r.cost e.cost)
        | inr other ↦ rw (same, role, other)
      ]
  | inr apart ↦ elim (Bool-cases (str_eq r.role name)) [
    | inl found ↦ elim (Bool-cases (of_role name e)) [
      | inl its ↦
          let e' : r.role ≡ role_of e =
            str_eq_sound r.role name found ∙ sym (str_eq_sound (role_of e) name its) in
          absurd (let t = str_eq_complete r.role (role_of e) e' in cc)
      | inr other ↦ rw (apart, found, other)
    ]
    | inr further ↦ rw (apart, further) (spent_by-charge_role name e rs)
  ]
]

shares_from :
    (name : Str) (l : Ledger) (es : List Exchange)
    → spent_by name (record_all l es).by_role
      ≡ added_up (spent_by name l.by_role) (keep (of_role name) es)
unfolding record_all record_exchange
shares_from name l [] = refl
shares_from name l (e ∷ es) =
    let step = spent_by-charge_role name e l.by_role in
    elim (Bool-cases (of_role name e)) [
      | inl its ↦
          shares_from name (record_exchange e l) es
          ∙ rw its (ap (λ u. added_up u (keep (of_role name) es)) (rw its at step))
      | inr other ↦
          shares_from name (record_exchange e l) es
          ∙ rw other (ap (λ u. added_up u (keep (of_role name) es)) (rw other at step))
    ]

money_from : (l : Ledger) (es : List Exchange) → (record_all l es).cost.usd ≡ added_up l.cost.usd es
unfolding record_all record_exchange
money_from l [] = refl
money_from l (e ∷ es) =
    money_from (record_exchange e l) es ∙ ap (λ u. added_up u es) (usd-add_cost l.cost e.cost)

-- A count of the ledger that an exchange raises by `d e`, in the total and in the role's figure.
sums_from :
    (total : Ledger → ℕ) (f : RoleUsage → ℕ) (d : Exchange → ℕ)
    → ((e : Exchange) (l : Ledger) → total (record_exchange e l) ≡ total l + d e)
    → ((e : Exchange) (r : RoleUsage) → f (charge e r) ≡ f r + d e)
    → ((e : Exchange) → f (new_entry e) ≡ 0)
    → (l : Ledger) (es : List Exchange) → total l ≡ sum_of f l.by_role
    → total (record_all l es) ≡ sum_of f (record_all l es).by_role
unfolding record_all record_exchange
sums_from total f d raises charges new l [] h = h
sums_from total f d raises charges new l (e ∷ es) h =
    sums_from total f d raises charges new (record_exchange e l) es
      (omega (arith, h, raises e l, sum_of-charge_role f (d e) e (charges e) (new e) l.by_role))

-- After any exchanges the counts of the ledger (calls, prompt tokens, completion tokens) are the
-- sums of the breakdown by role. The money of the ledger is the floating-point sum of the costs of
-- the exchanges, in their order, and that of a role in the breakdown is the sum, in their order, of
-- the costs of the exchanges of that role.
pub record_all-IsBalanced : (es : List Exchange) → IsBalanced es (record_all new_ledger es)
unfolding new_ledger record_exchange charge spent_by
record_all-IsBalanced es = record {
  calls =
      sums_from (λ l. l.calls) (λ r. r.calls) (λ e. 1) (λ e l. refl) (λ e r. refl) (λ e. refl)
        new_ledger es refl;
  prompt =
      sums_from (λ l. l.prompt_tokens) (λ r. r.prompt_tokens) (λ e. e.prompt_tokens) (λ e l. refl)
        (λ e r. refl) (λ e. refl) new_ledger es refl;
  completion =
      sums_from (λ l. l.completion_tokens) (λ r. r.completion_tokens) (λ e. e.completion_tokens)
        (λ e l. refl) (λ e r. refl) (λ e. refl) new_ledger es refl;
  money = money_from new_ledger es;
  shares = λ name. shares_from name new_ledger es;
}

costs_from :
    (l : Ledger) (es : List Exchange)
    → IsHonest l.cost
    → All (λ e. IsHonest e.cost) es
    → (record_all l es).cost.known ≡ (l.cost.known && all (λ e. e.cost.known) es)
unfolding record_all record_exchange
costs_from l [] h k = ground arith
costs_from l (e ∷ es) h (k, ks) =
    costs_from (record_exchange e l) es (add_cost-IsHonest l.cost e.cost) ks
    ∙ ground (arith, known-add_cost l.cost e.cost h k)

-- The total cost of a run is known exactly when the cost of each exchange is: a run that priced
-- two models and not a third does not know its total.
pub record_all-known :
    (es : List Exchange)
    → All (λ e. IsHonest e.cost) es
    → (record_all new_ledger es).cost.known ≡ all (λ e. e.cost.known) es
unfolding new_ledger
record_all-known es h = costs_from new_ledger es (λ k. refl) h
