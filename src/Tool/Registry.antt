-- ===== src/Tool/Registry.antt =====
-- internal/tool/tool.go: a tool as the invoker sees it, and Registry. The map by name is a list
-- with one entry for a name; each method takes the lock, so each is one step. A result or the code
-- of an error is a sum.
use multi_agent_system_turbo.Base.{
  ℕ, Bool, not, ◌||◌, ◌⊎◌, inl, inr, Option, none, some, List, [], ◌∷◌, Str, bytes, if◌then◌else◌,
  any, is_empty, keep, member, str_eq, str_lt,
}
use multi_agent_system_turbo.Base.Sort.{sort}
use multi_agent_system_turbo.Core.Model.{Evidence}
use multi_agent_system_turbo.Safety.Effects.{Class, Call}
use multi_agent_system_turbo.Safety.Authorize.{is_read_only}

-- What a tool's read comes back with: evidence, the code of an error, or past its time limit.
pub data Reading : Type 0 where
  got : Evidence → Reading
  failed : Str → Reading
  timed_out : Reading

abbrev pub Args : Type 0 → Type 0
Args V = List (Str × V)

-- `read` is told apart by the number of the call.
pub record Tool (V : Type 0) : Type 0 where
  pub name : Str
  pub domain : Str
  pub safety : Class
  pub needs_online : Bool
  pub validate : Args V → Str ⊎ Args V
  pub plan : Args V → Str ⊎ Call
  pub read : ℕ → Args V → Reading

module _ {V : Type 0} where
  unfoldable pub get_tool : Str → List (Tool V) → Option (Tool V)
  get_tool name [] = none
  get_tool name (t ∷ ts) = if str_eq t.name name then some t else get_tool name ts

  abbrev pub is_registered : List (Tool V) → Str → Bool
  is_registered ts name = any (λ t. str_eq t.name name) ts

  -- The registry with the tool, or the code of the refusal.
  unfoldable pub register : Tool V → List (Tool V) → Str ⊎ List (Tool V)
  register t ts =
      if is_empty t.name || is_registered ts t.name
      then inl (bytes "MAS-9001")
      else if not (is_read_only t.safety)
      then inl (bytes "MAS-8001")
      else inr (t ∷ ts)

  -- Registrations one after the other; the first error ends them.
  unfoldable pub must_register : List (Tool V) → List (Tool V) → Str ⊎ List (Tool V)
  unfolding register
  must_register [] ts = inr ts
  must_register (t ∷ new) ts = elim (register t ts) [
    | inl code ↦ inl code
    | inr ts' ↦ must_register new ts'
  ]

  abbrev pub named_before : Tool V → Tool V → Bool
  named_before a b = str_lt a.name b.name

  unfoldable pub list_tools : List (Tool V) → List (Tool V)
  list_tools ts = sort named_before ts

  unfoldable pub in_domains : List Str → List (Tool V) → List (Tool V)
  unfolding list_tools
  in_domains domains ts = keep (λ t. member t.domain domains) (list_tools ts)

  unfoldable pub definitions_for : List Str → List (Tool V) → List (Tool V)
  unfolding list_tools
  definitions_for names ts = keep (λ t. member t.name names) (list_tools ts)
