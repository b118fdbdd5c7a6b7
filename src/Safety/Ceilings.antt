-- ===== src/Safety/Ceilings.antt =====
-- The checks that come before the effect: the class, the ceilings, and one declared effect.
use multi_agent_system_turbo.Base.{ℕ, ◌≤◌, ◌<◌, ◌≡◌, refl, true, Option, none, some, Str, arith}
use multi_agent_system_turbo.Safety.Effects.{
  Class, read_only, mutating, undeclared, Call, Regexp, Guard, Url,
}
use multi_agent_system_turbo.Safety.Guard.{SafetyConfig, or_default, new_guard}
use multi_agent_system_turbo.Safety.Authorize.{declared, is_read_only, authorize}
use multi_agent_system_turbo.Safety.Permitted.{new_guard-IsBuilt}

class_is_read_only : (c : Class) → is_read_only c ≡ true → c ≡ read_only
class_is_read_only read_only h = refl
class_is_read_only mutating h = absurd (cc)
class_is_read_only (undeclared s) h = absurd (cc)

or_default_pos : (n d : ℕ) → 0 < d → 0 < or_default n d
or_default_pos n d h = ground arith

-- A call that a built guard lets proceed is declared read-only, declares exactly one effect, and
-- stays within the configured ceilings, or within 8 MiB and 120 s where none is configured.
pub authorize_ceilings :
    (parse_url : Str → Option Url) (compile : Str → Option Regexp) (cfg : SafetyConfig) (g : Guard)
    (c : Call)
    → new_guard compile cfg ≡ some g
    → authorize parse_url g c ≡ none
    → (c.class ≡ read_only)
      × (declared c ≡ 1)
      × (c.size ≤ or_default cfg.max_response_bytes 8388608)
      × (c.timeout ≤ or_default cfg.max_timeout 120000000000)
unfolding authorize
authorize_ceilings parse_url compile cfg g c made e =
    let b = new_guard-IsBuilt compile cfg g made in
    let p = or_default_pos cfg.max_response_bytes 8388608 (omega arith) in
    let q = or_default_pos cfg.max_timeout 120000000000 (omega arith) in
    (
      class_is_read_only c.class (ground arith),
      ground arith,
      ground (arith, b.size, p),
      ground (arith, b.time, q),
    )
