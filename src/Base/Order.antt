-- ===== src/Base/Order.antt =====
-- The order of texts is asymmetric.
use mathlib.Core.Path.{◌≡◌, refl}
use mathlib.Core.Bool.{true, false}
use mathlib.Core.List.{[], ◌∷◌}
use native.Mathlib.Omega.{arith}
use multi_agent_system_turbo.Base.Text.{Str, str_lt}

pub str_lt-asym : (s t : Str) → str_lt s t ≡ true → str_lt t s ≡ false
unfolding str_lt
str_lt-asym [] [] h = ground arith
str_lt-asym [] (y ∷ t) h = refl
str_lt-asym (x ∷ s) [] h = ground arith
str_lt-asym (x ∷ s) (y ∷ t) h = ground (arith, str_lt-asym s t)
