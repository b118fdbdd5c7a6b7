-- ===== src/Base/Decimal.antt =====
-- The decimal digits of a number, as package fmt prints it, and that they determine the number.
use Prim.Native.Nat.{ℕ, zero, suc, ◌+◌, ◌-◌, ◌*◌, ◌/◌, ◌%◌, ◌<◌}
use mathlib.Core.Path.{◌≡◌, refl, sym, ap, ◌∙◌}
use mathlib.Core.Logic.{inl, inr}
use mathlib.Core.List.{[], ◌∷◌, ◌++◌}
use native.Mathlib.Omega.{arith}
use multi_agent_system_turbo.Base.Tests.{ltb, if◌then◌else◌, Bool-cases}
use multi_agent_system_turbo.Base.Text.{Str, bytes}

-- With more fuel than the number is large the digits never run out of it.
unfoldable pub digits_from : ℕ → ℕ → Str → Str
digits_from zero n acc = acc
digits_from (suc f) n acc =
    let rest = digits_from f (n / 10) ((48 + n % 10) ∷ acc) in
    if ltb n 10 then (48 + n) ∷ acc else rest

unfoldable pub decimal : ℕ → Str
unfolding digits_from
decimal n = digits_from (n + 1) n []

read_from : ℕ → Str → ℕ
read_from v [] = v
read_from v (c ∷ s) = read_from (v * 10 + (c - 48)) s

read-digits : (f n : ℕ) (acc : Str) → n < f → read_from 0 (digits_from f n acc) ≡ read_from n acc
unfolding read_from digits_from
read-digits zero n acc h = elim h [ ]
read-digits (suc f) n acc h = elim (Bool-cases (ltb n 10)) [
  | inl small ↦ rw small (ap (λ v. read_from v acc) (omega arith))
  | inr large ↦
      let big : 9 < n = ground arith in
      rw large (
        read-digits f (n / 10) ((48 + n % 10) ∷ acc) (omega arith)
        ∙ ap (λ v. read_from v acc) (omega arith))
]

read-decimal : (n : ℕ) → read_from 0 (decimal n) ≡ n
unfolding decimal read_from
read-decimal n = read-digits (n + 1) n [] (omega arith)

pub decimal-injective : (n m : ℕ) → decimal n ≡ decimal m → n ≡ m
decimal-injective n m e = sym (read-decimal n) ∙ ap (read_from 0) e ∙ read-decimal m

-- A prefix and a number, such as `h-12`.
unfoldable pub numbered : Str → ℕ → Str
unfolding decimal
numbered prefix n = prefix ++ decimal n

append-cancel_left : (p s t : Str) → p ++ s ≡ p ++ t → s ≡ t
append-cancel_left [] s t e = e
append-cancel_left (c ∷ p) s t e = append-cancel_left p s t (cc)

pub numbered-injective : (p : Str) (n m : ℕ) → numbered p n ≡ numbered p m → n ≡ m
unfolding numbered
numbered-injective p n m e = decimal-injective n m (append-cancel_left p (decimal n) (decimal m) e)

numbered_test : numbered (bytes "h-") 120 ≡ bytes "h-120"
unfolding numbered
numbered_test = refl
