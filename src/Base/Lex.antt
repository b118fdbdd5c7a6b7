-- ===== src/Base/Lex.antt =====
-- Comparisons that look at one thing first and at another where the first does not tell.
use mathlib.Core.Path.{◌≡◌, refl}
use mathlib.Core.Bool.{Bool, true, false, ◌||◌}
use mathlib.Core.List.{[], ◌∷◌}
use native.Mathlib.Omega.{arith}
use multi_agent_system_turbo.Base.Tests.{ltb, if◌then◌else◌}
use multi_agent_system_turbo.Base.Text.{Str, str_lt}
use multi_agent_system_turbo.Base.Order.{str_lt-asym}
use multi_agent_system_turbo.Base.Int.{ℤ, pos, negsuc, int_ltb}
use multi_agent_system_turbo.Base.Stable.{IsStrict}

-- What a sort relies on of a comparison.
pub record IsWeak {ℓ} {A : Type ℓ} (less : A → A → Bool) : Type ℓ where
  pub irrefl_both : (a b : A) → less a b ≡ true → less b a ≡ false
  pub between : (a b c : A) → less a c ≡ true → (less a b || less b c) ≡ true

pub IsWeak-IsStrict {ℓ} : {A : Type ℓ} (less : A → A → Bool) → IsWeak less → IsStrict less
IsWeak-IsStrict less w = record {
  asym = w.irrefl_both;
  trans = λ a b c p q. ground (arith, w.between a c b p, w.irrefl_both b c q);
}

pub IsWeak-same {ℓ} :
    {A : Type ℓ} (f g : A → A → Bool) → ((a b : A) → f a b ≡ g a b) → IsWeak g → IsWeak f
IsWeak-same f g same w = record {
  irrefl_both = λ a b p. rw (same b a) (w.irrefl_both a b (rw (same a b) at p));
  between = λ a b c p. rw (same a b, same b c) (w.between a b c (rw (same a c) at p));
}

module _ {ℓ} {A : Type ℓ} where
  abbrev pub lex : (A → A → Bool) → (A → A → Bool) → A → A → Bool
  lex first second a b = if first a b then true else if first b a then false else second a b

  pub lex-IsWeak :
      (first second : A → A → Bool) → IsWeak first → IsWeak second → IsWeak (lex first second)
  lex-IsWeak first second v w = record {
    irrefl_both = λ a b p. ground (arith, v.irrefl_both a b, w.irrefl_both a b);
    between = λ a b c p. ground (
      arith,
      v.irrefl_both a c,
      v.between a b c,
      v.between c b a,
      v.between b a c,
      v.between b c a,
      v.between a c b,
      v.between c a b,
      w.between a b c,
    );
  }

module _ {ℓ κ} {A : Type ℓ} {B : Type κ} where
  abbrev pub by_key : (A → B) → (B → B → Bool) → A → A → Bool
  by_key f less a b = less (f a) (f b)

  pub by_key-IsWeak : (f : A → B) (less : B → B → Bool) → IsWeak less → IsWeak (by_key f less)
  by_key-IsWeak f less w = record {
    irrefl_both = λ a b p. w.irrefl_both (f a) (f b) p;
    between = λ a b c p. w.between (f a) (f b) (f c) p;
  }

abbrev pub bool_lt : Bool → Bool → Bool
bool_lt false true = true
bool_lt false false = false
bool_lt true b = false

pub bool_lt-IsWeak : IsWeak bool_lt
bool_lt-IsWeak = record { irrefl_both = λ a b p. ground arith; between = λ a b c p. ground arith }

pub ltb-IsWeak : IsWeak ltb
ltb-IsWeak = record { irrefl_both = λ a b p. ground arith; between = λ a b c p. ground arith }

abbrev pub int_gtb : ℤ → ℤ → Bool
int_gtb a b = int_ltb b a

int_gtb_asym : (a b : ℤ) → int_gtb a b ≡ true → int_gtb b a ≡ false
int_gtb_asym (pos a) (pos b) h = ground arith
int_gtb_asym (pos a) (negsuc b) h = ground arith
int_gtb_asym (negsuc a) (pos b) h = ground arith
int_gtb_asym (negsuc a) (negsuc b) h = ground arith

int_gtb_between : (a b c : ℤ) → int_gtb a c ≡ true → (int_gtb a b || int_gtb b c) ≡ true
int_gtb_between (pos a) (pos b) (pos c) h = ground arith
int_gtb_between (pos a) (pos b) (negsuc c) h = ground arith
int_gtb_between (pos a) (negsuc b) (pos c) h = ground arith
int_gtb_between (pos a) (negsuc b) (negsuc c) h = ground arith
int_gtb_between (negsuc a) (pos b) (pos c) h = ground arith
int_gtb_between (negsuc a) (pos b) (negsuc c) h = ground arith
int_gtb_between (negsuc a) (negsuc b) (pos c) h = ground arith
int_gtb_between (negsuc a) (negsuc b) (negsuc c) h = ground arith

pub int_gtb-IsWeak : IsWeak int_gtb
int_gtb-IsWeak = record { irrefl_both = int_gtb_asym; between = int_gtb_between }

str_lt_between : (s t u : Str) → str_lt s u ≡ true → (str_lt s t || str_lt t u) ≡ true
unfolding str_lt
str_lt_between [] [] [] h = ground arith
str_lt_between [] [] (z ∷ u) h = refl
str_lt_between [] (y ∷ t) u h = refl
str_lt_between (x ∷ s) t [] h = ground arith
str_lt_between (x ∷ s) [] (z ∷ u) h = refl
str_lt_between (x ∷ s) (y ∷ t) (z ∷ u) h = ground (arith, str_lt_between s t u)

pub str_lt-IsWeak : IsWeak str_lt
str_lt-IsWeak = record { irrefl_both = str_lt-asym; between = str_lt_between }

pub str_lt_total : (s t : Str) → str_lt s t ≡ false → str_lt t s ≡ false → s ≡ t
unfolding str_lt
str_lt_total [] [] h k = refl
str_lt_total [] (y ∷ t) h k = ground arith
str_lt_total (x ∷ s) [] h k = ground arith
str_lt_total (x ∷ s) (y ∷ t) h k = ground (arith, str_lt_total s t)
