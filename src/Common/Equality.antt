-- ===== src/Common/Equality.antt =====
-- Equality tests as an interface: numbers and byte strings.
use Prim.Native.Nat.{ℕ}
use Prim.Native.Char.{code}
use Prim.Native.String.{String}
use mathlib.Core.Path.{◌≡◌, refl}
use mathlib.Core.Logic.{◌↔◌}
use mathlib.Core.Bool.{Bool, true, false, ◌&&◌}
use mathlib.Core.List.{List, [], ◌∷◌}
use native.Mathlib.Omega.{arith}
use sa_excutor.Common.Tests.{nat_eq, nat_eq_iff}

-- A type of map keys: a test that decides equality.
pub record Key {ℓ} (K : Type ℓ) : Type ℓ where
  pub same : K → K → Bool
  pub same_iff : (j k : K) → (same j k ≡ true) ↔ (j ≡ k)

infix 50 ◌==◌
abbrev pub ◌==◌ {ℓ} : {K : Type ℓ} ⦃key : Key K⦄ (j k : K) → Bool
◌==◌ ⦃key⦄ j k = key.same j k

pub ==_refl {ℓ} : {A : Type ℓ} ⦃e : Key A⦄ (a : A) → (a == a) ≡ true
==_refl ⦃e⦄ a = (e.same_iff a a).1 refl

instance abbrev pub ℕ_eq : Key ℕ
ℕ_eq = record { same = nat_eq; same_iff = nat_eq_iff }

-- A `std::string` is the list of its bytes.
abbrev pub Str : Type 0
Str = List ℕ

abbrev pub codes : String → Str
codes String.[] = []
codes (String.◌∷◌ c s) = code c ∷ codes s

unfoldable pub str_eq : Str → Str → Bool
str_eq [] [] = true
str_eq (a ∷ s) (b ∷ t) = nat_eq a b && str_eq s t
str_eq _ _ = false

pub str_eq_iff : (s t : Str) → (str_eq s t ≡ true) ↔ (s ≡ t)
unfolding str_eq
str_eq_iff [] [] = ground arith
str_eq_iff [] (b ∷ t) = ground arith
str_eq_iff (a ∷ s) [] = ground arith
str_eq_iff (a ∷ s) (b ∷ t) = ground (arith, str_eq_iff s t)

instance abbrev pub Str_eq : Key Str
Str_eq = record { same = str_eq; same_iff = str_eq_iff }
