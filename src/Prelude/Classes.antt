-- ===== src/Prelude/Classes.antt =====
-- JavaScript's `===` on the types that the client compares, and strings as UTF-16 code units.
use Prim.Native.Nat.{ℕ}
use Prim.Native.Char.{code}
use Prim.Native.String.{String}
use mathlib.Core.Path.{◌≡◌, refl}
use mathlib.Core.Logic.{◌↔◌}
use mathlib.Core.Bool.{Bool, true, false, ◌&&◌}
use mathlib.Core.Option.{Option, none, some}
use mathlib.Core.List.{List, [], ◌∷◌}
use native.Mathlib.Omega.{arith}
use shells.Prelude.Tests.{eqb, eqb_iff}

-- A string is its list of UTF-16 code units.
abbrev pub Str : Type 0
Str = List ℕ

abbrev pub str_eqb : Str → Str → Bool
str_eqb [] [] = true
str_eqb (c ∷ s) (d ∷ t) = eqb c d && str_eqb s t
str_eqb _ _ = false

pub str_eqb_iff : (s t : Str) → (str_eqb s t ≡ true) ↔ (s ≡ t)
str_eqb_iff [] [] = (λ _. refl, λ _. refl)
str_eqb_iff [] (d ∷ t) = (λ e. cc, λ e. cc)
str_eqb_iff (c ∷ s) [] = (λ e. cc, λ e. cc)
str_eqb_iff (c ∷ s) (d ∷ t) = (ground (arith, str_eqb_iff s t), ground (arith, str_eqb_iff s t))

-- The code units of a literal of the program, which are ASCII.
abbrev pub codes : String → Str
codes String.[] = []
codes (String.◌∷◌ c s) = code c ∷ codes s

-- A type that `===` compares by value.
pub record StrictEq {ℓ} (T : Type ℓ) : Type ℓ where
  pub same : T → T → Bool
  pub same_iff : (x y : T) → (same x y ≡ true) ↔ (x ≡ y)

instance abbrev pub str_eq : StrictEq Str
str_eq = record { same = str_eqb; same_iff = str_eqb_iff }

instance abbrev pub nat_eq : StrictEq ℕ
nat_eq = record { same = eqb; same_iff = eqb_iff }

infix 50 ◌==◌
abbrev pub ◌==◌ {ℓ} : {T : Type ℓ} ⦃cls : StrictEq T⦄ → T → T → Bool
◌==◌ ⦃cls⦄ x y = cls.same x y

-- `a === b` on values that may be null.
abbrev pub opt_eqb {ℓ} : {A : Type ℓ} ⦃e : StrictEq A⦄ → Option A → Option A → Bool
opt_eqb none none = true
opt_eqb (some a) (some b) = a == b
opt_eqb _ _ = false
