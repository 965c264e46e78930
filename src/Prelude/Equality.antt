-- ===== src/Prelude/Equality.antt =====
-- Equality tests as an interface: Python's `==` on identifiers and texts.
use Prim.Native.Nat.{ℕ}
use Prim.Native.String.{String}
use mathlib.Core.Path.{◌≡◌, refl}
use mathlib.Core.Logic.{◌↔◌}
use mathlib.Core.Bool.{Bool, true}
use text.Mathlib.Text.{◌==◌ as text_beq}
use text.Mathlib.TextEquality.{eq_iff}
use bittensor_nexus_library.Prelude.Tests.{nat_beq, nat_beq_iff}

pub record Eq {κ} (K : Type κ) : Type κ where
  pub beq : K → K → Bool
  pub beq_iff : (x y : K) → (beq x y ≡ true) ↔ (x ≡ y)

instance abbrev pub string_eq : Eq String
string_eq = record { beq = text_beq; beq_iff = eq_iff }

instance abbrev pub nat_eq : Eq ℕ
nat_eq = record { beq = nat_beq; beq_iff = nat_beq_iff }

infix 50 ◌==◌
abbrev pub ◌==◌ {κ} : {K : Type κ} ⦃tests : Eq K⦄ → K → K → Bool
◌==◌ ⦃tests⦄ = tests.beq

pub beq_refl {κ} : {K : Type κ} ⦃tests : Eq K⦄ (x : K) → (x == x) ≡ true
beq_refl ⦃tests⦄ x = (tests.beq_iff x x).1 refl
