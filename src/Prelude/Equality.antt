-- ===== src/Prelude/Equality.antt =====
-- Equality tests as an interface: Rust's `Eq`, with the law that its implementations keep.
use Prim.Native.Nat.{ℕ}
use mathlib.Core.Path.{◌≡◌, refl}
use mathlib.Core.Logic.{◌↔◌, ◌≢◌}
use mathlib.Core.Bool.{Bool, true, false, ◌&&◌}
use mathlib.Core.List.{List, [], ◌∷◌}
use native.Mathlib.Omega.{arith}
use kernway.Prelude.Tests.{◌==◌, ==_iff}

pub record Eq {ℓ} (A : Type ℓ) : Type ℓ where
  pub beq : A → A → Bool
  pub beq_iff : (a b : A) → (beq a b ≡ true) ↔ (a ≡ b)

abbrev pub same {ℓ} : {A : Type ℓ} ⦃e : Eq A⦄ → A → A → Bool
same ⦃e⦄ = e.beq

pub same_iff {ℓ} : {A : Type ℓ} ⦃e : Eq A⦄ (a b : A) → (same a b ≡ true) ↔ (a ≡ b)
same_iff ⦃e⦄ a b = e.beq_iff a b

pub same_refl {ℓ} : {A : Type ℓ} ⦃e : Eq A⦄ (a : A) → same a a ≡ true
same_refl ⦃e⦄ a = (e.beq_iff a a).1 refl

pub same_ne {ℓ} : {A : Type ℓ} ⦃e : Eq A⦄ (a b : A) → a ≢ b → same a b ≡ false
same_ne ⦃e⦄ a b h = ground (arith, e.beq_iff a b)

pub ne_of_same {ℓ} : {A : Type ℓ} ⦃e : Eq A⦄ (a b : A) → same a b ≡ false → a ≢ b
ne_of_same ⦃e⦄ a b h p = cc (h, (e.beq_iff a b).1 p)

abbrev nat_beq : ℕ → ℕ → Bool
nat_beq a b = a == b

instance abbrev pub nat_eq : Eq ℕ
nat_eq = record { beq = nat_beq; beq_iff = ==_iff }

module _ {ℓ} {A : Type ℓ} ⦃e : Eq A⦄ where
  abbrev pub list_beq : List A → List A → Bool
  list_beq [] [] = true
  list_beq (x ∷ xs) (y ∷ ys) = e.beq x y && list_beq xs ys
  list_beq _ _ = false

  pub list_beq_iff : (xs ys : List A) → (list_beq xs ys ≡ true) ↔ (xs ≡ ys)
  list_beq_iff [] [] = ground arith
  list_beq_iff (x ∷ xs) (y ∷ ys) = ground (arith, e.beq_iff x y, list_beq_iff xs ys)
  list_beq_iff [] (y ∷ ys) = ground arith
  list_beq_iff (x ∷ xs) [] = ground arith

  instance abbrev pub list_eq : Eq (List A)
  list_eq = record { beq = list_beq; beq_iff = list_beq_iff }

abbrev pub is_yes {ℓ} : {P : Type ℓ} → Dec P → Bool
is_yes (yes p) = true
is_yes (no n) = false

pub is_yes_iff {ℓ} : {P : Type ℓ} (d : Dec P) → (is_yes d ≡ true) ↔ P
is_yes_iff (yes p) = ((λ e. p), λ q. refl)
is_yes_iff (no n) = ((λ e. absurd (ground (arith, e))), λ q. absurd (n q))

-- Equality that is decided, as a test.
abbrev pub discrete_eq {ℓ} : {A : Type ℓ} → Discrete A → Eq A
discrete_eq d = record { beq = λ a b. is_yes (d a b); beq_iff = λ a b. is_yes_iff (d a b) }
