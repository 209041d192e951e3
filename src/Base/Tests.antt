-- ===== src/Base/Tests.antt =====
-- Boolean tests and the conditional; equality of keys as an interface, with its instances.
use Prim.Native.Nat.{ℕ, ◌≤◌, ◌<◌, compare, Ordering}
use Prim.Native.String.{String}
use mathlib.Core.Path.{◌≡◌, refl}
use mathlib.Core.Logic.{◌↔◌, ◌⊎◌, inl, inr}
use mathlib.Core.Bool.{Bool, true, false, not}
use mathlib.Core.Option.{Option, none, some}
use native.Mathlib.Omega.{arith}
use text.Mathlib.Text.{◌==◌ as same_text}
use text.Mathlib.TextEquality.{eq_iff as same_text_iff}

abbrev pub ltb : ℕ → ℕ → Bool
ltb a b = elim (compare a b) [ Ordering.lt ↦ true | _ ↦ false ]

abbrev pub leb : ℕ → ℕ → Bool
leb a b = elim (compare a b) [ Ordering.gt ↦ false | _ ↦ true ]

abbrev pub nat_beq : ℕ → ℕ → Bool
nat_beq a b = elim (compare a b) [ Ordering.eq ↦ true | _ ↦ false ]

infix 1 if◌then◌else◌
abbrev pub if◌then◌else◌ {ℓ} : {A : Type ℓ} → Bool → A → A → A
if true then x else y = x
if false then x else y = y

pub nat_beq_iff : (a b : ℕ) → (nat_beq a b ≡ true) ↔ (a ≡ b)
nat_beq_iff a b = ground arith

-- The equality with which the program compares keys, as an interface.
pub record Eq {ℓ} (Key : Type ℓ) : Type ℓ where
  pub test : Key → Key → Bool
  pub decides : (k k' : Key) → (test k k' ≡ true) ↔ (k ≡ k')

instance abbrev pub string_eq : Eq String
string_eq = record { test = same_text; decides = same_text_iff }

instance abbrev pub nat_eq : Eq ℕ
nat_eq = record { test = nat_beq; decides = nat_beq_iff }

-- The operator computes, so a test keeps its meaning under `ground`.
infix 50 ◌!=◌ ◌==◌
abbrev pub ◌!=◌ {ℓ} : {Key : Type ℓ} ⦃keys : Eq Key⦄ (k k' : Key) → Bool
◌!=◌ ⦃keys⦄ k k' = not (keys.test k k')

abbrev pub ◌==◌ {ℓ} : {Key : Type ℓ} ⦃keys : Eq Key⦄ (k k' : Key) → Bool
◌==◌ ⦃keys⦄ k k' = keys.test k k'

pub ==_iff {ℓ} : {Key : Type ℓ} ⦃keys : Eq Key⦄ (k k' : Key) → ((k == k') ≡ true) ↔ (k ≡ k')
==_iff ⦃keys⦄ k k' = keys.decides k k'

pub ==_refl {ℓ} : {Key : Type ℓ} ⦃keys : Eq Key⦄ (k : Key) → (k == k) ≡ true
==_refl ⦃keys⦄ k = (keys.decides k k).1 refl

pub ltb→lt : (a b : ℕ) → ltb a b ≡ true → a < b
ltb→lt a b h = ground arith

pub leb→le : (a b : ℕ) → leb a b ≡ true → a ≤ b
leb→le a b h = ground arith

-- To split on a computed value and keep the equation.
pub Bool-cases : (b : Bool) → (b ≡ true) ⊎ (b ≡ false)
Bool-cases true = inl refl
Bool-cases false = inr refl

pub Option-cases {ℓ} : {A : Type ℓ} (o : Option A) → (o ≡ none) ⊎ ((a : A) × (o ≡ some a))
Option-cases none = inl refl
Option-cases (some a) = inr (a, refl)
