-- ===== src/Base/Action.antt =====
-- Stateful code that may throw. What was written before the throw stays written.
use Prim.Native.String.{String}

pub data Outcome (S A : Type 0) : Type 0 where
  returns : A → S → Outcome S A
  throws : String → S → Outcome S A

abbrev pub Act : Type 0 → Type 0 → Type 0
Act S A = S → Outcome S A

abbrev pub pure : {S A : Type 0} → A → Act S A
pure a s = returns a s

infixl 5 ◌>>=◌ ◌>>◌
abbrev pub ◌>>=◌ : {S A B : Type 0} → Act S A → (A → Act S B) → Act S B
◌>>=◌ m f s = elim (m s) [ returns a s' ↦ f a s' | throws e s' ↦ throws e s' ]

abbrev pub ◌>>◌ : {S B : Type 0} → Act S (Unit {0}) → Act S B → Act S B
m >> k = m >>= λ _. k

-- The state that an outcome leaves behind, by a result or by a throw.
abbrev pub after : {S A : Type 0} → Outcome S A → S
after (returns a s) = s
after (throws e s) = s
