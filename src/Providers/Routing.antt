-- ===== src/Providers/Routing.antt =====
-- The state of a request that is routed by src/providers/registry.ts, and calls that may throw an `Error`.
use cli_model_gateway.Base.{
  ℕ, String, Bool, true, false, Option, [], ◌∷◌, ◌++◌, List, ◌==◌, if◌then◌else◌, Outcome, Act,
  returns, throws, nat_eq, string_eq, any,
}
use cli_model_gateway.Stats.{ModelStatsTracker}
use cli_model_gateway.Utils.Execution.{ExecutionPolicy}
use cli_model_gateway.Providers.Bindings.{Error, plain_error, ModelBinding, Request}

-- What one call of a provider gives.
pub data Answer (R : Type 0) : Type 0 where
  answered : R → Answer R
  refused : Error → Answer R

-- An event of a stream. A terminal event says whether it reports a failure.
pub data StreamEvent : Type 0 where
  output_text_delta reasoning_delta : List ℕ → StreamEvent
  tool_call : StreamEvent
  done : (is_error : Bool) → StreamEvent
  other_event : StreamEvent

-- The world outside: a reading of the clock, a call of a provider, the wait before a second attempt,
-- which may be aborted, and the judgement of an answer after it has been normalised. A stream gives its
-- events, and then it ends or throws; what it gives is settled when it is opened.
pub record Services (R W : Type 0) : Type 0 where
  pub tick : W → ℕ × W
  pub call : ModelBinding → Request → W → Answer R × W
  pub delay : ModelBinding → Error → W → Bool × W
  pub judge : Request → ModelBinding → R → Option (List ℕ)
  pub stream : ModelBinding → Request → W → (List StreamEvent × Option Error) × W
  pub tool_call_count : R → ℕ

-- `visited`, `auth_failed` and `pending` are in the order of insertion. The last two fields are those of
-- a stream: whether it has given content, and what it gave, with the model, newest first.
pub record Routing (W : Type 0) : Type 0 where
  pub stats : ModelStatsTracker
  pub policy : ExecutionPolicy
  pub visited : List String
  pub auth_failed : List String
  pub pending : List String
  pub emergency : Bool
  pub attempted : List String
  pub last_error : Option Error
  pub world : W
  pub emitted : Bool
  pub given : List (String × StreamEvent)

pub data Result (W A : Type 0) : Type 0 where
  ok : A → Routing W → Result W A
  err : Error → Routing W → Result W A

abbrev pub Routed : Type 0 → Type 0 → Type 0
Routed W A = Routing W → Result W A

module _ {W A B : Type 0} where
  abbrev pub bound : Result W A → (A → Routed W B) → Result W B
  bound (ok a t) f = f a t
  bound (err e t) f = err e t

infixl 5 ◌>>>◌
abbrev pub ◌>>>◌ : {W A B : Type 0} → Routed W A → (A → Routed W B) → Routed W B
◌>>>◌ m f s = bound (m s) f

module _ {W A : Type 0} where
  abbrev pub give : A → Routed W A
  give a s = ok a s

  abbrev pub fail : Error → Routed W A
  fail e s = err e s

  abbrev pub from_policy : Outcome ExecutionPolicy A → Routed W A
  from_policy (returns a p) s = ok a (record s { policy = p })
  from_policy (throws e p) s = err (plain_error e) (record s { policy = p })

  -- A call on the execution policy.
  abbrev pub policed : Act ExecutionPolicy A → Routed W A
  policed f s = from_policy (f s.policy) s

abbrev pub mem : String → List String → Bool
mem x xs = any (λ y. y == x) xs

abbrev pub add_new : String → List String → List String
add_new x xs = if mem x xs then xs else xs ++ x ∷ []

module _ {R W : Type 0} (services : Services R W) where
  abbrev with_time : ℕ × W → Routed W ℕ
  with_time (t, w) s = ok t (record s { world = w })

  unfoldable pub clock : Routed W ℕ
  clock s = with_time (services.tick s.world) s

  abbrev with_answer : Answer R × W → Routed W (Answer R)
  with_answer (a, w) s = ok a (record s { world = w })

  unfoldable pub provider_run : ModelBinding → Request → Routed W (Answer R)
  provider_run b request s = with_answer (services.call b request s.world) s

  abbrev pub with_delay : Bool × W → Routed W (Unit {0})
  with_delay (true, w) s = ok tt (record s { world = w })
  with_delay (false, w) s = err (plain_error "The operation was aborted") (record s { world = w })

  unfoldable pub retry_delay : ModelBinding → Error → Routed W (Unit {0})
  retry_delay b e s = with_delay (services.delay b e s.world) s
