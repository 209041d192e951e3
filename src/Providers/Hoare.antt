-- ===== src/Providers/Hoare.antt =====
-- Rules for the calls of src/providers/registry.ts that may throw: what holds after a result and what holds after an error,
-- and the predicates on the state of a request that its notes and its readings of the clock leave true.
use cli_model_gateway.Base.{
  ℕ, ◌≡◌, refl, String, Bool, true, false, not, ◌&&◌, Option, none, some, List, if◌then◌else◌, Act,
  ◌>>=◌, returns, throws, nat_eq, string_eq,
}
use cli_model_gateway.Stats.{ModelStatsTracker}
use cli_model_gateway.Utils.Execution.{
  ExecutionPolicy, Cause, deadline_exceeded, first_cause, throw_if_aborted, abort, due, check,
  attempt, budgeted, start_attempt, exhausted, can_fallback,
}
use cli_model_gateway.Providers.Bindings.{Error, ModelBinding, Request}
use cli_model_gateway.Providers.Routing.{
  Services, Routing, Result, ok, err, Routed, bound, clock, policed, from_policy, provider_run,
  retry_delay, with_delay,
}
use cli_model_gateway.Providers.Turns.{rescued}

module _ {W A : Type 0} where
  abbrev pub Holds : (A → Routing W → Type 0) → (Routing W → Type 0) → Result W A → Type 0
  Holds P E (ok a s) = P a s
  Holds P E (err e s) = E s

-- `P` holds after a result, and `E` after an error.
pub record Ensures {W A : Type 0} (P : A → Routing W → Type 0) (E : Routing W → Type 0)
    (r : Result W A) : Type 0 where
  pub holds : Holds P E r

module _ {W A : Type 0} where
  -- The predicate holds after a result and after an error.
  abbrev pub Keeps : (Routing W → Type 0) → Result W A → Type 0
  Keeps I r = Ensures (λ a s. I s) I r

module _ {W A B : Type 0} where
  pub bound-Ensures :
      {P : A → Routing W → Type 0} {Q : B → Routing W → Type 0} {E : Routing W → Type 0}
      (r : Result W A) (f : A → Routed W B)
      → Ensures P E r
      → ((a : A) (t : Routing W) → P a t → Ensures Q E (f a t))
      → Ensures Q E (bound r f)
  bound-Ensures (ok a t) f p k = k a t p.holds
  bound-Ensures (err e t) f p k = record { holds = p.holds }

  -- After a call that keeps the predicate.
  pub bound-Keeps :
      {Q : B → Routing W → Type 0} {I : Routing W → Type 0} (r : Result W A) (f : A → Routed W B)
      → Keeps I r
      → ((a : A) (t : Routing W) → I t → Ensures Q I (f a t))
      → Ensures Q I (bound r f)
  bound-Keeps r f p k = bound-Ensures r f p k

  -- Two ways to go on that agree on what holds after the first call.
  pub bound-Ensures_cong :
      {P : A → Routing W → Type 0} {E : Routing W → Type 0} (r : Result W A) (f g : A → Routed W B)
      → Ensures P E r
      → ((a : A) (t : Routing W) → P a t → f a t ≡ g a t)
      → bound r f ≡ bound r g
  bound-Ensures_cong (ok a t) f g p k = k a t p.holds
  bound-Ensures_cong (err e t) f g p k = refl

module _ {W A : Type 0} where
  pub rescued-Ensures :
      {Q : A → Routing W → Type 0} {E F : Routing W → Type 0} (r : Result W A)
      (h : Error → Routed W A)
      → Ensures Q E r
      → ((e : Error) (t : Routing W) → E t → Ensures Q F (h e t))
      → Ensures Q F (rescued r h)
  rescued-Ensures (ok a t) h p k = record { holds = p.holds }
  rescued-Ensures (err e t) h p k = k e t p.holds

module _ {W A : Type 0} where
  pub if-Ensures :
      {P : A → Routing W → Type 0} {E : Routing W → Type 0} (c : Bool) (r q : Result W A)
      → (c ≡ true → Ensures P E r)
      → (c ≡ false → Ensures P E q)
      → Ensures P E (if c then r else q)
  if-Ensures true r q h k = h refl
  if-Ensures false r q h k = k refl

module _ {W A : Type 0} where
  pub Ensures-mono :
      {P Q : A → Routing W → Type 0} {E F : Routing W → Type 0} {r : Result W A}
      → ((a : A) (t : Routing W) → P a t → Q a t)
      → ((t : Routing W) → E t → F t)
      → Ensures P E r
      → Ensures Q F r
  Ensures-mono {r = ok a t} f g p = record { holds = f a t p.holds }
  Ensures-mono {r = err e t} f g p = record { holds = g t p.holds }

-- A predicate that the notes of a request and its readings of the clock leave true.
pub record IsFrame {W : Type 0} (I : Routing W → Type 0) : Type 0 where
  pub stats : (s : Routing W) (x : ModelStatsTracker) → I s → I (record s { stats = x })
  pub world : (s : Routing W) (x : W) → I s → I (record s { world = x })
  pub auth_failed : (s : Routing W) (x : List String) → I s → I (record s { auth_failed = x })
  pub pending : (s : Routing W) (x : List String) → I s → I (record s { pending = x })
  pub emergency : (s : Routing W) → I s → I (record s { emergency = true })
  pub attempted : (s : Routing W) (x : List String) → I s → I (record s { attempted = x })
  pub last_error : (s : Routing W) (x : Option Error) → I s → I (record s { last_error = x })
  pub signal :
      (s : Routing W) (x : Option Cause)
      → I s
      → I (record s { policy = record s.policy { signal = x } })

module _ {R W : Type 0} (services : Services R W) {I : Routing W → Type 0} (frame : IsFrame I) where
  pub clock-Keeps : (s : Routing W) → I s → Keeps I (clock services s)
  unfolding clock
  clock-Keeps s i = record { holds = frame.world s (services.tick s.world).1 i }

  pub provider_run-Keeps :
      (b : ModelBinding) (q : Request) (s : Routing W) → I s → Keeps I (provider_run services b q s)
  unfolding provider_run
  provider_run-Keeps b q s i = record { holds = frame.world s (services.call b q s.world).1 i }

  pub retry_delay-Keeps :
      (b : ModelBinding) (e : Error) (s : Routing W) → I s → Keeps I (retry_delay services b e s)
  unfolding retry_delay
  retry_delay-Keeps b e s i = go (services.delay b e s.world)
    where
      go : (x : Bool × W) → Keeps I (with_delay services x s)
      go (true, w) = record { holds = frame.world s w i }
      go (false, w) = record { holds = frame.world s w i }

-- A call on the policy that keeps the predicate.
abbrev pub KeepsPolicy :
    {W A : Type 0} → (Routing W → Type 0) → Act ExecutionPolicy A → Routing W → Type 0
KeepsPolicy I m s =
    (p : ExecutionPolicy) → I (record s { policy = p }) → Keeps I (from_policy (m p) s)

module _ {W A : Type 0} {I : Routing W → Type 0} (frame : IsFrame I) where
  aborted-Keeps :
      (next : Act ExecutionPolicy A) (s : Routing W) (p : ExecutionPolicy) (x : Option Cause)
      → KeepsPolicy I next s
      → I (record s { policy = p })
      → Keeps I (from_policy ((throw_if_aborted x >>= λ _. next) (record p { signal = x })) s)
  aborted-Keeps next s p none k i =
      k (record p { signal = none }) (frame.signal (record s { policy = p }) none i)
  aborted-Keeps next s p (some c) k i = record {
    holds = frame.signal (record s { policy = p }) (some c) i;
  }

  check-KeepsPolicy :
      (now : ℕ) (next : Act ExecutionPolicy A) (s : Routing W)
      → KeepsPolicy I next s
      → KeepsPolicy I (check now >>= λ _. next) s
  unfolding check
  check-KeepsPolicy now next s k p i = go (due now p.deadline)
    where
      go :
          (b : Bool)
          → Keeps I (
              from_policy
                ((throw_if_aborted (if b then abort deadline_exceeded p else p).signal >>= λ _.
                    next)
                  (if b then abort deadline_exceeded p else p))
                s)
      go true = aborted-Keeps next s p (first_cause deadline_exceeded p.signal) k i
      go false = aborted-Keeps next s p p.signal k i

module _ {W : Type 0} {I : Routing W → Type 0} (frame : IsFrame I) where
  pub check-Keeps : (now : ℕ) (s : Routing W) → I s → Keeps I (policed (check now) s)
  unfolding check
  check-Keeps now s i = go (due now s.policy.deadline)
    where
      thrown :
          (x : Option Cause)
          → Keeps I (from_policy (throw_if_aborted x (record s.policy { signal = x })) s)
      thrown none = record { holds = frame.signal s none i }
      thrown (some c) = record { holds = frame.signal s (some c) i }

      go :
          (b : Bool)
          → Keeps I (
              from_policy
                (throw_if_aborted
                  (if b then abort deadline_exceeded s.policy else s.policy).signal
                  (if b then abort deadline_exceeded s.policy else s.policy))
                s)
      go true = thrown (first_cause deadline_exceeded s.policy.signal)
      go false = thrown s.policy.signal

  pub can_fallback-Keeps : (now : ℕ) (s : Routing W) → I s → Keeps I (policed (can_fallback now) s)
  unfolding can_fallback
  can_fallback-Keeps now s i =
      check-KeepsPolicy frame now
        (λ p. returns (p.allow_fallback && not (exhausted p.attempts p.max_attempts)) p) s
        (λ p j. record { holds = j }) s.policy i

  pub attempt-Keeps :
      (model provider : String) (now at : ℕ) (s : Routing W)
      → ((p : ExecutionPolicy)
          → I (record s { policy = p })
          → I (record s { policy = start_attempt model provider at p }))
      → I s
      → Keeps I (policed (attempt model provider now at) s)
  unfolding attempt
  attempt-Keeps model provider now at s d i =
      check-KeepsPolicy frame now (budgeted model provider at) s budgeted-Keeps s.policy i
    where
      budgeted-Keeps :
          (p : ExecutionPolicy)
          → I (record s { policy = p })
          → Keeps I (from_policy (budgeted model provider at p) s)
      budgeted-Keeps p j = go (exhausted p.attempts p.max_attempts)
        where
          go :
              (b : Bool)
              → Keeps I (
                  from_policy
                    (if b
                      then throws "Request attempt budget exhausted" p
                      else returns tt (start_attempt model provider at p))
                    s)
          go true = record { holds = j }
          go false = record { holds = d p j }
