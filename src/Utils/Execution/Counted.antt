-- ===== src/Utils/Execution/Counted.antt =====
-- The counts of attempts and receipts that every call of src/utils/execution-policy.ts keeps.
use cli_model_gateway.Base.{
  ℕ, suc, ◌+◌, ◌≤◌, ◌≡◌, refl, String, Bool, true, false, not, ◌&&◌, Option, none, some, [], ◌∷◌,
  List, arith, ltb, if◌then◌else◌, Outcome, Act, pure, ◌>>=◌, returns, throws, after, Bool-cases,
  inl, inr, nat_eq, string_eq,
}
use cli_model_gateway.Utils.Execution.{
  Cause, cancelled, deadline_exceeded, ExecutionReceipt, attempted, dispatched_to, ended,
  ExecutionPolicy, reason, first_cause, abort, due, throw_if_aborted, after_deadline, check,
  exhausted, budgeted, attempt, can_fallback, mark_dispatch, dispatch, cleanup, Race, won, lost,
  fired, raced, wait, close, finish, Call, checks, attempts_with, asks_fallback, dispatches, cleans,
  waits, finishes, cancels, expires, step, run,
}

-- How many receipts of a kind were sent.
abbrev pub count_attempts : List ExecutionReceipt → ℕ
count_attempts [] = 0
count_attempts (attempted model provider count at ∷ rs) = suc (count_attempts rs)
count_attempts (_ ∷ rs) = count_attempts rs

abbrev pub count_dispatches : List ExecutionReceipt → ℕ
count_dispatches [] = 0
count_dispatches (dispatched_to model count at ∷ rs) = suc (count_dispatches rs)
count_dispatches (_ ∷ rs) = count_dispatches rs

abbrev pub count_ends : List ExecutionReceipt → ℕ
count_ends [] = 0
count_ends (ended m c a s o x r ∷ rs) = suc (count_ends rs)
count_ends (_ ∷ rs) = count_ends rs

abbrev pub IsBelow : ℕ → Option ℕ → Type 0
IsBelow n none = Unit {0}
IsBelow n (some m) = n ≤ m

pub record IsCounted (m : Option ℕ) (s : ExecutionPolicy) : Type 0 where
  pub counted : count_attempts s.receipts ≡ s.attempts
  pub limit : s.max_attempts ≡ m
  pub below : IsBelow s.attempts s.max_attempts
  pub once : count_ends s.receipts ≡ (if s.terminal then 1 else 0)
  pub sent : s.dispatched ≡ ltb 0 (count_dispatches s.receipts)

module _ {A : Type 0} where
  checked_cases :
      (Q : Outcome ExecutionPolicy A → Type 0) (next : Act ExecutionPolicy A) (s : ExecutionPolicy)
      (signal : Option Cause)
      → ((c : Cause) → signal ≡ some c → Q (throws (reason c) (record s { signal = signal })))
      → (signal ≡ none → Q (next (record s { signal = signal })))
      → Q ((throw_if_aborted signal >>= λ _. next) (record s { signal = signal }))
  checked_cases Q next s none bad good = good refl
  checked_cases Q next s (some c) bad good = bad c refl

  due_cases :
      (Q : Outcome ExecutionPolicy A → Type 0) (next : Act ExecutionPolicy A) (now : ℕ)
      (s : ExecutionPolicy)
      → ((c : Cause) (x : Option Cause)
          → x ≡ some c
          → Q (throws (reason c) (record s { signal = x })))
      → ((x : Option Cause)
          → x ≡ none
          → due now s.deadline ≡ false
          → s.signal ≡ none
          → Q (next (record s { signal = x })))
      → Q ((check now >>= λ _. next) s)
  unfolding check
  due_cases Q next now s bad good = go (due now s.deadline) refl
    where
      go :
          (b : Bool)
          → due now s.deadline ≡ b
          → Q (
              (◌>>=◌
                  (λ (_ : ExecutionPolicy).
                    throw_if_aborted
                      (if b then abort deadline_exceeded s else s).signal
                      (if b then abort deadline_exceeded s else s))
                  (λ _. next))
                s)
      go true e = late s.signal
        where
          late :
              (x : Option Cause)
              → Q (
                  (◌>>=◌
                      (λ (_ : ExecutionPolicy).
                        throw_if_aborted
                          (first_cause deadline_exceeded x)
                          (record s { signal = first_cause deadline_exceeded x }))
                      (λ _. next))
                    s)
          late none = bad deadline_exceeded (some deadline_exceeded) refl
          late (some c) = bad c (some c) refl
      go false e = on_time s.signal refl
        where
          on_time :
              (x : Option Cause)
              → s.signal ≡ x
              → Q (
                  (◌>>=◌
                      (λ (_ : ExecutionPolicy). throw_if_aborted x (record s { signal = x }))
                      (λ _. next))
                    s)
          on_time none f = good none refl e f
          on_time (some c) f = bad c (some c) refl

IsBelow-suc : (n : ℕ) (m : Option ℕ) → exhausted n m ≡ false → IsBelow n m → IsBelow (n + 1) m
IsBelow-suc n none h b = tt
IsBelow-suc n (some m) h b = ground arith

module _ {m : Option ℕ} where
  pub signal-IsCounted :
      (c : Option Cause) (s : ExecutionPolicy)
      → IsCounted m s
      → IsCounted m (record s { signal = c })
  signal-IsCounted c s i = record {
    counted = i.counted;
    limit = i.limit;
    below = i.below;
    once = i.once;
    sent = i.sent;
  }

  check-IsCounted :
      (now : ℕ) (s : ExecutionPolicy) → IsCounted m s → IsCounted m (after (check now s))
  unfolding check
  check-IsCounted now s i =
      thrown_or_not (after_deadline now s).signal (after_deadline now s) (late (due now s.deadline))
    where
      late : (b : Bool) → IsCounted m (if b then abort deadline_exceeded s else s)
      late true = signal-IsCounted (first_cause deadline_exceeded s.signal) s i
      late false = i

      thrown_or_not :
          (x : Option Cause) (t : ExecutionPolicy)
          → IsCounted m t
          → IsCounted m (after (throw_if_aborted x t))
      thrown_or_not none t k = k
      thrown_or_not (some c) t k = k

  budgeted-IsCounted :
      (model provider : String) (at : ℕ) (s : ExecutionPolicy)
      → IsCounted m s
      → IsCounted m (after (budgeted model provider at s))
  budgeted-IsCounted model provider at s i =
      elim (Bool-cases (exhausted s.attempts s.max_attempts)) [
        | inl y ↦ rw y i
        | inr n ↦ rw n (record {
          counted = omega (arith, i.counted);
          limit = i.limit;
          below = IsBelow-suc s.attempts s.max_attempts n i.below;
          once = i.once;
          sent = i.sent;
        })
      ]

  wait-IsCounted :
      (now : ℕ) (race : Race (Unit {0})) (s : ExecutionPolicy)
      → IsCounted m s
      → IsCounted m (after (wait now race s))
  unfolding wait
  wait-IsCounted now race s i =
      due_cases (λ o. IsCounted m (after o)) (raced race) now s (λ c x e. signal-IsCounted x s i)
        (λ x e d f. ran race (record s { signal = x }) (signal-IsCounted x s i))
    where
      ran :
          (race : Race (Unit {0})) (t : ExecutionPolicy)
          → IsCounted m t
          → IsCounted m (after (raced race t))
      ran (won a at) t k =
          due_cases (λ o. IsCounted m (after o)) (pure a) at t (λ c x e. signal-IsCounted x t k)
            (λ x e d f. signal-IsCounted x t k)
      ran (lost e) t k = k
      ran (fired c) t k = signal-IsCounted (first_cause c t.signal) t k

  finish-IsCounted :
      (success : Bool) (at : ℕ) (s : ExecutionPolicy)
      → IsCounted m s
      → IsCounted m (finish success at s)
  unfolding finish
  finish-IsCounted success at s i = go s.terminal refl
    where
      go : (b : Bool) → s.terminal ≡ b → IsCounted m (if b then s else close success at s)
      go true e = i
      go false e = record {
        counted = i.counted;
        limit = i.limit;
        below = i.below;
        once = ground (arith, i.once);
        sent = i.sent;
      }

  abort-IsCounted :
      (c : Cause) (s : ExecutionPolicy)
      → IsCounted m s
      → IsCounted m (if s.terminal then s else abort c s)
  abort-IsCounted c s i = go s.terminal
    where
      go : (b : Bool) → IsCounted m (if b then s else abort c s)
      go true = i
      go false = signal-IsCounted (first_cause c s.signal) s i

  step-IsCounted : (c : Call) (s : ExecutionPolicy) → IsCounted m s → IsCounted m (step c s)
  unfolding step attempt can_fallback dispatch cleanup
  step-IsCounted (checks now) s i = check-IsCounted now s i
  step-IsCounted (attempts_with model provider now at) s i =
      due_cases (λ o. IsCounted m (after o)) (budgeted model provider at) now s
        (λ c x e. signal-IsCounted x s i)
        (λ x e d f.
          budgeted-IsCounted model provider at (record s { signal = x }) (signal-IsCounted x s i))
  step-IsCounted (asks_fallback now) s i =
      due_cases (λ o. IsCounted m (after o))
        (λ t. returns (t.allow_fallback && not (exhausted t.attempts t.max_attempts)) t) now s
        (λ c x e. signal-IsCounted x s i) (λ x e d f. signal-IsCounted x s i)
  step-IsCounted (dispatches now at) s i =
      due_cases (λ o. IsCounted m (after o)) (mark_dispatch at) now s
        (λ c x e. signal-IsCounted x s i)
        (λ x e d f. record {
          counted = i.counted;
          limit = i.limit;
          below = i.below;
          once = i.once;
          sent = ground arith;
        })
  step-IsCounted (cleans absent) s i = record {
    counted = i.counted;
    limit = i.limit;
    below = i.below;
    once = i.once;
    sent = i.sent;
  }
  step-IsCounted (waits now race) s i = wait-IsCounted now race s i
  step-IsCounted (finishes success at) s i = finish-IsCounted success at s i
  step-IsCounted cancels s i = abort-IsCounted cancelled s i
  step-IsCounted expires s i = abort-IsCounted deadline_exceeded s i

  pub run-IsCounted :
      (cs : List Call) (s : ExecutionPolicy) → IsCounted m s → IsCounted m (run cs s)
  unfolding run
  run-IsCounted [] s i = i
  run-IsCounted (c ∷ cs) s i = run-IsCounted cs (step c s) (step-IsCounted c s i)
