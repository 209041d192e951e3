-- ===== src/Utils/Execution/Deadline.antt =====
-- The deadline of src/utils/execution-policy.ts.
use cli_model_gateway.Base.{
  ℕ, ◌≤◌, ◌≡◌, refl, ap, ◌∙◌, String, true, not, ◌&&◌, some, arith, Act, ◌>>=◌, returns, throws,
  Option-cases, inl, inr, nat_eq, string_eq,
}
use cli_model_gateway.Utils.Execution.{
  Cause, deadline_exceeded, ExecutionPolicy, reason, first_cause, abort, due, throw_if_aborted,
  after_deadline, check, exhausted, budgeted, attempt, can_fallback, mark_dispatch, dispatch,
}

-- Past the deadline, or after an abort, `check` throws the reason of the first abort.
pub check_throws :
    (now : ℕ) (s : ExecutionPolicy) (c : Cause)
    → (after_deadline now s).signal ≡ some c
    → check now s ≡ throws (reason c) (after_deadline now s)
unfolding check
check_throws now s c h = ap (λ x. throw_if_aborted x (after_deadline now s)) h

module _ {A : Type 0} where
  pub check_then :
      (now : ℕ) (s t : ExecutionPolicy) (e : String) (next : Act ExecutionPolicy A)
      → check now s ≡ throws e t
      → (check now >>= λ _. next) s ≡ throws e t
  check_then now s t e next h = ap (λ o. (◌>>=◌ (λ (_ : ExecutionPolicy). o) (λ _. next)) s) h

due_signal :
    (now : ℕ) (s : ExecutionPolicy)
    → due now s.deadline ≡ true
    → (c : Cause) × ((after_deadline now s).signal ≡ some c)
      × (first_cause deadline_exceeded s.signal ≡ some c)
      × (after_deadline now s ≡ abort deadline_exceeded s)
due_signal now s h = elim (Option-cases s.signal) [
  | inl e ↦ (deadline_exceeded, rw (h, e) refl, rw e refl, rw h refl)
  | inr (c, e) ↦ (c, rw (h, e) refl, rw e refl, rw h refl)
]

-- From the deadline on, an attempt, a dispatch and the question for a fallback throw one and the same
-- message, the reason of the first abort, and change nothing but the signal: no receipt is sent.
pub due_refuses :
    (now at : ℕ) (model provider : String) (s : ExecutionPolicy) (d : ℕ)
    → s.deadline ≡ some d
    → d ≤ now
    → (c : Cause) × (first_cause deadline_exceeded s.signal ≡ some c)
      × (attempt model provider now at s ≡ throws (reason c) (abort deadline_exceeded s))
      × (dispatch now at s ≡ throws (reason c) (abort deadline_exceeded s))
      × (can_fallback now s ≡ throws (reason c) (abort deadline_exceeded s))
unfolding attempt dispatch can_fallback
due_refuses now at model provider s d e h =
    let late : due now s.deadline ≡ true = rw e (ground arith) in
    let (c, signal, first, same) = due_signal now s late in
    let thrown : check now s ≡ throws (reason c) (abort deadline_exceeded s) =
      check_throws now s c signal ∙ ap (throws (reason c)) same in
    (
      c,
      first,
      check_then now s _ _ (budgeted model provider at) thrown,
      check_then now s _ _ (mark_dispatch at) thrown,
      check_then now s _ _
          (λ t. returns (t.allow_fallback && not (exhausted t.attempts t.max_attempts)) t) thrown,
    )
