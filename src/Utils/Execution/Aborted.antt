-- ===== src/Utils/Execution/Aborted.antt =====
-- What an abort leaves to do in src/utils/execution-policy.ts.
use cli_model_gateway.Base.{
  ℕ, ◌≡◌, refl, sym, ap, ◌∙◌, subst, String, Bool, true, false, not, ◌&&◌, Option, some, [], ◌∷◌,
  List, arith, ltb, ◌==◌, if◌then◌else◌, Act, ◌>>=◌, returns, after, nat_eq, string_eq,
}
use cli_model_gateway.Utils.Execution.{
  GatewayPolicy, Cause, cancelled, deadline_exceeded, aborted, unknown, not_started,
  ExecutionReceipt, attempted, dispatched_to, cleaned, ended, ExecutionPolicy, first_cause, abort,
  due, new, after_deadline, check, exhausted, budgeted, attempt, can_fallback, mark_dispatch,
  dispatch, cleanup, raced, wait, status_of, is_aborted, outcome_of, close, finish, Call, checks,
  attempts_with, asks_fallback, dispatches, cleans, waits, finishes, cancels, expires, step, run,
}
use cli_model_gateway.Utils.Execution.Counted.{
  count_attempts, count_dispatches, count_ends, run-IsCounted,
}
use cli_model_gateway.Utils.Execution.Budget.{new-IsCounted}
use cli_model_gateway.Utils.Execution.Deadline.{check_throws, check_then}

-- Every terminal receipt says that the request was aborted with this cause, and that a replay is safe and
-- the provider was not started exactly when there were no dispatches.
abbrev pub AllAborted : Cause → (dispatch_count : ℕ) → List ExecutionReceipt → Type 0
AllAborted c d [] = Unit {0}
AllAborted c d (ended model n at status outcome cancellation replay_safe ∷ rs) =
    (status ≡ aborted c)
    × (cancellation ≡ true)
    × (replay_safe ≡ (d == 0))
    × (outcome ≡ (if d == 0 then not_started else unknown))
    × AllAborted c d rs
AllAborted c d (attempted m p n at ∷ rs) = AllAborted c d rs
AllAborted c d (dispatched_to m n at ∷ rs) = AllAborted c d rs
AllAborted c d (cleaned a ∷ rs) = AllAborted c d rs

record IsAborted (c : Cause) (a d : ℕ) (s : ExecutionPolicy) : Type 0 where
  pub signalled : s.signal ≡ some c
  pub attempted_before : count_attempts s.receipts ≡ a
  pub dispatched_before : count_dispatches s.receipts ≡ d
  pub sent : s.dispatched ≡ ltb 0 d
  pub ends : AllAborted c d s.receipts

AllAborted-no_ends :
    (c : Cause) (d : ℕ) (rs : List ExecutionReceipt) → count_ends rs ≡ 0 → AllAborted c d rs
AllAborted-no_ends c d [] h = tt
AllAborted-no_ends c d (ended m n at st o x r ∷ rs) h = absurd (omega (arith, h))
AllAborted-no_ends c d (attempted m p n at ∷ rs) h = AllAborted-no_ends c d rs h
AllAborted-no_ends c d (dispatched_to m n at ∷ rs) h = AllAborted-no_ends c d rs h
AllAborted-no_ends c d (cleaned a ∷ rs) h = AllAborted-no_ends c d rs h

module _ (c : Cause) (a d : ℕ) where
  abort-IsAborted :
      (e : Cause) (s : ExecutionPolicy) → IsAborted c a d s → IsAborted c a d (abort e s)
  abort-IsAborted e s i = record {
    signalled = ap (first_cause e) i.signalled;
    attempted_before = i.attempted_before;
    dispatched_before = i.dispatched_before;
    sent = i.sent;
    ends = i.ends;
  }

  after_deadline-IsAborted :
      (now : ℕ) (s : ExecutionPolicy) → IsAborted c a d s → IsAborted c a d (after_deadline now s)
  after_deadline-IsAborted now s i = go (due now s.deadline)
    where
      go : (b : Bool) → IsAborted c a d (if b then abort deadline_exceeded s else s)
      go true = abort-IsAborted deadline_exceeded s i
      go false = i

  -- All that begins with `check` ends there.
  check_then-IsAborted :
      {A : Type 0} (now : ℕ) (next : Act ExecutionPolicy A) (s : ExecutionPolicy)
      → IsAborted c a d s
      → IsAborted c a d (after ((check now >>= λ _. next) s))
  check_then-IsAborted now next s i =
      let late = after_deadline-IsAborted now s i in
      subst (λ o. IsAborted c a d (after o))
        (sym (check_then now s _ _ next (check_throws now s c late.signalled))) late

  check-IsAborted :
      (now : ℕ) (s : ExecutionPolicy) → IsAborted c a d s → IsAborted c a d (after (check now s))
  check-IsAborted now s i =
      let late = after_deadline-IsAborted now s i in
      subst (λ o. IsAborted c a d (after o)) (sym (check_throws now s c late.signalled)) late

  close-IsAborted :
      (success : Bool) (at : ℕ) (s : ExecutionPolicy)
      → IsAborted c a d s
      → IsAborted c a d (close success at s)
  close-IsAborted success at s i = record {
    signalled = i.signalled;
    attempted_before = i.attempted_before;
    dispatched_before = i.dispatched_before;
    sent = i.sent;
    ends = (
      ap (λ x. status_of x success) i.signalled,
      ap is_aborted i.signalled,
      ground (arith, i.sent),
      ap (λ x. outcome_of x success s.dispatched) i.signalled ∙ ground (arith, i.sent),
      i.ends,
    );
  }

  unless_terminal :
      (s t : ExecutionPolicy)
      → IsAborted c a d s
      → IsAborted c a d t
      → IsAborted c a d (if s.terminal then s else t)
  unless_terminal s t i j = go s.terminal
    where
      go : (b : Bool) → IsAborted c a d (if b then s else t)
      go true = i
      go false = j

  step-IsAborted :
      (call : Call) (s : ExecutionPolicy) → IsAborted c a d s → IsAborted c a d (step call s)
  unfolding step attempt can_fallback dispatch cleanup wait finish
  step-IsAborted (checks now) s i = check-IsAborted now s i
  step-IsAborted (attempts_with model provider now at) s i =
      check_then-IsAborted now (budgeted model provider at) s i
  step-IsAborted (asks_fallback now) s i =
      check_then-IsAborted now
        (λ t. returns (t.allow_fallback && not (exhausted t.attempts t.max_attempts)) t) s i
  step-IsAborted (dispatches now at) s i = check_then-IsAborted now (mark_dispatch at) s i
  step-IsAborted (cleans absent) s i = record {
    signalled = i.signalled;
    attempted_before = i.attempted_before;
    dispatched_before = i.dispatched_before;
    sent = i.sent;
    ends = i.ends;
  }
  step-IsAborted (waits now race) s i = check_then-IsAborted now (raced race) s i
  step-IsAborted (finishes success at) s i =
      unless_terminal s (close success at s) i (close-IsAborted success at s i)
  step-IsAborted cancels s i =
      unless_terminal s (abort cancelled s) i (abort-IsAborted cancelled s i)
  step-IsAborted expires s i =
      unless_terminal s (abort deadline_exceeded s) i (abort-IsAborted deadline_exceeded s i)

  run-IsAborted :
      (cs : List Call) (s : ExecutionPolicy) → IsAborted c a d s → IsAborted c a d (run cs s)
  unfolding run
  run-IsAborted [] s i = i
  run-IsAborted (call ∷ cs) s i = run-IsAborted cs (step call s) (step-IsAborted call s i)

module _ (p : Option GatewayPolicy) (id model : String) (received now : ℕ) (is_cancelled : Bool)
    (earlier : List Call) where
  abbrev pub reached : ExecutionPolicy
  reached = run earlier (new p id model received now is_cancelled)

  -- If any calls on a new policy have left it aborted and not terminal, then whatever calls follow, the
  -- cause of the abort stays, no attempt and no dispatch receipt is sent any more, and a terminal
  -- receipt says that the request was aborted with this cause, whatever the caller of `finish` says, and
  -- that a replay is safe exactly when no dispatch receipt had been sent.
  pub run_aborted :
      (c : Cause) (later : List Call)
      → reached.terminal ≡ false
      → reached.signal ≡ some c
      → ((run later reached).signal ≡ some c)
        × (count_attempts (run later reached).receipts ≡ count_attempts reached.receipts)
        × (count_dispatches (run later reached).receipts ≡ count_dispatches reached.receipts)
        × AllAborted c (count_dispatches reached.receipts) (run later reached).receipts
  run_aborted c later t h =
      let counted = run-IsCounted earlier _ (new-IsCounted p id model received now is_cancelled) in
      let none_yet : count_ends reached.receipts ≡ 0 =
        counted.once ∙ ap (λ b. if b then 1 else 0) t in
      let i =
        run-IsAborted c (count_attempts reached.receipts) (count_dispatches reached.receipts) later
          reached
          (record {
            signalled = h;
            attempted_before = refl;
            dispatched_before = refl;
            sent = counted.sent;
            ends = AllAborted-no_ends c _ reached.receipts none_yet;
          }) in
      (i.signalled, i.attempted_before, i.dispatched_before, i.ends)
