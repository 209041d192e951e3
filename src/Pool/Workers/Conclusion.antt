-- ===== src/Pool/Workers/Conclusion.antt =====
-- `conclude`, the end of a run in src/agent/pool/worker-pool.ts.
use cli_model_gateway.Base.{
  ℕ, ◌≤◌, ◌≡◌, ◌≢◌, refl, Bool, true, false, Option, none, some, List, arith, if◌then◌else◌,
  Outcome, returns, throws, after, Bool-cases, Option-cases, inl, inr, ◌⊎◌, nat_eq, string_eq,
}
use cli_model_gateway.Checker.Secrets.{has_secret}
use cli_model_gateway.Pool.Leases.{LeaseManager}
use cli_model_gateway.Pool.Workers.{
  queued, awaiting_check, failed, reconciliation_required, Abort, timeout, stop_asked, shutdown,
  lost, Failure, secret_detected, crash, aborted, PoolJob, Outside, End, ran, rejected,
}
use cli_model_gateway.Pool.Workers.Calls.{
  caught_state, failure_of, caught, fenced, fence_of, checked, conclude,
}

-- A job goes back into the queue only if it does not write, has been started twice at most and the
-- pool is open; its state is then `queued`.
pub caught_state-again :
    (f : Failure) (w c : Bool) (n : ℕ)
    → (caught_state f w c n).1 ≡ true
    → (w ≡ false) × (n ≤ 2) × (c ≡ false) × ((caught_state f w c n).0 ≡ queued)
unfolding caught_state
caught_state-again secret_detected w c n h = ground arith
caught_state-again crash w c n h = ground arith
caught_state-again (aborted timeout) w c n h = ground arith
caught_state-again (aborted stop_asked) w c n h = ground arith
caught_state-again (aborted shutdown) w c n h = ground arith
caught_state-again (aborted lost) w c n h = ground arith

-- A job that writes and did not finish is never run again: it needs a reconciliation, or its
-- deadline has passed.
pub caught_state_write :
    (f : Failure) (c : Bool) (n : ℕ)
    → (caught_state f true c n).1 ≡ false
      × (((caught_state f true c n).0 ≡ reconciliation_required) ⊎ (f ≡ aborted timeout))
unfolding caught_state
caught_state_write secret_detected c n = (refl, inl refl)
caught_state_write crash c n = (refl, inl refl)
caught_state_write (aborted timeout) c n = (refl, inr refl)
caught_state_write (aborted stop_asked) c n = (refl, inl refl)
caught_state_write (aborted shutdown) c n = (refl, inl refl)
caught_state_write (aborted lost) c n = (refl, inl refl)

module _ {P R : Type 0} where
  pub record Concluded (closed : Bool) (j : PoolJob P R) (p : PoolJob P R × Bool) : Type 0 where
    pub same : p.0.input ≡ j.input
    pub count : p.0.attempts ≡ j.attempts
    pub may_retry :
        p.1 ≡ true
        → (j.input.write ≡ false) × (j.attempts ≤ 2) × (closed ≡ false) × (p.0.state ≡ queued)

  caught-Concluded :
      (abort : Option Abort) (closed : Bool) (j : PoolJob P R)
      → Concluded closed j (caught abort closed j)
  caught-Concluded abort closed j = record {
    same = refl;
    count = refl;
    may_retry = λ h. caught_state-again (failure_of abort) j.input.write closed j.attempts h;
  }

  fenced-Concluded :
      (o : Outcome LeaseManager (Unit {0})) (abort : Option Abort) (closed : Bool) (r : R)
      (j : PoolJob P R)
      → Concluded closed j (fenced o abort closed (record j { result = some r }))
  fenced-Concluded (returns _ m) abort closed r j = record {
    same = refl;
    count = refl;
    may_retry = λ h. absurd (cc);
  }
  fenced-Concluded (throws e m) abort closed r j =
      let c = caught-Concluded abort closed (record j { result = some r }) in
      record { same = c.same; count = c.count; may_retry = c.may_retry }

module _ {P R W : Type 0} (outside : Outside P R W) where
  pub conclude-Concluded :
      (now : ℕ) (abort : Option Abort) (closed : Bool) (m : LeaseManager) (end : End R)
      (j : PoolJob P R)
      → Concluded closed j (conclude outside now abort closed m end j)
  unfolding conclude
  conclude-Concluded now abort closed m rejected j = caught-Concluded abort closed j
  conclude-Concluded now abort closed m (ran r) j = elim (Option-cases (outside.text r)) [
    | inl e ↦ rw e (caught-Concluded abort closed j)
    | inr (t, e) ↦ rw e (elim (Bool-cases (has_secret t)) [
      | inl y ↦ rw y (record { same = refl; count = refl; may_retry = λ h. absurd (cc) })
      | inr n ↦
          rw n (fenced-Concluded (fence_of now (record j { result = some r }) m) abort closed r j)
    ])
  ]

  caught_state_waits :
      (f : Failure) (w c : Bool) (n : ℕ) → (caught_state f w c n).0 ≢ awaiting_check
  unfolding caught_state
  caught_state_waits secret_detected w c n h = ground arith
  caught_state_waits crash w c n h = ground arith
  caught_state_waits (aborted timeout) w c n h = ground arith
  caught_state_waits (aborted stop_asked) w c n h = ground arith
  caught_state_waits (aborted shutdown) w c n h = ground arith
  caught_state_waits (aborted lost) w c n h = ground arith

  -- The end of a run that lets the job go on to its check.
  pub record MayBeChecked (now : ℕ) (m : LeaseManager) (end : End R) (j : PoolJob P R)
      (p : PoolJob P R × Bool) : Type 0 where
    pub result : R
    pub printed : List ℕ
    pub has_run : end ≡ ran result
    pub has_text : outside.text result ≡ some printed
    pub clean : has_secret printed ≡ false
    pub fence_holds : fence_of now j m ≡ returns tt (after (fence_of now j m))
    pub kept : p.0.result ≡ some result
    pub over : p.1 ≡ false

  fenced_waits :
      (now : ℕ) (abort : Option Abort) (closed : Bool) (m : LeaseManager) (r : R) (t : List ℕ)
      (j : PoolJob P R) (o : Outcome LeaseManager (Unit {0}))
      → outside.text r ≡ some t
      → has_secret t ≡ false
      → fence_of now j m ≡ o
      → (fenced o abort closed (record j { result = some r })).0.state ≡ awaiting_check
      → MayBeChecked now m (ran r) j (fenced o abort closed (record j { result = some r }))
  fenced_waits now abort closed m r t j (throws e x) printed clean f h =
      absurd (caught_state_waits (failure_of abort) j.input.write closed j.attempts h)
  fenced_waits now abort closed m r t j (returns tt x) printed clean f h = record {
    result = r;
    printed = t;
    has_run = refl;
    has_text = printed;
    clean = clean;
    fence_holds = rw f refl;
    kept = refl;
    over = refl;
  }

  -- If the end of a run brings a job to `awaiting_check`, then the run gave a result, the result has
  -- a canonical text without a secret, the fencing token of the job's lease still held, and the
  -- result is kept.
  pub conclude-MayBeChecked :
      (now : ℕ) (abort : Option Abort) (closed : Bool) (m : LeaseManager) (end : End R)
      (j : PoolJob P R)
      → (conclude outside now abort closed m end j).0.state ≡ awaiting_check
      → MayBeChecked now m end j (conclude outside now abort closed m end j)
  unfolding conclude
  conclude-MayBeChecked now abort closed m rejected j h =
      absurd (caught_state_waits (failure_of abort) j.input.write closed j.attempts h)
  conclude-MayBeChecked now abort closed m (ran r) j h = go (outside.text r) refl h
    where
      go :
          (o : Option (List ℕ))
          → outside.text r ≡ o
          → (checked outside now abort closed m r o j).0.state ≡ awaiting_check
          → MayBeChecked now m (ran r) j (checked outside now abort closed m r o j)
      go none e g = absurd (caught_state_waits (failure_of abort) j.input.write closed j.attempts g)
      go (some t) e g = secret (has_secret t) refl g
        where
          secret :
              (b : Bool)
              → has_secret t ≡ b
              → (if b
                  then (record j { failure = some secret_detected; state = failed }, false)
                  else fenced
                      (fence_of now (record j { result = some r }) m)
                      abort
                      closed
                      (record j { result = some r })).0.state
                ≡ awaiting_check
              → MayBeChecked now m (ran r) j (
                  if b
                  then (record j { failure = some secret_detected; state = failed }, false)
                  else fenced
                      (fence_of now (record j { result = some r }) m)
                      abort
                      closed
                      (record j { result = some r }))
          secret true e' g' = absurd (cc)
          secret false e' g' = fenced_waits now abort closed m r t j _ e e' refl g'
