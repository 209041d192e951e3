-- ===== src/Pool/Workers/Safety.antt =====
-- Runs of the pool of src/agent/pool/worker-pool.ts: what its callers and its timers do, in any order.
use cli_model_gateway.Base.{
  ℕ, ◌≤◌, ◌≡◌, refl, String, true, false, some, [], ◌∷◌, List, arith, ◌==◌, values, get, has, after,
  Each-get, nat_eq, string_eq, length, any,
}
use cli_model_gateway.Pool.Leases.{LeaseManager}
use cli_model_gateway.Pool.Workers.{
  timeout, JobInput, PoolJob, Outside, Readings, WorkerPool, End, count_owner, abort_job,
}
use cli_model_gateway.Pool.Workers.Calls.{pump, submit, stop, settle, heartbeat, close}
use cli_model_gateway.Pool.Workers.Quota.{Fits}
use cli_model_gateway.Pool.Workers.Invariant.{Inv, pump-Inv}
use cli_model_gateway.Pool.Workers.Methods.{
  abort_job-Inv, submit-Inv, stop-Inv, heartbeat-Inv, close-Inv,
}
use cli_model_gateway.Pool.Workers.Settle.{settle-Inv}

-- A call of a method, the end of a run, or the firing of a timer.
pub data Event (P R : Type 0) : Type 0 where
  submitted : Readings → JobInput P → Event P R
  stop_called : String → Event P R
  ended : Readings → (now : ℕ) → String → End R → Event P R
  heart_beat : (now later : ℕ) → String → Event P R
  deadline : String → Event P R
  retry : Readings → Event P R
  closing : Event P R

module _ {P R W : Type 0} where
  -- `new WorkerPool(...)`
  unfoldable pub new : LeaseManager → W → (most each ttl : ℕ) → WorkerPool P R W
  new m w most each ttl = record {
    leases = m;
    queue = [];
    running = [];
    jobs = [];
    closed = false;
    retry_timer = false;
    world = w;
    max_concurrency = most;
    per_owner_cap = each;
    ttl_ms = ttl;
  }

  pub new-Inv : (m : LeaseManager) (w : W) (most each ttl : ℕ) → Inv (new m w most each ttl)
  unfolding new
  new-Inv m w most each ttl = record {
    within = record { total = omega arith; owners = λ o. omega arith };
    quoted = record {
      spent = tt;
      ready = λ k j h g. absurd (cc);
      distinct = tt;
      apart = λ k h. refl;
      known = λ k h. absurd (cc);
      active = λ k h. unfold has in absurd (cc);
      own = tt;
    };
  }

module _ {P R W : Type 0} (outside : Outside P R W) where
  -- An exception reaches the caller; the state stays as it was then.
  unfoldable pub perform : Event P R → WorkerPool P R W → WorkerPool P R W
  perform (submitted r input) s = after (submit outside r input s)
  perform (stop_called id) s = after (stop outside id s)
  perform (ended r now id end) s = after (settle outside r now id end s)
  perform (heart_beat now later id) s = heartbeat outside now later id s
  perform (deadline id) s = abort_job timeout id s
  perform (retry r) s = after (pump outside r (record s { retry_timer = false }))
  perform closing s = after (close outside s)

  unfoldable pub run : List (Event P R) → WorkerPool P R W → WorkerPool P R W
  run [] s = s
  run (e ∷ es) s = run es (perform e s)

  perform-Inv : (e : Event P R) (s : WorkerPool P R W) → Inv s → Inv (perform e s)
  unfolding perform
  perform-Inv (submitted r input) s i = submit-Inv outside r input s i
  perform-Inv (stop_called id) s i = stop-Inv outside id s i
  perform-Inv (ended r now id end) s i = settle-Inv outside r now id end s i
  perform-Inv (heart_beat now later id) s i = heartbeat-Inv outside now later id s i
  perform-Inv (deadline id) s i = abort_job-Inv timeout id s i
  perform-Inv (retry r) s i =
      pump-Inv outside r (record s { retry_timer = false })
        (record { within = i.within; quoted = i.quoted })
  perform-Inv closing s i = close-Inv outside s i

  run-Inv : (es : List (Event P R)) (s : WorkerPool P R W) → Inv s → Inv (run es s)
  unfolding run
  run-Inv [] s i = i
  run-Inv (e ∷ es) s i = run-Inv es (perform e s) (perform-Inv e s i)

  -- In a pool that was created with any limits, after any sequence of submissions, stops, ends of
  -- runs, heartbeats, deadlines, retries and closings, no more jobs run than `max_concurrency`, and
  -- of one owner no more than `per_owner_cap`.
  pub run-capacity :
      (es : List (Event P R)) (m : LeaseManager) (w : W) (most each ttl : ℕ)
      → let s = run es (new m w most each ttl) in
        (length s.running ≤ s.max_concurrency)
        × ((o : String) → count_owner o (values s.running) ≤ s.per_owner_cap)
  run-capacity es m w most each ttl =
      let i = run-Inv es (new m w most each ttl) (new-Inv m w most each ttl) in
      (i.within.total, i.within.owners)

  -- After any sequence of events from a new pool, a job of the table has been started three times at
  -- most, and once at most if it writes.
  pub run-attempts :
      (es : List (Event P R)) (m : LeaseManager) (w : W) (most each ttl : ℕ) (id : String)
      (j : PoolJob P R)
      → get id (run es (new m w most each ttl)).jobs ≡ some j
      → (j.attempts ≤ 3) × (j.input.write ≡ true → j.attempts ≤ 1)
  run-attempts es m w most each ttl id j e =
      let i = run-Inv es (new m w most each ttl) (new-Inv m w most each ttl) in
      (Each-get Fits id (run es (new m w most each ttl)).jobs i.quoted.spent e).1

  -- After any sequence of events from a new pool, no job stands in the queue while it runs, and the
  -- queue and the table of what runs name only jobs that the pool knows.
  pub run-apart :
      (es : List (Event P R)) (m : LeaseManager) (w : W) (most each ttl : ℕ) (id : String)
      → let s = run es (new m w most each ttl) in
        (has id s.running ≡ true → any (λ j. j.job_id == id) s.queue ≡ false)
        × (any (λ j. j.job_id == id) s.queue ≡ true → has id s.jobs ≡ true)
        × (has id s.running ≡ true → has id s.jobs ≡ true)
  run-apart es m w most each ttl id =
      let i = run-Inv es (new m w most each ttl) (new-Inv m w most each ttl) in
      (i.quoted.apart id, i.quoted.known id, i.quoted.active id)
