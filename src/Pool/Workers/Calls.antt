-- ===== src/Pool/Workers/Calls.antt =====
-- The methods of `WorkerPool` in src/agent/pool/worker-pool.ts.
use cli_model_gateway.Base.{
  ℕ, zero, suc, ◌+◌, String, Bool, true, false, not, ◌&&◌, ◌||◌, Option, none, some, [], ◌∷◌, ◌++◌,
  List, leb, ltb, ◌!=◌, if◌then◌else◌, values, get, set, has, delete, Outcome, Act, ◌>>=◌, returns,
  throws, after, nat_eq, string_eq, length, filter,
}
use cli_model_gateway.Checker.Secrets.{has_secret}
use cli_model_gateway.Pool.Leases.{
  LeaseManager, Grant, granted, busy, acquire, renew, release, assert_fence,
}
use cli_model_gateway.Pool.Workers.{
  JobState, queued, leased, running, awaiting_check, done, failed, stopping, stopped, lease_lost,
  reconciliation_required, Abort, timeout, stop_asked, shutdown, lost, Failure, secret_detected,
  crash, aborted, JobInput, PoolJob, Active, Outside, Readings, WorkerPool, End, ran, rejected,
  sort, count_owner, pick, modify, abort_job, abort_all,
}

-- The states in which `stop` does nothing.
abbrev pub is_over : JobState → Bool
is_over done = true
is_over failed = true
is_over stopped = true
is_over reconciliation_required = true
is_over _ = false

abbrev pub failure_of : Option Abort → Failure
failure_of none = crash
failure_of (some r) = aborted r

abbrev pub state_if_write : Bool → JobState
state_if_write write = if write then reconciliation_required else stopped

-- The chain of tests in the `catch` of `execute`: the new state, and whether the job goes back into
-- the queue.
unfoldable pub caught_state : Failure → (write closed : Bool) → ℕ → JobState × Bool
caught_state (aborted timeout) write closed attempts = (failed, false)
caught_state (aborted stop_asked) write closed attempts = (state_if_write write, false)
caught_state (aborted shutdown) write closed attempts = (state_if_write write, false)
caught_state (aborted lost) write closed attempts =
    if write
    then (reconciliation_required, false)
    else if leb attempts 2 && not closed
    then (queued, true)
    else (lease_lost, false)
caught_state _ write closed attempts =
    if write
    then (reconciliation_required, false)
    else if leb attempts 2 && not closed
    then (queued, true)
    else (failed, false)

module _ {P R : Type 0} where
  -- What the `try` and the `catch` of `execute` make of the job.
  abbrev pub caught : Option Abort → Bool → PoolJob P R → PoolJob P R × Bool
  caught abort closed j =
      let (st, retry) = caught_state (failure_of abort) j.input.write closed j.attempts in
      (record j { failure = some (failure_of abort); state = st }, retry)

  abbrev pub fenced :
      {S : Type 0} → Outcome S (Unit {0}) → Option Abort → Bool → PoolJob P R → PoolJob P R × Bool
  fenced (returns _ m) abort closed j = (record j { state = awaiting_check }, false)
  fenced (throws e m) abort closed j = caught abort closed j

  -- A job that runs has a lease; the case without one is not reached.
  abbrev pub fence_of : ℕ → PoolJob P R → LeaseManager → Outcome LeaseManager (Unit {0})
  fence_of now j m = elim j.lease [
    | none ↦ throws "No lease" m
    | some l ↦ assert_fence now j.input.resource_key l.fencing_token m
  ]

module _ {P R W : Type 0} (outside : Outside P R W) where
  open outside use {event, text}

  abbrev Pool : Type 0
  Pool = WorkerPool P R W

  abbrev pub in_world : Pool → Outcome W (Unit {0}) → Outcome Pool (Unit {0})
  in_world s (returns _ w) = returns tt (record s { world = w })
  in_world s (throws e w) = throws e (record s { world = w })

  abbrev pub emit_job : Option (PoolJob P R) → Act Pool (Unit {0})
  emit_job none s = returns tt s
  emit_job (some j) s = in_world s (event j s.world)

  -- `this.event(job)`
  unfoldable pub emit : String → Act Pool (Unit {0})
  emit id s = emit_job (get id s.jobs) s

  -- An exception in an asynchronous function does not reach its caller.
  abbrev pub swallow : Outcome Pool (Unit {0}) → Outcome Pool (Unit {0})
  swallow (returns _ s) = returns tt s
  swallow (throws e s) = returns tt s

  -- `execute` up to its `await`.
  unfoldable pub begin : String → Act Pool (Unit {0})
  begin id s =
      swallow (emit id (modify (λ j. record j { state = running; attempts = j.attempts + 1 }) id s))

  abbrev pub activate : JobInput P → Pool → Pool
  activate job s = record s {
    running = set job.job_id (record { abort = none; job = job }) s.running;
  }

  -- The rest of a round of the loop in `pump`, with the answer of `acquire`: `true` if the loop goes on.
  abbrev pub with_lease : JobInput P → Pool → Outcome LeaseManager Grant → Outcome Pool Bool
  with_lease job s (throws e m) = throws e (record s { leases = m })
  with_lease job s (returns busy m) =
      returns false (record s { leases = m; queue = s.queue ++ job ∷ []; retry_timer = true })
  with_lease job s (returns (granted l) m) =
      ((λ t.
            emit job.job_id
              (modify (λ j. record j { lease = some l; state = leased }) job.job_id t))
          >>= λ _ t. (begin job.job_id >>= λ _ u. returns true u) (activate job t))
        (record s { leases = m })

  unfoldable pub dispatch : Readings → JobInput P → Act Pool Bool
  dispatch r job s = with_lease job s (
      acquire (r.now job.job_id) (r.later job.job_id) (r.uuid job.job_id) job.resource_key
        job.job_id s.ttl_ms s.leases)

  abbrev pub has_room : Pool → JobInput P → Bool
  has_room s job = ltb (count_owner job.owner (values s.running)) s.per_owner_cap

  -- The loop of `pump`: each round takes a job out of the queue, so the queue's length is enough fuel.
  unfoldable pub pump_loop : ℕ → Readings → Act Pool (Unit {0})
  pump_loop zero r s = returns tt s
  pump_loop (suc fuel) r s =
      let rest = pump_loop fuel r in
      if ltb (length s.running) s.max_concurrency
      then elim (pick (has_room s) s.queue) [
        | none ↦ returns tt s
        | some (job, q) ↦
            (dispatch r job >>= λ again. λ t. if again then rest t else returns tt t)
              (record s { queue = q })
      ]
      else returns tt s

  unfoldable pub pump : Readings → Act Pool (Unit {0})
  pump r s =
      if s.closed
      then returns tt s
      else pump_loop (length s.queue) r (record s { queue = sort s.queue })

  abbrev pub new_job : JobInput P → PoolJob P R
  new_job input = record {
    input = input;
    state = queued;
    attempts = 0;
    lease = none;
    result = none;
    failure = none;
  }

  abbrev pub enlist : JobInput P → Pool → Pool
  enlist input s = record s {
    jobs = set input.job_id (new_job input) s.jobs;
    queue = s.queue ++ input ∷ [];
  }

  unfoldable pub submit : Readings → JobInput P → Act Pool (Unit {0})
  submit r input s =
      if s.closed || has input.job_id s.jobs
      then throws "Cannot submit job" s
      else (emit input.job_id >>= λ _. pump r) (enlist input s)

  abbrev pub with_state : JobState → PoolJob P R → PoolJob P R
  with_state st j = record j { state = st }

  abbrev pub stop_job : String → Bool → Act Pool (Unit {0})
  stop_job id true s =
      (emit id >>= λ _ t. returns tt (abort_job stop_asked id t))
        (modify (with_state stopping) id s)
  stop_job id false s =
      emit id
        (modify (with_state stopped) id (record s { queue = filter (λ j. j.job_id != id) s.queue }))

  abbrev pub stop_found : String → Option (PoolJob P R) → Act Pool (Unit {0})
  stop_found id none s = throws "Unknown job" s
  stop_found id (some j) s =
      if is_over j.state then returns tt s else stop_job id (has id s.running) s

  unfoldable pub stop : String → Act Pool (Unit {0})
  stop id s = stop_found id (get id s.jobs) s

  abbrev pub checked :
      ℕ
      → Option Abort
      → Bool
      → LeaseManager
      → R
      → Option (List ℕ)
      → PoolJob P R
      → PoolJob P R × Bool
  checked now abort closed m result none j = caught abort closed j
  checked now abort closed m result (some t) j =
      if has_secret t
      then (record j { failure = some secret_detected; state = failed }, false)
      else fenced (fence_of now j m) abort closed (record j { result = some result })

  unfoldable pub conclude :
      (now : ℕ) → Option Abort → Bool → LeaseManager → End R → PoolJob P R → PoolJob P R × Bool
  conclude now abort closed m rejected j = caught abort closed j
  conclude now abort closed m (ran result) j = checked now abort closed m result (text result) j

  abbrev pub release_lease : PoolJob P R → LeaseManager → LeaseManager
  release_lease j m = elim j.lease [
    | none ↦ m
    | some l ↦ after (release j.input.resource_key l.lease_id m)
  ]

  -- The inner `finally` of `execute`.
  abbrev pub let_go : PoolJob P R → Pool → Pool
  let_go j s = record s {
    leases = release_lease j s.leases;
    running = delete j.input.job_id s.running;
  }

  abbrev pub requeue : Bool → JobInput P → Pool → Pool
  requeue retry job s = if retry then record s { queue = s.queue ++ job ∷ [] } else s

  -- The outer `finally`: after a throw of the callback only the inner `finally` runs.
  abbrev pub finish_run :
      Readings → PoolJob P R → Bool → Outcome Pool (Unit {0}) → Outcome Pool (Unit {0})
  finish_run r j retry (throws e s) = throws e (let_go j s)
  finish_run r j retry (returns _ s) = pump r (requeue retry j.input (let_go j s))

  abbrev pub settle_job :
      Readings → ℕ → End R → Active P → Option (PoolJob P R) → Act Pool (Unit {0})
  settle_job r now end a none s = returns tt s
  settle_job r now end a (some j) s =
      let (j', retry) = conclude now a.abort s.closed s.leases end j in
      finish_run r j' retry (emit a.job.job_id (record s { jobs = set a.job.job_id j' s.jobs }))

  abbrev pub settle_found : Readings → ℕ → String → End R → Option (Active P) → Act Pool (Unit {0})
  settle_found r now id end none s = returns tt s
  settle_found r now id end (some a) s = settle_job r now end a (get id s.jobs) s

  -- `execute` after its `await`, for a job that runs.
  unfoldable pub settle : Readings → ℕ → String → End R → Act Pool (Unit {0})
  settle r now id end s = settle_found r now id end (get id s.running) s

  abbrev pub renewed : String → Pool → Outcome LeaseManager Bool → Pool
  renewed id s (returns true m) = record s { leases = m }
  renewed id s (returns false m) = abort_job lost id (record s { leases = m })
  renewed id s (throws e m) = record s { leases = m }

  abbrev pub beat : ℕ → ℕ → String → Option (PoolJob P R) → Pool → Pool
  beat now later id none s = s
  beat now later id (some j) s = elim j.lease [
    | none ↦ s
    | some l ↦ renewed id s (renew now later j.input.resource_key l.lease_id s.ttl_ms s.leases)
  ]

  -- The heartbeat timer of a job that runs.
  unfoldable pub heartbeat : (now later : ℕ) → String → Pool → Pool
  heartbeat now later id s = if has id s.running then beat now later id (get id s.jobs) s else s

  -- The loop of `close` over the queue.
  unfoldable pub stop_queued : List (JobInput P) → Act Pool (Unit {0})
  stop_queued [] s = returns tt (record s { queue = [] })
  stop_queued (j ∷ q) s =
      (emit j.job_id >>= λ _. stop_queued q) (modify (with_state stopped) j.job_id s)

  unfoldable pub close : Act Pool (Unit {0})
  close s =
      stop_queued s.queue
        (record s { closed = true; retry_timer = false; running = abort_all s.running })
