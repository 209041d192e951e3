-- ===== src/Pool/Workers/Methods.antt =====
-- The methods of src/agent/pool/worker-pool.ts keep its invariant.
use cli_model_gateway.Base.{
  ℕ, ◌≡◌, refl, String, Bool, true, false, ◌||◌, Option, none, some, [], ◌∷◌, List, arith, ◌!=◌,
  get, has, Outcome, Act, ◌>>=◌, returns, throws, after, Bool-cases, Option-cases, inl, inr, nat_eq,
  string_eq, filter,
}
use cli_model_gateway.Pool.Leases.{LeaseManager, renew}
use cli_model_gateway.Pool.Workers.{
  stopping, stopped, Abort, stop_asked, lost, JobInput, PoolJob, Outside, Readings, WorkerPool,
  set_abort, modify, abort_job,
}
use cli_model_gateway.Pool.Workers.Calls.{
  is_over, emit, pump, new_job, enlist, submit, with_state, stop_job, stop, renewed, beat,
  heartbeat, stop_queued, close,
}
use cli_model_gateway.Pool.Workers.Capacity.{set_same-IsWithin, abort_all-IsWithin}
use cli_model_gateway.Pool.Workers.Starts.{set_job-IsQuoted, enlist-IsQuoted}
use cli_model_gateway.Pool.Workers.Ends.{
  set_active-IsQuoted, abort_all-IsQuoted, filter-IsQuoted, empty-IsQuoted,
}
use cli_model_gateway.Pool.Workers.Invariant.{Inv, emit_cases, pump-Inv}

module _ {P R W : Type 0} where
  modify-Inv :
      (f : PoolJob P R → PoolJob P R) (id : String) (s : WorkerPool P R W)
      → ((j : PoolJob P R) → (f j).input ≡ j.input)
      → ((j : PoolJob P R) → (f j).attempts ≡ j.attempts)
      → Inv s
      → Inv (modify f id s)
  unfolding modify
  modify-Inv f id s same count i = elim (Option-cases (get id s.jobs)) [
    | inl e ↦ rw e i
    | inr (j, e) ↦ rw e (record {
      within = i.within;
      quoted = set_job-IsQuoted id j (f j) s.jobs s.queue s.running e (same j) (count j) i.quoted;
    })
  ]

  pub abort_job-Inv :
      (r : Abort) (id : String) (s : WorkerPool P R W) → Inv s → Inv (abort_job r id s)
  unfolding abort_job
  abort_job-Inv r id s i = elim (Option-cases (get id s.running)) [
    | inl e ↦ rw e i
    | inr (a, e) ↦ rw e (record {
      within =
          set_same-IsWithin s.max_concurrency s.per_owner_cap id a (set_abort r a) s.running e refl
            i.within;
      quoted = set_active-IsQuoted s.jobs s.queue s.running id a (set_abort r a) e refl i.quoted;
    })
  ]

  world-Inv : (s : WorkerPool P R W) (w : W) → Inv s → Inv (record s { world = w })
  world-Inv s w i = record { within = i.within; quoted = i.quoted }

  leases-Inv : (s : WorkerPool P R W) (m : LeaseManager) → Inv s → Inv (record s { leases = m })
  leases-Inv s m i = record { within = i.within; quoted = i.quoted }

module _ {P R W : Type 0} (outside : Outside P R W) where
  abbrev Pool : Type 0
  Pool = WorkerPool P R W

  emit-Inv : (id : String) (s : Pool) → Inv s → Inv (after (emit outside id s))
  emit-Inv id s i =
      emit_cases outside (λ o. Inv (after o)) id s (λ w. world-Inv s w i) (λ e w. world-Inv s w i)

  then-Inv :
      (s : Pool) (o : Outcome Pool (Unit {0})) (next : Act Pool (Unit {0}))
      → Inv (after o)
      → ((t : Pool) → Inv t → Inv (after (next t)))
      → Inv (after ((◌>>=◌ (λ (_ : Pool). o) (λ _. next)) s))
  then-Inv s (returns _ t) next i go = go t i
  then-Inv s (throws e t) next i go = i

  pub submit-Inv :
      (r : Readings) (input : JobInput P) (s : Pool)
      → Inv s
      → Inv (after (submit outside r input s))
  unfolding submit
  submit-Inv r input s i = elim (Bool-cases (s.closed || has input.job_id s.jobs)) [
    | inl y ↦ rw y i
    | inr n ↦ rw n (
        then-Inv (enlist outside input s) (emit outside input.job_id (enlist outside input s))
          (pump outside r) (emit-Inv input.job_id (enlist outside input s) (enlisted n))
          (pump-Inv outside r))
  ]
    where
      enlisted : (s.closed || has input.job_id s.jobs) ≡ false → Inv (enlist outside input s)
      enlisted n = record {
        within = i.within;
        quoted =
            enlist-IsQuoted input s.jobs s.queue s.running (new_job outside input) (ground arith)
              refl refl i.quoted;
      }

  stop_job-Inv : (id : String) (b : Bool) (s : Pool) → Inv s → Inv (after (stop_job outside id b s))
  stop_job-Inv id true s i =
      then-Inv (modify (with_state outside stopping) id s)
        (emit outside id (modify (with_state outside stopping) id s))
        (λ t. returns tt (abort_job stop_asked id t))
        (emit-Inv id _ (modify-Inv (with_state outside stopping) id s (λ j. refl) (λ j. refl) i))
        (λ t k. abort_job-Inv stop_asked id t k)
  stop_job-Inv id false s i = emit-Inv id _ (
      modify-Inv (with_state outside stopped) id
        (record s { queue = filter (λ j. j.job_id != id) s.queue }) (λ j. refl) (λ j. refl)
        (record {
          within = i.within;
          quoted = filter-IsQuoted s.jobs s.queue s.running id i.quoted;
        }))

  pub stop-Inv : (id : String) (s : Pool) → Inv s → Inv (after (stop outside id s))
  unfolding stop
  stop-Inv id s i = elim (Option-cases (get id s.jobs)) [
    | inl e ↦ rw e i
    | inr (j, e) ↦ rw e (elim (Bool-cases (is_over j.state)) [
      | inl y ↦ rw y i
      | inr n ↦ rw n (stop_job-Inv id (has id s.running) s i)
    ])
  ]

  beat-Inv :
      (now later : ℕ) (id : String) (o : Option (PoolJob P R)) (s : Pool)
      → Inv s
      → Inv (beat outside now later id o s)
  beat-Inv now later id none s i = i
  beat-Inv now later id (some j) s i = elim (Option-cases j.lease) [
    | inl e ↦ rw e i
    | inr (l, e) ↦
        rw e (answered (renew now later j.input.resource_key l.lease_id s.ttl_ms s.leases))
  ]
    where
      answered : (o : Outcome LeaseManager Bool) → Inv (renewed outside id s o)
      answered (returns true m) = leases-Inv s m i
      answered (returns false m) =
          abort_job-Inv lost id (record s { leases = m }) (leases-Inv s m i)
      answered (throws e m) = leases-Inv s m i

  pub heartbeat-Inv :
      (now later : ℕ) (id : String) (s : Pool) → Inv s → Inv (heartbeat outside now later id s)
  unfolding heartbeat
  heartbeat-Inv now later id s i = elim (Bool-cases (has id s.running)) [
    | inl y ↦ rw y (beat-Inv now later id (get id s.jobs) s i)
    | inr n ↦ rw n i
  ]

  stop_queued-Inv :
      (q : List (JobInput P)) (s : Pool) → Inv s → Inv (after (stop_queued outside q s))
  unfolding stop_queued
  stop_queued-Inv [] s i = record {
    within = i.within;
    quoted = empty-IsQuoted s.jobs s.queue s.running i.quoted;
  }
  stop_queued-Inv (j ∷ q) s i =
      then-Inv (modify (with_state outside stopped) j.job_id s)
        (emit outside j.job_id (modify (with_state outside stopped) j.job_id s))
        (stop_queued outside q)
        (emit-Inv j.job_id _
          (modify-Inv (with_state outside stopped) j.job_id s (λ j. refl) (λ j. refl) i))
        (stop_queued-Inv q)

  pub close-Inv : (s : Pool) → Inv s → Inv (after (close outside s))
  unfolding close
  close-Inv s i = stop_queued-Inv s.queue _ (record {
    within = abort_all-IsWithin s.max_concurrency s.per_owner_cap s.running i.within;
    quoted = abort_all-IsQuoted s.jobs s.queue s.running i.quoted;
  })
