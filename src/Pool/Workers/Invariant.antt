-- ===== src/Pool/Workers/Invariant.antt =====
-- The invariant of src/agent/pool/worker-pool.ts and the rounds of `pump`.
use cli_model_gateway.Base.{
  ℕ, zero, suc, ◌+◌, ◌<◌, ◌≡◌, refl, String, Bool, true, false, none, some, List, arith, ltb,
  if◌then◌else◌, values, get, set, Outcome, Act, ◌>>=◌, returns, throws, after, get-none-has,
  Bool-cases, Option-cases, inl, inr, nat_eq, string_eq, length, ltb→lt,
}
use cli_model_gateway.Pool.Leases.{Lease, LeaseManager, Grant, granted, busy, acquire}
use cli_model_gateway.Pool.Workers.{
  JobInput, PoolJob, Outside, Readings, WorkerPool, sort, count_owner, modify, pick, running,
  leased,
}
use cli_model_gateway.Pool.Workers.Calls.{
  in_world, emit, swallow, begin, activate, with_lease, dispatch, has_room, pump_loop, pump,
}
use cli_model_gateway.Pool.Workers.Queue.{pick-Picked}
use cli_model_gateway.Pool.Workers.Capacity.{IsWithin, activate-IsWithin}
use cli_model_gateway.Pool.Workers.Quota.{
  IsQuoted, HasInHand, sort-IsQuoted, take-HasInHand, back-IsQuoted,
}
use cli_model_gateway.Pool.Workers.Starts.{set_job-HasInHand}
use cli_model_gateway.Pool.Workers.Ends.{start-IsQuoted}

module _ {P R W : Type 0} where
  pub record Inv (s : WorkerPool P R W) : Type 0 where
    pub within : IsWithin s.max_concurrency s.per_owner_cap s.running
    pub quoted : IsQuoted s.jobs s.queue s.running

  -- A job has been taken out of the queue, and there is room for it.
  pub record InHand (job : JobInput P) (s : WorkerPool P R W) : Type 0 where
    pub within : IsWithin s.max_concurrency s.per_owner_cap s.running
    pub hand : HasInHand job s.jobs s.queue s.running
    pub room : length s.running < s.max_concurrency
    pub own_room : count_owner job.owner (values s.running) < s.per_owner_cap

  pub InHand-Inv : {job : JobInput P} {s : WorkerPool P R W} → InHand job s → Inv s
  InHand-Inv h = record { within = h.within; quoted = h.hand.rest }

module _ {P R W : Type 0} (outside : Outside P R W) where
  abbrev Pool : Type 0
  Pool = WorkerPool P R W

  emit_job_cases :
      (Q : Outcome Pool (Unit {0}) → Type 0) (s : Pool)
      → ((w : W) → Q (returns tt (record s { world = w })))
      → ((e : String) (w : W) → Q (throws e (record s { world = w })))
      → (o : Outcome W (Unit {0})) → Q (in_world outside s o)
  emit_job_cases Q s good bad (returns _ w) = good w
  emit_job_cases Q s good bad (throws e w) = bad e w

  -- The callback changes the world outside, and may throw.
  pub emit_cases :
      (Q : Outcome Pool (Unit {0}) → Type 0) (id : String) (s : Pool)
      → ((w : W) → Q (returns tt (record s { world = w })))
      → ((e : String) (w : W) → Q (throws e (record s { world = w })))
      → Q (emit outside id s)
  unfolding emit
  emit_cases Q id s good bad = elim (Option-cases (get id s.jobs)) [
    | inl e ↦ rw e (good s.world)
    | inr (j, e) ↦ rw e (emit_job_cases Q s good bad (outside.event j s.world))
  ]

  begin-Inv :
      (job : JobInput P) (s : Pool)
      → InHand job s
      → Inv (after (begin outside job.job_id (activate outside job s)))
  unfolding begin modify
  begin-Inv job s h = elim (Option-cases (get job.job_id s.jobs)) [
    | inl e ↦ absurd (missing e)
    | inr (j, e) ↦ rw e (
        emit_cases (λ o. Inv (after (swallow outside o))) job.job_id _ (λ w. started j e)
          (λ err w. started j e))
  ]
    where
      missing : get job.job_id s.jobs ≡ none → ⊥
      missing e = absurd (ground (arith, get-none-has job.job_id s.jobs e, h.hand.exists))

      started :
          (j : PoolJob P R)
          → get job.job_id s.jobs ≡ some j
          → {w : W}
          → Inv (record s {
            world = w;
            running = set job.job_id (record { abort = none; job = job }) s.running;
            jobs = set job.job_id (record j { state = running; attempts = j.attempts + 1 }) s.jobs;
          })
      started j e = record {
        within = activate-IsWithin _ _ job.job_id _ s.running h.room h.own_room h.within;
        quoted = start-IsQuoted job j _ s.jobs s.queue s.running _ e refl refl refl h.hand;
      }

  -- Marking the job with its lease.
  mark-InHand :
      (job : JobInput P) (l : Lease) (s : Pool)
      → InHand job s
      → InHand job (modify (λ j. record j { lease = some l; state = leased }) job.job_id s)
  unfolding modify
  mark-InHand job l s h = elim (Option-cases (get job.job_id s.jobs)) [
    | inl e ↦ rw e h
    | inr (j, e) ↦ rw e (record {
      within = h.within;
      hand =
          set_job-HasInHand job job.job_id j (record j { lease = some l; state = leased }) s.jobs
            s.queue s.running e refl refl h.hand;
      room = h.room;
      own_room = h.own_room;
    })
  ]

  with_lease-Inv :
      (job : JobInput P) (s : Pool) (o : Outcome LeaseManager Grant)
      → InHand job s
      → Inv (after (with_lease outside job s o))
  with_lease-Inv job s (throws e m) h = record { within = h.within; quoted = h.hand.rest }
  with_lease-Inv job s (returns busy m) h = record {
    within = h.within;
    quoted = back-IsQuoted job s.jobs s.queue s.running h.hand;
  }
  with_lease-Inv job s (returns (granted l) m) h =
      emit_cases
        (λ o. Inv (
          after (
            (◌>>=◌ (λ (_ : Pool). o)
                (λ _ t.
                  (begin outside job.job_id >>= λ _ u. returns true u) (activate outside job t)))
              s)))
        job.job_id
        (modify (λ j. record j { lease = some l; state = leased }) job.job_id
          (record s { leases = m }))
        (λ w. begun _ (in_world_InHand w)) (λ e w. InHand-Inv (in_world_InHand w))
    where
      marked : InHand job (
          modify
            (λ j. record j { lease = some l; state = leased })
            job.job_id
            (record s { leases = m }))
      marked =
          mark-InHand job l (record s { leases = m })
            (record { within = h.within; hand = h.hand; room = h.room; own_room = h.own_room })

      in_world_InHand :
          (w : W)
          → InHand job
              (record (modify
                (λ (j : PoolJob P R). record j { lease = some l; state = leased })
                job.job_id
                (record s { leases = m })) { world = w })
      in_world_InHand w = record {
        within = marked.within;
        hand = marked.hand;
        room = marked.room;
        own_room = marked.own_room;
      }

      begun :
          (t : Pool)
          → InHand job t
          → Inv (
              after ((begin outside job.job_id >>= λ _ u. returns true u) (activate outside job t)))
      begun t k = go (begin outside job.job_id (activate outside job t)) (begin-Inv job t k)
        where
          go :
              (o : Outcome Pool (Unit {0}))
              → Inv (after o)
              → Inv (after ((◌>>=◌ (λ (_ : Pool). o) (λ _ u. returns true u)) t))
          go (returns _ u) i = i
          go (throws e u) i = i

  dispatch-Inv :
      (r : Readings) (job : JobInput P) (s : Pool)
      → InHand job s
      → Inv (after (dispatch outside r job s))
  unfolding dispatch
  dispatch-Inv r job s h =
      with_lease-Inv job s
        (acquire (r.now job.job_id) (r.later job.job_id) (r.uuid job.job_id) job.resource_key
          job.job_id s.ttl_ms s.leases)
        h

  again-Inv :
      (s : Pool) (o : Outcome Pool Bool) (next : Act Pool (Unit {0}))
      → ((t : Pool) → Inv t → Inv (after (next t)))
      → Inv (after o)
      → Inv
          (after ((◌>>=◌ (λ (_ : Pool). o) (λ again t. if again then next t else returns tt t)) s))
  again-Inv s (throws e t) next go i = i
  again-Inv s (returns true t) next go i = go t i
  again-Inv s (returns false t) next go i = i

  pump_loop-Inv :
      (fuel : ℕ) (r : Readings) (s : Pool) → Inv s → Inv (after (pump_loop outside fuel r s))
  unfolding pump_loop
  pump_loop-Inv zero r s i = i
  pump_loop-Inv (suc fuel) r s i = elim (Bool-cases (ltb (length s.running) s.max_concurrency)) [
    | inr n ↦ rw n i
    | inl y ↦ rw y (elim (Option-cases (pick (has_room outside s) s.queue)) [
      | inl e ↦ rw e i
      | inr ((job, q), e) ↦ rw e (
          again-Inv (record s { queue = q }) (dispatch outside r job (record s { queue = q }))
            (pump_loop outside fuel r) (pump_loop-Inv fuel r)
            (dispatch-Inv r job (record s { queue = q }) (picked job q y e)))
    ])
  ]
    where
      picked :
          (job : JobInput P) (q : List (JobInput P))
          → ltb (length s.running) s.max_concurrency ≡ true
          → pick (has_room outside s) s.queue ≡ some (job, q)
          → InHand job (record s { queue = q })
      picked job q y e =
          let t = pick-Picked (has_room outside s) s.queue job q i.quoted.distinct e in
          record {
            within = i.within;
            hand = take-HasInHand (has_room outside s) job s.jobs s.queue q s.running t i.quoted;
            room = ltb→lt _ _ y;
            own_room = ltb→lt _ _ t.passes;
          }

  pub pump-Inv : (r : Readings) (s : Pool) → Inv s → Inv (after (pump outside r s))
  unfolding pump
  pump-Inv r s i = go s.closed
    where
      next : Inv (record s { queue = sort s.queue })
      next = record { within = i.within; quoted = sort-IsQuoted s.jobs s.queue s.running i.quoted }

      go :
          (b : Bool)
          → Inv (
              after (
                if b
                then returns tt s
                else pump_loop outside (length s.queue) r (record s { queue = sort s.queue })))
      go true = i
      go false = pump_loop-Inv (length s.queue) r (record s { queue = sort s.queue }) next
