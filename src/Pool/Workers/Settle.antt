-- ===== src/Pool/Workers/Settle.antt =====
-- The end of a run in src/agent/pool/worker-pool.ts keeps the invariant.
use cli_model_gateway.Base.{
  ℕ, ◌≤◌, ◌≡◌, refl, sym, ap, ◌∙◌, subst, String, Bool, true, false, some, arith, get, set, has,
  delete, after, get-set_self, get-has, Each-get, Option-cases, inl, inr, nat_eq, string_eq,
}
use cli_model_gateway.Pool.Workers.{
  queued, JobInput, PoolJob, Active, Outside, Readings, WorkerPool, End,
}
use cli_model_gateway.Pool.Workers.Calls.{
  emit, conclude, let_go, requeue, finish_run, settle_job, settle,
}
use cli_model_gateway.Pool.Workers.Capacity.{delete-IsWithin}
use cli_model_gateway.Pool.Workers.Quota.{MayStart, Fits, back-IsQuoted}
use cli_model_gateway.Pool.Workers.Starts.{set_job-IsQuoted}
use cli_model_gateway.Pool.Workers.Ends.{delete-IsQuoted, delete-HasInHand}
use cli_model_gateway.Pool.Workers.Conclusion.{Concluded, conclude-Concluded}
use cli_model_gateway.Pool.Workers.Invariant.{Inv, emit_cases, pump-Inv}

module _ {P R W : Type 0} (outside : Outside P R W) where
  abbrev Pool : Type 0
  Pool = WorkerPool P R W

  let_go-Inv : (j : PoolJob P R) (s : Pool) → Inv s → Inv (let_go outside j s)
  let_go-Inv j s i = record {
    within = delete-IsWithin s.max_concurrency s.per_owner_cap j.input.job_id s.running i.within;
    quoted = delete-IsQuoted s.jobs s.queue s.running j.input.job_id i.quoted;
  }

  requeue-Inv :
      (b : Bool) (j : PoolJob P R) (s : Pool)
      → has j.input.job_id s.running ≡ true
      → get j.input.job_id s.jobs ≡ some j
      → (b ≡ true → MayStart j)
      → Inv s
      → Inv (requeue outside b j.input (let_go outside j s))
  requeue-Inv false j s runs e may i = let_go-Inv j s i
  requeue-Inv true j s runs e may i = record {
    within = delete-IsWithin s.max_concurrency s.per_owner_cap j.input.job_id s.running i.within;
    quoted =
        back-IsQuoted j.input s.jobs s.queue (delete j.input.job_id s.running)
          (delete-HasInHand s.jobs s.queue s.running j.input j runs e (may refl) i.quoted);
  }

  finish_run-Inv :
      (r : Readings) (id : String) (j : PoolJob P R) (b : Bool) (s : Pool)
      → has j.input.job_id s.running ≡ true
      → get j.input.job_id s.jobs ≡ some j
      → (b ≡ true → MayStart j)
      → Inv s
      → Inv (after (finish_run outside r j b (emit outside id s)))
  finish_run-Inv r id j b s runs e may i =
      emit_cases outside (λ o. Inv (after (finish_run outside r j b o))) id s
        (λ w. pump-Inv outside r _ (requeue-Inv b j (record s { world = w }) runs e may (moved w)))
        (λ err w. let_go-Inv j (record s { world = w }) (moved w))
    where
      moved : (w : W) → Inv (record s { world = w })
      moved w = record { within = i.within; quoted = i.quoted }

  settle_job-Inv :
      (r : Readings) (now : ℕ) (id : String) (end : End R) (a : Active P) (j : PoolJob P R)
      (s : Pool)
      → get id s.running ≡ some a
      → get id s.jobs ≡ some j
      → Inv s
      → Inv (after (settle_job outside r now end a (some j) s))
  settle_job-Inv r now id end a j s runs e i =
      finish_run-Inv r a.job.job_id p.0 p.1 (record s { jobs = set a.job.job_id p.0 s.jobs })
        (subst (λ k. has k s.running ≡ true) (sym ended_id) (get-has id s.running runs))
        (subst (λ k. get k (set a.job.job_id p.0 s.jobs) ≡ some p.0) (started_id ∙ sym ended_id)
          (get-set_self a.job.job_id p.0 s.jobs))
        (λ h. may (c.may_retry h))
        (record {
          within = i.within;
          quoted =
              set_job-IsQuoted a.job.job_id j p.0 s.jobs s.queue s.running
                (subst (λ k. get k s.jobs ≡ some j) (sym started_id) e) c.same c.count i.quoted;
        })
    where
      p : PoolJob P R × Bool
      p = conclude outside now a.abort s.closed s.leases end j

      c : Concluded s.closed j p
      c = conclude-Concluded outside now a.abort s.closed s.leases end j

      started_id : a.job.job_id ≡ id
      started_id = Each-get _ id s.running i.quoted.own runs

      ended_id : p.0.input.job_id ≡ id
      ended_id =
          ap (λ (x : JobInput P). x.job_id) c.same ∙ (Each-get Fits id s.jobs i.quoted.spent e).0

      may :
          (j.input.write ≡ false) × (j.attempts ≤ 2) × (s.closed ≡ false) × (p.0.state ≡ queued)
          → MayStart p.0
      may (reads, few, _, _) = (rw c.count few, λ w. absurd (true-≢-false w))
        where
          true-≢-false : p.0.input.write ≡ true → ⊥
          true-≢-false w = let same = ap (λ (x : JobInput P). x.write) c.same in ground arith

  pub settle-Inv :
      (r : Readings) (now : ℕ) (id : String) (end : End R) (s : Pool)
      → Inv s
      → Inv (after (settle outside r now id end s))
  unfolding settle
  settle-Inv r now id end s i = elim (Option-cases (get id s.running)) [
    | inl e ↦ rw e i
    | inr (a, e) ↦ rw e (elim (Option-cases (get id s.jobs)) [
      | inl f ↦ rw f i
      | inr (j, f) ↦ rw f (settle_job-Inv r now id end a j s e f i)
    ])
  ]
