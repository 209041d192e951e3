-- ===== src/Pool/Workers/Quota.antt =====
-- How often a job is started: the writes to `jobs`, `queue` and `running` in
-- src/agent/pool/worker-pool.ts.
use cli_model_gateway.Base.{
  ◌≤◌, ◌≡◌, sym, ◌∙◌, String, Bool, true, false, some, [], ◌∷◌, ◌++◌, List, arith, ==_iff, Table,
  Each, get, has, Bool-cases, inl, inr, ◌⊎◌, nat_eq, string_eq,
}
use cli_model_gateway.Pool.Workers.{JobInput, PoolJob, Active, sort}
use cli_model_gateway.Pool.Workers.Queue.{
  is_queued, IsDistinct, is_queued-sort, sort-IsDistinct, is_queued-concat, concat-IsDistinct,
  Picked,
}

module _ {P R : Type 0} where
  -- A job that may be started once more: twice at most so far, and never if it writes.
  abbrev pub MayStart : PoolJob P R → Type 0
  MayStart j = (j.attempts ≤ 2) × (j.input.write ≡ true → j.attempts ≡ 0)

  -- Three starts at most, one if the job writes.
  abbrev pub IsSpent : PoolJob P R → Type 0
  IsSpent j = (j.attempts ≤ 3) × (j.input.write ≡ true → j.attempts ≤ 1)

  abbrev pub Fits : String → PoolJob P R → Type 0
  Fits k j = (j.input.job_id ≡ k) × IsSpent j

  pub record IsQuoted (jobs : Table String (PoolJob P R)) (queue : List (JobInput P))
      (running : Table String (Active P)) : Type 0 where
    pub spent : Each Fits jobs
    pub ready :
        (k : String) (j : PoolJob P R) → is_queued k queue ≡ true → get k jobs ≡ some j → MayStart j
    pub distinct : IsDistinct queue
    pub apart : (k : String) → has k running ≡ true → is_queued k queue ≡ false
    pub known : (k : String) → is_queued k queue ≡ true → has k jobs ≡ true
    pub active : (k : String) → has k running ≡ true → has k jobs ≡ true
    pub own : Each (λ k (a : Active P). a.job.job_id ≡ k) running

  -- The same with a job that has been taken out of the queue.
  pub record HasInHand (job : JobInput P) (jobs : Table String (PoolJob P R))
      (queue : List (JobInput P)) (running : Table String (Active P)) : Type 0 where
    pub rest : IsQuoted jobs queue running
    pub taken : is_queued job.job_id queue ≡ false
    pub idle : has job.job_id running ≡ false
    pub exists : has job.job_id jobs ≡ true
    pub may : (j : PoolJob P R) → get job.job_id jobs ≡ some j → MayStart j

  pub sort-IsQuoted :
      (jobs : Table String (PoolJob P R)) (q : List (JobInput P)) (r : Table String (Active P))
      → IsQuoted jobs q r
      → IsQuoted jobs (sort q) r
  sort-IsQuoted jobs q r v = record {
    spent = v.spent;
    ready = λ k j h. v.ready k j (sym (is_queued-sort k q) ∙ h);
    distinct = sort-IsDistinct q v.distinct;
    apart = λ k h. is_queued-sort k q ∙ v.apart k h;
    known = λ k h. v.known k (sym (is_queued-sort k q) ∙ h);
    active = v.active;
    own = v.own;
  }

  pub take-HasInHand :
      (p : JobInput P → Bool) (job : JobInput P) (jobs : Table String (PoolJob P R))
      (q rest : List (JobInput P)) (r : Table String (Active P))
      → Picked p q job rest
      → IsQuoted jobs q r
      → HasInHand job jobs rest r
  take-HasInHand p job jobs q rest r t v = record {
    rest = record {
      spent = v.spent;
      ready = λ k j h. v.ready k j (t.others k h);
      distinct = t.distinct;
      apart = λ k h. ground (arith, v.apart k h, t.others k);
      known = λ k h. v.known k (t.others k h);
      active = v.active;
      own = v.own;
    };
    taken = t.taken;
    idle = ground (arith, v.apart job.job_id, t.was_queued);
    exists = v.known job.job_id t.was_queued;
    may = λ j e. v.ready job.job_id j t.was_queued e;
  }

  pub back-IsQuoted :
      (job : JobInput P) (jobs : Table String (PoolJob P R)) (q : List (JobInput P))
      (r : Table String (Active P))
      → HasInHand job jobs q r
      → IsQuoted jobs (q ++ job ∷ []) r
  back-IsQuoted job jobs q r h = record {
    spent = h.rest.spent;
    ready = λ k j e g. queued_ready k j (Bool-cases (is_queued k q)) e g;
    distinct = concat-IsDistinct job q h.taken h.rest.distinct;
    apart = λ k e.
        ground (arith, is_queued-concat k job q, h.rest.apart k, h.idle, ==_iff job.job_id k);
    known = λ k e.
        ground (arith, is_queued-concat k job q, h.rest.known k, h.exists, ==_iff job.job_id k);
    active = h.rest.active;
    own = h.rest.own;
  }
    where
      queued_ready :
          (k : String) (j : PoolJob P R)
          → (is_queued k q ≡ true) ⊎ (is_queued k q ≡ false)
          → is_queued k (q ++ job ∷ []) ≡ true
          → get k jobs ≡ some j
          → MayStart j
      queued_ready k j (inl y) e g = h.rest.ready k j y g
      queued_ready k j (inr n) e g =
          let same : job.job_id ≡ k =
            ground (arith, is_queued-concat k job q, ==_iff job.job_id k) in
          h.may j (rw same g)
