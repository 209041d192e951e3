-- ===== src/Pool/Workers/Starts.antt =====
-- The writes of src/agent/pool/worker-pool.ts that start, end and stop jobs, and the quota.
use cli_model_gateway.Base.{
  ◌≡◌, ◌≢◌, refl, sym, ap, ◌∙◌, subst, String, true, false, some, [], ◌∷◌, ◌++◌, List, arith,
  ==_refl, Table, get, set, has, get-set_cases, has-set_lem, Each-set, Each-get, inl, inr, ◌⊎◌,
  nat_eq, string_eq,
}
use cli_model_gateway.Pool.Workers.{JobInput, PoolJob, Active}
use cli_model_gateway.Pool.Workers.Queue.{is_queued}
use cli_model_gateway.Pool.Workers.Quota.{MayStart, Fits, IsQuoted, HasInHand, back-IsQuoted}

module _ {P R : Type 0} where
  MayStart-same :
      (j j' : PoolJob P R)
      → j'.input ≡ j.input
      → j'.attempts ≡ j.attempts
      → MayStart j
      → MayStart j'
  MayStart-same j j' same count m =
      (rw count m.0, λ w. count ∙ m.1 (sym (ap (λ (i : JobInput P). i.write) same) ∙ w))

  Fits-same :
      (k : String) (j j' : PoolJob P R)
      → j'.input ≡ j.input
      → j'.attempts ≡ j.attempts
      → Fits k j
      → Fits k j'
  Fits-same k j j' same count f = (
    ap (λ (i : JobInput P). i.job_id) same ∙ f.0,
    (rw count f.1.0, λ w. rw count (f.1.1 (sym (ap (λ (i : JobInput P). i.write) same) ∙ w))),
  )

  -- A write to one entry of `jobs` that leaves its fixed part and its count of attempts.
  pub set_job-IsQuoted :
      (id : String) (j j' : PoolJob P R) (jobs : Table String (PoolJob P R)) (q : List (JobInput P))
      (r : Table String (Active P))
      → get id jobs ≡ some j
      → j'.input ≡ j.input
      → j'.attempts ≡ j.attempts
      → IsQuoted jobs q r
      → IsQuoted (set id j' jobs) q r
  set_job-IsQuoted id j j' jobs q r e same count v = record {
    spent =
        Each-set Fits id j' jobs (Fits-same id j j' same count (Each-get Fits id jobs v.spent e))
          v.spent;
    ready = λ k x h g. still k x h (get-set_cases id k j' jobs g);
    distinct = v.distinct;
    apart = v.apart;
    known = λ k h. ground (arith, has-set_lem id k j' jobs, v.known k h);
    active = λ k h. ground (arith, has-set_lem id k j' jobs, v.active k h);
    own = v.own;
  }
    where
      still :
          (k : String) (x : PoolJob P R)
          → is_queued k q ≡ true
          → ((id ≡ k) × (j' ≡ x)) ⊎ ((id ≢ k) × (get k jobs ≡ some x))
          → MayStart x
      still k x h (inl (at, is)) =
          subst MayStart is
            (MayStart-same j j' same count (v.ready k j h (subst (λ i. get i jobs ≡ some j) at e)))
      still k x h (inr (_, old)) = v.ready k x h old

  pub set_job-HasInHand :
      (job : JobInput P) (id : String) (j j' : PoolJob P R) (jobs : Table String (PoolJob P R))
      (q : List (JobInput P)) (r : Table String (Active P))
      → get id jobs ≡ some j
      → j'.input ≡ j.input
      → j'.attempts ≡ j.attempts
      → HasInHand job jobs q r
      → HasInHand job (set id j' jobs) q r
  set_job-HasInHand job id j j' jobs q r e same count h = record {
    rest = set_job-IsQuoted id j j' jobs q r e same count h.rest;
    taken = h.taken;
    idle = h.idle;
    exists = ground (arith, has-set_lem id job.job_id j' jobs, h.exists);
    may = λ x g. still x (get-set_cases id job.job_id j' jobs g);
  }
    where
      still :
          (x : PoolJob P R)
          → ((id ≡ job.job_id) × (j' ≡ x)) ⊎ ((id ≢ job.job_id) × (get job.job_id jobs ≡ some x))
          → MayStart x
      still x (inl (at, is)) =
          subst MayStart is
            (MayStart-same j j' same count (h.may j (subst (λ i. get i jobs ≡ some j) at e)))
      still x (inr (_, old)) = h.may x old

  -- A new job.
  pub enlist-IsQuoted :
      (input : JobInput P) (jobs : Table String (PoolJob P R)) (q : List (JobInput P))
      (r : Table String (Active P)) (j : PoolJob P R)
      → has input.job_id jobs ≡ false
      → j.input ≡ input
      → j.attempts ≡ 0
      → IsQuoted jobs q r
      → IsQuoted (set input.job_id j jobs) (q ++ input ∷ []) r
  enlist-IsQuoted input jobs q r j new same count v =
      back-IsQuoted input (set input.job_id j jobs) q r (record {
        rest = record {
          spent =
              Each-set Fits input.job_id j jobs
                (
                  ap (λ (i : JobInput P). i.job_id) same,
                  (rw count (omega arith), λ _. rw count (omega arith)),
                )
                v.spent;
          ready = λ k x h g. still k x h (get-set_cases input.job_id k j jobs g);
          distinct = v.distinct;
          apart = v.apart;
          known = λ k h. ground (arith, has-set_lem input.job_id k j jobs, v.known k h);
          active = λ k h. ground (arith, has-set_lem input.job_id k j jobs, v.active k h);
          own = v.own;
        };
        taken = ground (arith, v.known input.job_id);
        idle = ground (arith, v.active input.job_id);
        exists = ground (arith, has-set_lem input.job_id input.job_id j jobs, ==_refl input.job_id);
        may = λ x g. first x (get-set_cases input.job_id input.job_id j jobs g);
      })
    where
      MayStart-new : MayStart j
      MayStart-new = (rw count (omega arith), λ _. count)

      still :
          (k : String) (x : PoolJob P R)
          → is_queued k q ≡ true
          → ((input.job_id ≡ k) × (j ≡ x)) ⊎ ((input.job_id ≢ k) × (get k jobs ≡ some x))
          → MayStart x
      still k x h (inl (at, is)) = subst MayStart is MayStart-new
      still k x h (inr (_, old)) = v.ready k x h old

      first :
          (x : PoolJob P R)
          → ((input.job_id ≡ input.job_id) × (j ≡ x))
            ⊎ ((input.job_id ≢ input.job_id) × (get input.job_id jobs ≡ some x))
          → MayStart x
      first x (inl (_, is)) = subst MayStart is MayStart-new
      first x (inr (ne, _)) = absurd (ne refl)
