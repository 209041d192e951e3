-- ===== src/Pool/Workers/Ends.antt =====
-- The writes of src/agent/pool/worker-pool.ts to `running`, and the quota.
use cli_model_gateway.Base.{
  ◌+◌, ◌≡◌, ◌≢◌, refl, sym, ap, ◌∙◌, subst, String, true, false, some, [], ◌∷◌, List, arith, ◌!=◌,
  ==_iff, ==_refl, Table, Each, get, set, has, delete, get-has, get-set_cases, has-set_lem,
  has-delete, Each-set, Each-delete, Each-get, Bool-cases, inl, inr, ◌⊎◌, nat_eq, string_eq, filter,
}
use cli_model_gateway.Pool.Workers.{JobInput, PoolJob, Active, abort_all}
use cli_model_gateway.Pool.Workers.Queue.{is_queued, is_queued-filter, filter-IsDistinct}
use cli_model_gateway.Pool.Workers.Quota.{MayStart, Fits, IsQuoted, HasInHand}

module _ {P : Type 0} where
  has-abort_all : (k : String) (r : Table String (Active P)) → has k (abort_all r) ≡ has k r
  unfolding has abort_all
  has-abort_all k [] = refl
  has-abort_all k ((j, a) ∷ r) = ground (arith, has-abort_all k r)

  own-abort_all :
      (r : Table String (Active P))
      → Each (λ k (a : Active P). a.job.job_id ≡ k) r
      → Each (λ k (a : Active P). a.job.job_id ≡ k) (abort_all r)
  unfolding abort_all
  own-abort_all [] o = tt
  own-abort_all ((j, a) ∷ r) (o, os) = (ground arith, own-abort_all r os)

  own-delete :
      (k : String) (r : Table String (Active P))
      → Each (λ k (a : Active P). a.job.job_id ≡ k) r
      → Each (λ k (a : Active P). a.job.job_id ≡ k) (delete k r)
  own-delete k r o = Each-delete _ k r o

module _ {P R : Type 0} where
  -- The job in hand starts to run, and its attempts go up by one.
  pub start-IsQuoted :
      (job : JobInput P) (j j' : PoolJob P R) (jobs : Table String (PoolJob P R))
      (q : List (JobInput P)) (r : Table String (Active P)) (a : Active P)
      → get job.job_id jobs ≡ some j
      → j'.input ≡ j.input
      → j'.attempts ≡ j.attempts + 1
      → a.job ≡ job
      → HasInHand job jobs q r
      → IsQuoted (set job.job_id j' jobs) q (set job.job_id a r)
  start-IsQuoted job j j' jobs q r a e same count at h =
      let m = h.may j e in
      let old = Each-get Fits job.job_id jobs h.rest.spent e in
      let write_same : j'.input.write ≡ j.input.write = ap (λ (i : JobInput P). i.write) same in
      record {
        spent =
            Each-set Fits job.job_id j' jobs
              (
                ap (λ (i : JobInput P). i.job_id) same ∙ old.0,
                (omega (arith, m.0), λ w. omega (arith, m.1 (sym write_same ∙ w))),
              )
              h.rest.spent;
        ready = λ k x g f. still k x g (get-set_cases job.job_id k j' jobs f);
        distinct = h.rest.distinct;
        apart = λ k g.
            ground
              (arith, has-set_lem job.job_id k a r, h.rest.apart k, h.taken, ==_iff job.job_id k);
        known = λ k g. ground (arith, has-set_lem job.job_id k j' jobs, h.rest.known k g);
        active = λ k g. ground (
          arith,
          has-set_lem job.job_id k j' jobs,
          has-set_lem job.job_id k a r,
          h.rest.active k,
        );
        own = Each-set _ job.job_id a r (ap (λ (i : JobInput P). i.job_id) at) h.rest.own;
      }
    where
      still :
          (k : String) (x : PoolJob P R)
          → is_queued k q ≡ true
          → ((job.job_id ≡ k) × (j' ≡ x)) ⊎ ((job.job_id ≢ k) × (get k jobs ≡ some x))
          → MayStart x
      still k x g (inl (here, is)) = absurd (ground (arith, h.taken))
      still k x g (inr (_, old)) = h.rest.ready k x g old

  -- The abort of a controller.
  pub set_active-IsQuoted :
      (jobs : Table String (PoolJob P R)) (q : List (JobInput P)) (r : Table String (Active P))
      (k : String) (a b : Active P)
      → get k r ≡ some a
      → b.job ≡ a.job
      → IsQuoted jobs q r
      → IsQuoted jobs q (set k b r)
  set_active-IsQuoted jobs q r k a b e same v = record {
    spent = v.spent;
    ready = v.ready;
    distinct = v.distinct;
    apart = λ i g. v.apart i (ground (arith, has-set_lem k i b r, get-has k r e, ==_iff k i));
    known = v.known;
    active = λ i g. v.active i (ground (arith, has-set_lem k i b r, get-has k r e, ==_iff k i));
    own = Each-set _ k b r (ap (λ (i : JobInput P). i.job_id) same ∙ Each-get _ k r v.own e) v.own;
  }

  pub abort_all-IsQuoted :
      (jobs : Table String (PoolJob P R)) (q : List (JobInput P)) (r : Table String (Active P))
      → IsQuoted jobs q r
      → IsQuoted jobs q (abort_all r)
  abort_all-IsQuoted jobs q r v = record {
    spent = v.spent;
    ready = v.ready;
    distinct = v.distinct;
    apart = λ i g. v.apart i (sym (has-abort_all i r) ∙ g);
    known = v.known;
    active = λ i g. v.active i (sym (has-abort_all i r) ∙ g);
    own = own-abort_all r v.own;
  }

  -- A run ends.
  pub delete-IsQuoted :
      (jobs : Table String (PoolJob P R)) (q : List (JobInput P)) (r : Table String (Active P))
      (k : String)
      → IsQuoted jobs q r
      → IsQuoted jobs q (delete k r)
  delete-IsQuoted jobs q r k v = record {
    spent = v.spent;
    ready = v.ready;
    distinct = v.distinct;
    apart = λ i g. v.apart i (ground (arith, has-delete k i r));
    known = v.known;
    active = λ i g. v.active i (ground (arith, has-delete k i r));
    own = own-delete k r v.own;
  }

  -- A run ends, and its job may be started again.
  pub delete-HasInHand :
      (jobs : Table String (PoolJob P R)) (q : List (JobInput P)) (r : Table String (Active P))
      (job : JobInput P) (j : PoolJob P R)
      → has job.job_id r ≡ true
      → get job.job_id jobs ≡ some j
      → MayStart j
      → IsQuoted jobs q r
      → HasInHand job jobs q (delete job.job_id r)
  delete-HasInHand jobs q r job j runs e m v = record {
    rest = delete-IsQuoted jobs q r job.job_id v;
    taken = v.apart job.job_id runs;
    idle = ground (arith, has-delete job.job_id job.job_id r, ==_refl job.job_id);
    exists = get-has job.job_id jobs e;
    may = λ x g. let same : j ≡ x = ground arith in subst MayStart same m;
  }

  pub filter-IsQuoted :
      (jobs : Table String (PoolJob P R)) (q : List (JobInput P)) (r : Table String (Active P))
      (k : String)
      → IsQuoted jobs q r
      → IsQuoted jobs (filter (λ j. j.job_id != k) q) r
  filter-IsQuoted jobs q r k v = record {
    spent = v.spent;
    ready = λ i j g. v.ready i j (was i (Bool-cases (is_queued i q)) g);
    distinct = filter-IsDistinct k q v.distinct;
    apart = λ i g. is_queued-filter i k q (v.apart i g);
    known = λ i g. v.known i (was i (Bool-cases (is_queued i q)) g);
    active = v.active;
    own = v.own;
  }
    where
      was :
          (i : String)
          → (is_queued i q ≡ true) ⊎ (is_queued i q ≡ false)
          → is_queued i (filter (λ j. j.job_id != k) q) ≡ true
          → is_queued i q ≡ true
      was i (inl y) g = y
      was i (inr n) g = absurd (ground (arith, is_queued-filter i k q n))

  pub empty-IsQuoted :
      (jobs : Table String (PoolJob P R)) (q : List (JobInput P)) (r : Table String (Active P))
      → IsQuoted jobs q r
      → IsQuoted jobs [] r
  empty-IsQuoted jobs q r v = record {
    spent = v.spent;
    ready = λ i j g. absurd (cc);
    distinct = tt;
    apart = λ i g. refl;
    known = λ i g. absurd (cc);
    active = v.active;
    own = v.own;
  }
