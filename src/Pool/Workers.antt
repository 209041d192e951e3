-- ===== src/Pool/Workers.antt =====
-- src/agent/pool/worker-pool.ts. A job object is shared by `jobs`, `queue` and `running`: its fixed part
-- is the record `JobInput`, and what changes stands in the table `jobs` alone. An asynchronous
-- `execute` is cut at its `await`: `begin` is the part before it and `settle` the part after it.
pub mod Calls
pub mod Queue
pub mod Capacity
pub mod Quota
pub mod Starts
pub mod Ends
pub mod Conclusion
pub mod Invariant
pub mod Methods
pub mod Settle
pub mod Safety
pub mod Rounds
pub mod Tests
use cli_model_gateway.Base.{
  ℕ, zero, suc, ◌+◌, ◌-◌, ◌*◌, ◌/◌, ◌%◌, ◌<◌, ◌≤◌, min, max, ◌≡◌, ◌≢◌, refl, sym, ap, ◌∙◌, subst,
  String, Bool, true, false, not, ◌&&◌, ◌||◌, Option, none, some, [], ◌∷◌, ◌++◌, map, List, arith,
  leb, ltb, ◌==◌, ◌!=◌, ==_iff, ==_refl, if◌then◌else◌, Table, Each, keys, values, get, set, has,
  delete, Outcome, Act, pure, ◌>>=◌, ◌>>◌, returns, throws, after, get-set, get-set_self,
  get-delete, get-has, has-get, length-set, Each-mono, Each-values, has-Each, IsUnique,
  set-IsUnique, find-get, find-get-none, Each-set, Each-delete, Each-get, Bool-cases, Option-cases,
  inl, inr, ◌⊎◌, ◌↔◌, nat_eq, string_eq, Eq, length, any, all, filter, codes, between, is_upper,
  is_lower, is_digit, Extends, starts, starts-Extends, anywhere, anywhere-append_left,
  anywhere-Extends, find, get_last?, get_elem?, take, drop, All, All-append, All-filter, All-find,
  length-append, length-drop, length-filter-le, find_holds, ltb→lt, leb→le,
}
use cli_model_gateway.Checker.Secrets.{has_secret}
use cli_model_gateway.Pool.Leases.{
  Lease, LeaseManager, Grant, granted, busy, acquire, renew, release, assert_fence,
}

pub data JobState : Type 0 where
  queued leased running awaiting_check done needs_rework failed stopping stopped lease_lost :
      JobState
  reconciliation_required awaiting_approval : JobState

-- The reasons with which a controller aborts.
pub data Abort : Type 0 where
  timeout stop_asked shutdown lost : Abort

pub data Failure : Type 0 where
  secret_detected crash : Failure
  aborted : Abort → Failure

-- A priority may be negative: `below n` is -(n + 1).
pub data Priority : Type 0 where
  at : ℕ → Priority
  below : ℕ → Priority

-- `a > b`
abbrev pub higher : Priority → Priority → Bool
higher (at a) (at b) = ltb b a
higher (at a) (below b) = true
higher (below a) (at b) = false
higher (below a) (below b) = ltb a b

pub record JobInput (P : Type 0) : Type 0 where
  pub job_id : String
  pub owner : String
  pub resource_key : String
  pub write : Bool
  pub priority : Priority
  pub deadline_ms : ℕ
  pub payload : P

pub record PoolJob (P R : Type 0) : Type 0 where
  pub input : JobInput P
  pub state : JobState
  pub attempts : ℕ
  pub lease : Option Lease
  pub result : Option R
  pub failure : Option Failure

-- An entry of `running`: the controller, by the reason of its abort, and the job.
pub record Active (P : Type 0) : Type 0 where
  pub abort : Option Abort
  pub job : JobInput P

-- What the pool calls: the `event` callback, which may throw, and the canonical text of a result.
pub record Outside (P R W : Type 0) : Type 0 where
  pub event : PoolJob P R → Act W (Unit {0})
  pub text : R → Option (List ℕ)

-- The readings of the clock and the identifiers that a `pump` takes for each job.
pub record Readings : Type 0 where
  pub now : String → ℕ
  pub later : String → ℕ
  pub uuid : String → String

pub record WorkerPool (P R W : Type 0) : Type 0 where
  pub leases : LeaseManager
  pub queue : List (JobInput P)
  pub running : Table String (Active P)
  pub jobs : Table String (PoolJob P R)
  pub closed : Bool
  pub retry_timer : Bool
  pub world : W
  pub max_concurrency : ℕ
  pub per_owner_cap : ℕ
  pub ttl_ms : ℕ

-- How a run ended: with a result, or by a rejection.
pub data End (R : Type 0) : Type 0 where
  ran : R → End R
  rejected : End R

module _ {P : Type 0} where
  -- `this.queue.sort((a, b) => b.priority - a.priority)`; the sort is stable.
  unfoldable pub insert : JobInput P → List (JobInput P) → List (JobInput P)
  insert j [] = j ∷ []
  insert j (k ∷ q) = if higher k.priority j.priority then k ∷ insert j q else j ∷ k ∷ q

  unfoldable pub sort : List (JobInput P) → List (JobInput P)
  unfolding insert
  sort [] = []
  sort (j ∷ q) = insert j (sort q)

  abbrev pub count_owner : String → List (Active P) → ℕ
  count_owner owner actives = length (filter (λ a. a.job.owner == owner) actives)

  abbrev pub put_back :
      JobInput P → Option (JobInput P × List (JobInput P)) → Option (JobInput P × List (JobInput P))
  put_back k none = none
  put_back k (some (j, rest)) = some (j, k ∷ rest)

  -- `findIndex`, then `splice`.
  unfoldable pub pick :
      (JobInput P → Bool) → List (JobInput P) → Option (JobInput P × List (JobInput P))
  pick p [] = none
  pick p (j ∷ q) = if p j then some (j, q) else put_back j (pick p q)

module _ {P R : Type 0} where
  abbrev pub modify_job :
      (PoolJob P R → PoolJob P R)
      → String
      → Option (PoolJob P R)
      → Table String (PoolJob P R)
      → Table String (PoolJob P R)
  modify_job f id none t = t
  modify_job f id (some j) t = set id (f j) t

abbrev pub first_abort : Abort → Option Abort → Option Abort
first_abort r none = some r
first_abort r (some q) = some q

module _ {P : Type 0} where
  abbrev pub set_abort : Abort → Active P → Active P
  set_abort r a = record a { abort = first_abort r a.abort }

  -- The loop of `close` over the jobs that run.
  unfoldable pub abort_all : Table String (Active P) → Table String (Active P)
  abort_all [] = []
  abort_all ((k, a) ∷ t) = (k, set_abort shutdown a) ∷ abort_all t

module _ {P R W : Type 0} where
  -- A write to fields of a job object.
  unfoldable pub modify : (PoolJob P R → PoolJob P R) → String → WorkerPool P R W → WorkerPool P R W
  modify f id s = record s { jobs = modify_job f id (get id s.jobs) s.jobs }

  abbrev pub abort_found : Abort → String → Option (Active P) → WorkerPool P R W → WorkerPool P R W
  abort_found r id none s = s
  abort_found r id (some a) s = record s { running = set id (set_abort r a) s.running }

  -- `controller.abort(Error(reason))`: the first abort stays.
  unfoldable pub abort_job : Abort → String → WorkerPool P R W → WorkerPool P R W
  abort_job r id s = abort_found r id (get id s.running) s
