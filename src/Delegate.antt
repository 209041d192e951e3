-- ===== src/Delegate.antt =====
-- `DelegateTool` of src/agent/delegate/delegate-tool.ts. The parsing of inputs is done before. The log, the canonical texts,
-- the hash and the gate are parameters. The calls of the pool are functions on the state of the tool,
-- since the pool may call `on_pool_event` while it runs.
pub mod Accepted
pub mod Restored
pub mod Tests
use cli_model_gateway.Base.{
  ℕ, zero, suc, ◌+◌, ◌-◌, ◌*◌, ◌/◌, ◌%◌, ◌<◌, ◌≤◌, min, max, ◌≡◌, ◌≢◌, refl, sym, ap, ◌∙◌, subst,
  String, Bool, true, false, not, ◌&&◌, ◌||◌, Option, none, some, [], ◌∷◌, ◌++◌, map, List, arith,
  leb, ltb, ◌==◌, ◌!=◌, ==_iff, ==_refl, if◌then◌else◌, Table, Each, keys, values, get, set, has,
  delete, Outcome, Act, pure, ◌>>=◌, ◌>>◌, returns, throws, after, get-set, get-set_self,
  get-delete, get-has, has-get, length-set, length-delete-le, get-set_cases, get-none-has,
  has-set_lem, has-delete, Each-mono, Each-values, has-Each, IsUnique, set-IsUnique, find-get,
  find-get-none, Each-set, Each-delete, Each-get, Bool-cases, Option-cases, inl, inr, ◌⊎◌, ◌↔◌,
  nat_eq, string_eq, Eq, length, any, all, filter, codes, between, is_upper, is_lower, is_digit,
  Extends, starts, starts-Extends, anywhere, anywhere-append_left, anywhere-Extends, find,
  get_last?, get_elem?, take, drop, All, All-append, All-filter, All-find, length-append,
  length-drop, length-filter-le, find_holds, ltb→lt, leb→le, is_space, trim, lower_text, includes,
}
use cli_model_gateway.Policy.{Tier, Effect, r1, r2, rank, above}
use cli_model_gateway.Pool.Leases.{Lease}
use cli_model_gateway.Pool.Workers.{
  JobState, queued, leased, running, awaiting_check, done, stopping, lease_lost,
  reconciliation_required, Failure, Priority, JobInput, PoolJob,
}
use cli_model_gateway.Checker.Check.{Artifact, Receipt}

-- `startSchema`, with the backend as a test for the pool.
pub record Spec : Type 0 where
  pub role : String
  pub goal : String
  pub acceptance : List String
  pub tier : Tier
  pub effect : Effect
  pub tools : List String
  pub max_calls : ℕ
  pub deadline_ms : ℕ
  pub uses_pool : Bool
  pub parent_job_id : Option String
  pub owner : String
  pub priority : Priority

-- `none` for a sequence number stands for -1.
pub record DelegateJob : Type 0 where
  pub job_id : String
  pub spec : Spec
  pub state : JobState
  pub last_event_seq : Option ℕ
  pub failure : Option Failure
  pub artifacts : Option (List Artifact)

pub record DelegateTool (W : Type 0) : Type 0 where
  pub jobs : Table String DelegateJob
  pub world : W

-- `append` gives the sequence number of the record.
pub record Outside (P R W : Type 0) : Type 0 where
  pub append_job : DelegateJob → Act W ℕ
  pub append_receipt : String → Receipt → Act W (Unit {0})
  pub append_result :
      (job_id : String) → Option R → (resource_key : String) (fencing_token : ℕ) → Act W (Unit {0})
  pub submit : JobInput Spec → Act (DelegateTool W) (Unit {0})
  pub stop_job : String → Act (DelegateTool W) (Unit {0})
  pub text : R → List ℕ
  pub sha256 : List ℕ → String
  pub digest : List Artifact → String
  pub is_done : (job_id : String) → List Artifact → Receipt → Bool

abbrev pub is_active : JobState → Bool
is_active queued = true
is_active leased = true
is_active running = true
is_active stopping = true
is_active _ = false

abbrev pub is_awaiting : JobState → Bool
is_awaiting awaiting_check = true
is_awaiting _ = false

abbrev pub is_read : Effect → Bool
is_read cli_model_gateway.Policy.read = true
is_read _ = false

-- The state of a job that a restart finds active.
abbrev pub interrupted : Spec → JobState
interrupted spec =
    if is_read spec.effect && not (above spec.tier r1) then lease_lost else reconciliation_required

abbrev pub or_empty : Option (List Artifact) → List Artifact
or_empty none = []
or_empty (some found) = found

-- The first loop of the constructor.
abbrev pub loaded : List DelegateJob → Table String DelegateJob → Table String DelegateJob
loaded [] t = t
loaded (job ∷ rest) t = loaded rest (set job.job_id job t)

module _ {W A : Type 0} where
  -- A call on the log.
  abbrev pub on_world : Outcome W A → DelegateTool W → Outcome (DelegateTool W) A
  on_world (returns a w) s = returns a (record s { world = w })
  on_world (throws e w) s = throws e (record s { world = w })

module _ {P R W : Type 0} (outside : Outside P R W) where
  open outside use {
    append_job, append_receipt, append_result, submit, stop_job, text, sha256, digest, is_done,
  }

  abbrev pub saved :
      DelegateJob → Outcome W ℕ → DelegateTool W → Outcome (DelegateTool W) (Unit {0})
  saved job (returns seq w) s = returns tt (record s {
    jobs = set job.job_id (record job { last_event_seq = some seq }) s.jobs;
    world = w;
  })
  saved job (throws e w) s = throws e (record s { world = w })

  unfoldable pub save : DelegateJob → Act (DelegateTool W) (Unit {0})
  save job s = saved job (append_job job s.world) s

  -- The second loop of the constructor.
  unfoldable pub interrupt_all : List DelegateJob → Act (DelegateTool W) (Unit {0})
  interrupt_all [] = pure tt
  interrupt_all (job ∷ rest) =
      if is_active job.state
      then (save (record job { state = interrupted job.spec }) >>= λ _. interrupt_all rest)
      else interrupt_all rest

  -- The constructor, on the jobs that the log holds.
  unfoldable pub restore : List DelegateJob → W → Outcome (DelegateTool W) (Unit {0})
  restore recorded w =
      interrupt_all (values (loaded recorded [])) (record { jobs = loaded recorded []; world = w })

  abbrev result_artifacts : String → Option R → Option (List Artifact) → Option (List Artifact)
  result_artifacts id none old = old
  result_artifacts id (some r) old =
      some (record { name = id; content = text r; sha256 = sha256 (text r) } ∷ [])

  -- `appendFenced`, for a job that has its lease and awaits its check.
  abbrev fenced :
      (is_awaiting : Bool)
      → String
      → Option R
      → String
      → Option Lease
      → Act (DelegateTool W) (Unit {0})
  fenced true id r key (some l) s = on_world (append_result id r key l.fencing_token s.world) s
  fenced _ id r key l s = returns tt s

  abbrev pub event_on : PoolJob P R → Option DelegateJob → Act (DelegateTool W) (Unit {0})
  event_on event none = pure tt
  event_on event (some job) =
      fenced (is_awaiting event.state) job.job_id event.result event.input.resource_key event.lease
      >>= λ _. save (record job {
        state = event.state;
        failure = event.failure;
        artifacts = result_artifacts job.job_id event.result job.artifacts;
      })

  unfoldable pub on_pool_event : PoolJob P R → Act (DelegateTool W) (Unit {0})
  on_pool_event event s = event_on event (get event.input.job_id s.jobs) s

  abbrev new_job : String → Spec → DelegateJob
  new_job id spec = record {
    job_id = id;
    spec = spec;
    state = queued;
    last_event_seq = none;
    failure = none;
    artifacts = none;
  }

  -- `start`, with the random identifier.
  unfoldable pub start :
      (job_id : String) → (resource_key : String) → Spec → Act (DelegateTool W) String
  start job_id resource_key spec =
      if not spec.uses_pool
      then throws "Backend is not enabled in phase 1"
      else (save (new_job job_id spec) >>= λ _.
          submit (record {
            job_id = job_id;
            owner = spec.owner;
            resource_key = resource_key;
            write = not (is_read spec.effect) || not (above r2 spec.tier);
            priority = spec.priority;
            deadline_ms = spec.deadline_ms;
            payload = spec;
          })
          >>= λ _. pure job_id)

  abbrev known : Option DelegateJob → Act (DelegateTool W) DelegateJob
  known none = throws "Unknown delegate"
  known (some job) = pure job

  unfoldable pub status : String → Act (DelegateTool W) DelegateJob
  status id s = known (get id s.jobs) s

  abbrev pub matches : DelegateJob → List Artifact → Receipt → Bool
  matches job artifacts receipt =
      is_awaiting job.state
      && digest artifacts == digest (or_empty job.artifacts)
      && is_done job.job_id artifacts receipt

  abbrev pub accepted : DelegateJob → Receipt → Act (DelegateTool W) Bool
  accepted job receipt = (λ s. on_world (append_receipt job.job_id receipt s.world) s) >>= λ _.
      save (record job { state = done }) >>= λ _. pure true

  abbrev pub accept_one : List Artifact → Receipt → Option DelegateJob → Act (DelegateTool W) Bool
  accept_one artifacts receipt none s = throws "Unknown delegate" s
  accept_one artifacts receipt (some job) s =
      if matches job artifacts receipt then accepted job receipt s else returns false s

  unfoldable pub accept_check : String → List Artifact → Receipt → Act (DelegateTool W) Bool
  accept_check id artifacts receipt s = accept_one artifacts receipt (get id s.jobs) s

  unfoldable pub stop : String → Act (DelegateTool W) DelegateJob
  unfolding status
  stop id = stop_job id >>= λ _. status id
