-- ===== src/Coordinator.antt =====
-- src/agent/coordinator/coordinator.ts: the loop that carries out a plan (`advance`) and `finish`. The log, the inbox, the
-- notifier, the delegate tool, the checker and the memory are the functions of `Services`, which act on
-- a world and may throw. The digest of an action is taken by `consume` and `request` themselves. The
-- steps that are left are `drop next steps`, so the loop is a recursion on them.
pub mod Advance
pub mod Trace
pub mod Finish
pub mod Tests
use cli_model_gateway.Base.{
  ℕ, zero, suc, ◌+◌, ◌-◌, ◌*◌, ◌/◌, ◌%◌, ◌<◌, ◌≤◌, min, max, ◌≡◌, ◌≢◌, refl, sym, ap, ◌∙◌, subst,
  String, Bool, true, false, not, ◌&&◌, ◌||◌, Option, none, some, [], ◌∷◌, ◌++◌, map, List, arith,
  leb, ltb, ◌==◌, ◌!=◌, ==_iff, ==_refl, if◌then◌else◌, Table, Each, keys, values, get, set, has,
  delete, Outcome, Act, pure, ◌>>=◌, ◌>>◌, returns, throws, after, get-set, get-set_self,
  get-delete, get-has, has-get, length-set, length-delete-le, get-set_cases, get-none-has,
  has-set_lem, has-delete, Each-mono, Each-values, has-Each, IsUnique, set-IsUnique, find-get,
  find-get-none, Each-set, Each-delete, Each-get, Bool-cases, Option-cases, inl, inr, ◌⊎◌, ◌↔◌,
  nat_eq, string_eq, Eq, length, any, all, filter, codes, between, is_upper, is_lower, is_digit,
  Extends, starts, starts-Extends, anywhere, anywhere-append_left, anywhere-Extends, find,
  get_last?, get_elem?, take, drop, All, All-append, All-filter, All-find, length-append,
  length-drop, length-filter-le, find_holds, ltb→lt, leb→le,
}
use cli_model_gateway.Policy.{Tier, Effect, read, rank, Action, Risk, above, classify}

pub data StepKind : Type 0 where
  delegate ask_caller finish_step : StepKind

pub record Step (P : Type 0) : Type 0 where
  pub kind : StepKind
  pub effect : Effect
  pub tier : Tier
  pub spec : P

pub data JobState : Type 0 where
  planning running awaiting_approval awaiting_check needs_review done reconciliation_required :
      JobState

-- `artifacts` by their type, and of the specification what the coordinator reads.
pub record CoordinatorJob (P A R : Type 0) : Type 0 where
  pub job_id : String
  pub spec_effect : Effect
  pub spec_tier : Tier
  pub spec_budget : Option (ℕ × ℕ)
  pub acceptance : List String
  pub state : JobState
  pub steps : List (Step P)
  pub next : ℕ
  pub children : List String
  pub artifacts : A
  pub receipt : Option R

-- What `delegate.start` is called with.
pub record Child (P : Type 0) : Type 0 where
  pub child_spec : P
  pub budget : Option (ℕ × ℕ)
  pub effect : Effect
  pub tier : Tier
  pub parent_job_id : String
  pub ordinal : ℕ

pub record Services (P A R W : Type 0) : Type 0 where
  pub append : CoordinatorJob P A R → Act W (Unit {0})
  pub consume : (job_id : String) (ordinal : ℕ) → Step P → Act W Bool
  pub request : (job_id : String) (ordinal : ℕ) → Step P → Act W String
  pub notify : String → Act W (Unit {0})
  pub start : Child P → Act W String
  pub child_is_done : String → Act W Bool
  pub is_done : String → A → Option R → Bool
  pub same_digest : A → A → Bool
  pub remember : CoordinatorJob P A R → Act W (Unit {0})

pub record Coordinator (P A R W : Type 0) : Type 0 where
  pub jobs : Table String (CoordinatorJob P A R)
  pub active : List String
  pub world : W

-- `["done", "reconciliation_required", "needs_review"].includes(state)`
abbrev pub is_settled : JobState → Bool
is_settled done = true
is_settled reconciliation_required = true
is_settled needs_review = true
is_settled _ = false

abbrev pub is_read : Effect → Bool
is_read read = true
is_read _ = false

module _ {P A R : Type 0} where
  -- The risk of a step: the higher tier, and the job's effect if only the step's is a read.
  unfoldable pub step_risk : CoordinatorJob P A R → Step P → Risk
  unfolding classify
  step_risk job step = classify (record {
    tier = some (if above step.tier job.spec_tier then step.tier else job.spec_tier);
    effect = some (
        if is_read step.effect && not (is_read job.spec_effect)
        then job.spec_effect
        else step.effect);
    external = none;
    other = step.spec;
  })

  abbrev pub child_of : CoordinatorJob P A R → Step P → Child P
  child_of job step = record {
    child_spec = step.spec;
    budget = job.spec_budget;
    effect = (step_risk job step).effect;
    tier = (step_risk job step).tier;
    parent_job_id = job.job_id;
    ordinal = job.next;
  }

  abbrev pub with_state : JobState → CoordinatorJob P A R → CoordinatorJob P A R
  with_state st job = record job { state = st }

module _ {P A R W B : Type 0} where
  -- A call of another part of the program.
  abbrev pub outer : Act W B → Act (Coordinator P A R W) B
  outer f s = elim (f s.world) [
    | returns b w ↦ returns b (record s { world = w })
    | throws e w ↦ throws e (record s { world = w })
  ]
