-- ===== src/Coordinator/Advance.antt =====
-- The methods of src/agent/coordinator/coordinator.ts.
use cli_model_gateway.Base.{
  ◌+◌, String, Bool, true, false, ◌&&◌, Option, none, some, [], ◌∷◌, ◌++◌, List, ◌==◌, ◌!=◌,
  if◌then◌else◌, get, set, Outcome, Act, pure, ◌>>=◌, returns, throws, nat_eq, string_eq, length,
  any, filter, drop,
}
use cli_model_gateway.Coordinator.{
  StepKind, delegate, ask_caller, finish_step, Step, JobState, running, awaiting_approval,
  awaiting_check, done, CoordinatorJob, Services, Coordinator, is_settled, step_risk, child_of,
  with_state, outer,
}

module _ {P A R W : Type 0} (services : Services P A R W) where
  open services use {
    append, consume, request, notify, start, child_is_done, is_done, same_digest, remember,
  }

  abbrev Job : Type 0
  Job = CoordinatorJob P A R

  abbrev Coord : Type 0
  Coord = Coordinator P A R W

  abbrev pub save : Job → Act Coord (Unit {0})
  save job =
      outer (append job) >>= λ _ s. returns tt (record s { jobs = set job.job_id job s.jobs })

  -- A loop that ends early gives `false`.
  abbrev pub ask : Step P → Job → Act Coord (Job × Bool)
  ask step job = outer (request job.job_id job.next step) >>= λ id. outer (notify id) >>= λ _.
      save (with_state awaiting_approval job) >>= λ _.
      pure (with_state awaiting_approval job, false)

  abbrev add_child : Job → String → Job
  add_child job id = record job { children = job.children ++ id ∷ [] }

  -- The work of a step, for a job whose claim has been saved.
  abbrev pub carry_out : StepKind → Step P → Job → Act Coord Job
  carry_out delegate step job = outer (start (child_of job step)) >>= λ id. pure (add_child job id)
  carry_out ask_caller step job = pure job
  carry_out finish_step step job = pure (with_state awaiting_check job)

  abbrev pub next_step : Job → Job
  next_step job = record job { next = job.next + 1 }

  abbrev pub claim : Step P → Job → Act Coord Job
  claim step job = save (with_state running job) >>= λ _.
      carry_out step.kind step (with_state running job) >>= λ j.
      save (next_step j) >>= λ _. pure (next_step j)

  -- `true` if the step may be carried out now.
  abbrev pub allowed : StepKind → Step P → Job → Act Coord Bool
  allowed ask_caller step job = pure false
  allowed _ step job =
      if (step_risk job step).needs_approval
      then outer (consume job.job_id job.next step)
      else pure true

  -- The loop of `advance` over the steps that are left.
  unfoldable pub rounds : List (Step P) → Job → Act Coord (Job × Bool)
  rounds [] job = pure (job, true)
  rounds (step ∷ steps) job = allowed step.kind step job >>= λ ok. elim ok [
    | true ↦ claim step job >>= λ j. rounds steps j
    | false ↦ ask step job
  ]

  abbrev pub after_rounds : Job × Bool → Act Coord Job
  after_rounds (job, false) = pure job
  after_rounds (job, true) =
      save (with_state awaiting_check job) >>= λ _. pure (with_state awaiting_check job)

  abbrev pub leave : String → Outcome Coord Job → Outcome Coord Job
  leave id (returns b s) = returns b (record s { active = filter (λ x. x != id) s.active })
  leave id (throws e s) = throws e (record s { active = filter (λ x. x != id) s.active })

  abbrev pub advance_job : Option Job → Act Coord Job
  advance_job none s = throws "Unknown coordinator job" s
  advance_job (some job) s =
      if is_settled job.state
      then returns job s
      else (rounds (drop job.next job.steps) job >>= after_rounds) s

  -- `advance` up to the check of a job without children.
  unfoldable pub advance : String → Act Coord Job
  unfolding rounds
  advance id s =
      if any (λ x. x == id) s.active
      then throws "Coordinator busy" s
      else leave id (advance_job (get id s.jobs) (record s { active = s.active ++ id ∷ [] }))

  -- `children.some(...)`, which stops at the first child that is not done.
  unfoldable pub has_open_child : List String → Act Coord Bool
  has_open_child [] = pure false
  has_open_child (c ∷ cs) =
      outer (child_is_done c) >>= λ ok. elim ok [ true ↦ has_open_child cs | false ↦ pure true ]

  -- The tests of `finish` before the one of the children.
  abbrev pub may_finish : Job → A → Option R → JobState → Bool
  may_finish job artifacts receipt awaiting_check =
      same_digest artifacts job.artifacts
      && job.next == length job.steps
      && is_done job.job_id artifacts receipt
  may_finish job artifacts receipt _ = false

  abbrev pub finished : Job → A → Option R → Job
  finished job artifacts receipt = record job {
    artifacts = artifacts;
    receipt = receipt;
    state = done;
  }

  abbrev pub complete : Job → Act Coord Bool
  complete job = save job >>= λ _. outer (remember job) >>= λ _. pure true

  abbrev pub finish_job : A → Option R → Option Job → Act Coord Bool
  finish_job artifacts receipt none s = throws "Unknown coordinator job" s
  finish_job artifacts receipt (some job) s =
      if may_finish job artifacts receipt job.state
      then (has_open_child job.children >>= λ open_. elim open_ [
        | true ↦ pure false
        | false ↦ complete (finished job artifacts receipt)
      ])
          s
      else returns false s

  unfoldable pub finish : String → A → Option R → Act Coord Bool
  unfolding has_open_child
  finish id artifacts receipt s = finish_job artifacts receipt (get id s.jobs) s
