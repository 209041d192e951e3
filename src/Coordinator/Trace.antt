-- ===== src/Coordinator/Trace.antt =====
-- What `advance` of src/agent/coordinator/coordinator.ts asks of the other parts, as a trace of events, newest first. The
-- other parts answer as an oracle says, which may look at the trace; `none` is a throw.
use cli_model_gateway.Base.{
  ℕ, ◌≤◌, ◌≡◌, refl, String, Bool, true, false, Option, none, some, [], ◌∷◌, ◌++◌, List, arith, leb,
  ◌==◌, if◌then◌else◌, get, set, Outcome, Act, pure, ◌>>=◌, returns, throws, after, inl, inr, ◌⊎◌,
  nat_eq, string_eq, any, drop,
}
use cli_model_gateway.Policy.{Tier, rank, classify}
use cli_model_gateway.Coordinator.{
  StepKind, delegate, ask_caller, finish_step, Step, running, awaiting_approval, awaiting_check,
  CoordinatorJob, Child, Services, Coordinator, is_settled, step_risk, child_of, with_state, outer,
}
use cli_model_gateway.Coordinator.Advance.{
  save, ask, carry_out, next_step, claim, allowed, rounds, after_rounds, leave, advance_job,
  advance,
}

pub data Event (P A R : Type 0) : Type 0 where
  saved : CoordinatorJob P A R → Event P A R
  consumed : String → ℕ → Step P → Bool → Event P A R
  requested : String → ℕ → Step P → Event P A R
  notified : String → Event P A R
  started : Child P → Event P A R

pub record Oracle (P A R : Type 0) : Type 0 where
  pub saves : CoordinatorJob P A R → List (Event P A R) → Bool
  pub consumes : String → ℕ → Step P → List (Event P A R) → Option Bool
  pub requests : String → ℕ → Step P → List (Event P A R) → Option String
  pub notifies : String → List (Event P A R) → Bool
  pub starts : Child P → List (Event P A R) → Option String
  pub child_done : String → List (Event P A R) → Option Bool
  pub receipt_holds : String → A → Option R → Bool
  pub digests_agree : A → A → Bool

module _ {W B : Type 0} where
  abbrev answer : W → Option B → Outcome W B
  answer w none = throws "failed" w
  answer w (some b) = returns b w

module _ {P A R : Type 0} where
  abbrev on_consume :
      String → ℕ → Step P → List (Event P A R) → Option Bool → Outcome (List (Event P A R)) Bool
  on_consume id n step w none = throws "failed" w
  on_consume id n step w (some b) = returns b (consumed id n step b ∷ w)

  abbrev pub traced : Oracle P A R → Services P A R (List (Event P A R))
  traced o = record {
    append = λ job w. if o.saves job w then returns tt (saved job ∷ w) else throws "failed" w;
    consume = λ id n step w. on_consume id n step w (o.consumes id n step w);
    request = λ id n step w. answer (requested id n step ∷ w) (o.requests id n step w);
    notify = λ id w. if o.notifies id w then returns tt (notified id ∷ w) else throws "failed" w;
    start = λ c w. answer (started c ∷ w) (o.starts c w);
    child_is_done = λ id w. answer w (o.child_done id w);
    is_done = o.receipt_holds;
    same_digest = o.digests_agree;
    remember = λ job w. returns tt w;
  }

  -- Just before the start of a child its job was saved as running at this very step, and before that
  -- the approval of the step was consumed, unless the child's tier is R1 at most.
  abbrev pub IsClaimed : Child P → List (Event P A R) → Type 0
  IsClaimed c w =
      (job : CoordinatorJob P A R) × (rest : List (Event P A R)) × (w ≡ saved job ∷ rest)
      × (job.state ≡ running)
      × (c.parent_job_id ≡ job.job_id)
      × (c.ordinal ≡ job.next)
      × ((rank c.tier ≤ 1)
          ⊎ ((step : Step P) × (earlier : List (Event P A R)) × (rest
                ≡ consumed job.job_id job.next step true ∷ earlier)
              × (c ≡ child_of job step)))

  -- Every start of a trace is claimed.
  abbrev pub AllClaimed : List (Event P A R) → Type 0
  AllClaimed [] = Unit {0}
  AllClaimed (started c ∷ w) = IsClaimed c w × AllClaimed w
  AllClaimed (_ ∷ w) = AllClaimed w

module _ {P A R : Type 0} (o : Oracle P A R) where
  abbrev Job : Type 0
  Job = CoordinatorJob P A R

  abbrev Coord : Type 0
  Coord = Coordinator P A R (List (Event P A R))

  module _ {B C : Type 0} where
    bind_claims :
        (m : Outcome Coord B) (f : B → Act Coord C) (s : Coord)
        → AllClaimed (after m).world
        → ((b : B) (t : Coord) → AllClaimed t.world → AllClaimed (after (f b t)).world)
        → AllClaimed (after ((◌>>=◌ (λ (_ : Coord). m) f) s)).world
    bind_claims (returns b t) f s k g = g b t k
    bind_claims (throws e t) f s k g = k

  -- `save` throws and leaves the trace, or puts the job on it.
  save_cases :
      (Q : Outcome Coord (Unit {0}) → Type 0) (job : Job) (s : Coord)
      → Q (throws "failed" s)
      → Q (returns tt (record s { world = saved job ∷ s.world; jobs = set job.job_id job s.jobs }))
      → Q (save (traced o) job s)
  save_cases Q job s bad good = go (o.saves job s.world)
    where
      go :
          (b : Bool)
          → Q (
              (◌>>=◌
                  (λ (_ : Coord).
                    outer (λ w. if b then returns tt (saved job ∷ w) else throws "failed" w) s)
                  (λ _ t. returns tt (record t { jobs = set job.job_id job t.jobs })))
                s)
      go true = good
      go false = bad

  save_claims :
      (job : Job) (s : Coord)
      → AllClaimed s.world
      → AllClaimed (after (save (traced o) job s)).world
  save_claims job s k = save_cases (λ r. AllClaimed (after r).world) job s k k

  request_claims :
      (id : String) (n : ℕ) (step : Step P) (s : Coord)
      → AllClaimed s.world
      → AllClaimed (after (outer ((traced o).request id n step) s)).world
  request_claims id n step s k = go (o.requests id n step s.world)
    where
      go :
          (x : Option String)
          → AllClaimed (after (outer (λ w. answer (requested id n step ∷ w) x) s)).world
      go none = k
      go (some i) = k

  notify_claims :
      (id : String) (s : Coord)
      → AllClaimed s.world
      → AllClaimed (after (outer ((traced o).notify id) s)).world
  notify_claims id s k = go (o.notifies id s.world)
    where
      go :
          (b : Bool)
          → AllClaimed
              (after (
                outer (λ w. if b then returns tt (notified id ∷ w) else throws "failed" w) s)).world
      go true = k
      go false = k

  ask_claims :
      (step : Step P) (job : Job) (s : Coord)
      → AllClaimed s.world
      → AllClaimed (after (ask (traced o) step job s)).world
  ask_claims step job s k =
      bind_claims (outer ((traced o).request job.job_id job.next step) s) _ s
        (request_claims job.job_id job.next step s k)
        (λ id t k. bind_claims (outer ((traced o).notify id) t) _ t (notify_claims id t k) (λ _ u k.
          bind_claims (save (traced o) (with_state awaiting_approval job) u) _ u
            (save_claims (with_state awaiting_approval job) u k) (λ _ v k. k)))

  -- The step may be carried out now.
  abbrev IsReady : Job → Step P → List (Event P A R) → Type 0
  IsReady job step w =
      (rank (child_of job step).tier ≤ 1)
      ⊎ ((earlier : List (Event P A R)) × (w ≡ consumed job.job_id job.next step true ∷ earlier))

  carry_out_claims :
      (kind : StepKind) (step : Step P) (job : Job) (w : List (Event P A R)) (s : Coord)
      → job.state ≡ running
      → s.world ≡ saved job ∷ w
      → IsReady job step w
      → AllClaimed s.world
      → AllClaimed (after (carry_out (traced o) kind step job s)).world
  carry_out_claims ask_caller step job w s r e d k = k
  carry_out_claims finish_step step job w s r e d k = k
  carry_out_claims delegate step job w s r e d k = go (o.starts (child_of job step) s.world)
    where
      ready :
          IsReady job step w
          → (rank (child_of job step).tier ≤ 1)
            ⊎ ((x : Step P) × (earlier : List (Event P A R)) × (w
                  ≡ consumed job.job_id job.next x true ∷ earlier)
                × (child_of job step ≡ child_of job x))
      ready (inl low) = inl low
      ready (inr (earlier, f)) = inr (step, earlier, f, refl)

      claimed : IsClaimed (child_of job step) s.world
      claimed = (job, w, e, r, refl, refl, ready d)

      go :
          (x : Option String)
          → AllClaimed
              (after (
                (◌>>=◌
                    (λ (_ : Coord). outer (λ v. answer (started (child_of job step) ∷ v) x) s)
                    (λ id t. returns (record job { children = job.children ++ id ∷ [] }) t))
                  s)).world
      go none = (claimed, k)
      go (some id) = (claimed, k)

  claim_claims :
      (step : Step P) (job : Job) (s : Coord)
      → IsReady (with_state running job) step s.world
      → AllClaimed s.world
      → AllClaimed (after (claim (traced o) step job s)).world
  claim_claims step job s d k =
      save_cases
        (λ r.
          AllClaimed
            (after (
              (◌>>=◌ (λ (_ : Coord). r)
                  (λ _. carry_out (traced o) step.kind step (with_state running job) >>= λ j.
                    save (traced o) (next_step (traced o) j) >>= λ _.
                    pure (next_step (traced o) j)))
                s)).world)
        (with_state running job) s k
        (bind_claims (carry_out (traced o) step.kind step (with_state running job) t) _ t
          (carry_out_claims step.kind step (with_state running job) s.world t refl refl d k)
          (λ j u k.
            bind_claims (save (traced o) (next_step (traced o) j) u) _ u
              (save_claims (next_step (traced o) j) u k) (λ _ v k. k)))
    where
      t : Coord
      t = record s {
        world = saved (with_state running job) ∷ s.world;
        jobs = set job.job_id (with_state running job) s.jobs;
      }

  low_tier : (t : Tier) → leb 2 (rank t) ≡ false → rank t ≤ 1
  low_tier t h = ground arith

  step_risk-low :
      (job : Job) (step : Step P)
      → (step_risk job step).needs_approval ≡ false
      → rank (child_of (with_state running job) step).tier ≤ 1
  unfolding step_risk classify
  step_risk-low job step h = low_tier (step_risk job step).tier h

  -- One round of the loop, if the rounds after it keep the claims.
  round_claims :
      (step : Step P) (steps : List (Step P)) (job : Job) (s : Coord)
      → ((j : Job) (u : Coord)
          → AllClaimed u.world
          → AllClaimed (after (rounds (traced o) steps j u)).world)
      → AllClaimed s.world
      → AllClaimed (after (rounds (traced o) (step ∷ steps) job s)).world
  unfolding rounds
  round_claims step steps job s later k = by_kind step.kind
    where
      body : Bool → Act Coord (Job × Bool)
      body ok = elim ok [
        | true ↦ claim (traced o) step job >>= λ j. rounds (traced o) steps j
        | false ↦ ask (traced o) step job
      ]

      carried :
          (t : Coord)
          → IsReady (with_state running job) step t.world
          → AllClaimed t.world
          → AllClaimed (after (body true t)).world
      carried t d k =
          bind_claims (claim (traced o) step job t) (λ j. rounds (traced o) steps j) t
            (claim_claims step job t d k) later

      answered :
          (x : Option Bool)
          → AllClaimed
              (after (
                (◌>>=◌ (λ (_ : Coord). outer (λ w. on_consume job.job_id job.next step w x) s) body)
                  s)).world
      answered none = k
      answered (some true) =
          carried (record s { world = consumed job.job_id job.next step true ∷ s.world })
            (inr (s.world, refl)) k
      answered (some false) =
          ask_claims step job
            (record s { world = consumed job.job_id job.next step false ∷ s.world }) k

      tested :
          (b : Bool)
          → (step_risk job step).needs_approval ≡ b
          → AllClaimed
              (after (
                (◌>>=◌
                    (λ (_ : Coord).
                      (if b then outer ((traced o).consume job.job_id job.next step) else pure true)
                        s)
                    body)
                  s)).world
      tested true e = answered (o.consumes job.job_id job.next step s.world)
      tested false e = carried s (inl (step_risk-low job step e)) k

      by_kind :
          (kind : StepKind)
          → AllClaimed
              (after ((◌>>=◌ (λ (_ : Coord). allowed (traced o) kind step job s) body) s)).world
      by_kind ask_caller = ask_claims step job s k
      by_kind delegate = tested (step_risk job step).needs_approval refl
      by_kind finish_step = tested (step_risk job step).needs_approval refl

  rounds_claims :
      (steps : List (Step P)) (job : Job) (s : Coord)
      → AllClaimed s.world
      → AllClaimed (after (rounds (traced o) steps job s)).world
  rounds_claims [] job s k = unfold rounds in k
  rounds_claims (step ∷ steps) job s k =
      round_claims step steps job s (λ j u c. rounds_claims steps j u c) k

  after_rounds_claims :
      (job : Job) (all_done : Bool) (s : Coord)
      → AllClaimed s.world
      → AllClaimed (after (after_rounds (traced o) (job, all_done) s)).world
  after_rounds_claims job false s k = k
  after_rounds_claims job true s k =
      bind_claims (save (traced o) (with_state awaiting_check job) s) _ s
        (save_claims (with_state awaiting_check job) s k) (λ _ t c. c)

  advance_job_claims :
      (x : Option Job) (s : Coord)
      → AllClaimed s.world
      → AllClaimed (after (advance_job (traced o) x s)).world
  advance_job_claims none s k = k
  advance_job_claims (some job) s k = go (is_settled job.state)
    where
      go :
          (b : Bool)
          → AllClaimed
              (after (
                if b
                then returns job s
                else (rounds (traced o) (drop job.next job.steps) job >>= after_rounds (traced o))
                    s)).world
      go true = k
      go false =
          bind_claims (rounds (traced o) (drop job.next job.steps) job s) (after_rounds (traced o))
            s (rounds_claims (drop job.next job.steps) job s k)
            (λ p t c. after_rounds_claims p.0 p.1 t c)

  leave_claims :
      (id : String) (r : Outcome Coord Job)
      → AllClaimed (after r).world
      → AllClaimed (after (leave (traced o) id r)).world
  leave_claims id (returns j t) k = k
  leave_claims id (throws e t) k = k

  -- Whatever the other parts answer and wherever they throw, a call of `advance` on a trace in which
  -- every start of a child is claimed leaves such a trace: just before the start, the job was saved
  -- as running at this very step, and just before that the approval of this step of this job was
  -- consumed, unless the tier of the child is R1 at most.
  pub advance-AllClaimed :
      (id : String) (s : Coord)
      → AllClaimed s.world
      → AllClaimed (after (advance (traced o) id s)).world
  unfolding advance
  advance-AllClaimed id s k = go (any (λ x. x == id) s.active)
    where
      go :
          (b : Bool)
          → AllClaimed
              (after (
                if b
                then throws "Coordinator busy" s
                else leave (traced o) id (
                    advance_job
                      (traced o)
                      (get id s.jobs)
                      (record s { active = s.active ++ id ∷ [] })))).world
      go true = k
      go false =
          leave_claims id
            (advance_job (traced o) (get id s.jobs) (record s { active = s.active ++ id ∷ [] }))
            (advance_job_claims (get id s.jobs) (record s { active = s.active ++ id ∷ [] }) k)
