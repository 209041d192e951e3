-- ===== src/Decisions/Budget.antt =====
-- The budget of a decision of src/agent/router/router-client.ts.
use cli_model_gateway.Base.{
  ℕ, zero, suc, ◌+◌, ◌-◌, ◌≤◌, min, ◌≡◌, refl, String, Bool, true, false, not, ◌||◌, Option, none,
  some, arith, ◌==◌, if◌then◌else◌, Outcome, after, nat_eq, string_eq,
}
use cli_model_gateway.Utils.Execution.{GatewayPolicy}
use cli_model_gateway.Decisions.{
  DecisionInput, Ending, answered, failed, Services, Deciding, policy_of, has_schema, calls_for,
  left, is_first, after_loop, after_run, attempt_loop, decide_with, chosen_model, decide,
}

module _ {W A : Type 0} where
  -- The attempts are within the budget, and there were at most so many runs.
  abbrev pub IsWithin : (max_calls runs : ℕ) → Outcome (Deciding W) A → Type 0
  IsWithin max_calls runs o = ((after o).spent ≤ max_calls) × ((after o).runs ≤ runs)

module _ {W A : Type 0} where
  if-IsWithin :
      (max_calls runs : ℕ) (c : Bool) (r q : Outcome (Deciding W) A)
      → IsWithin max_calls runs r
      → (c ≡ false → IsWithin max_calls runs q)
      → IsWithin max_calls runs (if c then r else q)
  if-IsWithin max_calls runs true r q h k = h
  if-IsWithin max_calls runs false r q h k = k refl

left_lem :
    (schema is_first : Bool) (remaining attempts spent budget : ℕ)
    → (remaining == 0) ≡ false
    → attempts ≤ min 8 (calls_for schema is_first remaining)
    → spent + remaining ≤ budget
    → (spent + attempts + left remaining attempts ≤ budget) × (spent + attempts ≤ budget)
left_lem schema is_first remaining attempts spent budget n h k =
    let few : attempts ≤ remaining = ground (arith, n, h) in
    (ground (arith, few, k, n), omega (arith, few, k))

module _ {O W : Type 0} (services : Services O W) (input : DecisionInput) (model : String)
    (capped : (m : String) (p : GatewayPolicy) (o : Option O) (w : W)
      → (services.run_model m p o w).0 ≤ p.max_attempts) where
  after_loop-IsWithin :
      (started : ℕ) (o : Option O) (s : Deciding W) (runs : ℕ)
      → s.spent ≤ input.max_calls
      → s.runs ≤ runs
      → IsWithin input.max_calls runs (after_loop services input model started o s)
  after_loop-IsWithin started none s runs h k = (h, k)
  after_loop-IsWithin started (some o) s runs h k = (h, k)

  attempt_loop-IsWithin :
      (started n : ℕ) (o : Option O) (s : Deciding W)
      → s.spent + s.remaining ≤ input.max_calls
      → IsWithin input.max_calls (s.runs + n) (attempt_loop services input model started n o s)
  unfolding attempt_loop
  attempt_loop-IsWithin started zero o s h =
      after_loop-IsWithin started o s (s.runs + 0) (omega (arith, h)) (omega arith)
  attempt_loop-IsWithin started (suc n) o s h =
      let (now, w) = services.tick s.world in
      let deadline = input.deadline_ms - (now - started) in
      let policy =
        policy_of input (calls_for (has_schema input.kind) (is_first o) s.remaining) deadline in
      if-IsWithin input.max_calls (s.runs + suc n) (s.remaining == 0 || deadline == 0) _ _
        (after_loop-IsWithin started o (record s { world = w }) (s.runs + suc n) (omega (arith, h))
          (omega arith))
        (λ more.
          ran w (ground (arith, more)) (services.run_model model policy o w)
            (capped model policy o w) (λ o t. attempt_loop-IsWithin started n (some o) t))
    where
      ran :
          (w : W)
          → (s.remaining == 0) ≡ false
          → (r : ℕ × Ending O × W)
          → r.0 ≤ min 8 (calls_for (has_schema input.kind) (is_first o) s.remaining)
          → ((o : O) (t : Deciding W)
              → t.spent + t.remaining ≤ input.max_calls
              → IsWithin input.max_calls
                  (t.runs + n)
                  (attempt_loop services input model started n (some o) t))
          → IsWithin input.max_calls (s.runs + suc n) (
              after_run services input model started
                (λ o. attempt_loop services input model started n (some o))
                r
                (record s { world = w }))
      ran w more (attempts, failed e, v) c again =
          let few =
            left_lem (has_schema input.kind) (is_first o) s.remaining attempts s.spent
              input.max_calls more c h in
          (few.1, omega arith)
      ran w more (attempts, answered a, v) c again =
          let few =
            left_lem (has_schema input.kind) (is_first o) s.remaining attempts s.spent
              input.max_calls more c h in
          let t : Deciding W = record {
            remaining = left s.remaining attempts;
            spent = s.spent + attempts;
            runs = suc s.runs;
            world = v;
          } in
          let rest = again a t few.0 in
          if-IsWithin input.max_calls (s.runs + suc n)
            (not (has_schema input.kind) || services.parses input.kind a) _ _ (few.1, omega arith)
            (λ _. (rest.0, omega (arith, rest.1)))

module _ {O W : Type 0} (services : Services O W) (input : DecisionInput)
    (capped : (m : String) (p : GatewayPolicy) (o : Option O) (w : W)
      → (services.run_model m p o w).0 ≤ p.max_attempts) where
  -- If each run makes at most as many attempts as its policy allows, then a decision makes at most
  -- `max_calls` attempts in all, in at most two runs, and in at most one if its kind has no schema,
  -- whether it returns or throws.
  pub decide-IsWithin :
      (w : W)
      → IsWithin input.max_calls (if has_schema input.kind then 2 else 1) (decide services input w)
  unfolding decide
  decide-IsWithin w =
      let (started, v) = services.tick w in
      let s : Deciding W = record { remaining = input.max_calls; spent = 0; runs = 0; world = w } in
      if-IsWithin input.max_calls (if has_schema input.kind then 2 else 1)
        (input.max_calls == 0 || input.deadline_ms == 0) _ _ (omega arith, omega arith)
        (λ _.
          go started (record s { world = v }) (omega arith) (omega arith) refl
            (chosen_model input (services.explain input v)))
    where
      go :
          (started : ℕ) (s : Deciding W)
          → s.spent + s.remaining ≤ input.max_calls
          → s.spent ≤ input.max_calls
          → s.runs ≡ 0
          → (m : Option String)
          → IsWithin input.max_calls
              (if has_schema input.kind then 2 else 1)
              (decide_with services input m started s)
      go started s h k z none = (k, ground (arith, z))
      go started s h k z (some model) =
          let all_runs =
            attempt_loop-IsWithin services input model capped started
              (min (if has_schema input.kind then 2 else 1) input.max_calls) none s h in
          (all_runs.0, omega (arith, all_runs.1, z))
