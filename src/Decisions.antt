-- ===== src/Decisions.antt =====
-- `NativeRouterClient.decide` of src/agent/router/router-client.ts. A run of the registry, the ranking that `explain` gives,
-- the test of an answer against the schemas and the clock are parameters. The receipt of a decision,
-- which is made of digests, is left out. A run gives how many attempts were receipted, and how it ended.
pub mod Budget
pub mod Tests
use cli_model_gateway.Base.{
  ℕ, zero, suc, ◌+◌, ◌-◌, ◌*◌, ◌/◌, ◌%◌, ◌<◌, ◌≤◌, min, max, ◌≡◌, ◌≢◌, refl, sym, ap, ◌∙◌, subst,
  String, Bool, true, false, not, ◌&&◌, ◌||◌, Option, none, some, [], ◌∷◌, ◌++◌, map, List, arith,
  leb, ltb, ◌==◌, ◌!=◌, ==_iff, ==_refl, if◌then◌else◌, Table, Each, keys, values, get, set, has,
  delete, Outcome, Act, pure, ◌>>=◌, ◌>>◌, returns, throws, after, get-set, get-set_self,
  get-delete, get-has, has-get, length-set, length-delete-le, get-set_cases, get-none-has,
  has-set_lem, has-delete, Each-mono, Each-values, has-Each, IsUnique, set-IsUnique, find-get,
  find-get-none, Each-set, Each-delete, Each-get, Bool-cases, Option-cases, inl, inr, ◌⊎◌, ◌↔◌,
  nat_eq, string_eq, Eq, length, any, all, filter, codes, between, is_upper, is_lower, is_digit,
  Extends, starts, starts-Extends, anywhere, anywhere-append_left, anywhere-Extends, find,
  get_last?, get_elem?, take, drop, All, All-append, All-filter, All-find, length-append,
  length-drop, length-filter-le, find_holds, ltb→lt, leb→le, is_space, trim, lower_text, includes,
}
use cli_model_gateway.Utils.Execution.{GatewayPolicy}

pub data DecisionKind : Type 0 where
  plan steer summarize check code chat : DecisionKind

pub record DecisionInput : Type 0 where
  pub kind : DecisionKind
  pub model : Option String
  pub exclude_providers : List String
  pub max_calls : ℕ
  pub deadline_ms : ℕ
  pub request_id : String

pub record Candidate : Type 0 where
  pub model_id : String
  pub provider_id : String

pub data Ending (O : Type 0) : Type 0 where
  answered : O → Ending O
  failed : String → Ending O

-- `repairs` carries the output that a second attempt repairs.
pub record Services (O W : Type 0) : Type 0 where
  pub tick : W → ℕ × W
  pub explain : DecisionInput → W → List Candidate
  pub run_model : (model : String) → GatewayPolicy → (repairs : Option O) → W → ℕ × Ending O × W
  pub parses : DecisionKind → O → Bool

pub record RouterDecision (O : Type 0) : Type 0 where
  pub output : O
  pub needs_review : Bool

-- `spent` and `runs` count the attempts and the runs of the registry.
pub record Deciding (W : Type 0) : Type 0 where
  pub remaining : ℕ
  pub spent : ℕ
  pub runs : ℕ
  pub world : W

-- `request`: the policy of a run.
abbrev pub policy_of : DecisionInput → (max_calls deadline_ms : ℕ) → GatewayPolicy
policy_of input max_calls deadline_ms = record {
  operation_id = input.request_id;
  allow_fallback = length input.exclude_providers == 0;
  max_attempts = min 8 max_calls;
  max_latency_ms = min 600000 deadline_ms;
}

abbrev pub has_schema : DecisionKind → Bool
has_schema plan = true
has_schema steer = true
has_schema _ = false

abbrev pub or_auto : Option String → String
or_auto none = "auto"
or_auto (some m) = m

abbrev pub id_of : Option Candidate → Option String
id_of none = none
id_of (some c) = some c.model_id

-- The model of the runs, or none if no provider is left.
abbrev pub chosen_model : DecisionInput → List Candidate → Option String
chosen_model input candidates =
    if length input.exclude_providers == 0
    then some (or_auto input.model)
    else id_of (find (λ c. not (any (λ p. p == c.provider_id) input.exclude_providers)) candidates)

-- The first of two attempts leaves one call for the second.
abbrev pub calls_for : (schema is_first : Bool) → ℕ → ℕ
calls_for schema is_first remaining =
    if schema && is_first then max 1 (remaining - 1) else remaining

-- A run takes its attempts from what remains, and one if there were none.
abbrev pub left : (remaining attempts : ℕ) → ℕ
left remaining attempts = if attempts == 0 then remaining - 1 else remaining - attempts

abbrev pub is_first : {O : Type 0} → Option O → Bool
is_first none = true
is_first (some o) = false

module _ {O W : Type 0} (services : Services O W) (input : DecisionInput) (model : String)
    (started : ℕ) where
  abbrev pub after_loop : Option O → Act (Deciding W) (RouterDecision O)
  after_loop none = throws "No decision"
  after_loop (some o) = returns (record { output = o; needs_review = true })

  abbrev pub after_run :
      (O → Act (Deciding W) (RouterDecision O))
      → ℕ × Ending O × W
      → Act (Deciding W) (RouterDecision O)
  after_run again (attempts, failed e, w) s =
      throws e (record s { spent = s.spent + attempts; runs = suc s.runs; world = w })
  after_run again (attempts, answered o, w) s =
      let t : Deciding W = record {
        remaining = left s.remaining attempts;
        spent = s.spent + attempts;
        runs = suc s.runs;
        world = w;
      } in
      if not (has_schema input.kind) || services.parses input.kind o
      then returns (record { output = o; needs_review = false }) t
      else again o t

  -- The loop over the attempts that are left; `output` is that of the attempt before.
  unfoldable pub attempt_loop :
      (attempts : ℕ) → (output : Option O) → Act (Deciding W) (RouterDecision O)
  attempt_loop zero output s = after_loop output s
  attempt_loop (suc n) output s =
      let (now, w) = services.tick s.world in
      let t : Deciding W = record s { world = w } in
      let deadline = input.deadline_ms - (now - started) in
      let policy =
        policy_of input (calls_for (has_schema input.kind) (is_first output) s.remaining)
          deadline in
      let ran =
        after_run (λ o. attempt_loop n (some o)) (services.run_model model policy output w) t in
      if s.remaining == 0 || deadline == 0 then after_loop output t else ran

module _ {O W : Type 0} (services : Services O W) (input : DecisionInput) where
  abbrev pub decide_with : Option String → (started : ℕ) → Act (Deciding W) (RouterDecision O)
  decide_with none started = throws "No independent provider available"
  decide_with (some model) started =
      attempt_loop services input model started
        (min (if has_schema input.kind then 2 else 1) input.max_calls) none

  unfoldable pub decide : W → Outcome (Deciding W) (RouterDecision O)
  decide w =
      let (started, v) = services.tick w in
      let s : Deciding W = record { remaining = input.max_calls; spent = 0; runs = 0; world = w } in
      if input.max_calls == 0 || input.deadline_ms == 0
      then throws "Decision budget exhausted" s
      else decide_with (chosen_model input (services.explain input v)) started
          (record s { world = v })
