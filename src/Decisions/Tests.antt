-- ===== src/Decisions/Tests.antt =====
-- A decision whose first answer does not parse: src/agent/router/router-client.ts.
use cli_model_gateway.Base.{ℕ, suc, min, none, [], arith, ltb, if◌then◌else◌, nat_eq, string_eq}
use cli_model_gateway.Decisions.{DecisionInput, plan, Services, answered, has_schema, decide}
use cli_model_gateway.Decisions.Budget.{IsWithin, decide-IsWithin}

abbrev input : DecisionInput
input = record {
  kind = plan;
  model = none;
  exclude_providers = [];
  max_calls = 3;
  deadline_ms = 1000;
  request_id = "request";
}

-- Each run makes one attempt if it may, and the second answer parses.
abbrev services : Services ℕ ℕ
services = record {
  tick = λ w. (w, suc w);
  explain = λ i w. [];
  run_model = λ m p o w. (min 1 p.max_attempts, answered w, suc w);
  parses = λ k o. ltb 2 o;
}

decide-IsWithin_example : IsWithin 3 (if has_schema plan then 2 else 1) (decide services input 0)
decide-IsWithin_example = decide-IsWithin services input (λ m p o w. omega arith) 0
