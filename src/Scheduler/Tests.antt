-- ===== src/Scheduler/Tests.antt =====
-- Examples of src/agent/scheduler/auto-run.ts.
use cli_model_gateway.Base.{
  ℕ, String, Bool, true, false, none, some, [], ◌∷◌, List, after, nat_eq, string_eq,
}
use cli_model_gateway.Policy.{Action, RiskStep, read, r0}
use cli_model_gateway.Scheduler.{AutoRunScheduler, Event, AllSorted, traced, tick, tick-AllSorted}

abbrev digest : Action String → String
digest a = a.other

abbrev look_up : RiskStep String
look_up = record {
  action = record { tier = some r0; effect = some read; external = none; other = "look" };
  auto_run = some true;
  auto_run_approval_digest = some "look";
}

abbrev scheduler : AutoRunScheduler String (List (Event String))
scheduler = record {
  entries = ("a", record { spec = look_up; interval_ms = 10; due = 5 }) ∷ [];
  world = [];
}

abbrev never : Event String → List (Event String) → Bool
never e w = false

abbrev clock : String → ℕ
clock id = 7

tick-AllSorted_example :
    AllSorted digest (after (tick (traced digest never) clock clock scheduler)).world
tick-AllSorted_example = tick-AllSorted digest never clock clock scheduler tt
