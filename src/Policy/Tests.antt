-- ===== src/Policy/Tests.antt =====
-- Examples of src/agent/policy/risk.ts.
use cli_model_gateway.Base.{◌≡◌, String, true, none, some, ◌↔◌, nat_eq, string_eq}
use cli_model_gateway.Policy.{r1, read, send, Action, RiskStep, can_auto_run}
use cli_model_gateway.Policy.Approval.{IsLow, can_auto_run_iff}

abbrev look_up : Action String
look_up = record { tier = none; effect = some read; external = some true; other = "search" }

abbrev reply : Action String
reply = record { tier = some r1; effect = some send; external = none; other = "mail" }

abbrev step : RiskStep String
step = record { action = look_up; auto_run = some true; auto_run_approval_digest = some "search" }

can_auto_run_iff_example : (can_auto_run (λ (a : Action String). a.other) step ≡ true) ↔ (
    (some read ≡ some read)
    × IsLow none
    × (some true ≡ some true)
    × (step.auto_run_approval_digest ≡ some look_up.other))
can_auto_run_iff_example = can_auto_run_iff (λ a. a.other) step
