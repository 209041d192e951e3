-- ===== src/Coordinator/Tests.antt =====
-- Examples of src/agent/coordinator/coordinator.ts.
use cli_model_gateway.Base.{
  refl, String, true, none, some, [], ◌∷◌, List, ◌==◌, get, set, after, nat_eq, string_eq,
}
use cli_model_gateway.Policy.{r0, r3, read, send}
use cli_model_gateway.Coordinator.{delegate, planning, awaiting_check, CoordinatorJob, Coordinator}
use cli_model_gateway.Coordinator.Advance.{advance, finish, has_open_child}
use cli_model_gateway.Coordinator.Trace.{Oracle, Event, traced, AllClaimed, advance-AllClaimed}
use cli_model_gateway.Coordinator.Finish.{IsFinished, finish-IsFinished}

abbrev oracle : Oracle String String String
oracle = record {
  saves = λ job w. true;
  consumes = λ id n step w. some true;
  requests = λ id n step w. some "item";
  notifies = λ id w. true;
  starts = λ c w. some "child";
  child_done = λ id w. some true;
  receipt_holds = λ id a r. true;
  digests_agree = λ a b. a == b;
}

abbrev job : CoordinatorJob String String String
job = record {
  job_id = "job";
  spec_effect = read;
  spec_tier = r0;
  spec_budget = none;
  acceptance = [];
  state = planning;
  steps =
      record { kind = delegate; effect = read; tier = r0; spec = "look" }
      ∷ record { kind = delegate; effect = send; tier = r3; spec = "mail" }
      ∷ [];
  next = 0;
  children = [];
  artifacts = "none";
  receipt = none;
}

abbrev start_state : Coordinator String String String (List (Event String String String))
start_state = record { jobs = ("job", job) ∷ []; active = []; world = [] }

advance-AllClaimed_example : AllClaimed (after (advance (traced oracle) "job" start_state)).world
advance-AllClaimed_example = advance-AllClaimed oracle "job" start_state tt

abbrev waiting : CoordinatorJob String String String
waiting = record job { state = awaiting_check; next = 2; children = "child" ∷ [] }

abbrev waiting_state : Coordinator String String String (List (Event String String String))
waiting_state = record { jobs = ("job", waiting) ∷ []; active = []; world = [] }

finish-IsFinished_example :
    IsFinished
      (traced oracle)
      "job"
      "none"
      (some "receipt")
      waiting_state
      (after (finish (traced oracle) "job" "none" (some "receipt") waiting_state))
unfolding finish has_open_child get set
finish-IsFinished_example =
    finish-IsFinished (traced oracle) "job" "none" (some "receipt") waiting_state
      (after (finish (traced oracle) "job" "none" (some "receipt") waiting_state)) refl
