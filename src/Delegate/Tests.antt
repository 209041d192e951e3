-- ===== src/Delegate/Tests.antt =====
-- A tool whose log counts its records: src/agent/delegate/delegate-tool.ts.
use cli_model_gateway.Base.{ℕ, suc, true, none, [], ◌∷◌, returns, nat_eq, string_eq, codes}
use cli_model_gateway.Policy.{r1}
use cli_model_gateway.Pool.Workers.{JobState, awaiting_check, running, at}
use cli_model_gateway.Checker.Check.{Receipt, passed}
use cli_model_gateway.Delegate.{Spec, DelegateJob, DelegateTool, Outside, restore}
use cli_model_gateway.Delegate.Restored.{NoneActive, restore-NoneActive}

abbrev outside : Outside ℕ ℕ ℕ
outside = record {
  append_job = λ j w. returns w (suc w);
  append_receipt = λ id r w. returns tt (suc w);
  append_result = λ id r key token w. returns tt (suc w);
  submit = λ j s. returns tt s;
  stop_job = λ id s. returns tt s;
  text = λ r. codes "4";
  sha256 = λ t. "hash";
  digest = λ found. "digest";
  is_done = λ id found r. true;
}

abbrev spec : Spec
spec = record {
  role = "reader";
  goal = "read";
  acceptance = [];
  tier = r1;
  effect = cli_model_gateway.Policy.read;
  tools = [];
  max_calls = 1;
  deadline_ms = 1000;
  uses_pool = true;
  parent_job_id = none;
  owner = "ann";
  priority = at 0;
}

abbrev job : JobState → DelegateJob
job state = record {
  job_id = "j1";
  spec = spec;
  state = state;
  last_event_seq = none;
  failure = none;
  artifacts = none;
}

abbrev receipt : Receipt
receipt = record {
  unsigned = record {
    receipt_id = "r1";
    job_id = "j1";
    artifact_digests = [];
    checks = [];
    verdict = passed;
    at = 0;
    checker_model = none;
  };
  mac = "mac";
}

abbrev waiting : DelegateTool ℕ
waiting = record { jobs = ("j1", job awaiting_check) ∷ []; world = 7 }

restore-NoneActive_example : NoneActive outside (restore outside (job running ∷ []) 7)
restore-NoneActive_example = restore-NoneActive outside (job running ∷ []) 7
