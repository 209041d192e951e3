-- ===== src/Pool/Workers/Tests.antt =====
-- Examples of the pool of src/agent/pool/worker-pool.ts.
use cli_model_gateway.Base.{
  ℕ, ◌+◌, ◌≤◌, ◌≡◌, refl, String, Bool, true, false, none, some, [], ◌∷◌, List, arith, ◌==◌, values,
  get, set, has, returns, nat_eq, string_eq, length, any, codes, anywhere,
}
use cli_model_gateway.Checker.Secrets.{has_secret}
use cli_model_gateway.Pool.Leases.{
  Lease, LeaseManager, no_leases, live, sweep, claim, acquire, assert_fence,
}
use cli_model_gateway.Pool.Workers.{
  running, aborted, lost, queued, at, JobInput, PoolJob, Outside, Readings, WorkerPool, ran,
  rejected, count_owner, insert, sort, pick, modify,
}
use cli_model_gateway.Pool.Workers.Calls.{
  caught_state, emit, begin, dispatch, pump_loop, pump, submit, conclude,
}
use cli_model_gateway.Pool.Workers.Conclusion.{
  caught_state-again, conclude-MayBeChecked, MayBeChecked,
}
use cli_model_gateway.Pool.Workers.Safety.{
  Event, submitted, ended, new, perform, run, run-capacity, run-attempts, run-apart,
}
use cli_model_gateway.Pool.Workers.Rounds.{pump_loop_fuel}

-- The callback counts its calls.
abbrev outside : Outside ℕ String ℕ
outside = record { event = λ j w. returns tt (w + 1); text = λ r. some (codes r) }

abbrev readings : Readings
readings = record { now = λ id. 10; later = λ id. 11; uuid = λ id. id }

abbrev job : String → String → Bool → JobInput ℕ
job id owner write = record {
  job_id = id;
  owner = owner;
  resource_key = id;
  write = write;
  priority = at 0;
  deadline_ms = 50;
  payload = 7;
}

abbrev started : WorkerPool ℕ String ℕ
started = new no_leases 0 2 1 1000

-- Two jobs of one owner and a third of another; the first one fails and is tried again.
abbrev events : List (Event ℕ String)
events =
    submitted readings (job "a" "ann" false)
    ∷ submitted readings (job "b" "ann" true)
    ∷ submitted readings (job "c" "bob" false)
    ∷ ended readings 20 "a" rejected
    ∷ ended readings 21 "c" (ran "fine")
    ∷ []

run-capacity_example :
    (length (run outside events started).running ≤ (run outside events started).max_concurrency)
    × ((o : String)
        → count_owner o (values (run outside events started).running)
          ≤ (run outside events started).per_owner_cap)
run-capacity_example = run-capacity outside events no_leases 0 2 1 1000

run-apart_example :
    (has "b" (run outside events started).running ≡ true
      → any (λ j. j.job_id == "b") (run outside events started).queue ≡ false)
    × (any (λ j. j.job_id == "b") (run outside events started).queue ≡ true
        → has "b" (run outside events started).jobs ≡ true)
    × (has "b" (run outside events started).running ≡ true
        → has "b" (run outside events started).jobs ≡ true)
run-apart_example = run-apart outside events no_leases 0 2 1 1000 "b"

abbrev first : List (Event ℕ String)
first = submitted readings (job "a" "ann" true) ∷ []

abbrev lease_a : Lease
lease_a = record { lease_id = "a"; fencing_token = 1; key = "a"; holder = "a"; expires_at = 1011 }

abbrev job_a : PoolJob ℕ String
job_a = record {
  input = job "a" "ann" true;
  state = running;
  attempts = 1;
  lease = some lease_a;
  result = none;
  failure = none;
}

run-attempts_example : (1 ≤ 3) × (true ≡ true → 1 ≤ 1)
unfolding run perform new submit pump pump_loop pick insert sort dispatch acquire claim sweep live
    emit begin modify get has set
run-attempts_example = run-attempts outside first no_leases 0 2 1 1000 "a" job_a refl

pump_loop_fuel_example : pump_loop outside 1 readings started ≡ pump_loop outside 3 readings started
pump_loop_fuel_example =
    pump_loop_fuel outside 1 3 readings started (unfold new in omega arith)
      (unfold new in omega arith)

abbrev leases_a : LeaseManager
leases_a = record { leases = ("a", lease_a) ∷ []; fences = ("a", 1) ∷ [] }

conclude-MayBeChecked_example :
    MayBeChecked outside 20 leases_a
      (ran "ok")
      job_a
      (conclude outside 20 none false leases_a (ran "ok") job_a)
unfolding conclude has_secret assert_fence get anywhere
conclude-MayBeChecked_example =
    conclude-MayBeChecked outside 20 none false leases_a (ran "ok") job_a refl

caught_state-again_example : (false ≡ false) × (2 ≤ 2) × (false ≡ false) × (queued ≡ queued)
unfolding caught_state
caught_state-again_example = caught_state-again (aborted lost) false false 2 refl
