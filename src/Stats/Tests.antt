-- ===== src/Stats/Tests.antt =====
-- Runs of src/stats/model-stats.ts on two failures of one model.
use cli_model_gateway.Base.{
  ℕ, ◌+◌, ◌≤◌, ◌≡◌, none, some, [], ◌∷◌, List, arith, values, ◌⊎◌, nat_eq, string_eq, length, codes,
}
use cli_model_gateway.Stats.Classify.{rate_limited, model_unavailable, no_model, too_many, Thrown}
use cli_model_gateway.Stats.{
  Attempt, MutableModelStats, fresh, summary, sum_of, model_snapshot, compute_cooldown,
  max_recent_failures, healthy, degraded, no_stats,
}
use cli_model_gateway.Stats.Counts.{Event, attempts, fails, run, kinds, run-summary}
use cli_model_gateway.Stats.Cooldown.{model_snapshot_recovers}

abbrev on_main : Attempt
on_main = record {
  model_id = "main";
  requested_model_id = "main";
  provider_id = "office";
  provider_model = "main";
  attempt_index = 0;
}

abbrev unavailable : Thrown
unavailable = record { message = codes "gone"; code = some no_model }

abbrev too_often : Thrown
too_often = record { message = codes "slow down"; code = some too_many }

abbrev failures : List Event
failures =
    attempts 1000 on_main
    ∷ fails 1001 on_main 1 unavailable
    ∷ attempts 2000 on_main
    ∷ fails 2001 on_main 1 too_often
    ∷ []

run-summary_example :
    let t = run no_stats failures in
    (sum_of (summary t).by_kind kinds
        + sum_of (λ (s : MutableModelStats). s.by_kind model_unavailable) (values t.models)
      ≡ (summary t).failures)
    × ((summary t).by_kind model_unavailable ≡ 0)
    × (length t.recent_failures ≤ max_recent_failures)
run-summary_example = run-summary failures

abbrev limited_stats : MutableModelStats
limited_stats = record (fresh "main" "office" "main" none []) {
  attempts = 4;
  failures = 2;
  consecutive = 2;
  consecutive_rate_limited = 2;
  last_failure_at = some 5000;
  last_failure_kind = some rate_limited;
}

model_snapshot_recovers_example :
    ((before : ℕ) (later : ℕ)
      → before ≤ later
      → compute_cooldown limited_stats later ≤ compute_cooldown limited_stats before)
    × ((model_snapshot limited_stats 28805000).cooldown_seconds ≡ 0)
    × (((model_snapshot limited_stats 28805000).state ≡ healthy)
        ⊎ ((model_snapshot limited_stats 28805000).state ≡ degraded))
model_snapshot_recovers_example =
    model_snapshot_recovers limited_stats 5000 28805000 28805000 (omega arith) (omega arith)
      (omega arith)
