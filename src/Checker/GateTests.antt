-- ===== src/Checker/GateTests.antt =====
-- Examples of src/agent/checker/checker.ts and src/agent/checker/gate.ts.
use cli_model_gateway.Base.{
  ℕ, ◌+◌, ◌≡◌, refl, true, none, some, [], ◌∷◌, ◌++◌, Act, returns, nat_eq, string_eq, codes,
  starts, anywhere, All,
}
use cli_model_gateway.Checker.Secrets.{has_secret}
use cli_model_gateway.Checker.Commands.{policy_violation, split_lines, is_added, has_command}
use cli_model_gateway.Checker.Check.{
  Artifact, CheckRequest, passed, Receipt, Decision, Services, every, is_passed, distinct,
  same_bytes, all_artifact_checks, own_checks, digests, receipt, check, is_done,
}
use cli_model_gateway.Checker.Receipts.{IsClean, check-passed, check-is_done, is_done_holds}

abbrev services : Services ℕ
services = record {
  sha = λ s. "digest";
  receipt_mac = λ u. u.receipt_id;
  from_hex = codes;
  digests_text = λ ds. "digests";
  decide =
      some (λ r w. returns (record { output = some (some true); resolved_model = "m" }) (w + 1));
}

abbrev request : CheckRequest
request = record {
  job_id = "job";
  artifacts = record { name = "patch"; content = codes "+ok"; sha256 = "digest" } ∷ [];
  acceptance = [];
  worker_provider = none;
}

abbrev given : Receipt
given =
    receipt services "r1" 5 request
      (own_checks services request
        ++ record { check_name = "router"; pass = true; detail = "Independent review" } ∷ [])
      (some "m")

check-passed_example :
    IsClean services request
    × ((d : CheckRequest → Act ℕ Decision)
        → services.decide ≡ some d
        → (a : Decision) × (d request 3 ≡ returns a 4) × (a.output ≡ some (some true)))
unfolding check own_checks all_artifact_checks distinct has_secret policy_violation split_lines
    is_added has_command anywhere starts
check-passed_example = check-passed services "r1" 5 request 3 4 given refl refl

check-is_done_example :
    is_done services "job" request.artifacts (some given) ≡ is_passed given.unsigned.verdict
unfolding check own_checks all_artifact_checks distinct has_secret policy_violation split_lines
    is_added has_command anywhere starts
check-is_done_example = check-is_done services "r1" 5 request 3 4 given refl

is_done_holds_example :
    (given.unsigned.job_id ≡ request.job_id)
    × (given.unsigned.verdict ≡ passed)
    × (every given.unsigned.checks ≡ true)
    × (same_bytes (codes given.mac) (codes given.unsigned.receipt_id) ≡ true)
    × (services.digests_text given.unsigned.artifact_digests
        ≡ services.digests_text (digests services request.artifacts))
    × All (λ (a : Artifact). services.sha a.content ≡ a.sha256) request.artifacts
unfolding is_done own_checks all_artifact_checks distinct has_secret policy_violation split_lines
    is_added has_command anywhere starts same_bytes
is_done_holds_example = is_done_holds services "job" request.artifacts given refl
