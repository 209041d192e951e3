-- ===== src/Utils/Execution/Budget.antt =====
-- The attempts and the receipts of src/utils/execution-policy.ts.
use cli_model_gateway.Base.{
  ℕ, ◌≡◌, refl, String, Bool, true, false, Option, none, some, List, arith, ltb, if◌then◌else◌,
  nat_eq, string_eq,
}
use cli_model_gateway.Utils.Execution.{
  GatewayPolicy, cancelled, deadline_exceeded, ExecutionPolicy, first_cause, abort, due, limits,
  new, Call, run,
}
use cli_model_gateway.Utils.Execution.Counted.{
  IsBelow, count_attempts, count_dispatches, count_ends, IsCounted, signal-IsCounted, run-IsCounted,
}

-- The limit that the caller's policy sets.
abbrev pub policy_limit : Option GatewayPolicy → Option ℕ
policy_limit none = none
policy_limit (some q) = some q.max_attempts

limits-IsCounted :
    (p : Option GatewayPolicy) (id model : String) (received : ℕ)
    → IsCounted (policy_limit p) (limits p id model received)
limits-IsCounted none id model received = record {
  counted = refl;
  limit = refl;
  below = tt;
  once = refl;
  sent = ground arith;
}
limits-IsCounted (some p) id model received = record {
  counted = refl;
  limit = refl;
  below = omega arith;
  once = refl;
  sent = ground arith;
}

pub new-IsCounted :
    (p : Option GatewayPolicy) (id model : String) (received now : ℕ) (is_cancelled : Bool)
    → IsCounted (policy_limit p) (new p id model received now is_cancelled)
unfolding new
new-IsCounted p id model received now is_cancelled =
    expired (due now (started is_cancelled).deadline) (started is_cancelled)
      (started-IsCounted is_cancelled)
  where
    started : Bool → ExecutionPolicy
    started b =
        if b then abort cancelled (limits p id model received) else limits p id model received

    started-IsCounted : (b : Bool) → IsCounted (policy_limit p) (started b)
    started-IsCounted true =
        signal-IsCounted (first_cause cancelled _) _ (limits-IsCounted p id model received)
    started-IsCounted false = limits-IsCounted p id model received

    expired :
        (b : Bool) (t : ExecutionPolicy)
        → IsCounted (policy_limit p) t
        → IsCounted (policy_limit p) (if b then abort deadline_exceeded t else t)
    expired true t k = signal-IsCounted (first_cause deadline_exceeded t.signal) t k
    expired false t k = k

-- After any calls on a new policy, the attempts are within its limit, which is the one that the caller
-- has set, one receipt was sent for each of them, at most one terminal receipt was sent, and one exactly
-- when the policy is terminal, and `dispatched` says whether a dispatch receipt was sent.
pub run_receipts :
    (p : Option GatewayPolicy) (id model : String) (received now : ℕ) (is_cancelled : Bool)
    (cs : List Call)
    → let s = run cs (new p id model received now is_cancelled) in
      IsBelow s.attempts s.max_attempts
      × (s.max_attempts ≡ policy_limit p)
      × (count_attempts s.receipts ≡ s.attempts)
      × (count_ends s.receipts ≡ (if s.terminal then 1 else 0))
      × (s.dispatched ≡ ltb 0 (count_dispatches s.receipts))
run_receipts p id model received now is_cancelled cs =
    let i =
      run-IsCounted cs (new p id model received now is_cancelled)
        (new-IsCounted p id model received now is_cancelled) in
    (i.below, i.limit, i.counted, i.once, i.sent)
