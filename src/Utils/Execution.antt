-- ===== src/Utils/Execution.antt =====
-- `ExecutionPolicy` of src/utils/execution-policy.ts. The parsing of the metadata is done before: `new` takes the
-- policy that was found. The calls of the `receipt` callback, which does not throw, are the list
-- `receipts`, newest first. Each call takes its readings of the clock: `now` is the one of `check`.
-- A work that `wait` waits for is given by the way in which the race ends.
pub mod Counted
pub mod Budget
pub mod Deadline
pub mod Aborted
use cli_model_gateway.Base.{
  ℕ, zero, suc, ◌+◌, ◌-◌, ◌*◌, ◌/◌, ◌%◌, ◌<◌, ◌≤◌, min, max, ◌≡◌, ◌≢◌, refl, sym, ap, ◌∙◌, subst,
  String, Bool, true, false, not, ◌&&◌, ◌||◌, Option, none, some, [], ◌∷◌, ◌++◌, map, List, arith,
  leb, ltb, ◌==◌, ◌!=◌, ==_iff, ==_refl, if◌then◌else◌, Table, Each, keys, values, get, set, has,
  delete, Outcome, Act, pure, ◌>>=◌, ◌>>◌, returns, throws, after, get-set, get-set_self,
  get-delete, get-has, has-get, length-set, length-delete-le, get-set_cases, get-none-has,
  has-set_lem, has-delete, Each-mono, Each-values, has-Each, IsUnique, set-IsUnique, find-get,
  find-get-none, Each-set, Each-delete, Each-get, Bool-cases, Option-cases, inl, inr, ◌⊎◌, ◌↔◌,
  nat_eq, string_eq, Eq, length, any, all, filter, codes, between, is_upper, is_lower, is_digit,
  Extends, starts, starts-Extends, anywhere, anywhere-append_left, anywhere-Extends, find,
  get_last?, get_elem?, take, drop, All, All-append, All-filter, All-find, length-append,
  length-drop, length-filter-le, find_holds, ltb→lt, leb→le,
}

pub record GatewayPolicy : Type 0 where
  pub operation_id : String
  pub allow_fallback : Bool
  pub max_attempts : ℕ
  pub max_latency_ms : ℕ

pub data Cause : Type 0 where
  cancelled deadline_exceeded : Cause

pub data Status : Type 0 where
  succeeded failed : Status
  aborted : Cause → Status

pub data ProviderOutcome : Type 0 where
  completed unknown not_started : ProviderOutcome

pub data ExecutionReceipt : Type 0 where
  attempted : (model provider : String) (count at : ℕ) → ExecutionReceipt
  dispatched_to : (model : String) (count at : ℕ) → ExecutionReceipt
  cleaned : Bool → ExecutionReceipt
  ended :
      (model : String) (count at : ℕ) (status : Status) (outcome : ProviderOutcome)
      (cancellation replay_safe : Bool)
      → ExecutionReceipt

-- `none` for a limit stands for `Infinity`. `signal` is the reason of the abort.
pub record ExecutionPolicy : Type 0 where
  pub allow_fallback : Bool
  pub max_attempts : Option ℕ
  pub deadline : Option ℕ
  pub operation_id : String
  pub model : String
  pub attempts : ℕ
  pub dispatched : Bool
  pub selected_model : Option String
  pub terminal : Bool
  pub signal : Option Cause
  pub receipts : List ExecutionReceipt

abbrev pub reason : Cause → String
reason cancelled = "Request cancelled"
reason deadline_exceeded = "Request deadline exceeded"

-- `cancel` and `expire`: the first abort stays.
abbrev pub first_cause : Cause → Option Cause → Option Cause
first_cause c none = some c
first_cause c (some d) = some d

abbrev pub abort : Cause → ExecutionPolicy → ExecutionPolicy
abort c s = record s { signal = first_cause c s.signal }

abbrev pub due : ℕ → Option ℕ → Bool
due now none = false
due now (some d) = leb d now

abbrev pub limits : Option GatewayPolicy → String → String → ℕ → ExecutionPolicy
limits none request_id model received = record {
  allow_fallback = true;
  max_attempts = none;
  deadline = none;
  operation_id = request_id;
  model = model;
  attempts = 0;
  dispatched = false;
  selected_model = none;
  terminal = false;
  signal = none;
  receipts = [];
}
limits (some p) request_id model received = record {
  allow_fallback = p.allow_fallback;
  max_attempts = some p.max_attempts;
  deadline = some (received + p.max_latency_ms);
  operation_id = p.operation_id;
  model = model;
  attempts = 0;
  dispatched = false;
  selected_model = none;
  terminal = false;
  signal = none;
  receipts = [];
}

-- The constructor, with the state of the caller's signal.
unfoldable pub new :
    Option GatewayPolicy
    → (request_id model : String) (received now : ℕ) (is_cancelled : Bool) → ExecutionPolicy
new policy request_id model received now is_cancelled =
    let s = limits policy request_id model received in
    let t = if is_cancelled then abort cancelled s else s in
    if due now t.deadline then abort deadline_exceeded t else t

abbrev pub throw_if_aborted : Option Cause → Act ExecutionPolicy (Unit {0})
throw_if_aborted none s = returns tt s
throw_if_aborted (some c) s = throws (reason c) s

abbrev pub after_deadline : ℕ → ExecutionPolicy → ExecutionPolicy
after_deadline now s = if due now s.deadline then abort deadline_exceeded s else s

unfoldable pub check : ℕ → Act ExecutionPolicy (Unit {0})
check now s = throw_if_aborted (after_deadline now s).signal (after_deadline now s)

abbrev pub exhausted : ℕ → Option ℕ → Bool
exhausted n none = false
exhausted n (some m) = leb m n

abbrev pub start_attempt : String → String → ℕ → ExecutionPolicy → ExecutionPolicy
start_attempt model provider at s = record s {
  attempts = s.attempts + 1;
  selected_model = some model;
  receipts = attempted model provider (s.attempts + 1) at ∷ s.receipts;
}

abbrev pub budgeted : String → String → ℕ → Act ExecutionPolicy (Unit {0})
budgeted model provider at s =
    if exhausted s.attempts s.max_attempts
    then throws "Request attempt budget exhausted" s
    else returns tt (start_attempt model provider at s)

unfoldable pub attempt : (model provider : String) (now at : ℕ) → Act ExecutionPolicy (Unit {0})
unfolding check
attempt model provider now at = check now >>= λ _. budgeted model provider at

unfoldable pub can_fallback : ℕ → Act ExecutionPolicy Bool
unfolding check
can_fallback now =
    check now >>= λ _ s. returns (s.allow_fallback && not (exhausted s.attempts s.max_attempts)) s

abbrev pub or_requested : Option String → String → String
or_requested none model = model
or_requested (some m) model = m

abbrev pub mark_dispatch : ℕ → Act ExecutionPolicy (Unit {0})
mark_dispatch at s = returns tt (record s {
  dispatched = true;
  receipts = dispatched_to (or_requested s.selected_model s.model) s.attempts at ∷ s.receipts;
})

unfoldable pub dispatch : (now at : ℕ) → Act ExecutionPolicy (Unit {0})
unfolding check
dispatch now at = check now >>= λ _. mark_dispatch at

unfoldable pub cleanup : Bool → ExecutionPolicy → ExecutionPolicy
cleanup absent s = record s { receipts = cleaned absent ∷ s.receipts }

-- How the race of `wait` ends: the work is done at a time, it fails, or the signal fires first.
pub data Race (A : Type 0) : Type 0 where
  won : A → (now : ℕ) → Race A
  lost : String → Race A
  fired : Cause → Race A

-- `signal.reason`
abbrev pub thrown : Option Cause → String
thrown none = "undefined"
thrown (some c) = reason c

module _ {A : Type 0} where
  abbrev pub raced : Race A → Act ExecutionPolicy A
  raced (won a now) s = (check now >>= λ _. pure a) s
  raced (lost e) s = throws e s
  raced (fired c) s = throws (thrown (first_cause c s.signal)) (abort c s)

  unfoldable pub wait : ℕ → Race A → Act ExecutionPolicy A
  unfolding check
  wait now race = check now >>= λ _. raced race

abbrev pub status_of : Option Cause → Bool → Status
status_of (some c) success = aborted c
status_of none success = if success then succeeded else failed

abbrev pub is_aborted : Option Cause → Bool
is_aborted none = false
is_aborted (some c) = true

abbrev pub outcome_of : Option Cause → Bool → Bool → ProviderOutcome
outcome_of signal success dispatched =
    if success && not (is_aborted signal)
    then completed
    else if dispatched
    then unknown
    else not_started

abbrev pub close : Bool → ℕ → ExecutionPolicy → ExecutionPolicy
close success at s = record s {
  terminal = true;
  receipts =
      ended (or_requested s.selected_model s.model) s.attempts at (status_of s.signal success)
        (outcome_of s.signal success s.dispatched) (is_aborted s.signal) (not s.dispatched)
      ∷ s.receipts;
}

unfoldable pub finish : Bool → ℕ → ExecutionPolicy → ExecutionPolicy
finish success at s = if s.terminal then s else close success at s

-- The calls on a policy, the caller's cancellation and the deadline timer, in any order. `finish` takes
-- away the listener and the timer.
pub data Call : Type 0 where
  checks : (now : ℕ) → Call
  attempts_with : (model provider : String) (now at : ℕ) → Call
  asks_fallback : (now : ℕ) → Call
  dispatches : (now at : ℕ) → Call
  cleans : Bool → Call
  waits : (now : ℕ) → Race (Unit {0}) → Call
  finishes : (success : Bool) (at : ℕ) → Call
  cancels : Call
  expires : Call

unfoldable pub step : Call → ExecutionPolicy → ExecutionPolicy
unfolding check attempt can_fallback dispatch cleanup wait finish
step (checks now) s = after (check now s)
step (attempts_with model provider now at) s = after (attempt model provider now at s)
step (asks_fallback now) s = after (can_fallback now s)
step (dispatches now at) s = after (dispatch now at s)
step (cleans absent) s = cleanup absent s
step (waits now race) s = after (wait now race s)
step (finishes success at) s = finish success at s
step cancels s = if s.terminal then s else abort cancelled s
step expires s = if s.terminal then s else abort deadline_exceeded s

unfoldable pub run : List Call → ExecutionPolicy → ExecutionPolicy
unfolding step
run [] s = s
run (c ∷ cs) s = run cs (step c s)
