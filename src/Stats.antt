-- ===== src/Stats.antt =====
-- `ModelStatsTracker` of src/stats/model-stats.ts. Times are in milliseconds, and each call takes its reading of the
-- clock. A rate is rounded to ten-thousandths of the exact quotient. The texts of dates and the average
-- latencies, which only the snapshots show, are left out.
pub mod Classify
pub mod Counts
pub mod Cooldown
pub mod Tests
use cli_model_gateway.Base.{
  ℕ, zero, suc, ◌+◌, ◌-◌, ◌*◌, ◌/◌, ◌%◌, ◌<◌, ◌≤◌, min, max, ◌≡◌, ◌≢◌, refl, sym, ap, ◌∙◌, subst,
  String, Bool, true, false, not, ◌&&◌, ◌||◌, Option, none, some, [], ◌∷◌, ◌++◌, map, List, arith,
  leb, ltb, ◌==◌, ◌!=◌, ==_iff, ==_refl, if◌then◌else◌, Table, Each, keys, values, get, set, has,
  delete, Outcome, Act, pure, ◌>>=◌, ◌>>◌, returns, throws, after, get-set, get-set_self,
  get-delete, get-has, has-get, length-set, length-delete-le, get-set_cases, get-none-has,
  has-set_lem, has-delete, Each-mono, Each-values, has-Each, IsUnique, set-IsUnique, find-get,
  find-get-none, Each-set, Each-delete, Each-get, Bool-cases, Option-cases, inl, inr, ◌⊎◌, ◌↔◌,
  nat_eq, string_eq, Eq, length, any, all, filter, codes, between, is_upper, is_lower, is_digit,
  Extends, starts, starts-Extends, anywhere, anywhere-append_left, anywhere-Extends, find,
  get_last?, get_elem?, take, drop, All, All-append, All-filter, All-find, length-append,
  length-drop, length-filter-le, find_holds, ltb→lt, leb→le, is_space, trim, lower_text, includes,
}
use cli_model_gateway.Stats.Classify.{
  FailureKind, rate_limited, capacity_exhausted, quota_exhausted, timeout, auth, provider_exit,
  config, model_unavailable, invalid_model, unknown, kind_index, Thrown, classify,
}

pub data SuggestedState : Type 0 where
  healthy degraded limited no_capacity no_quota auth_blocked cooldown : SuggestedState

abbrev pub same_kind : FailureKind → FailureKind → Bool
same_kind a b = kind_index a == kind_index b

abbrev pub bump : FailureKind → (FailureKind → ℕ) → FailureKind → ℕ
bump k f x = if same_kind k x then suc (f x) else f x

pub record MutableModelStats : Type 0 where
  pub model_id : String
  pub provider_id : String
  pub provider_model : String
  pub description : Option String
  pub fallback_models : List String
  pub attempts : ℕ
  pub successes : ℕ
  pub failures : ℕ
  pub fallback_out : ℕ
  pub fallback_in : ℕ
  pub by_kind : FailureKind → ℕ
  pub consecutive : ℕ
  pub consecutive_rate_limited : ℕ
  pub consecutive_capacity : ℕ
  pub consecutive_quota : ℕ
  pub attempt_ms : ℕ
  pub success_ms : ℕ
  pub last_attempt_at : Option ℕ
  pub last_success_at : Option ℕ
  pub last_failure_at : Option ℕ
  pub last_failure_kind : Option FailureKind
  pub last_failure_message : Option (List ℕ)

-- The fields that name a model in an event.
pub record Attempt : Type 0 where
  pub model_id : String
  pub requested_model_id : String
  pub provider_id : String
  pub provider_model : String
  pub attempt_index : ℕ

pub record FailureEvent : Type 0 where
  pub at : ℕ
  pub attempt : Attempt
  pub kind : FailureKind
  pub message : List ℕ

pub record ModelStatsTracker : Type 0 where
  pub models : Table String MutableModelStats
  pub recent_failures : List FailureEvent
  pub fallback_transitions : ℕ

abbrev pub max_recent_failures : ℕ
max_recent_failures = 200

abbrev pub no_stats : ModelStatsTracker
no_stats = record { models = []; recent_failures = []; fallback_transitions = 0 }

-- `createMutableModelStats`
abbrev pub fresh :
    (model provider provider_model : String) → Option String → List String → MutableModelStats
fresh model provider provider_model description fallbacks = record {
  model_id = model;
  provider_id = provider;
  provider_model = provider_model;
  description = description;
  fallback_models = fallbacks;
  attempts = 0;
  successes = 0;
  failures = 0;
  fallback_out = 0;
  fallback_in = 0;
  by_kind = λ k. 0;
  consecutive = 0;
  consecutive_rate_limited = 0;
  consecutive_capacity = 0;
  consecutive_quota = 0;
  attempt_ms = 0;
  success_ms = 0;
  last_attempt_at = none;
  last_success_at = none;
  last_failure_at = none;
  last_failure_kind = none;
  last_failure_message = none;
}

abbrev registered :
    (model provider provider_model : String)
    → Option String
    → List String
    → Option MutableModelStats
    → MutableModelStats
registered model provider provider_model description fallbacks none =
    fresh model provider provider_model description fallbacks
registered model provider provider_model description fallbacks (some s) = record s {
  provider_id = provider;
  provider_model = provider_model;
  description = description;
  fallback_models = fallbacks;
}

unfoldable pub register_model :
    (model provider provider_model : String)
    → Option String
    → List String
    → ModelStatsTracker
    → ModelStatsTracker
register_model model provider provider_model description fallbacks t = record t {
  models =
      set model
        (registered model provider provider_model description fallbacks (get model t.models))
        t.models;
}

-- `value || fallback` on texts.
abbrev or_else : String → String → String
or_else a b = if a == "" then b else a

-- `ensureModel`, which is called without a description and without fallbacks.
abbrev pub ensured : Attempt → Option MutableModelStats → MutableModelStats
ensured a none =
    fresh a.model_id (or_else a.provider_id "unknown") (or_else a.provider_model a.model_id) none []
ensured a (some s) = record s {
  provider_id = or_else a.provider_id s.provider_id;
  provider_model = or_else a.provider_model s.provider_model;
}

-- A write to the fields of the model that `ensureModel` gives.
abbrev pub update :
    Attempt → (MutableModelStats → MutableModelStats) → ModelStatsTracker → ModelStatsTracker
update a f t = record t {
  models = set a.model_id (f (ensured a (get a.model_id t.models))) t.models;
}

unfoldable pub record_attempt : (now : ℕ) → Attempt → ModelStatsTracker → ModelStatsTracker
record_attempt now a =
    update a λ s. record s { attempts = s.attempts + 1; last_attempt_at = some now }

unfoldable pub record_success :
    (now : ℕ) → Attempt → (duration_ms : ℕ) → ModelStatsTracker → ModelStatsTracker
record_success now a duration_ms = update a λ s. record s {
  successes = s.successes + 1;
  attempt_ms = s.attempt_ms + duration_ms;
  success_ms = s.success_ms + duration_ms;
  last_success_at = some now;
  last_attempt_at = some now;
  consecutive = 0;
  consecutive_rate_limited = 0;
  consecutive_capacity = 0;
  consecutive_quota = 0;
}

-- A count of failures in a row of one kind.
abbrev pub in_row : FailureKind → FailureKind → ℕ → ℕ
in_row k now n = if same_kind k now then n + 1 else 0

abbrev pub failed : (now duration_ms : ℕ) → Thrown → MutableModelStats → MutableModelStats
failed now duration_ms e s =
    let (kind, message) = classify e in
    record s {
      failures = s.failures + 1;
      attempt_ms = s.attempt_ms + duration_ms;
      last_failure_at = some now;
      last_failure_kind = some kind;
      last_failure_message = some message;
      last_attempt_at = some now;
      by_kind = bump kind s.by_kind;
      consecutive = s.consecutive + 1;
      consecutive_rate_limited = in_row rate_limited kind s.consecutive_rate_limited;
      consecutive_capacity = in_row capacity_exhausted kind s.consecutive_capacity;
      consecutive_quota = in_row quota_exhausted kind s.consecutive_quota;
    }

-- `pushFailureEvent`
abbrev pub push_failure : FailureEvent → List FailureEvent → List FailureEvent
push_failure e es = drop (length (es ++ e ∷ []) - max_recent_failures) (es ++ e ∷ [])

abbrev with_providers : Option MutableModelStats → Attempt → Attempt
with_providers none a = a
with_providers (some s) a = record a {
  provider_id = s.provider_id;
  provider_model = s.provider_model;
}

unfoldable pub record_failure :
    (now : ℕ)
    → Attempt
    → (duration_ms : ℕ) → Thrown
    → ModelStatsTracker
    → FailureKind × ModelStatsTracker
record_failure now a duration_ms e t =
    let (kind, message) = classify e in
    let u = update a (failed now duration_ms e) t in
    (
      kind,
      record u {
        recent_failures =
            push_failure
              (record {
                at = now;
                attempt = with_providers (get a.model_id u.models) a;
                kind = kind;
                message = message;
              })
              u.recent_failures;
      },
    )

abbrev pub change :
    String
    → (MutableModelStats → MutableModelStats)
    → Option MutableModelStats
    → Table String MutableModelStats
    → Table String MutableModelStats
change id f none t = t
change id f (some s) t = set id (f s) t

unfoldable pub record_fallback : (source target : String) → ModelStatsTracker → ModelStatsTracker
record_fallback source target t =
    let out =
      change source (λ s. record s { fallback_out = s.fallback_out + 1 }) (get source t.models)
        t.models in
    record t {
      models =
          change target (λ s. record s { fallback_in = s.fallback_in + 1 }) (get target out) out;
      fallback_transitions = t.fallback_transitions + 1;
    }

-- The kinds that `snapshot` sums up, in the order of the source.
abbrev pub failure_kinds : List FailureKind
failure_kinds =
    rate_limited ∷ capacity_exhausted ∷ quota_exhausted ∷ timeout ∷ auth ∷ provider_exit ∷ config
    ∷ invalid_model ∷ unknown ∷ []

module _ {A : Type 0} where
  abbrev pub sum_of : (A → ℕ) → List A → ℕ
  sum_of f [] = 0
  sum_of f (x ∷ xs) = f x + sum_of f xs

pub record Summary : Type 0 where
  pub registered_models : ℕ
  pub attempts : ℕ
  pub successes : ℕ
  pub failures : ℕ
  pub fallback_transitions : ℕ
  pub by_kind : FailureKind → ℕ

-- The `summary` of `snapshot`: a kind that is not in `failure_kinds` keeps its 0.
unfoldable pub summary : ModelStatsTracker → Summary
summary t =
    let all_stats = values t.models in
    record {
      registered_models = length t.models;
      attempts = sum_of (λ s. s.attempts) all_stats;
      successes = sum_of (λ s. s.successes) all_stats;
      failures = sum_of (λ s. s.failures) all_stats;
      fallback_transitions = t.fallback_transitions;
      by_kind = λ k.
          if any (λ x. same_kind x k) failure_kinds then sum_of (λ s. s.by_kind k) all_stats else 0;
    }

abbrev pub base_seconds : FailureKind → ℕ
base_seconds rate_limited = 60
base_seconds capacity_exhausted = 120
base_seconds quota_exhausted = 3600
base_seconds timeout = 30
base_seconds auth = 600
base_seconds model_unavailable = 600
base_seconds config = 3600
base_seconds _ = 0

abbrev pub consecutive_of : FailureKind → MutableModelStats → ℕ
consecutive_of rate_limited s = s.consecutive_rate_limited
consecutive_of capacity_exhausted s = s.consecutive_capacity
consecutive_of quota_exhausted s = s.consecutive_quota
consecutive_of _ s = s.consecutive

-- The seconds that are left, rounded up.
abbrev pub remaining : (base consecutive last now : ℕ) → ℕ
remaining base consecutive last now =
    (last + base * 1000 * min 8 (max 1 consecutive) - now + 999) / 1000

-- A time of 0 counts as none, and so does a base of 0.
abbrev pub cooldown_from : Option FailureKind → Option ℕ → MutableModelStats → ℕ → ℕ
cooldown_from (some kind) (some last) s now =
    if last == 0
    then 0
    else if base_seconds kind == 0
    then 0
    else remaining (base_seconds kind) (consecutive_of kind s) last now
cooldown_from _ _ s now = 0

unfoldable pub compute_cooldown : MutableModelStats → (now : ℕ) → ℕ
compute_cooldown s now = cooldown_from s.last_failure_kind s.last_failure_at s now

-- A quotient in ten-thousandths, rounded to the nearest.
abbrev pub rate : ℕ → ℕ → ℕ
rate part total = if total == 0 then 0 else (part * 20000 + total) / (2 * total)

abbrev pub blocked_state : Option FailureKind → SuggestedState
blocked_state (some rate_limited) = limited
blocked_state (some capacity_exhausted) = no_capacity
blocked_state (some quota_exhausted) = no_quota
blocked_state (some auth) = auth_blocked
blocked_state _ = cooldown

unfoldable pub suggested_state : MutableModelStats → (cooldown_seconds : ℕ) → SuggestedState
suggested_state s cooldown_seconds =
    if ltb 0 cooldown_seconds
    then blocked_state s.last_failure_kind
    else if leb 3 s.consecutive && leb 7500 (rate s.failures s.attempts)
    then degraded
    else if leb 6 s.attempts && leb 5000 (rate s.failures s.attempts)
    then degraded
    else healthy

-- What the routing reads of a snapshot.
pub record ModelSnapshot : Type 0 where
  pub stats : MutableModelStats
  pub state : SuggestedState
  pub cooldown_seconds : ℕ

unfoldable pub model_snapshot : MutableModelStats → (now : ℕ) → ModelSnapshot
unfolding compute_cooldown suggested_state
model_snapshot s now = record {
  stats = s;
  state = suggested_state s (compute_cooldown s now);
  cooldown_seconds = compute_cooldown s now;
}
