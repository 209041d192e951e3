-- ===== src/Providers/Next.antt =====
-- `getModelSkipReason` and `findNextModelId` of src/providers/registry.ts. All readings of the clock of one search are one
-- reading. The scan of the pending fallbacks takes fuel.
use cli_model_gateway.Base.{
  ℕ, zero, suc, ◌+◌, String, Bool, true, false, not, ◌&&◌, ◌||◌, Option, none, some, [], ◌∷◌, ◌++◌,
  List, ltb, ◌==◌, if◌then◌else◌, Table, values, get, nat_eq, string_eq, length, any,
}
use cli_model_gateway.Stats.Classify.{
  FailureKind, rate_limited, capacity_exhausted, quota_exhausted, auth, unknown,
}
use cli_model_gateway.Stats.{
  MutableModelStats, ModelStatsTracker, SuggestedState, healthy, degraded, limited, no_capacity,
  no_quota, auth_blocked, model_snapshot,
}
use cli_model_gateway.Utils.Execution.{can_fallback}
use cli_model_gateway.Providers.Bindings.{ModelBinding, Request, replay_safe, supports_request}
use cli_model_gateway.Providers.Auto.{Scores, select_auto}
use cli_model_gateway.Providers.Routing.{
  Routing, Services, ok, Routed, ◌>>>◌, give, policed, mem, clock,
}

abbrev is_auth_blocked : SuggestedState → Bool
is_auth_blocked auth_blocked = true
is_auth_blocked _ = false

abbrev is_no_quota : SuggestedState → Bool
is_no_quota no_quota = true
is_no_quota _ = false

abbrev is_degraded : SuggestedState → Bool
is_degraded degraded = true
is_degraded _ = false

abbrev is_healthy : SuggestedState → Bool
is_healthy healthy = true
is_healthy _ = false

-- `lastFailureKind || "unknown"`
abbrev or_unknown : Option FailureKind → FailureKind
or_unknown none = unknown
or_unknown (some k) = k

-- A model of the provider is in a state, and its cooldown is not over.
abbrev provider_in : (SuggestedState → Bool) → String → (now : ℕ) → ModelStatsTracker → Bool
provider_in test p now t =
    any
      (λ s.
        s.provider_id == p
        && test (model_snapshot s now).state
        && ltb 0 (model_snapshot s now).cooldown_seconds)
      (values t.models)

abbrev cooling_kind : SuggestedState → Option FailureKind → FailureKind
cooling_kind no_quota k = quota_exhausted
cooling_kind limited k = rate_limited
cooling_kind no_capacity k = capacity_exhausted
cooling_kind auth_blocked k = auth
cooling_kind _ k = or_unknown k

abbrev own_reason : (requested : Bool) → (now : ℕ) → Option MutableModelStats → Option FailureKind
own_reason requested now none = none
own_reason requested now (some s) =
    let snap = model_snapshot s now in
    if ltb 0 snap.cooldown_seconds
    then some (cooling_kind snap.state s.last_failure_kind)
    else if not requested && is_degraded snap.state
    then some (or_unknown s.last_failure_kind)
    else none

unfoldable pub skip_reason :
    (now : ℕ) → ModelBinding → (requested : String) → ModelStatsTracker → Option FailureKind
skip_reason now b requested t =
    if b.provider.auth_fail_fast && provider_in is_auth_blocked b.provider.provider_id now t
    then some auth
    else if provider_in is_no_quota b.provider.provider_id now t
    then some quota_exhausted
    else own_reason (b.model_id == requested) now (get b.model_id t.models)

module _ {A : Type 0} where
  abbrev pub is_none : Option A → Bool
  is_none none = true
  is_none (some a) = false

abbrev pub healthy_now : (now : ℕ) → Option MutableModelStats → Bool
healthy_now now none = false
healthy_now now (some s) = is_healthy (model_snapshot s now).state

-- Those of a list that are not pending yet, each once.
unfoldable pub new_of : List String → List String → List String
new_of [] pending = []
new_of (f ∷ fs) pending =
    let known = new_of fs pending in
    let more = new_of fs (pending ++ f ∷ []) in if mem f pending then known else f ∷ more

abbrev pub is_manual : Option ModelBinding → Bool
is_manual none = false
is_manual (some b) = b.manual_only

abbrev pub fails_auth : List String → Option ModelBinding → Bool
fails_auth failed none = false
fails_auth failed (some b) = mem b.provider.provider_id failed

abbrev pub fallbacks_of : Option ModelBinding → List String
fallbacks_of none = []
fallbacks_of (some b) = b.fallback_model_ids

-- The tests that leave a pending fallback out.
abbrev pub is_left_out : Request → List String → String → Option ModelBinding → Bool
is_left_out request visited id b =
    mem id visited || is_none b || is_manual b || not (supports_request request b)

-- The loop over `pending`, which grows while it runs: `rest` is the part to come.
unfoldable pub scan :
    ℕ
    → Table String ModelBinding
    → Request
    → (visited auth_failed rest pending : List String) → Option String × List String
unfolding new_of
scan zero models request visited failed rest pending = (none, pending)
scan (suc n) models request visited failed [] pending = (none, pending)
scan (suc n) models request visited failed (id ∷ rest) pending =
    let b = get id models in
    let new = new_of (fallbacks_of b) pending in
    let passed = scan n models request visited failed rest pending in
    let widened = scan n models request visited failed (rest ++ new) (pending ++ new) in
    if is_left_out request visited id b
    then passed
    else if fails_auth failed b
    then widened
    else (some id, pending)

abbrev pub fallback_count : List ModelBinding → ℕ
fallback_count [] = 0
fallback_count (b ∷ bs) = length b.fallback_model_ids + fallback_count bs

-- The pending ones, and as many as all models name.
abbrev pub scan_fuel : Table String ModelBinding → List String → ℕ
scan_fuel models pending = suc (length pending + fallback_count (values models))

abbrev pub first_binding : Table String ModelBinding → List String → Option ModelBinding
first_binding models [] = none
first_binding models (v ∷ vs) = get v models

module _ {R W : Type 0} (scores : Scores)
    (score : Request → ModelStatsTracker → ModelBinding → scores.Score) (services : Services R W)
    (models : Table String ModelBinding) where
  -- The candidates for the last attempt: healthy and not tried.
  abbrev pub last_candidates : Request → (now : ℕ) → Routing W → List ModelBinding
  last_candidates request now s =
      select_auto scores (score request s.stats) request
        (λ b.
          not (mem b.model_id s.visited)
          && not (mem b.provider.provider_id s.auth_failed)
          && is_none (skip_reason now b b.model_id s.stats)
          && healthy_now now (get b.model_id s.stats.models))
        models

  abbrev pub take_last : List ModelBinding → Routed W (Option String)
  take_last [] s = ok none s
  take_last (b ∷ bs) s = ok (some b.model_id) (record s { emergency = true })

  abbrev pub emergency_model : Request → (now : ℕ) → Routed W (Option String)
  emergency_model request now s =
      if not (replay_safe request) || is_manual (first_binding models s.visited)
      then ok none s
      else take_last (last_candidates request now s) s

  abbrev pub scanned : Request → (now : ℕ) → Option String × List String → Routed W (Option String)
  scanned request now (some id, pending) s = ok (some id) (record s { pending = pending })
  scanned request now (none, pending) s =
      emergency_model request now (record s { pending = pending })

  -- The search once a fallback is allowed.
  abbrev pub search_next :
      Request → ModelBinding → (auto_ids : List String) → (now : ℕ) → Routed W (Option String)
  search_next request b auto_ids now s =
      let pending = s.pending ++ new_of (b.fallback_model_ids ++ auto_ids) s.pending in
      scanned request now
        (scan (scan_fuel models pending) models request s.visited s.auth_failed pending pending) s

  abbrev pub if_allowed :
      Request → ModelBinding → (auto_ids : List String) → Bool → Routed W (Option String)
  if_allowed request b auto_ids false = give none
  if_allowed request b auto_ids true = clock services >>> search_next request b auto_ids

  unfoldable pub find_next :
      Request → ModelBinding → (auto_ids : List String) → Routed W (Option String)
  find_next request b auto_ids s =
      if s.emergency
      then ok none s
      else (clock services >>> λ now. policed (can_fallback now) >>> if_allowed request b auto_ids)
          s
