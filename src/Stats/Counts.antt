-- ===== src/Stats/Counts.antt =====
-- The counters of src/stats/model-stats.ts.
use cli_model_gateway.Base.{
  ℕ, suc, ◌+◌, ◌-◌, ◌≤◌, ◌≡◌, refl, String, Option, none, some, [], ◌∷◌, ◌++◌, List, arith, Table,
  Each, values, get, Each-set, Each-get, nat_eq, string_eq, length, length-drop,
}
use cli_model_gateway.Stats.Classify.{
  FailureKind, rate_limited, capacity_exhausted, quota_exhausted, timeout, auth, provider_exit,
  config, model_unavailable, invalid_model, unknown, Thrown, classify,
}
use cli_model_gateway.Stats.{
  MutableModelStats, Attempt, FailureEvent, ModelStatsTracker, no_stats, max_recent_failures, bump,
  registered, ensured, failed, push_failure, change, register_model, record_attempt, record_success,
  record_failure, record_fallback, failure_kinds, sum_of, summary,
}

pub data Event : Type 0 where
  registers : (model provider provider_model : String) → Option String → List String → Event
  attempts : (now : ℕ) → Attempt → Event
  succeeds : (now : ℕ) → Attempt → (duration_ms : ℕ) → Event
  fails : (now : ℕ) → Attempt → (duration_ms : ℕ) → Thrown → Event
  falls_back : (source target : String) → Event

unfoldable pub step : ModelStatsTracker → Event → ModelStatsTracker
step t (registers m p q d f) = register_model m p q d f t
step t (attempts now a) = record_attempt now a t
step t (succeeds now a ms) = record_success now a ms t
step t (fails now a ms e) = (record_failure now a ms e t).1
step t (falls_back a b) = record_fallback a b t

unfoldable pub run : ModelStatsTracker → List Event → ModelStatsTracker
run t [] = t
run t (e ∷ es) = run (step t e) es

-- All the kinds.
abbrev pub kinds : List FailureKind
kinds = model_unavailable ∷ failure_kinds

sum_of-bump :
    (k : FailureKind) (f : FailureKind → ℕ) → sum_of (bump k f) kinds ≡ suc (sum_of f kinds)
sum_of-bump rate_limited f = omega arith
sum_of-bump capacity_exhausted f = omega arith
sum_of-bump quota_exhausted f = omega arith
sum_of-bump timeout f = omega arith
sum_of-bump auth f = omega arith
sum_of-bump provider_exit f = omega arith
sum_of-bump config f = omega arith
sum_of-bump model_unavailable f = omega arith
sum_of-bump invalid_model f = omega arith
sum_of-bump unknown f = omega arith

-- Each failure of a model is counted under one kind.
abbrev pub IsCounted : String → MutableModelStats → Type 0
IsCounted k s = sum_of s.by_kind kinds ≡ s.failures

pub record IsSound (t : ModelStatsTracker) : Type 0 where
  pub counted : Each IsCounted t.models
  pub bounded : length t.recent_failures ≤ max_recent_failures

registered-IsCounted :
    (m p q : String) (d : Option String) (fs : List String) (t : Table String MutableModelStats)
    → Each IsCounted t
    → IsCounted m (registered m p q d fs (get m t))
registered-IsCounted m p q d fs t c = go (get m t) refl
  where
    go : (o : Option MutableModelStats) → get m t ≡ o → IsCounted m (registered m p q d fs o)
    go none e = refl
    go (some s) e = Each-get IsCounted m t c e

ensured-IsCounted :
    (a : Attempt) (t : Table String MutableModelStats)
    → Each IsCounted t
    → IsCounted a.model_id (ensured a (get a.model_id t))
ensured-IsCounted a t c = go (get a.model_id t) refl
  where
    go : (o : Option MutableModelStats) → get a.model_id t ≡ o → IsCounted a.model_id (ensured a o)
    go none e = refl
    go (some s) e = Each-get IsCounted a.model_id t c e

change-IsCounted :
    (id : String) (f : MutableModelStats → MutableModelStats) (t : Table String MutableModelStats)
    → ((s : MutableModelStats) → IsCounted id s → IsCounted id (f s))
    → Each IsCounted t
    → Each IsCounted (change id f (get id t) t)
change-IsCounted id f t keep c = go (get id t) refl
  where
    go : (o : Option MutableModelStats) → get id t ≡ o → Each IsCounted (change id f o t)
    go none e = c
    go (some s) e = Each-set IsCounted id (f s) t (keep s (Each-get IsCounted id t c e)) c

length-push_failure :
    (e : FailureEvent) (es : List FailureEvent) → length (push_failure e es) ≤ max_recent_failures
length-push_failure e es =
    omega (arith, length-drop (length (es ++ e ∷ []) - max_recent_failures) (es ++ e ∷ []))

step-IsSound : (t : ModelStatsTracker) (e : Event) → IsSound t → IsSound (step t e)
unfolding step register_model record_attempt record_success record_failure record_fallback
step-IsSound t (registers m p q d fs) v = record {
  counted =
      Each-set IsCounted m _ t.models (registered-IsCounted m p q d fs t.models v.counted)
        v.counted;
  bounded = v.bounded;
}
step-IsSound t (attempts now a) v = record {
  counted =
      Each-set IsCounted a.model_id _ t.models (ensured-IsCounted a t.models v.counted) v.counted;
  bounded = v.bounded;
}
step-IsSound t (succeeds now a ms) v = record {
  counted =
      Each-set IsCounted a.model_id _ t.models (ensured-IsCounted a t.models v.counted) v.counted;
  bounded = v.bounded;
}
step-IsSound t (fails now a ms e) v =
    let s = ensured a (get a.model_id t.models) in
    let old : sum_of s.by_kind kinds ≡ s.failures = ensured-IsCounted a t.models v.counted in
    record {
      counted =
          Each-set IsCounted a.model_id (failed now ms e s) t.models
            (omega (arith, sum_of-bump (classify e).0 s.by_kind, old)) v.counted;
      bounded = length-push_failure _ t.recent_failures;
    }
step-IsSound t (falls_back a b) v = record {
  counted = change-IsCounted b _ _ (λ s h. h) (change-IsCounted a _ t.models (λ s h. h) v.counted);
  bounded = v.bounded;
}

pub run-IsSound : (t : ModelStatsTracker) (es : List Event) → IsSound t → IsSound (run t es)
unfolding run
run-IsSound t [] v = v
run-IsSound t (e ∷ es) v = run-IsSound (step t e) es (step-IsSound t e v)

sum_kinds :
    (t : Table String MutableModelStats)
    → Each IsCounted t
    → sum_of (λ k. sum_of (λ s. s.by_kind k) (values t)) kinds
      ≡ sum_of (λ (s : MutableModelStats). s.failures) (values t)
sum_kinds [] c = refl
sum_kinds ((k, s) ∷ t) (e, c) = omega (arith, sum_kinds t c, e)

-- After any events the summary counts every failure under its kind but those of the kind
-- `model_unavailable`: the counts by kind and the failures of that kind in the models make up all
-- failures, and the count that the summary gives for that kind is 0. At most 200 failures are kept.
pub run-summary :
    (es : List Event)
    → let t = run no_stats es in
      (sum_of (summary t).by_kind kinds
          + sum_of (λ (s : MutableModelStats). s.by_kind model_unavailable) (values t.models)
        ≡ (summary t).failures)
      × ((summary t).by_kind model_unavailable ≡ 0)
      × (length t.recent_failures ≤ max_recent_failures)
unfolding summary
run-summary es =
    let v = run-IsSound no_stats es (record { counted = tt; bounded = omega arith }) in
    (omega (arith, sum_kinds (run no_stats es).models v.counted), refl, v.bounded)
