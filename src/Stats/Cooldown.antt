-- ===== src/Stats/Cooldown.antt =====
-- The cooldowns of src/stats/model-stats.ts.
use native.Mathlib.Nat.{mul-le-mul}
use cli_model_gateway.Base.{
  ℕ, ◌+◌, ◌*◌, ◌≤◌, min, max, ◌≡◌, refl, Option, none, some, arith, ◌⊎◌, nat_eq, string_eq,
}
use cli_model_gateway.Stats.Classify.{
  FailureKind, rate_limited, capacity_exhausted, quota_exhausted, timeout, auth, provider_exit,
  config, model_unavailable, invalid_model, unknown,
}
use cli_model_gateway.Stats.{
  MutableModelStats, healthy, degraded, base_seconds, consecutive_of, remaining, cooldown_from,
  compute_cooldown, suggested_state, model_snapshot,
}

remaining_mono :
    (b c last now now' : ℕ) → now ≤ now' → remaining b c last now' ≤ remaining b c last now
remaining_mono b c last now now' h = omega (arith, h)

remaining_over : (b c last now : ℕ) → b ≤ 3600 → last + 28800000 ≤ now → remaining b c last now ≡ 0
remaining_over b c last now h k =
    let eight : min 8 (max 1 c) ≤ 8 = omega arith in
    let longest : b * 1000 * min 8 (max 1 c) ≤ 3600 * 1000 * 8 =
      mul-le-mul {n₁ = b * 1000} {m₁ = min 8 (max 1 c)} {n₂ = 3600 * 1000} {m₂ = 8}
        (omega (arith, h)) eight in
    omega (arith, longest, k)

base_seconds_le : (k : FailureKind) → base_seconds k ≤ 3600
base_seconds_le rate_limited = omega arith
base_seconds_le capacity_exhausted = omega arith
base_seconds_le quota_exhausted = omega arith
base_seconds_le timeout = omega arith
base_seconds_le auth = omega arith
base_seconds_le provider_exit = omega arith
base_seconds_le config = omega arith
base_seconds_le model_unavailable = omega arith
base_seconds_le invalid_model = omega arith
base_seconds_le unknown = omega arith

-- Every failure of a model that is recorded lies before the time.
abbrev pub IsBefore : Option ℕ → ℕ → Type 0
IsBefore none bound = Unit {0}
IsBefore (some at) bound = at ≤ bound

cooldown_from_mono :
    (k : Option FailureKind) (l : Option ℕ) (s : MutableModelStats) (now now' : ℕ)
    → now ≤ now'
    → cooldown_from k l s now' ≤ cooldown_from k l s now
cooldown_from_mono none l s now now' h = omega arith
cooldown_from_mono (some k) none s now now' h = omega arith
cooldown_from_mono (some k) (some last) s now now' h =
    let less = remaining_mono (base_seconds k) (consecutive_of k s) last now now' h in ground arith

cooldown_from-over :
    (k : Option FailureKind) (l : Option ℕ) (s : MutableModelStats) (last now : ℕ)
    → IsBefore l last
    → last + 28800000 ≤ now
    → cooldown_from k l s now ≡ 0
cooldown_from-over none l s last now b h = refl
cooldown_from-over (some k) none s last now b h = refl
cooldown_from-over (some k) (some at) s last now b h =
    let gone =
      remaining_over (base_seconds k) (consecutive_of k s) at now (base_seconds_le k)
        (omega (arith, b, h)) in
    ground arith

-- A cooldown never grows while no event comes in, and eight hours after the last failure at the
-- latest it is over: the model is then healthy or degraded, so it is not held back by its own state.
pub model_snapshot_recovers :
    (s : MutableModelStats) (last now now' : ℕ)
    → IsBefore s.last_failure_at last
    → last + 28800000 ≤ now
    → now ≤ now'
    → ((before : ℕ) (later : ℕ)
        → before ≤ later
        → compute_cooldown s later ≤ compute_cooldown s before)
      × ((model_snapshot s now').cooldown_seconds ≡ 0)
      × (((model_snapshot s now').state ≡ healthy) ⊎ ((model_snapshot s now').state ≡ degraded))
unfolding model_snapshot compute_cooldown suggested_state
model_snapshot_recovers s last now now' b h k =
    let gone : cooldown_from s.last_failure_kind s.last_failure_at s now' ≡ 0 =
      cooldown_from-over s.last_failure_kind s.last_failure_at s last now' b
        (omega (arith, h, k)) in
    (
      (λ before later le.
          cooldown_from_mono s.last_failure_kind s.last_failure_at s before later le),
      gone,
      rw gone (ground arith),
    )
