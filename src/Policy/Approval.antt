-- ===== src/Policy/Approval.antt =====
-- What src/agent/policy/risk.ts lets run without an approval.
use cli_model_gateway.Base.{
  ◌≤◌, ◌≡◌, refl, ap, String, Bool, true, false, Option, none, some, arith, ==_iff, ==_refl, ◌⊎◌,
  ◌↔◌, nat_eq, string_eq,
}
use cli_model_gateway.Policy.{
  Tier, Effect, read, rank, Action, RiskStep, effect_tier, base_tier, raise_tier, classify,
  is_approved, can_auto_run,
}

raise_tier-ge : (s : Option Tier) (t : Tier) → rank t ≤ rank (raise_tier s t)
raise_tier-ge none t = omega arith
raise_tier-ge (some s) t = ground arith

base_tier-low : (e : Option Effect) (x : Option Bool) → rank (base_tier e x) ≤ 1 → e ≡ some read
unfolding effect_tier
base_tier-low none x h = absurd (omega arith)
base_tier-low (some read) x h = refl
base_tier-low (some _) x h = absurd (omega arith)

base_tier-read : (x : Option Bool) → rank (base_tier (some read) x) ≤ 1
unfolding effect_tier
base_tier-read x = ground arith

-- A requested tier of at most R1, or none at all.
abbrev pub IsLow : Option Tier → Type 0
IsLow none = Unit {0}
IsLow (some t) = rank t ≤ 1

raise_tier-IsLow : (s : Option Tier) (t : Tier) → rank (raise_tier s t) ≤ 1 → IsLow s × (rank t ≤ 1)
raise_tier-IsLow none t h = (tt, h)
raise_tier-IsLow (some s) t h = ground arith

raise_tier_of : (s : Option Tier) (t : Tier) → IsLow s → rank t ≤ 1 → rank (raise_tier s t) ≤ 1
raise_tier_of none t l h = h
raise_tier_of (some s) t l h = ground arith

module _ {Other : Type 0} where
  -- A step goes without approval exactly when its effect is stated, is a read, and no tier above R1
  -- is asked for.
  pub needs_approval_iff :
      (a : Action Other)
      → ((classify a).needs_approval ≡ false) ↔ ((a.effect ≡ some read) × IsLow a.tier)
  unfolding classify
  needs_approval_iff a = (
    λ h.
        let low = raise_tier-IsLow a.tier (base_tier a.effect a.external) (ground arith) in
        (base_tier-low a.effect a.external low.1, low.0),
    λ (e, l).
        let low =
          raise_tier_of a.tier (base_tier (some read) a.external) l (base_tier-read a.external) in
        rw e (ground arith),
  )

  -- The tier found is never below the tier asked for, nor below that of the effect alone, and it is
  -- one of the two.
  pub classify-tier_bounds :
      (a : Action Other) (t : Tier)
      → a.tier ≡ some t
      → (rank t ≤ rank (classify a).tier)
        × (rank (base_tier a.effect a.external) ≤ rank (classify a).tier)
        × (((classify a).tier ≡ t) ⊎ ((classify a).tier ≡ base_tier a.effect a.external))
  unfolding classify
  classify-tier_bounds a t e = (
    rw e (ground arith),
    raise_tier-ge a.tier (base_tier a.effect a.external),
    rw e (ground arith),
  )

module _ {Other : Type 0} (digest : Action Other → String) where
  -- What runs by itself is a read of tier R1 at most, switched on, and approved under the digest of
  -- this very action.
  pub can_auto_run_iff :
      (s : RiskStep Other)
      → (can_auto_run digest s ≡ true) ↔ (
          (s.action.effect ≡ some read)
          × IsLow s.action.tier
          × (s.auto_run ≡ some true)
          × (s.auto_run_approval_digest ≡ some (digest s.action)))
  unfolding can_auto_run
  can_auto_run_iff s = (
    λ h.
        let free = (needs_approval_iff s.action).0 (unfold classify in ground arith) in
        (free.0, free.1, ground arith, approved s.auto_run_approval_digest (ground arith)),
    λ (e, l, on, d).
        let free = (needs_approval_iff s.action).1 (e, l) in
        let low : rank (classify s.action).tier ≤ 1 = unfold classify in ground arith in
        ground (arith, ==_refl (digest s.action)),
  )
    where
      approved :
          (d : Option String) → is_approved digest d s.action ≡ true → d ≡ some (digest s.action)
      approved none h = cc
      approved (some d) h = ap some ((==_iff d (digest s.action)).0 h)
