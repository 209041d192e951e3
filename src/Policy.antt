-- ===== src/Policy.antt =====
-- src/agent/policy/risk.ts. Tiers are compared as their texts "R0" to "R4" are. `digest` is the hash of
-- the action's canonical text, a parameter.
pub mod Approval
pub mod Tests
use cli_model_gateway.Base.{
  ℕ, zero, suc, ◌+◌, ◌-◌, ◌*◌, ◌/◌, ◌%◌, ◌<◌, ◌≤◌, min, max, ◌≡◌, ◌≢◌, refl, sym, ap, ◌∙◌, subst,
  String, Bool, true, false, not, ◌&&◌, ◌||◌, Option, none, some, [], ◌∷◌, ◌++◌, map, List, arith,
  leb, ltb, ◌==◌, ◌!=◌, ==_iff, ==_refl, if◌then◌else◌, Table, Each, keys, values, get, set, has,
  Outcome, Act, pure, ◌>>=◌, ◌>>◌, returns, throws, after, get-set, get-set_self, get-delete,
  get-has, has-get, length-set, Each-mono, has-Each, Each-set, Each-delete, Each-get, Bool-cases,
  Option-cases, inl, inr, ◌⊎◌, ◌↔◌, nat_eq, string_eq, Eq, length, any, all, filter, find,
  get_last?, get_elem?, take, drop, All, All-append, All-filter, All-find, length-append,
  length-drop, length-filter-le, find_holds, ltb→lt, leb→le,
}

pub data Tier : Type 0 where
  r0 r1 r2 r3 r4 : Tier

pub data Effect : Type 0 where
  read write execute send spend delete deploy dns merge contact : Effect

abbrev pub rank : Tier → ℕ
rank r0 = 0
rank r1 = 1
rank r2 = 2
rank r3 = 3
rank r4 = 4

-- `a > b` and `a <= b` on tiers.
abbrev pub above : Tier → Tier → Bool
above a b = ltb (rank b) (rank a)

-- `RiskStep` without the two fields that `autoRunDigest` removes. `other` stands for the further keys.
pub record Action (Other : Type 0) : Type 0 where
  pub tier : Option Tier
  pub effect : Option Effect
  pub external : Option Bool
  pub other : Other

pub record RiskStep (Other : Type 0) : Type 0 where
  pub action : Action Other
  pub auto_run : Option Bool
  pub auto_run_approval_digest : Option String

pub record Risk : Type 0 where
  pub tier : Tier
  pub effect : Effect
  pub needs_approval : Bool
  pub fresh : Bool

-- An optional Boolean as a condition.
abbrev pub is_truthy : Option Bool → Bool
is_truthy none = false
is_truthy (some b) = b

abbrev pub or_write : Option Effect → Effect
or_write none = write
or_write (some e) = e

-- The tier that an effect has by itself.
unfoldable pub effect_tier : Effect → Option Bool → Tier
effect_tier read external = if is_truthy external then r1 else r0
effect_tier write external = r2
effect_tier execute external = r3
effect_tier send external = r3
effect_tier spend external = r4
effect_tier delete external = r4
effect_tier deploy external = r4
effect_tier dns external = r4
effect_tier merge external = r4
effect_tier contact external = r4

-- `if (!step.effect) tier = "R3"`
abbrev pub base_tier : Option Effect → Option Bool → Tier
base_tier none external = r3
base_tier (some e) external = effect_tier e external

-- `if (step.tier && step.tier > tier) tier = step.tier`
abbrev pub raise_tier : Option Tier → Tier → Tier
raise_tier none t = t
raise_tier (some s) t = if above s t then s else t

abbrev pub is_r4 : Tier → Bool
is_r4 r4 = true
is_r4 _ = false

module _ {Other : Type 0} where
  unfoldable pub classify : Action Other → Risk
  unfolding effect_tier
  classify a =
      let t = raise_tier a.tier (base_tier a.effect a.external) in
      record {
        tier = t;
        effect = or_write a.effect;
        needs_approval = leb 2 (rank t);
        fresh = is_r4 t;
      }

module _ {Other : Type 0} (digest : Action Other → String) where
  abbrev pub is_approved : Option String → Action Other → Bool
  is_approved none a = false
  is_approved (some d) a = d == digest a

  unfoldable pub can_auto_run : RiskStep Other → Bool
  can_auto_run s =
      leb (rank (classify s.action).tier) 1
      && is_truthy s.auto_run
      && is_approved s.auto_run_approval_digest s.action
