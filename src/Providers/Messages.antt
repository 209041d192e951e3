-- ===== src/Providers/Messages.antt =====
-- The texts of the errors that `runModelWithin` of src/providers/registry.ts makes.
use cli_model_gateway.Base.{
  ℕ, zero, suc, ◌+◌, ◌/◌, ◌%◌, String, Option, none, some, [], ◌∷◌, ◌++◌, List, ltb, ◌==◌,
  if◌then◌else◌, nat_eq, string_eq, codes,
}
use cli_model_gateway.Stats.Classify.{FailureKind, kind_index, unknown, auth}
use cli_model_gateway.Stats.{
  SuggestedState, healthy, degraded, limited, no_capacity, no_quota, auth_blocked, cooldown,
  ModelSnapshot, same_kind,
}

abbrev digit : ℕ → ℕ
digit n = n % 10 + 48

-- A number has at most as many digits as the fuel.
unfoldable pub decimal : (fuel n : ℕ) → List ℕ
decimal zero n = []
decimal (suc fuel) n =
    let front = decimal fuel (n / 10) in if ltb n 10 then digit n ∷ [] else front ++ digit n ∷ []

abbrev state_text : SuggestedState → String
state_text healthy = "healthy"
state_text degraded = "degraded"
state_text limited = "rate_limited"
state_text no_capacity = "capacity_exhausted"
state_text no_quota = "quota_exhausted"
state_text auth_blocked = "auth_blocked"
state_text cooldown = "cooldown"

abbrev kind_texts : List String
kind_texts =
    "rate_limited" ∷ "capacity_exhausted" ∷ "quota_exhausted" ∷ "timeout" ∷ "auth" ∷ "provider_exit"
    ∷ "config" ∷ "model_unavailable" ∷ "invalid_model" ∷ "unknown" ∷ []

abbrev nth_text : ℕ → List String → String
nth_text n [] = ""
nth_text zero (t ∷ ts) = t
nth_text (suc n) (t ∷ ts) = nth_text n ts

abbrev snapshot_text : Option ModelSnapshot → String
snapshot_text none = "degraded"
snapshot_text (some s) = state_text s.state

abbrev unavailable_state : FailureKind → Option ModelSnapshot → String
unavailable_state k s =
    if same_kind k auth
    then "auth_blocked"
    else if same_kind k unknown
    then snapshot_text s
    else nth_text (kind_index k) kind_texts

abbrev retry_text : Option ModelSnapshot → List ℕ
retry_text none = []
retry_text (some s) =
    if s.cooldown_seconds == 0
    then []
    else codes " Retry after about "
      ++ decimal (suc s.cooldown_seconds) s.cooldown_seconds
      ++ codes " seconds."

abbrev pub unavailable_text : String → FailureKind → Option ModelSnapshot → List ℕ
unavailable_text id k s =
    codes "Model "
    ++ codes id
    ++ codes " is temporarily unavailable ("
    ++ codes (unavailable_state k s)
    ++ codes ")."
    ++ retry_text s

abbrev pub skipped_text : String → FailureKind → List ℕ
skipped_text id k =
    codes "Model "
    ++ codes id
    ++ codes " is temporarily unavailable ("
    ++ codes (nth_text (kind_index k) kind_texts)
    ++ codes ")."

abbrev joined : String → List String → List ℕ
joined a [] = codes a
joined a (b ∷ bs) = codes a ++ codes " -> " ++ joined b bs

abbrev chain_ids : List String → List ℕ
chain_ids [] = []
chain_ids (a ∷ rest) = joined a rest

abbrev pub chain_text : List String → List ℕ → List ℕ
chain_text attempted message =
    codes "Model execution failed after fallback chain: "
    ++ chain_ids attempted
    ++ codes ".\nLast error: "
    ++ message
