-- ===== src/Stats/Classify.antt =====
-- `classifyFailure` of src/stats/model-stats.ts. What was thrown is its message, as `getErrorMessage` gives it, and
-- for an `UpstreamError` its code.
use cli_model_gateway.Base.{
  ℕ, String, Bool, Option, none, some, [], ◌∷◌, ◌++◌, List, leb, if◌then◌else◌, nat_eq, string_eq,
  length, any, codes, take, trim, lower_text, includes,
}

pub data FailureKind : Type 0 where
  rate_limited capacity_exhausted quota_exhausted timeout auth provider_exit config : FailureKind
  model_unavailable invalid_model unknown : FailureKind

abbrev pub kind_index : FailureKind → ℕ
kind_index rate_limited = 0
kind_index capacity_exhausted = 1
kind_index quota_exhausted = 2
kind_index timeout = 3
kind_index auth = 4
kind_index provider_exit = 5
kind_index config = 6
kind_index model_unavailable = 7
kind_index invalid_model = 8
kind_index unknown = 9

pub data UpstreamCode : Type 0 where
  auth_error no_model too_many no_capacity upstream_error : UpstreamCode

pub record Thrown : Type 0 where
  pub message : List ℕ
  pub code : Option UpstreamCode

-- `truncateFailureMessage`
unfoldable pub truncate_message : List ℕ → List ℕ
truncate_message message =
    if leb (length (trim message)) 1200
    then trim message
    else take 1200 (trim message) ++ codes "..."

abbrev pub includes_any : List ℕ → List String → Bool
includes_any text needles = any (λ n. includes (codes n) text) needles

-- The tests on the message in small letters, in the order of the source.
unfoldable pub kind_of_text : List ℕ → FailureKind
kind_of_text text =
    if includes_any text ("unknown model:" ∷ [])
    then invalid_model
    else if includes_any text (
        "fallback model not found" ∷ "duplicate model id" ∷ "does not expose model"
        ∷ "api_key is not set" ∷ "api key is not set" ∷ "_api_key is not set" ∷ "api key env"
        ∷ "missing api key" ∷ "missing provider api key" ∷ "environment variable" ∷ [])
    then config
    else if includes_any text
        ("insufficient_quota" ∷ "quota" ∷ "billing" ∷ "credit balance" ∷ "out of credits" ∷ [])
    then quota_exhausted
    else if includes_any text (
        "resource_exhausted" ∷ "capacity" ∷ "model exhausted" ∷ "overloaded" ∷ "no available"
        ∷ "temporarily unavailable" ∷ [])
    then capacity_exhausted
    else if includes_any text
        ("rate limit" ∷ "too many requests" ∷ "status code: 429" ∷ "http 429" ∷ "retry later" ∷ [])
    then rate_limited
    else if includes_any text ("timed out" ∷ "timeout" ∷ [])
    then timeout
    else if includes_any text (
        "unauthorized" ∷ "forbidden" ∷ "invalid api key" ∷ "authentication" ∷ "not authenticated"
        ∷ "permission denied" ∷ "access denied" ∷ [])
    then auth
    else if includes_any text ("provider command exited with code" ∷ "provider command" ∷ [])
    then provider_exit
    else unknown

abbrev pub kind_of : Option UpstreamCode → List ℕ → FailureKind
kind_of (some auth_error) text = auth
kind_of (some no_model) text = model_unavailable
kind_of (some too_many) text = rate_limited
kind_of (some no_capacity) text = capacity_exhausted
kind_of (some upstream_error) text = kind_of_text text
kind_of none text = kind_of_text text

unfoldable pub classify : Thrown → FailureKind × List ℕ
classify e =
    let message = truncate_message e.message in (kind_of e.code (lower_text message), message)
