-- ===== src/Providers/Turns.antt =====
-- The ends of a turn of the loop in `runModelWithin` of src/providers/registry.ts, the errors that it makes and the notes
-- that it takes.
use cli_model_gateway.Base.{
  ℕ, ◌-◌, String, Bool, true, false, ◌||◌, Option, none, some, ◌++◌, List, leb, if◌then◌else◌,
  nat_eq, string_eq, length, codes,
}
use cli_model_gateway.Stats.Classify.{FailureKind, auth_error}
use cli_model_gateway.Stats.{
  MutableModelStats, ModelStatsTracker, ModelSnapshot, Attempt, model_snapshot, record_failure,
}
use cli_model_gateway.Providers.Bindings.{
  Capability, chat, responses, tools, streaming, reasoning, structured_outputs, image_generation,
  Error, ErrorClass, capability_error, tool_contract_error, ordinary, upstream, plain_error,
  thrown_of, ModelBinding,
}
use cli_model_gateway.Providers.Routing.{Result, ok, err, Routing, Routed, give, add_new}
use cli_model_gateway.Providers.Messages.{chain_text}

-- A result with the model that gave it.
pub record ProviderResult (R : Type 0) : Type 0 where
  pub served_model : String
  pub result : R

-- How a turn of the loop ends: with a `return`, with a `break`, or with the model of the next turn.
pub data Turn (R : Type 0) : Type 0 where
  served : ProviderResult R → Turn R
  stopped : Turn R
  onward : String → Turn R

abbrev pub attempt_of : (requested : String) → ModelBinding → (index : ℕ) → Attempt
attempt_of requested b index = record {
  model_id = b.model_id;
  requested_model_id = requested;
  provider_id = b.provider.provider_id;
  provider_model = b.provider_model;
  attempt_index = index;
}

abbrev pub missing_attempt : (requested id : String) → (index : ℕ) → Attempt
missing_attempt requested id index = record {
  model_id = id;
  requested_model_id = requested;
  provider_id = "unknown";
  provider_model = id;
  attempt_index = index;
}

abbrev pub is_upstream : ErrorClass → Bool
is_upstream (upstream c) = true
is_upstream _ = false

abbrev pub is_auth_class : ErrorClass → Bool
is_auth_class (upstream auth_error) = true
is_auth_class _ = false

abbrev pub is_contract : ErrorClass → Bool
is_contract capability_error = true
is_contract tool_contract_error = true
is_contract _ = false

abbrev pub missing_error : String → Error
missing_error id = record {
  class = ordinary;
  uncertain = false;
  message = codes "Fallback model not found: " ++ codes id;
}

abbrev pub unknown_model : String → Error
unknown_model id = record {
  class = ordinary;
  uncertain = false;
  message = codes "Unknown model: " ++ codes id;
}

abbrev pub capability_failure : ModelBinding → (what : String) → Error
capability_failure b what = record {
  class = capability_error;
  uncertain = false;
  message =
      codes "Model "
      ++ codes b.model_id
      ++ codes " does not support "
      ++ codes what
      ++ codes " requests.";
}

abbrev pub capability_text : Option Capability → String
capability_text none = ""
capability_text (some chat) = "chat"
capability_text (some responses) = "responses"
capability_text (some tools) = "tools"
capability_text (some streaming) = "streaming"
capability_text (some reasoning) = "reasoning"
capability_text (some structured_outputs) = "structured_outputs"
capability_text (some image_generation) = "image_generation"

abbrev pub snapshot_of : (now : ℕ) → Option MutableModelStats → Option ModelSnapshot
snapshot_of now none = none
snapshot_of now (some s) = some (model_snapshot s now)

-- `attempted.length - 1`, after the id was pushed.
abbrev pub last_index : List String → ℕ
last_index attempted = length attempted - 1

-- The error after the loop.
abbrev or_no_error : Option Error → Error
or_no_error none = plain_error "Model execution failed with an unknown provider error."
or_no_error (some e) = e

abbrev message_of : Option Error → List ℕ
message_of none = codes "Unknown provider error."
message_of (some e) = e.message

abbrev is_contract_error : Option Error → Bool
is_contract_error none = false
is_contract_error (some e) = is_contract e.class

abbrev pub final_error : (attempted : List String) → Option Error → Error
final_error attempted e =
    if leb (length attempted) 1 || is_contract_error e then or_no_error e else record {
      class = ordinary;
      uncertain = false;
      message = chain_text attempted (message_of e);
    }

module _ {W A : Type 0} where
  abbrev pub rescued : Result W A → (Error → Routed W A) → Result W A
  rescued (ok a t) h = ok a t
  rescued (err e t) h = h e t

  -- `try { m } catch (e) { h }`
  abbrev pub caught : Routed W A → (Error → Routed W A) → Routed W A
  caught m h s = rescued (m s) h

module _ {W : Type 0} where
  abbrev pub change : (Routing W → Routing W) → Routed W (Unit {0})
  change f s = ok tt (f s)

  abbrev pub note_error : Error → Routed W (Unit {0})
  note_error e = change λ s. record s { last_error = some e }

  abbrev pub note_auth : Bool → String → Routed W (Unit {0})
  note_auth true p = change λ s. record s { auth_failed = add_new p s.auth_failed }
  note_auth false p = give tt

  abbrev with_kind : FailureKind × ModelStatsTracker → Routed W FailureKind
  with_kind (k, t) s = ok k (record s { stats = t })

  abbrev pub failure_noted : (now : ℕ) → Attempt → (duration : ℕ) → Error → Routed W FailureKind
  failure_noted now a duration e s =
      with_kind (record_failure now a duration (thrown_of e) s.stats) s
