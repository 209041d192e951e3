-- ===== src/Providers/Model.antt =====
-- `runModel` of src/providers/registry.ts: the first model, the loop of `runModelWithin`, the error after it, and the
-- execution policy around it.
use cli_model_gateway.Base.{
  ℕ, String, Bool, true, false, Option, none, some, [], ◌∷◌, map, List, ◌==◌, if◌then◌else◌, Table,
  get, nat_eq, string_eq, codes,
}
use cli_model_gateway.Stats.{ModelStatsTracker}
use cli_model_gateway.Utils.Execution.{ExecutionPolicy, finish}
use cli_model_gateway.Providers.Bindings.{
  Error, plain_error, capability_error, requires_tools, ModelBinding, Request,
}
use cli_model_gateway.Providers.Auto.{Scores, select_auto}
use cli_model_gateway.Providers.Routing.{
  Services, Routing, Result, ok, err, Routed, ◌>>>◌, give, fail, clock,
}
use cli_model_gateway.Providers.Turns.{ProviderResult, final_error, unknown_model}
use cli_model_gateway.Providers.Run.{checked, loop}

abbrev no_tool_capable_model : Error
no_tool_capable_model = record {
  class = capability_error;
  uncertain = false;
  message = codes "Auto routing could not find a tool-capable model.";
}

abbrev pub model_ids : List ModelBinding → List String
model_ids bs = map (λ b. b.model_id) bs

module _ {W : Type 0} where
  abbrev pub new_routing : ModelStatsTracker → ExecutionPolicy → W → Routing W
  new_routing stats policy world = record {
    stats = stats;
    policy = policy;
    visited = [];
    auth_failed = [];
    pending = [];
    emergency = false;
    attempted = [];
    last_error = none;
    world = world;
    emitted = false;
    given = [];
  }

  abbrev pub finishing : Bool → (at : ℕ) → Routing W → Routing W
  finishing success at s = record s { policy = finish success at s.policy }

module _ {R W : Type 0} (scores : Scores)
    (score : Request → ModelStatsTracker → ModelBinding → scores.Score) (services : Services R W)
    (models : Table String ModelBinding) (request : Request) (requested : String) where
  abbrev pub selected : List ModelBinding → Routed W (String × List String)
  selected [] s =
      if requires_tools request
      then err no_tool_capable_model s
      else err (plain_error "Auto routing could not find a compatible model.") s
  selected (b ∷ bs) s = ok (b.model_id, model_ids bs) s

  abbrev pub named : Option ModelBinding → Routed W (String × List String)
  named none = fail (unknown_model requested)
  named (some b) = give (requested, [])

  -- The first model, and for `auto` the fallbacks.
  unfoldable pub first_model : Routed W (String × List String)
  first_model s =
      if requested == "auto"
      then selected (select_auto scores (score request s.stats) request (λ b. true) models) s
      else named (get requested models) s

  abbrev pub returned : Option (ProviderResult R) → Routed W (ProviderResult R)
  returned (some r) = give r
  returned none = λ s. err (final_error s.attempted s.last_error) s

  -- `runModelWithin`
  unfoldable pub run_model_within : (fuel : ℕ) → Routed W (ProviderResult R)
  run_model_within fuel = first_model >>> λ (id, auto_ids).
      loop scores score services models request requested (λ _. give none) fuel auto_ids id
      >>> returned

  abbrev pub finished : Bool → Routed W (Unit {0})
  finished success = clock services >>> λ at s. ok tt (finishing success at s)

  abbrev pub settled : Result W (ProviderResult R) → Result W (ProviderResult R)
  settled (ok r s) = (finished true >>> λ _. give r) s
  settled (err e s) = (finished false >>> λ _. fail e) s

  abbrev pub checks : Routed W (Unit {0})
  checks = checked scores score services models request requested

  -- The body of the `try`: `wait` checks the policy before and after.
  unfoldable pub waited : (fuel : ℕ) → Routed W (ProviderResult R)
  waited fuel =
      checks >>> λ _. checks >>> λ _. run_model_within fuel >>> λ r. checks >>> λ _. give r

  unfoldable pub run_model : (fuel : ℕ) → Routed W (ProviderResult R)
  run_model fuel s = settled (waited fuel s)
