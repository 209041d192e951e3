-- ===== src/Providers/Tests.antt =====
-- Runs of the routing of src/providers/registry.ts on two models of one provider.
use mathlib.Core.List.{Perm}
use cli_model_gateway.Base.{
  map, Option, List, ℕ, suc, ◌≡◌, refl, String, true, false, ◌&&◌, none, some, [], ◌∷◌, arith, ltb,
  ◌==◌, ==_iff, if◌then◌else◌, Table, values, get, has, nat_eq, string_eq, filter, codes,
}
use cli_model_gateway.Stats.Classify.{no_capacity}
use cli_model_gateway.Stats.{ModelStatsTracker, no_stats}
use cli_model_gateway.Utils.Execution.{ExecutionPolicy, limits}
use cli_model_gateway.Providers.Bindings.{
  Error, upstream, ModelBinding, Provider, ModelConfig, Request, bind_model, chat_completions,
  absent, create, normalize_capabilities, can_serve, supports_request,
}
use cli_model_gateway.Providers.Auto.{Scores, rank_auto, select_evaluator, sort_by, insert_by}
use cli_model_gateway.Providers.Routing.{
  StreamEvent, output_text_delta, done, other_event, Services, Answer, answered, refused, Routing,
  give,
}
use cli_model_gateway.Providers.Next.{skip_reason}
use cli_model_gateway.Providers.Run.{loop}
use cli_model_gateway.Providers.Model.{new_routing, run_model}
use cli_model_gateway.Providers.Hoare.{Ensures}
use cli_model_gateway.Providers.Registered.{
  IsRegistry, bind_model-IsBinding, TablesOk, create-IsRegistry,
}
use cli_model_gateway.Providers.Safety.{IsSafe, Served, run_model-Ensures}
use cli_model_gateway.Providers.Fuel.{unvisited, loop-fuel}
use cli_model_gateway.Providers.Answers.{Gives, run_model-Gives}
use cli_model_gateway.Providers.Ranking.{IsOrder, IsInOrder, IsRightlyBefore, rank_auto-IsInOrder}
use cli_model_gateway.Providers.Choice.{IsEvaluator, select_evaluator-IsEvaluator}
use cli_model_gateway.Providers.Stream.{run_model_stream_within}
use cli_model_gateway.Providers.OneSource.{IsOneSource}
use cli_model_gateway.Providers.StreamRuns.{run_model_stream_within-IsOneSource}

abbrev main_id : String
main_id = "main"

abbrev backup_id : String
backup_id = "backup"

abbrev office : Provider
office = record {
  provider_id = "office";
  is_cli = false;
  auth_fail_fast = true;
  retry_allowed = λ e. false;
  can_stream = true;
}

abbrev main_config : ModelConfig
main_config = record {
  id = main_id;
  upstream_model = none;
  fallback_models = backup_id ∷ [];
  declared = [];
  auto_eligible = none;
  manual_only = none;
}

abbrev backup_config : ModelConfig
backup_config = record {
  id = backup_id;
  upstream_model = none;
  fallback_models = [];
  declared = [];
  auto_eligible = none;
  manual_only = none;
}

abbrev main_binding : ModelBinding
main_binding = bind_model office 0 main_config

abbrev backup_binding : ModelBinding
backup_binding = bind_model office 1 backup_config

abbrev two_models : Table String ModelBinding
two_models = (main_id, main_binding) ∷ (backup_id, backup_binding) ∷ []

two_models-IsRegistry : IsRegistry two_models
two_models-IsRegistry = record {
  unique = (unfold has in refl, (unfold has in refl, tt));
  bindings = (
    bind_model-IsBinding office 0 main_config
        (λ e. absurd (ground (arith, (==_iff main_id "auto").1 e))),
    (
      bind_model-IsBinding office 1 backup_config
          (λ e. absurd (ground (arith, (==_iff backup_id "auto").1 e))),
      tt,
    ),
  );
}

abbrev overloaded : Error
overloaded = record {
  class = upstream no_capacity;
  uncertain = false;
  message = codes "overloaded";
}

abbrev reply : String → Answer ℕ
reply id = if id == "backup" then answered 42 else refused overloaded

abbrev events_of : String → List StreamEvent
events_of id =
    if id == "backup" then output_text_delta (codes "hi") ∷ done false ∷ [] else other_event ∷ []

abbrev ending_of : String → Option Error
ending_of id = if id == "backup" then none else some overloaded

-- A clock that counts its readings; only the second model answers.
abbrev services : Services ℕ ℕ
services = record {
  tick = λ w. (w, suc w);
  call = λ b q w. (reply b.model_id, w);
  delay = λ b e w. (true, w);
  judge = λ q b r. none;
  stream = λ b q w. ((events_of b.model_id, ending_of b.model_id), w);
  tool_call_count = λ r. 0;
}

abbrev by_number : Scores
by_number = record { Score = ℕ; higher = λ a b. ltb b a }

abbrev no_score : Request → ModelStatsTracker → ModelBinding → ℕ
no_score q t b = 0

abbrev question : Request
question = record {
  kind = some chat_completions;
  tool_count = 0;
  metadata_tools = false;
  metadata_functions = false;
  tool_choice = absent;
  function_call = absent;
  other_roles = false;
  stateful = false;
}

abbrev unlimited : ExecutionPolicy
unlimited = limits none "request" main_id 0

abbrev fresh_routing : Routing ℕ
fresh_routing = new_routing no_stats unlimited 100

run_model-Ensures_example :
    Ensures
      (Served by_number no_score services two_models two_models-IsRegistry question main_id)
      (IsSafe two_models question main_id)
      (run_model by_number no_score services two_models question main_id 3 fresh_routing)
run_model-Ensures_example =
    run_model-Ensures by_number no_score services two_models two_models-IsRegistry question main_id
      3 fresh_routing tt

loop-fuel_example :
    loop by_number no_score services two_models question main_id
      (λ _. give none)
      3
      []
      main_id
      fresh_routing
    ≡ loop by_number no_score services two_models question main_id
        (λ id. give (some (record { served_model = id; result = 0 })))
        7
        []
        main_id
        fresh_routing
loop-fuel_example =
    loop-fuel by_number no_score services two_models two_models-IsRegistry question main_id
      (λ _. give none) (λ id. give (some (record { served_model = id; result = 0 }))) 3 7 [] main_id
      fresh_routing (unfold unvisited in omega arith) (unfold unvisited in omega arith)

create-IsRegistry_example : TablesOk (create ((office, main_config ∷ backup_config ∷ []) ∷ []))
create-IsRegistry_example = create-IsRegistry ((office, main_config ∷ backup_config ∷ []) ∷ [])

run_model-Gives_example :
    Gives
      (λ a t. a ≡ record { served_model = backup_id; result = 42 })
      (run_model by_number no_score services two_models question backup_id 2 fresh_routing)
unfolding can_serve get skip_reason normalize_capabilities
run_model-Gives_example =
    run_model-Gives by_number no_score services two_models question backup_id backup_binding 42 refl
      (λ w. refl) refl no_stats refl (λ now. refl) refl 1 fresh_routing
      ((refl, refl, refl), refl, refl)

by_number-IsOrder : IsOrder by_number.higher
by_number-IsOrder = record { asym = λ x y h. ground arith; weak = λ x y z h g. ground arith }

-- The second model has the higher score.
abbrev backup_score : ModelBinding → ℕ
backup_score b = if b.model_id == backup_id then 9 else 4

rank_auto-IsInOrder_example :
    IsInOrder
      (IsRightlyBefore by_number backup_score)
      (rank_auto by_number backup_score question two_models)
    × Perm (rank_auto by_number backup_score question two_models) (
        filter
          (λ b. b.auto_eligible && supports_request question (get b.model_id two_models))
          (values two_models))
rank_auto-IsInOrder_example =
    rank_auto-IsInOrder by_number by_number-IsOrder backup_score question two_models

-- It comes first, though it was registered second.
backup_first :
    map (λ b. b.model_id) (rank_auto by_number backup_score question two_models)
    ≡ backup_id ∷ main_id ∷ []
unfolding rank_auto sort_by insert_by supports_request get normalize_capabilities
backup_first = refl

select_evaluator-IsEvaluator_example :
    IsEvaluator main_id two_models none (select_evaluator (λ a b. false) none main_id two_models)
select_evaluator-IsEvaluator_example =
    select_evaluator-IsEvaluator (λ a b. false) none main_id two_models

run_model_stream_within-IsOneSource_example :
    Ensures
      (λ _. IsOneSource)
      IsOneSource
      (run_model_stream_within by_number no_score services two_models question main_id 3
        fresh_routing)
run_model_stream_within-IsOneSource_example =
    run_model_stream_within-IsOneSource by_number no_score services two_models two_models-IsRegistry
      question main_id 3 fresh_routing (refl, tt)
