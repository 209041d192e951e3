-- ===== src/Providers/Auto.antt =====
-- The choice of models by the registry of src/providers/registry.ts: the ranking for `auto`, the candidates for a benchmark,
-- the evaluator of answers and the model for images. The scores, which are floating-point numbers made
-- of names, benchmarks and health, are a parameter with their order.
use cli_model_gateway.Base.{
  ℕ, ◌-◌, String, Bool, true, false, not, ◌&&◌, ◌||◌, Option, none, some, [], ◌∷◌, ◌++◌, List, leb,
  ltb, ◌==◌, ◌!=◌, if◌then◌else◌, Table, values, get, nat_eq, string_eq, length, any, filter, find,
  take,
}
use cli_model_gateway.Providers.Bindings.{
  chat, responses, image_generation, has_capability, ModelBinding, Request, supports_request,
}

pub record Scores : Type 1 where
  pub Score : Type 0
  pub higher : Score → Score → Bool

module _ {A : Type 0} where
  -- A stable sort: `precedes x y` puts `x` before `y`, and otherwise the order stays.
  unfoldable pub insert_by : (A → A → Bool) → A → List A → List A
  insert_by precedes x [] = x ∷ []
  insert_by precedes x (y ∷ ys) = if precedes y x then y ∷ insert_by precedes x ys else x ∷ y ∷ ys

  unfoldable pub sort_by : (A → A → Bool) → List A → List A
  unfolding insert_by
  sort_by precedes [] = []
  sort_by precedes (x ∷ xs) = insert_by precedes x (sort_by precedes xs)

-- -1 comes before every index.
abbrev pub index_before : Option ℕ → Option ℕ → Bool
index_before none none = false
index_before none (some n) = true
index_before (some m) none = false
index_before (some m) (some n) = ltb m n

module _ (scores : Scores) (score : ModelBinding → scores.Score) where
  open scores use {higher}

  -- `b.score - a.score || a.index - b.index`
  abbrev pub ranks_before : ModelBinding → ModelBinding → Bool
  ranks_before a b =
      higher (score a) (score b)
      || (not (higher (score b) (score a)) && index_before a.routing_index b.routing_index)

  -- `rankAutoCandidatesWithProfile`
  unfoldable pub rank_auto : Request → Table String ModelBinding → List ModelBinding
  unfolding sort_by
  rank_auto request models = sort_by ranks_before (
      filter (λ b. b.auto_eligible && supports_request request (get b.model_id models))
        (values models))

  -- `selectAutoModel`: the first of those that the filter keeps, and the rest as fallbacks.
  unfoldable pub select_auto :
      Request → (ModelBinding → Bool) → Table String ModelBinding → List ModelBinding
  unfolding rank_auto
  select_auto request eligible models = filter eligible (rank_auto request models)

-- `bindingCanEvaluateQuality`, which is also the test of the candidates for a benchmark.
abbrev pub can_evaluate : ModelBinding → Bool
can_evaluate b =
    if has_capability image_generation b.capabilities && length b.capabilities == 1
    then false
    else has_capability chat b.capabilities || has_capability responses b.capabilities

abbrev pub has_id : String → List ModelBinding → Bool
has_id id bs = any (λ b. b.model_id == id) bs

abbrev pub has_provider : String → List ModelBinding → Bool
has_provider p bs = any (λ b. b.provider.provider_id == p) bs

-- The first loop of `selectBenchmarkCandidates`: one model of each provider. `true` if the limit is met.
unfoldable pub one_each : ℕ → List ModelBinding → List ModelBinding → List ModelBinding × Bool
one_each limit selected [] = (selected, false)
one_each limit selected (b ∷ bs) =
    let skipped = one_each limit selected bs in
    let more = one_each limit (selected ++ b ∷ []) bs in
    if has_provider b.provider.provider_id selected
    then skipped
    else if leb limit (length (selected ++ b ∷ []))
    then (selected ++ b ∷ [], true)
    else more

module _ (priority_before : ModelBinding → ModelBinding → Bool) where
  abbrev fill : ℕ → List ModelBinding → List ModelBinding × Bool → List ModelBinding
  fill limit candidates (selected, true) = selected
  fill limit candidates (selected, false) =
      selected
      ++ take (limit - length selected)
          (sort_by priority_before (filter (λ b. not (has_id b.model_id selected)) candidates))

  -- A limit of 0 stands for none, and for one that is not positive.
  unfoldable pub benchmark_candidates : ℕ → Table String ModelBinding → List ModelBinding
  unfolding one_each sort_by
  benchmark_candidates limit models =
      let candidates = filter (λ b. b.auto_eligible && can_evaluate b) (values models) in
      if limit == 0 || leb (length candidates) limit
      then candidates
      else fill limit candidates (one_each limit [] candidates)

pub data Evaluator : Type 0 where
  evaluator : ModelBinding → Evaluator
  no_evaluator not_configured is_manual is_tested not_chat : Evaluator

abbrev pub first_of : List ModelBinding → Evaluator
first_of [] = no_evaluator
first_of (b ∷ bs) = evaluator b

abbrev pub preferred : String → Option ModelBinding → Evaluator
preferred tested none = not_configured
preferred tested (some b) =
    if b.manual_only
    then is_manual
    else if b.model_id == tested
    then is_tested
    else if can_evaluate b
    then evaluator b
    else not_chat

module _ (evaluates_before : ModelBinding → ModelBinding → Bool) where
  -- `selectQualityEvaluatorBinding`
  unfoldable pub select_evaluator :
      Option String → (tested : String) → Table String ModelBinding → Evaluator
  unfolding sort_by
  select_evaluator none tested models = first_of (
      sort_by evaluates_before
        (filter (λ b. not b.manual_only && b.model_id != tested && can_evaluate b) (values models)))
  select_evaluator (some id) tested models = preferred tested (get id models)

abbrev pub makes_images : Option ModelBinding → Bool
makes_images none = false
makes_images (some b) = has_capability image_generation b.capabilities

abbrev id_of : Option ModelBinding → Option String
id_of none = none
id_of (some b) = some b.model_id

abbrev or_id : Option ModelBinding → Option String → Option String
or_id none other = other
or_id (some b) other = some b.model_id

abbrev binding_of : Option String → Table String ModelBinding → Option ModelBinding
binding_of none models = none
binding_of (some id) models = get id models

-- `resolvePreferredImageGenerationModel`
unfoldable pub image_model : Option String → Table String ModelBinding → Option String
image_model requested models =
    if makes_images (binding_of requested models)
    then id_of (binding_of requested models)
    else or_id
        (find (λ b. not b.manual_only && has_capability image_generation b.capabilities)
          (values models))
        (id_of (binding_of requested models))
