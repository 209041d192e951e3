-- ===== src/Providers/Bindings.antt =====
-- The models of the registry in src/providers/registry.ts, what a request needs (src/utils/request-capability.ts) and when
-- it may be sent again (`replaySafeChat` in src/utils/upstream-error.ts).
use cli_model_gateway.Base.{
  ℕ, ◌+◌, String, Bool, true, false, not, ◌&&◌, ◌||◌, Option, none, some, [], ◌∷◌, ◌++◌, List, ltb,
  ◌==◌, if◌then◌else◌, Table, set, has, Outcome, Act, ◌>>=◌, returns, throws, nat_eq, string_eq,
  length, any, codes,
}
use cli_model_gateway.Stats.Classify.{UpstreamCode, Thrown}

pub data Capability : Type 0 where
  chat responses tools streaming reasoning structured_outputs image_generation : Capability

abbrev pub capability_index : Capability → ℕ
capability_index chat = 0
capability_index responses = 1
capability_index tools = 2
capability_index streaming = 3
capability_index reasoning = 4
capability_index structured_outputs = 5
capability_index image_generation = 6

abbrev pub same_capability : Capability → Capability → Bool
same_capability a b = capability_index a == capability_index b

pub data ErrorClass : Type 0 where
  capability_error tool_contract_error ordinary : ErrorClass
  upstream : UpstreamCode → ErrorClass

-- What a provider or the gateway throws.
pub record Error : Type 0 where
  pub class : ErrorClass
  pub uncertain : Bool
  pub message : List ℕ

abbrev pub plain_error : String → Error
plain_error m = record { class = ordinary; uncertain = false; message = codes m }

abbrev code_of : ErrorClass → Option UpstreamCode
code_of (upstream c) = some c
code_of _ = none

abbrev pub thrown_of : Error → Thrown
thrown_of e = record { message = e.message; code = code_of e.class }

-- A provider by what the routing reads of it and of its profile.
pub record Provider : Type 0 where
  pub provider_id : String
  pub is_cli : Bool
  pub auth_fail_fast : Bool
  pub retry_allowed : Error → Bool
  pub can_stream : Bool

pub record ModelConfig : Type 0 where
  pub id : String
  pub upstream_model : Option String
  pub fallback_models : List String
  pub declared : List Capability
  pub auto_eligible : Option Bool
  pub manual_only : Option Bool

-- `routing_index` is `none` for -1.
pub record ModelBinding : Type 0 where
  pub model_id : String
  pub provider_model : String
  pub provider : Provider
  pub fallback_model_ids : List String
  pub capabilities : List Capability
  pub auto_eligible : Bool
  pub manual_only : Bool
  pub routing_index : Option ℕ

abbrev pub has_capability : Capability → List Capability → Bool
has_capability c cs = any (λ x. same_capability x c) cs

-- `[...new Set(capabilities)]`
abbrev pub unique_capabilities : List Capability → List Capability → List Capability
unique_capabilities seen [] = seen
unique_capabilities seen (c ∷ cs) =
    let rest = unique_capabilities seen cs in
    let more = unique_capabilities (seen ++ c ∷ []) cs in
    if has_capability c seen then rest else more

unfoldable pub normalize_capabilities : List Capability → (is_cli : Bool) → List Capability
normalize_capabilities [] is_cli =
    if is_cli
    then chat ∷ responses ∷ reasoning ∷ structured_outputs ∷ []
    else chat ∷ responses ∷ tools ∷ reasoning ∷ structured_outputs ∷ []
normalize_capabilities (c ∷ cs) is_cli = unique_capabilities [] (c ∷ cs)

abbrev pub is_true : Option Bool → Bool
is_true (some true) = true
is_true _ = false

abbrev pub is_not_false : Option Bool → Bool
is_not_false (some false) = false
is_not_false _ = true

-- `||` on an optional text; an empty one counts as none.
abbrev or_text : Option String → String → String
or_text none b = b
or_text (some a) b = if a == "" then b else a

abbrev pub bind_model : Provider → ℕ → ModelConfig → ModelBinding
bind_model p index m = record {
  model_id = m.id;
  provider_model = or_text m.upstream_model m.id;
  provider = p;
  fallback_model_ids = m.fallback_models;
  capabilities = normalize_capabilities m.declared p.is_cli;
  auto_eligible = not (is_true m.manual_only) && is_not_false m.auto_eligible;
  manual_only = is_true m.manual_only;
  routing_index = if is_true m.manual_only then none else some index;
}

abbrev pub next_index : ModelConfig → ℕ → ℕ
next_index m index = if is_true m.manual_only then index else index + 1

-- The tables of the registry that routing reads.
pub record Tables : Type 0 where
  pub providers : Table String Provider
  pub models : Table String ModelBinding
  pub index : ℕ

-- The loop of `create` over the models of a provider.
unfoldable pub add_models : Provider → List ModelConfig → Act Tables (Unit {0})
add_models p [] t = returns tt t
add_models p (m ∷ ms) t =
    if m.id == "auto"
    then throws "Model id auto is reserved for gateway auto routing." t
    else if has m.id t.models
    then throws "Duplicate model id" t
    else add_models p ms (record t {
      models = set m.id (bind_model p t.index m) t.models;
      index = next_index m t.index;
    })

unfoldable pub add_providers : List (Provider × List ModelConfig) → Act Tables (Unit {0})
add_providers [] t = returns tt t
add_providers ((p, ms) ∷ ps) t =
    if has p.provider_id t.providers
    then throws "Duplicate provider id" t
    else (add_models p ms >>= λ _. add_providers ps)
        (record t { providers = set p.provider_id p t.providers })

abbrev pub no_tables : Tables
no_tables = record { providers = []; models = []; index = 0 }

abbrev pub some_providers : Act Tables (Unit {0})
some_providers t =
    if length t.providers == 0 then throws "No providers configured." t else returns tt t

-- `create`, for providers that were built from their configurations. The statistics and the benchmarks
-- that it sets up for each model are left out.
unfoldable pub create : List (Provider × List ModelConfig) → Outcome Tables (Unit {0})
create configs = (add_providers configs >>= λ _. some_providers) no_tables

pub data RequestKind : Type 0 where
  chat_completions responses_kind images_generations other_kind : RequestKind

-- `absent` stands for `undefined` and `null`.
pub data ToolChoice : Type 0 where
  absent no_tool auto_tool forced : ToolChoice

-- A request by what routing reads: the number of its tools, whether the lists in its metadata have
-- entries, whether a message has another role than `system` and `user`, and whether the metadata name
-- a session.
pub record Request : Type 0 where
  pub kind : Option RequestKind
  pub tool_count : ℕ
  pub metadata_tools : Bool
  pub metadata_functions : Bool
  pub tool_choice : ToolChoice
  pub function_call : ToolChoice
  pub other_roles : Bool
  pub stateful : Bool

abbrev chosen : ToolChoice → ToolChoice → ToolChoice
chosen absent b = b
chosen a b = a

abbrev is_forced : ToolChoice → Bool
is_forced forced = true
is_forced _ = false

unfoldable pub requires_tools : Request → Bool
requires_tools r =
    ltb 0 r.tool_count
    || r.metadata_tools
    || r.metadata_functions
    || is_forced (chosen r.tool_choice r.function_call)

abbrev pub required_capability : Option RequestKind → Option Capability
required_capability (some images_generations) = some image_generation
required_capability (some chat_completions) = some chat
required_capability (some responses_kind) = some responses
required_capability _ = none

abbrev is_text_kind : Option RequestKind → Bool
is_text_kind none = true
is_text_kind (some chat_completions) = true
is_text_kind (some responses_kind) = true
is_text_kind _ = false

unfoldable pub replay_safe : Request → Bool
replay_safe r = is_text_kind r.kind && not (ltb 0 r.tool_count || r.other_roles) && not r.stateful

abbrev pub meets : Option Capability → ModelBinding → Bool
meets none b = true
meets (some c) b = has_capability c b.capabilities

-- The tests that an attempt makes before it reaches the provider.
unfoldable pub can_serve : Request → ModelBinding → Bool
unfolding requires_tools
can_serve r b =
    meets (required_capability r.kind) b
    && not (requires_tools r && not (has_capability tools b.capabilities))

abbrev supports_kind : Option RequestKind → Request → ModelBinding → Bool
supports_kind (some images_generations) r b = has_capability image_generation b.capabilities
supports_kind _ r b = can_serve r b

-- `modelSupportsRequest`
unfoldable pub supports_request : Request → Option ModelBinding → Bool
unfolding can_serve
supports_request r none = false
supports_request r (some b) = supports_kind r.kind r b
