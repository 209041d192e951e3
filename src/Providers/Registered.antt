-- ===== src/Providers/Registered.antt =====
-- The tables that `create` of src/providers/registry.ts builds, and the models that the search for a fallback and the
-- choice for `auto` find in them.
use cli_model_gateway.Base.{
  ℕ, ◌≡◌, ◌≢◌, refl, ap, String, Bool, true, false, ◌&&◌, some, [], ◌∷◌, List, arith, ◌==◌, ==_iff,
  Table, Each, values, get, set, has, Outcome, ◌>>=◌, returns, throws, get-has, IsUnique,
  set-IsUnique, Each-set, Bool-cases, inl, inr, nat_eq, string_eq, length, filter, All,
}
use cli_model_gateway.Providers.Bindings.{
  ModelBinding, Provider, ModelConfig, Tables, Request, supports_request, add_models, add_providers,
  create, bind_model, no_tables, next_index, some_providers,
}
use cli_model_gateway.Providers.Auto.{
  Scores, insert_by, sort_by, rank_auto, select_auto, ranks_before,
}

abbrev pub IsBinding : String → ModelBinding → Type 0
IsBinding id b =
    (b.model_id ≡ id) × (id ≢ "auto") × (b.auto_eligible ≡ true → b.manual_only ≡ false)

-- Each model stands under its own id, once, and none that must be named is chosen for `auto`.
pub record IsRegistry (models : Table String ModelBinding) : Type 0 where
  pub unique : IsUnique models
  pub bindings : Each IsBinding models

module _ {A : Type 0} where
  pub All-mono : (P Q : A → Type 0) → ((x : A) → P x → Q x) → (xs : List A) → All P xs → All Q xs
  All-mono P Q f [] a = tt
  All-mono P Q f (x ∷ xs) (p, a) = (f x p, All-mono P Q f xs a)

  pub All-filter_by :
      (P Q : A → Type 0) (p : A → Bool)
      → ((x : A) → P x → p x ≡ true → Q x)
      → (xs : List A) → All P xs
      → All Q (filter p xs)
  All-filter_by P Q p f [] a = tt
  All-filter_by P Q p f (x ∷ xs) (h, a) = elim (Bool-cases (p x)) [
    | inl y ↦ rw y (f x h y, All-filter_by P Q p f xs a)
    | inr n ↦ rw n (All-filter_by P Q p f xs a)
  ]

  pub All-insert_by :
      (P : A → Type 0) (precedes : A → A → Bool) (x : A) (xs : List A)
      → P x
      → All P xs
      → All P (insert_by precedes x xs)
  unfolding insert_by
  All-insert_by P precedes x [] h a = (h, tt)
  All-insert_by P precedes x (y ∷ ys) h (g, a) = elim (Bool-cases (precedes y x)) [
    | inl e ↦ rw e (g, All-insert_by P precedes x ys h a)
    | inr e ↦ rw e (h, (g, a))
  ]

  pub All-sort_by :
      (P : A → Type 0) (precedes : A → A → Bool) (xs : List A)
      → All P xs
      → All P (sort_by precedes xs)
  unfolding sort_by
  All-sort_by P precedes [] a = tt
  All-sort_by P precedes (x ∷ xs) (h, a) =
      All-insert_by P precedes x (sort_by precedes xs) h (All-sort_by P precedes xs a)

-- A model that is found under its own id.
abbrev pub IsFound : Table String ModelBinding → ModelBinding → Type 0
IsFound models b =
    (get b.model_id models ≡ some b) × (b.auto_eligible ≡ true → b.manual_only ≡ false)

values-IsFound :
    (models : Table String ModelBinding)
    → IsUnique models
    → Each IsBinding models
    → All (IsFound models) (values models)
unfolding get
values-IsFound [] u e = tt
values-IsFound ((k, b) ∷ t) (n, u) ((own, _, auto), e) = (
  (ground (arith, ==_iff k b.model_id), auto),
  All-mono (IsFound t) (IsFound ((k, b) ∷ t))
      (λ w f. (ground (arith, f.0, get-has w.model_id t f.0, ==_iff k w.model_id), f.1)) (values t)
      (values-IsFound t u e),
)

-- A model that was chosen without being named.
abbrev pub IsChosen : Request → Table String ModelBinding → ModelBinding → Type 0
IsChosen request models b =
    (get b.model_id models ≡ some b)
    × (b.manual_only ≡ false)
    × (supports_request request (some b) ≡ true)

module _ (scores : Scores) (score : ModelBinding → scores.Score) (request : Request)
    (models : Table String ModelBinding) (registry : IsRegistry models) where
  rank_auto-IsChosen : All (IsChosen request models) (rank_auto scores score request models)
  unfolding rank_auto
  rank_auto-IsChosen = All-sort_by (IsChosen request models) (ranks_before scores score) _ (
      All-filter_by (IsFound models) (IsChosen request models)
        (λ b. b.auto_eligible && supports_request request (get b.model_id models))
        (λ b f h.
          (f.0, f.1 (ground (arith, h)), ground (arith, h, ap (supports_request request) f.0)))
        (values models) (values-IsFound models registry.unique registry.bindings))

  pub select_auto-IsChosen :
      (eligible : ModelBinding → Bool)
      → All
          (λ b. IsChosen request models b × (eligible b ≡ true))
          (select_auto scores score request eligible models)
  unfolding select_auto
  select_auto-IsChosen eligible =
      All-filter_by (IsChosen request models) (λ b. IsChosen request models b × (eligible b ≡ true))
        eligible (λ b f h. (f, h)) (rank_auto scores score request models) rank_auto-IsChosen

pub bind_model-IsBinding :
    (p : Provider) (index : ℕ) (m : ModelConfig)
    → m.id ≢ "auto"
    → IsBinding m.id (bind_model p index m)
bind_model-IsBinding p index m n = (refl, n, λ h. ground (arith, h))

abbrev pub TablesOk : Outcome Tables (Unit {0}) → Type 0
TablesOk (returns a t) = IsRegistry t.models
TablesOk (throws e t) = IsRegistry t.models

-- The tables after an error are well formed, too.
add_models-IsRegistry :
    (p : Provider) (ms : List ModelConfig) (t : Tables)
    → IsRegistry t.models
    → TablesOk (add_models p ms t)
unfolding add_models
add_models-IsRegistry p [] t r = r
add_models-IsRegistry p (m ∷ ms) t r = elim (Bool-cases (m.id == "auto")) [
  | inl y ↦ rw y r
  | inr n ↦ elim (Bool-cases (has m.id t.models)) [
    | inl y ↦ rw (n, y) r
    | inr x ↦
        rw (n, x)
          (add_models-IsRegistry p ms
            (record t {
              models = set m.id (bind_model p t.index m) t.models;
              index = next_index m t.index;
            })
            (record {
              unique = set-IsUnique m.id (bind_model p t.index m) t.models r.unique;
              bindings =
                  Each-set IsBinding m.id (bind_model p t.index m) t.models
                    (bind_model-IsBinding p t.index m
                      (λ same. absurd (ground (arith, ==_iff m.id "auto"))))
                    r.bindings;
            }))
  ]
]

add_providers-IsRegistry :
    (configs : List (Provider × List ModelConfig)) (t : Tables)
    → IsRegistry t.models
    → TablesOk (add_providers configs t)
unfolding add_providers
add_providers-IsRegistry [] t r = r
add_providers-IsRegistry ((p, ms) ∷ ps) t r = elim (Bool-cases (has p.provider_id t.providers)) [
  | inl y ↦ rw y r
  | inr n ↦ rw n (
      rest (add_models p ms (record t { providers = set p.provider_id p t.providers }))
        (add_models-IsRegistry p ms (record t { providers = set p.provider_id p t.providers }) r)
        (λ u q. add_providers-IsRegistry ps u q))
]
  where
    rest :
        (o : Outcome Tables (Unit {0}))
        → TablesOk o
        → ((u : Tables) → IsRegistry u.models → TablesOk (add_providers ps u))
        → TablesOk (◌>>=◌ (λ (_ : Tables). o) (λ _. add_providers ps) t)
    rest (returns a u) q k = k u q
    rest (throws e u) q k = q

-- After `create`, whether it throws or not, each model stands under its own id, no id is there twice or
-- is "auto", and no model that must be named is eligible for `auto`.
pub create-IsRegistry : (configs : List (Provider × List ModelConfig)) → TablesOk (create configs)
unfolding create
create-IsRegistry configs =
    go (add_providers configs no_tables)
      (add_providers-IsRegistry configs no_tables (record { unique = tt; bindings = tt }))
  where
    go :
        (o : Outcome Tables (Unit {0}))
        → TablesOk o
        → TablesOk (◌>>=◌ (λ (_ : Tables). o) (λ _. some_providers) no_tables)
    go (throws e t) q = q
    go (returns a t) q = elim (Bool-cases (length t.providers == 0)) [
      | inl y ↦ rw y q
      | inr n ↦ rw n q
    ]
