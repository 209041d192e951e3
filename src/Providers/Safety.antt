-- ===== src/Providers/Safety.antt =====
-- What `runModel` of src/providers/registry.ts dispatches and returns.
use cli_model_gateway.Base.{
  ℕ, ◌≡◌, refl, sym, ◌∙◌, subst, String, Bool, true, false, Option, none, some, [], ◌∷◌, List,
  arith, ◌==◌, if◌then◌else◌, Table, get, Each-get, nat_eq, string_eq, All,
}
use cli_model_gateway.Stats.{ModelStatsTracker}
use cli_model_gateway.Utils.Execution.{
  ExecutionPolicy, ExecutionReceipt, attempted, start_attempt, finish, close,
}
use cli_model_gateway.Providers.Bindings.{ModelBinding, Request, can_serve, requires_tools}
use cli_model_gateway.Providers.Auto.{Scores, select_auto}
use cli_model_gateway.Providers.Routing.{Services, Routing, Result, ok, err}
use cli_model_gateway.Providers.Turns.{ProviderResult}
use cli_model_gateway.Providers.Model.{
  finishing, first_model, selected, named, returned, run_model_within, waited, settled, run_model,
  checks, finished,
}
use cli_model_gateway.Providers.Hoare.{
  Ensures, Keeps, IsFrame, bound-Ensures, bound-Keeps, if-Ensures, clock-Keeps, check-Keeps,
}
use cli_model_gateway.Providers.Registered.{IsRegistry, IsChosen, IsBinding, select_auto-IsChosen}
use cli_model_gateway.Providers.Search.{IsNext, IsNextEntry}
use cli_model_gateway.Providers.Rounds.{LoopEnds, loop-Ensures}

-- A model that must be named is the one that the request names.
abbrev IsNamedEntry : (requested id : String) → Option ModelBinding → Type 0
IsNamedEntry requested id none = Unit {0}
IsNamedEntry requested id (some b) = b.manual_only ≡ true → id ≡ requested

module _ (models : Table String ModelBinding) (request : Request) (requested : String) where
  -- A model may serve the request: it is registered, it can serve the request, and if it must be named
  -- then the request names it.
  abbrev pub MayServe : String → Type 0
  MayServe id =
      (b : ModelBinding) × (get id models ≡ some b)
      × (can_serve request b ≡ true)
      × (b.manual_only ≡ true → id ≡ requested)

  abbrev pub IsDispatch : ExecutionReceipt → Type 0
  IsDispatch (attempted model provider count at) = MayServe model
  IsDispatch _ = Unit {0}

  module _ {W : Type 0} where
    -- Each attempt was on a model that may serve the request.
    abbrev pub IsSafe : Routing W → Type 0
    IsSafe s = All IsDispatch s.policy.receipts

    IsSafe-IsFrame : IsFrame {W = W} IsSafe
    IsSafe-IsFrame = record {
      stats = λ s x i. i;
      world = λ s x i. i;
      auth_failed = λ s x i. i;
      pending = λ s x i. i;
      emergency = λ s i. i;
      attempted = λ s x i. i;
      last_error = λ s x i. i;
      signal = λ s x i. i;
    }

    finishing-IsSafe :
        (success : Bool) (at : ℕ) (s : Routing W) → IsSafe s → IsSafe (finishing success at s)
    unfolding finish
    finishing-IsSafe success at s i = go s.policy.terminal
      where
        go :
            (c : Bool) → All IsDispatch (if c then s.policy else close success at s.policy).receipts
        go true = i
        go false = (tt, i)

  abbrev IsNamed : String → Type 0
  IsNamed id = IsNamedEntry requested id (get id models)

  next-IsNamed : (v : List String) (id : String) → IsNext request models v id → IsNamed id
  next-IsNamed v id = go (get id models)
    where
      go : (o : Option ModelBinding) → IsNextEntry request v id o → IsNamedEntry requested id o
      go none n = absurd n
      go (some b) n = λ h. absurd (ground (arith, h, n.0))

module _ {R W : Type 0} (scores : Scores)
    (score : Request → ModelStatsTracker → ModelBinding → scores.Score) (services : Services R W)
    (models : Table String ModelBinding) (registry : IsRegistry models) (request : Request)
    (requested : String) where
  abbrev Safe : Routing W → Type 0
  Safe s = IsSafe models request requested s

  start-IsSafe :
      (id : String) (b : ModelBinding)
      → get id models ≡ some b
      → IsNamed models request requested id
      → can_serve request b ≡ true
      → (at : ℕ) (s : Routing W) (p : ExecutionPolicy) → Safe (record s { policy = p })
      → Safe (record s { policy = start_attempt b.model_id b.provider.provider_id at p })
  start-IsSafe id b g c h at s p i =
      let own : b.model_id ≡ id = (Each-get IsBinding id models registry.bindings g).0 in
      let named_entry = subst (λ o. IsNamedEntry requested id o) g c in
      ((b, subst (λ x. get x models ≡ some b) (sym own) g, h, λ m. own ∙ named_entry m), i)

  -- After the loop: a result names a model that may serve the request.
  abbrev pub Served : ProviderResult R → Routing W → Type 0
  Served r t = Safe t × MayServe models request requested r.served_model

  first_model-Ensures :
      (s : Routing W)
      → Safe s
      → Ensures
          (λ p t. Safe t × IsNamed models request requested p.0)
          Safe
          (first_model scores score services models request requested s)
  unfolding first_model
  first_model-Ensures s i =
      if-Ensures (requested == "auto") _ _
        (λ _.
          chosen (select_auto scores (score request s.stats) request (λ b. true) models) (
            select_auto-IsChosen scores (score request s.stats) request models registry
              (λ b. true)))
        (λ _. by_name (get requested models))
    where
      chosen :
          (bs : List ModelBinding)
          → All (λ b. IsChosen request models b × (true ≡ true)) bs
          → Ensures
              (λ p t. Safe t × IsNamed models request requested p.0)
              Safe
              (selected scores score services models request requested bs s)
      chosen [] a =
          if-Ensures (requires_tools request) _ _ (λ _. record { holds = i })
            (λ _. record { holds = i })
      chosen (b ∷ bs) ((found, _), a) = record {
        holds = (i, rw (found.0) (λ h. absurd (ground (arith, h, found.1))));
      }

      own_name : (o : Option ModelBinding) → IsNamedEntry requested requested o
      own_name none = tt
      own_name (some b) = λ h. refl

      by_name :
          (o : Option ModelBinding)
          → Ensures
              (λ p t. Safe t × IsNamed models request requested p.0)
              Safe
              (named scores score services models request requested o s)
      by_name none = record { holds = i }
      by_name (some b) = record { holds = (i, own_name (get requested models)) }

  within-Ensures :
      (fuel : ℕ) (s : Routing W)
      → Safe s
      → Ensures Served Safe (run_model_within scores score services models request requested fuel s)
  unfolding run_model_within
  within-Ensures fuel s i = bound-Ensures _ _ (first_model-Ensures s i) λ (id, auto_ids) t (j, c).
      bound-Ensures _ _
        (loop-Ensures scores score services models registry request requested Safe
          (IsSafe-IsFrame models request requested) (λ s v j. j) (IsNamed models request requested)
          (next-IsNamed models request requested) start-IsSafe fuel auto_ids id t j c)
        back
    where
      back :
          (o : Option (ProviderResult R)) (t : Routing W)
          → LoopEnds scores score services models registry request requested Safe
              (IsSafe-IsFrame models request requested)
              (λ s v j. j)
              (IsNamed models request requested)
              (next-IsNamed models request requested)
              start-IsSafe
              o
              t
          → Ensures Served Safe (returned scores score services models request requested o t)
      back none t p = record { holds = p }
      back (some r) t (p, (b, g, h, c)) = record {
        holds = (p, (b, g, h, subst (λ o. IsNamedEntry requested r.served_model o) g c));
      }

  checks-Keeps :
      (s : Routing W)
      → Safe s
      → Keeps Safe (checks scores score services models request requested s)
  checks-Keeps s i =
      let frame = IsSafe-IsFrame models request requested in
      bound-Keeps _ _ (clock-Keeps services frame s i) λ now t j. check-Keeps frame now t j

  waited-Ensures :
      (fuel : ℕ) (s : Routing W)
      → Safe s
      → Ensures Served Safe (waited scores score services models request requested fuel s)
  unfolding waited
  waited-Ensures fuel s i = bound-Keeps _ _ (checks-Keeps s i) λ _ t j.
      bound-Keeps _ _ (checks-Keeps t j) λ _ u k.
        bound-Ensures _ _ (within-Ensures fuel u k)
          λ r v l. bound-Keeps _ _ (checks-Keeps v l.0) λ _ w m. record { holds = (m, l.1) }

  finished-Keeps :
      (success : Bool) (s : Routing W)
      → Safe s
      → Keeps Safe (finished scores score services models request requested success s)
  finished-Keeps success s i =
      bound-Keeps _ _ (clock-Keeps services (IsSafe-IsFrame models request requested) s i)
        λ at t j. record { holds = finishing-IsSafe models request requested success at t j }

  -- On a well-formed registry, whatever the clock, the providers and the judgement of answers do and with
  -- any fuel: from a state whose attempts were on models that may serve the request, `run_model` attempts
  -- only such models, whether it returns or throws, and a result that it returns is from such a model.
  pub run_model-Ensures :
      (fuel : ℕ) (s : Routing W)
      → Safe s
      → Ensures Served Safe (run_model scores score services models request requested fuel s)
  unfolding run_model
  run_model-Ensures fuel s i =
      go (waited scores score services models request requested fuel s) (waited-Ensures fuel s i)
    where
      go :
          (r : Result W (ProviderResult R))
          → Ensures Served Safe r
          → Ensures Served Safe (settled scores score services models request requested r)
      go (ok r t) p =
          bound-Keeps _ _ (finished-Keeps true t p.holds.0)
            λ _ u k. record { holds = (k, p.holds.1) }
      go (err e t) p =
          bound-Keeps _ _ (finished-Keeps false t p.holds) λ _ u k. record { holds = k }
