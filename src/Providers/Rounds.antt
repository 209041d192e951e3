-- ===== src/Providers/Rounds.antt =====
-- The loop of `runModelWithin` in src/providers/registry.ts: what its turns leave true, and that it ends, since each turn that
-- goes on has visited one more registered model.
use cli_model_gateway.Base.{
  ℕ, zero, suc, ◌≡◌, refl, subst, String, true, false, Option, none, some, [], ◌∷◌, ◌++◌, List,
  Table, get, has, get-has, Each-get, nat_eq, string_eq,
}
use cli_model_gateway.Stats.Classify.{FailureKind}
use cli_model_gateway.Stats.{ModelStatsTracker}
use cli_model_gateway.Utils.Execution.{ExecutionPolicy, start_attempt}
use cli_model_gateway.Providers.Bindings.{ModelBinding, Request, can_serve}
use cli_model_gateway.Providers.Auto.{Scores}
use cli_model_gateway.Providers.Routing.{Services, Routing, give, mem}
use cli_model_gateway.Providers.Next.{skip_reason, find_next}
use cli_model_gateway.Providers.Turns.{ProviderResult, Turn, served, stopped, onward}
use cli_model_gateway.Providers.Run.{turn, loop, next_turn, on_binding, skipped_or_not}
use cli_model_gateway.Providers.Hoare.{
  Ensures, IsFrame, bound-Ensures, bound-Keeps, Ensures-mono, if-Ensures, clock-Keeps,
}
use cli_model_gateway.Providers.Registered.{IsRegistry, IsBinding}
use cli_model_gateway.Providers.Search.{IsNext, find_next-Ensures}
use cli_model_gateway.Providers.Rules.{
  NextOf, Ends, checked-Keeps, missing-Ends, skipped-Ends, attempted_on-Ends,
}

module _ {R W : Type 0} (scores : Scores)
    (score : Request → ModelStatsTracker → ModelBinding → scores.Score) (services : Services R W)
    (models : Table String ModelBinding) (registry : IsRegistry models) (request : Request)
    (requested : String) (J : Routing W → Type 0) (frame : IsFrame J)
    (visit : (s : Routing W) (v : List String) → J s → J (record s { visited = v }))
    (C : String → Type 0)
    (next : (v : List String) (id : String) → IsNext request models v id → C id)
    (start : (id : String) (b : ModelBinding)
      → get id models ≡ some b
      → C id
      → can_serve request b ≡ true
      → (at : ℕ) (s : Routing W) (p : ExecutionPolicy) → J (record s { policy = p })
      → J (record s { policy = start_attempt b.model_id b.provider.provider_id at p })) where
  -- A model that was found under an id that may be tried, and that can serve the request.
  abbrev pub Serves : String → Type 0
  Serves id = (b : ModelBinding) × (get id models ≡ some b) × (can_serve request b ≡ true) × C id

  abbrev Seen : List String → Routing W → Type 0
  Seen v s = J s × (s.visited ≡ v)

  Seen-IsFrame : (v : List String) → IsFrame (Seen v)
  Seen-IsFrame v = record {
    stats = λ s x i. (frame.stats s x i.0, i.1);
    world = λ s x i. (frame.world s x i.0, i.1);
    auth_failed = λ s x i. (frame.auth_failed s x i.0, i.1);
    pending = λ s x i. (frame.pending s x i.0, i.1);
    emergency = λ s i. (frame.emergency s i.0, i.1);
    attempted = λ s x i. (frame.attempted s x i.0, i.1);
    last_error = λ s x i. (frame.last_error s x i.0, i.1);
    signal = λ s x i. (frame.signal s x i.0, i.1);
  }

  -- After a turn on `id`, which had visited `v`.
  abbrev pub TurnEnds : List String → String → Turn R → Routing W → Type 0
  TurnEnds v id (served r) t = J t × Serves r.served_model
  TurnEnds v id stopped t = J t
  TurnEnds v id (onward next_id) t =
      J t × C next_id × (has id models ≡ true) × (mem id v ≡ false) × (t.visited ≡ v ++ id ∷ [])

  IsNext-Ensures :
      (v : List String) (b : ModelBinding) (auto_ids : List String) (s : Routing W)
      → Seen v s
      → Ensures
          (λ o t. Seen v t × NextOf (IsNext request models v) o)
          (Seen v)
          (find_next scores score services models request b auto_ids s)
  IsNext-Ensures v =
      find_next-Ensures scores score services models registry request v (Seen v) (Seen-IsFrame v)
        (λ s i. i.1)

  start-Seen :
      (v : List String) (id : String) (b : ModelBinding)
      → get id models ≡ some b
      → C id
      → can_serve request b ≡ true
      → (at : ℕ) (s : Routing W) (p : ExecutionPolicy) → Seen v (record s { policy = p })
      → Seen v (record s { policy = start_attempt b.model_id b.provider.provider_id at p })
  start-Seen v id b g c h at s p i = (start id b g c h at s p i.0, i.1)

  ends :
      (v : List String) (id : String) (b : ModelBinding)
      → get id models ≡ some b
      → C id
      → mem id v ≡ false
      → (t : Turn R) (s : Routing W)
      → Ends request (Seen (v ++ id ∷ [])) (IsNext request models (v ++ id ∷ [])) b t s
      → TurnEnds v id t s
  ends v id b g c m (served r) s (i, same, h) =
      let own : b.model_id ≡ id = (Each-get IsBinding id models registry.bindings g).0 in
      (i.0, rw same (rw own (b, g, h, c)))
  ends v id b g c m stopped s i = i.0
  ends v id b g c m (onward next_id) s (i, n) =
      (i.0, next (v ++ id ∷ []) next_id n, get-has id models g, m, i.1)

  binding-Ensures :
      (auto_ids : List String) (id : String) (v : List String) (s : Routing W)
      → Seen (v ++ id ∷ []) s
      → C id
      → mem id v ≡ false
      → Ensures
          (TurnEnds v id)
          J
          (on_binding scores score services models request requested auto_ids id (get id models) s)
  binding-Ensures auto_ids id v s i c m = go (get id models) refl
    where
      w : List String
      w = v ++ id ∷ []

      either :
          (b : ModelBinding)
          → get id models ≡ some b
          → (k : Option FailureKind) (t : Routing W) → Seen w t
          → Ensures
              (Ends request (Seen w) (IsNext request models w) b)
              (Seen w)
              (skipped_or_not scores score services models request requested auto_ids id b k t)
      either b g none t j =
          attempted_on-Ends scores score services models request requested (Seen w) (Seen-IsFrame w)
            (IsNext request models w) (IsNext-Ensures w) b (start-Seen w id b g c) auto_ids id t j
      either b g (some kind) t j =
          skipped-Ends scores score services models request requested (Seen w) (Seen-IsFrame w)
            (IsNext request models w) (IsNext-Ensures w) auto_ids b kind t j

      go :
          (o : Option ModelBinding)
          → get id models ≡ o
          → Ensures
              (TurnEnds v id)
              J
              (on_binding scores score services models request requested auto_ids id o s)
      go none g =
          Ensures-mono (λ a t j. rw (j.0) (j.1.0)) (λ t j. j.0)
            (missing-Ends scores score services models request requested (Seen w) (Seen-IsFrame w)
              (IsNext request models w) (IsNext-Ensures w) id s i)
      go (some b) g =
          Ensures-mono (ends v id b g c m) (λ t j. j.0)
            (bound-Keeps _ _ (clock-Keeps services (Seen-IsFrame w) s i)
              λ now t j. either b g (skip_reason now b requested t.stats) t j)

  pub turn-Ensures :
      (auto_ids : List String) (id : String) (s : Routing W)
      → J s
      → C id
      → Ensures
          (TurnEnds s.visited id)
          J
          (turn scores score services models request requested auto_ids id s)
  unfolding turn
  turn-Ensures auto_ids id s i c =
      bound-Ensures _ _
        (Ensures-mono (λ a t p. p) (λ t p. p.0)
          (checked-Keeps scores score services models request requested (Seen s.visited)
            (Seen-IsFrame s.visited) (IsNext request models s.visited) (IsNext-Ensures s.visited) s
            (i, refl)))
        λ _ t j.
          if-Ensures (mem id t.visited) _ _ (λ _. record { holds = j.0 })
            λ n.
              Ensures-mono (λ a u p. subst (λ v. TurnEnds v id a u) j.1 p) (λ u p. p)
                (binding-Ensures auto_ids id t.visited _ (visit t _ j.0, refl) c n)

  -- After the loop.
  abbrev pub LoopEnds : Option (ProviderResult R) → Routing W → Type 0
  LoopEnds none t = J t
  LoopEnds (some r) t = J t × Serves r.served_model

  pub loop-Ensures :
      (fuel : ℕ) (auto_ids : List String) (id : String) (s : Routing W)
      → J s
      → C id
      → Ensures LoopEnds J
          (loop scores score services models request requested (λ _. give none) fuel auto_ids id s)
  unfolding loop
  loop-Ensures zero auto_ids id s i c = record { holds = i }
  loop-Ensures (suc n) auto_ids id s i c =
      bound-Ensures _ _ (turn-Ensures auto_ids id s i c)
        (go (λ next_id t j d. loop-Ensures n auto_ids next_id t j d))
    where
      go :
          ((next_id : String) (t : Routing W)
            → J t
            → C next_id
            → Ensures LoopEnds J (
                loop scores score services models request requested
                  (λ _. give none)
                  n
                  auto_ids
                  next_id
                  t))
          → (a : Turn R) (t : Routing W) → TurnEnds s.visited id a t
          → Ensures LoopEnds J (
              next_turn scores score services models request requested
                (loop scores score services models request requested (λ _. give none) n auto_ids)
                a
                t)
      go k (served r) t p = record { holds = p }
      go k stopped t p = record { holds = p }
      go k (onward next_id) t p = k next_id t p.0 p.1
