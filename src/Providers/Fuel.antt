-- ===== src/Providers/Fuel.antt =====
-- The loop of `runModelWithin` in src/providers/registry.ts ends: each turn that goes on has visited one more registered
-- model.
use cli_model_gateway.Base.{
  ℕ, zero, suc, ◌<◌, ◌≤◌, ◌≡◌, refl, ap, String, true, false, ◌||◌, Option, none, some, [], ◌∷◌,
  ◌++◌, List, arith, ◌==◌, ==_iff, ==_refl, if◌then◌else◌, Table, get, has, Bool-cases, inl, inr,
  nat_eq, string_eq, length,
}
use cli_model_gateway.Stats.{ModelStatsTracker}
use cli_model_gateway.Providers.Bindings.{ModelBinding, Request, requires_tools}
use cli_model_gateway.Providers.Auto.{Scores, select_auto}
use cli_model_gateway.Providers.Routing.{
  Services, Routing, Result, ok, err, Routed, ◌>>>◌, give, mem, bound,
}
use cli_model_gateway.Providers.Turns.{ProviderResult, Turn, served, stopped, onward}
use cli_model_gateway.Providers.Run.{turn, loop, next_turn}
use cli_model_gateway.Providers.Model.{
  first_model, selected, named, returned, run_model_within, waited, settled, run_model, checks,
}
use cli_model_gateway.Providers.Hoare.{
  Ensures, Keeps, IsFrame, bound-Ensures_cong, bound-Keeps, if-Ensures, clock-Keeps, check-Keeps,
}
use cli_model_gateway.Providers.Registered.{IsRegistry}
use cli_model_gateway.Providers.Rounds.{TurnEnds, turn-Ensures}

-- The number of registered models that were not visited.
unfoldable pub unvisited : {V : Type 0} → Table String V → List String → ℕ
unvisited [] visited = 0
unvisited ((k, b) ∷ t) visited =
    if mem k visited then unvisited t visited else suc (unvisited t visited)

mem-append :
    (k : String) (v : List String) (id : String) → mem k (v ++ id ∷ []) ≡ (mem k v || id == k)
mem-append k [] id = ground arith
mem-append k (x ∷ v) id = ground (arith, mem-append k v id)

module _ {V : Type 0} where
  unvisited-le :
      (models : Table String V) (v : List String) (id : String)
      → unvisited models (v ++ id ∷ []) ≤ unvisited models v
  unfolding unvisited
  unvisited-le [] v id = omega arith
  unvisited-le ((k, b) ∷ t) v id = ground (arith, mem-append k v id, unvisited-le t v id)

  unvisited-lt :
      (models : Table String V) (v : List String) (id : String)
      → has id models ≡ true
      → mem id v ≡ false
      → unvisited models (v ++ id ∷ []) < unvisited models v
  unfolding unvisited has
  unvisited-lt [] v id h m = absurd (ground arith)
  unvisited-lt ((k, b) ∷ t) v id h m = elim (Bool-cases (k == id)) [
    | inl y ↦
        let same : k ≡ id = (==_iff k id).0 y in
        ground (
          arith,
          mem-append k v id,
          unvisited-le t v id,
          ==_iff k id,
          ap (λ x. mem x v) same,
          ==_refl id,
        )
    | inr n ↦ ground (arith, mem-append k v id, unvisited-lt t v id)
  ]

  pub unvisited-nil : (models : Table String V) → unvisited models [] ≡ length models
  unfolding unvisited
  unvisited-nil [] = refl
  unvisited-nil ((k, b) ∷ t) = ground (arith, unvisited-nil t)

module _ {R W : Type 0} (scores : Scores)
    (score : Request → ModelStatsTracker → ModelBinding → scores.Score) (services : Services R W)
    (models : Table String ModelBinding) (registry : IsRegistry models) (request : Request)
    (requested : String) where
  all-IsFrame : IsFrame {W = W} (λ s. Unit {0})
  all-IsFrame = record {
    stats = λ s x i. tt;
    world = λ s x i. tt;
    auth_failed = λ s x i. tt;
    pending = λ s x i. tt;
    emergency = λ s i. tt;
    attempted = λ s x i. tt;
    last_error = λ s x i. tt;
    signal = λ s x i. tt;
  }

  -- On a well-formed registry, with more fuel than unvisited registered models the loop does not use up its
  -- fuel: it gives the same run whatever is done when the fuel is over and whatever larger fuel is given.
  pub loop-fuel :
      (more more' : String → Routed W (Option (ProviderResult R))) (m n : ℕ)
      (auto_ids : List String) (id : String) (s : Routing W)
      → unvisited models s.visited < m
      → unvisited models s.visited < n
      → loop scores score services models request requested more m auto_ids id s
        ≡ loop scores score services models request requested more' n auto_ids id s
  unfolding loop
  loop-fuel more more' zero n auto_ids id s h k = absurd (omega (arith, h))
  loop-fuel more more' (suc m) zero auto_ids id s h k = absurd (omega (arith, k))
  loop-fuel more more' (suc m) (suc n) auto_ids id s h k =
      go (turn scores score services models request requested auto_ids id s)
        (turn-Ensures scores score services models registry request requested (λ s. Unit {0})
          all-IsFrame (λ s v i. tt) (λ id. Unit {0}) (λ v id x. tt) (λ id b g c h at s p i. tt)
          auto_ids id s tt tt)
        (λ next_id t. loop-fuel more more' m n auto_ids next_id t)
    where
      go :
          (r : Result W (Turn R))
          → Ensures
              (TurnEnds scores score services models registry request requested
                (λ s. Unit {0})
                all-IsFrame
                (λ s v i. tt)
                (λ id. Unit {0})
                (λ v id x. tt)
                (λ id b g c h at s p i. tt)
                s.visited
                id)
              (λ s. Unit {0})
              r
          → ((next_id : String) (t : Routing W)
              → unvisited models t.visited < m
              → unvisited models t.visited < n
              → loop scores score services models request requested more m auto_ids next_id t
                ≡ loop scores score services models request requested more' n auto_ids next_id t)
          → bound r (
              next_turn scores score services models request requested
                (loop scores score services models request requested more m auto_ids))
            ≡ bound r (
                next_turn scores score services models request requested
                  (loop scores score services models request requested more' n auto_ids))
      go (err e t) p rest = refl
      go (ok (served r) t) p rest = refl
      go (ok stopped t) p rest = refl
      go (ok (onward next_id) t) p rest =
          let (_, _, known, new, same) = p.holds in
          let less = unvisited-lt models s.visited id known new in
          let fewer : unvisited models t.visited < unvisited models s.visited = rw same less in
          rest next_id t (omega (arith, fewer, h)) (omega (arith, fewer, k))

  abbrev Fresh : Routing W → Type 0
  Fresh s = s.visited ≡ []

  Fresh-IsFrame : IsFrame Fresh
  Fresh-IsFrame = record {
    stats = λ s x i. i;
    world = λ s x i. i;
    auth_failed = λ s x i. i;
    pending = λ s x i. i;
    emergency = λ s i. i;
    attempted = λ s x i. i;
    last_error = λ s x i. i;
    signal = λ s x i. i;
  }

  first_model-Fresh :
      (s : Routing W)
      → Fresh s
      → Keeps Fresh (first_model scores score services models request requested s)
  unfolding first_model
  first_model-Fresh s i =
      if-Ensures (requested == "auto") _ _
        (λ _. chosen (select_auto scores (score request s.stats) request (λ b. true) models))
        (λ _. by_name (get requested models))
    where
      chosen :
          (bs : List ModelBinding)
          → Keeps Fresh (selected scores score services models request requested bs s)
      chosen [] =
          if-Ensures (requires_tools request) _ _ (λ _. record { holds = i })
            (λ _. record { holds = i })
      chosen (b ∷ bs) = record { holds = i }

      by_name :
          (o : Option ModelBinding)
          → Keeps Fresh (named scores score services models request requested o s)
      by_name none = record { holds = i }
      by_name (some b) = record { holds = i }

  run_model_within-fuel :
      (m n : ℕ) (s : Routing W)
      → length models < m
      → length models < n
      → Fresh s
      → run_model_within scores score services models request requested m s
        ≡ run_model_within scores score services models request requested n s
  unfolding run_model_within
  run_model_within-fuel m n s h k i =
      bound-Ensures_cong _ _ _ (first_model-Fresh s i) λ (id, auto_ids) t j.
        let none_seen : unvisited models t.visited ≡ length models = rw j (unvisited-nil models) in
        ap (λ r. bound r (returned scores score services models request requested))
          (loop-fuel (λ _. give none) (λ _. give none) m n auto_ids id t
            (omega (arith, none_seen, h)) (omega (arith, none_seen, k)))

  checks-Fresh :
      (s : Routing W)
      → Fresh s
      → Keeps Fresh (checks scores score services models request requested s)
  checks-Fresh s i =
      bound-Keeps _ _ (clock-Keeps services Fresh-IsFrame s i)
        λ now t j. check-Keeps Fresh-IsFrame now t j

  -- Every fuel above the number of models gives the same run.
  run_model-fuel :
      (m n : ℕ) (s : Routing W)
      → length models < m
      → length models < n
      → Fresh s
      → run_model scores score services models request requested m s
        ≡ run_model scores score services models request requested n s
  unfolding run_model waited
  run_model-fuel m n s h k i = ap (settled scores score services models request requested) (
      bound-Ensures_cong _ _ _ (checks-Fresh s i) λ _ t j.
        bound-Ensures_cong _ _ _ (checks-Fresh t j) λ _ u l.
          ap
            (λ r.
              bound r (λ r. checks scores score services models request requested >>> λ _. give r))
            (run_model_within-fuel m n u h k l))
