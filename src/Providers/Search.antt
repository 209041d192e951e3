-- ===== src/Providers/Search.antt =====
-- What `findNextModelId` of src/providers/registry.ts finds: a registered model that was not visited, that need not be named
-- and that supports the request.
use cli_model_gateway.Base.{
  refl, ℕ, zero, suc, ◌≡◌, sym, subst, String, Bool, true, false, not, ◌&&◌, ◌||◌, Option, none,
  some, [], ◌∷◌, ◌++◌, List, arith, Table, get, Bool-cases, inl, inr, nat_eq, string_eq, All,
}
use cli_model_gateway.Stats.{ModelStatsTracker}
use cli_model_gateway.Providers.Bindings.{ModelBinding, Request, supports_request, replay_safe}
use cli_model_gateway.Providers.Auto.{Scores}
use cli_model_gateway.Providers.Routing.{Services, Routing, mem}
use cli_model_gateway.Providers.Next.{
  scan, find_next, is_left_out, is_manual, is_none, fails_auth, fallbacks_of, new_of, scan_fuel,
  first_binding, last_candidates, take_last, emergency_model, scanned, search_next, if_allowed,
  skip_reason, healthy_now,
}
use cli_model_gateway.Providers.Hoare.{
  Keeps, Ensures-mono, Ensures, IsFrame, bound-Keeps, if-Ensures, clock-Keeps, can_fallback-Keeps,
}
use cli_model_gateway.Providers.Registered.{IsRegistry, IsChosen, select_auto-IsChosen}
use cli_model_gateway.Providers.Rules.{NextOf}

-- The entry of a next model.
abbrev pub IsNextEntry : Request → List String → String → Option ModelBinding → Type 0
IsNextEntry request visited id none = ⊥
IsNextEntry request visited id (some b) =
    (b.manual_only ≡ false) × (supports_request request (some b) ≡ true) × (mem id visited ≡ false)

abbrev pub IsNext : Request → Table String ModelBinding → List String → String → Type 0
IsNext request models visited id = IsNextEntry request visited id (get id models)

module _ (request : Request) (visited : List String) where
  not_left_out :
      (id : String) (b : Option ModelBinding)
      → is_left_out request visited id b ≡ false
      → IsNextEntry request visited id b
  not_left_out id none h = absurd (ground (arith, h))
  not_left_out id (some b) h = (ground (arith, h), ground (arith, h), ground (arith, h))

  scan-IsNext :
      (fuel : ℕ) (models : Table String ModelBinding) (failed rest pending : List String)
      → NextOf
          (IsNext request models visited)
          (scan fuel models request visited failed rest pending).0
  unfolding scan
  scan-IsNext zero models failed rest pending = tt
  scan-IsNext (suc n) models failed [] pending = tt
  scan-IsNext (suc n) models failed (id ∷ rest) pending =
      let b = get id models in
      let new = new_of (fallbacks_of b) pending in
      elim (Bool-cases (is_left_out request visited id b)) [
        | inl y ↦ rw y (scan-IsNext n models failed rest pending)
        | inr n₁ ↦ elim (Bool-cases (fails_auth failed b)) [
          | inl y ↦ rw (n₁, y) (scan-IsNext n models failed (rest ++ new) (pending ++ new))
          | inr n₂ ↦ rw (n₁, n₂) (not_left_out id b n₁)
        ]
      ]

abbrev pub is_first_manual : Table String ModelBinding → List String → Bool
is_first_manual models visited = is_manual (first_binding models visited)

module _ {R W : Type 0} (scores : Scores)
    (score : Request → ModelStatsTracker → ModelBinding → scores.Score) (services : Services R W)
    (models : Table String ModelBinding) (registry : IsRegistry models) (request : Request)
    (visited : List String) (I : Routing W → Type 0) (frame : IsFrame I)
    (sees : (s : Routing W) → I s → s.visited ≡ visited) where
  abbrev IsFoundNext : Option String → Routing W → Type 0
  IsFoundNext o t = I t × NextOf (IsNext request models visited) o

  take_last-Ensures :
      (now : ℕ) (s : Routing W)
      → I s
      → Ensures IsFoundNext I (
          take_last scores score services models
            (last_candidates scores score services models request now s)
            s)
  take_last-Ensures now s i =
      go (last_candidates scores score services models request now s)
        (select_auto-IsChosen scores (score request s.stats) request models registry _)
    where
      go :
          (bs : List ModelBinding)
          → All
              (λ b.
                IsChosen request models b
                × ((not (mem b.model_id s.visited)
                      && not (mem b.provider.provider_id s.auth_failed)
                      && is_none (skip_reason now b b.model_id s.stats)
                      && healthy_now now (get b.model_id s.stats.models))
                    ≡ true))
              bs
          → Ensures IsFoundNext I (take_last scores score services models bs s)
      go [] a = record { holds = (i, tt) }
      go (b ∷ bs) ((found, h), a) = record {
        holds = (
          frame.emergency s i,
          rw (found.0) (found.1, found.2, rw (sym (sees s i)) (ground (arith, h))),
        );
      }

  emergency_model-Ensures :
      (now : ℕ) (s : Routing W)
      → I s
      → Ensures IsFoundNext I (emergency_model scores score services models request now s)
  emergency_model-Ensures now s i =
      if-Ensures (not (replay_safe request) || is_manual (first_binding models s.visited)) _ _
        (λ _. record { holds = (i, tt) }) λ _. take_last-Ensures now s i

  search_next-Ensures :
      (b : ModelBinding) (auto_ids : List String) (now : ℕ) (s : Routing W)
      → I s
      → Ensures IsFoundNext I (search_next scores score services models request b auto_ids now s)
  search_next-Ensures b auto_ids now s i =
      let pending = s.pending ++ new_of (b.fallback_model_ids ++ auto_ids) s.pending in
      go (scan (scan_fuel models pending) models request s.visited s.auth_failed pending pending) (
        scan-IsNext request s.visited (scan_fuel models pending) models s.auth_failed pending
          pending)
    where
      go :
          (r : Option String × List String)
          → NextOf (IsNext request models s.visited) r.0
          → Ensures IsFoundNext I (scanned scores score services models request now r s)
      go (some id, pending) n = record {
        holds = (frame.pending s pending i, subst (λ v. IsNext request models v id) (sees s i) n);
      }
      go (none, pending) n =
          emergency_model-Ensures now (record s { pending = pending }) (frame.pending s pending i)

  pub find_next-Ensures :
      (b : ModelBinding) (auto_ids : List String) (s : Routing W)
      → I s
      → Ensures IsFoundNext I (find_next scores score services models request b auto_ids s)
  unfolding find_next
  find_next-Ensures b auto_ids s i =
      if-Ensures s.emergency _ _ (λ _. record { holds = (i, tt) })
        λ _.
          bound-Keeps _ _ (clock-Keeps services frame s i)
            λ now t j. bound-Keeps _ _ (can_fallback-Keeps frame now t j) if_allowed-Ensures
    where
      if_allowed-Ensures :
          (a : Bool) (t : Routing W)
          → I t
          → Ensures IsFoundNext I (if_allowed scores score services models request b auto_ids a t)
      if_allowed-Ensures false t j = record { holds = (j, tt) }
      if_allowed-Ensures true t j =
          bound-Keeps _ _ (clock-Keeps services frame t j)
            λ now u k. search_next-Ensures b auto_ids now u k

module _ {R W : Type 0} (scores : Scores)
    (score : Request → ModelStatsTracker → ModelBinding → scores.Score) (services : Services R W)
    (models : Table String ModelBinding) (registry : IsRegistry models) (request : Request)
    (J : Routing W → Type 0) (frame : IsFrame J) where
  Seen-IsFrame : (v : List String) → IsFrame (λ s. J s × (s.visited ≡ v))
  Seen-IsFrame v = record {
    stats = λ s x i. (frame.stats s x i.0, i.1);
    world = λ s x i. (frame.world s x i.0, i.1);
    auth_failed = λ s x i. (frame.auth_failed s x i.0, i.1);
    pending = λ s x i. (frame.pending s x i.0, i.1);
    emergency = λ s i. (frame.emergency s i.0, i.1);
    attempted = λ s x i. (frame.attempted s x i.0, i.1);
    last_error = λ s x i. (frame.last_error s x i.0, i.1);
    signal = λ s x i. (frame.signal s x i.0, i.1);
  }

  -- The search leaves a predicate true.
  pub find_next-Keeps :
      (b : ModelBinding) (auto_ids : List String) (s : Routing W)
      → J s
      → Keeps J (find_next scores score services models request b auto_ids s)
  find_next-Keeps b auto_ids s i =
      Ensures-mono (λ o t p. p.0.0) (λ t p. p.0)
        (find_next-Ensures scores score services models registry request s.visited
          (λ t. J t × (t.visited ≡ s.visited)) (Seen-IsFrame s.visited) (λ t p. p.1) b auto_ids s
          (i, refl))
