-- ===== src/Providers/StreamRuns.antt =====
-- A stream of `runModelStreamWithin` in src/providers/registry.ts as a whole: its content is from one model.
use cli_model_gateway.Base.{
  ℕ, zero, suc, ◌≡◌, String, Bool, true, false, ◌&&◌, Option, none, some, [], arith, ◌==◌,
  if◌then◌else◌, Table, get, nat_eq, string_eq,
}
use cli_model_gateway.Stats.Classify.{FailureKind, auth}
use cli_model_gateway.Stats.{ModelStatsTracker, same_kind}
use cli_model_gateway.Providers.Bindings.{Error, plain_error, ModelBinding, Request}
use cli_model_gateway.Providers.Auto.{Scores}
use cli_model_gateway.Providers.Routing.{Services, Routing, Result, fail, add_new}
use cli_model_gateway.Providers.Next.{skip_reason}
use cli_model_gateway.Providers.Turns.{is_auth_class}
use cli_model_gateway.Providers.Run.{dispatched}
use cli_model_gateway.Providers.Hoare.{
  Ensures, Keeps, bound-Ensures, bound-Keeps, rescued-Ensures, Ensures-mono, clock-Keeps,
  attempt-Keeps,
}
use cli_model_gateway.Providers.Registered.{IsRegistry}
use cli_model_gateway.Providers.Search.{find_next-Keeps}
use cli_model_gateway.Providers.Stream.{
  Flow, over, again, next_model, stream_caught, stream_attempt, once_more, attempts_on, skipped_on,
  stream_skipped, stream_on, stream_binding, stream_turn, next_stream, stream_loop,
  run_model_stream_within,
}
use cli_model_gateway.Providers.OneSource.{
  IsEmpty-IsFrom, IsOpen, IsClean, IsOneSource, IsOpen-IsFrame, IsClean-IsFrame,
  IsClean-IsOneSource, check_kept, note_auth_kept, stream_tried-IsOpen, FlowEnds,
  gone_on-IsOneSource,
}

module _ {R W : Type 0} (scores : Scores)
    (score : Request → ModelStatsTracker → ModelBinding → scores.Score) (services : Services R W)
    (models : Table String ModelBinding) (registry : IsRegistry models) (request : Request)
    (requested : String) where
  abbrev Ends : Bool → Flow → Routing W → Type 0
  Ends retry f t = FlowEnds scores score services models registry request requested retry f t

  IsClean-IsOpen : (id : String) (s : Routing W) → IsClean s → IsOpen id s
  IsClean-IsOpen id s i = (IsEmpty-IsFrom id s.given i.1, λ h. i.1)

  stream_caught-IsOneSource :
      (b : ModelBinding) (retry : Bool) (started : ℕ) (e : Error) (s : Routing W)
      → IsOpen b.model_id s
      → Ensures
          (Ends retry)
          IsOneSource
          (stream_caught scores score services models request requested b retry started e s)
  unfolding stream_caught
  stream_caught-IsOneSource b retry started e s i =
      let frame = IsOpen-IsFrame b.model_id in
      bound-Ensures _ _
        (opens (
          check_kept scores score services models registry request requested (IsOpen b.model_id)
            frame s i))
        λ _ t j.
          bound-Ensures _ _
            (opens (
              note_auth_kept scores score services models registry request requested
                (IsOpen b.model_id) frame (is_auth_class e.class && b.provider.auth_fail_fast)
                b.provider.provider_id _ j))
            λ _ u k. bound-Ensures _ _ (opens (clock-Keeps services frame u k)) λ now v l.
              bound-Ensures _ _ (opens (clock-Keeps services frame v l)) λ later w m.
                gone_on-IsOneSource scores score services models registry request requested b retry
                  e _ m
    where
      opens :
          {A : Type 0} {r : Result W A}
          → Keeps (IsOpen b.model_id) r
          → Ensures (λ a t. IsOpen b.model_id t) IsOneSource r
      opens p = Ensures-mono (λ a t h. h) (λ t h. (b.model_id, h.0)) p

  stream_attempt-IsOneSource :
      (b : ModelBinding) (retry : Bool) (s : Routing W)
      → IsClean s
      → Ensures
          (Ends retry)
          IsOneSource
          (stream_attempt scores score services models request requested b retry s)
  unfolding stream_attempt
  stream_attempt-IsOneSource b retry s i =
      bound-Ensures _ _ (cleans (dispatched-Keeps s i)) λ _ t j.
        bound-Ensures _ _ (cleans (clock-Keeps services IsClean-IsFrame t j)) λ started u k.
          bound-Ensures _ _ (cleans (clock-Keeps services IsClean-IsFrame u k)) λ now v l.
            rescued-Ensures _ _
              (Ensures-mono done_well (λ t h. h)
                (stream_tried-IsOpen scores score services models registry request requested b
                  started _ (IsClean-IsOpen b.model_id v l)))
              λ e w m. stream_caught-IsOneSource b retry started e w m
    where
      done_well : (f : Flow) (t : Routing W) → (f ≡ over) × IsOpen b.model_id t → Ends retry f t
      done_well f t p = rw (p.0) (b.model_id, p.1.0)

      cleans :
          {A : Type 0} {r : Result W A} → Keeps IsClean r → Ensures (λ a t. IsClean t) IsOneSource r
      cleans p = Ensures-mono (λ a t h. h) IsClean-IsOneSource p

      dispatched-Keeps :
          (t : Routing W)
          → IsClean t
          → Keeps IsClean (dispatched scores score services models request requested b t)
      dispatched-Keeps t j = bound-Keeps _ _ (clock-Keeps services IsClean-IsFrame t j) λ now u k.
          bound-Keeps _ _ (clock-Keeps services IsClean-IsFrame u k) λ at v l.
            attempt-Keeps IsClean-IsFrame b.model_id b.provider.provider_id now at v (λ p m. m) l

  attempts_on-IsOneSource :
      (b : ModelBinding) (s : Routing W)
      → IsClean s
      → Ensures
          (Ends true)
          IsOneSource
          (attempts_on scores score services models request requested b s)
  unfolding attempts_on
  attempts_on-IsOneSource b s i = bound-Ensures _ _ (stream_attempt-IsOneSource b false s i) second
    where
      second :
          (f : Flow) (t : Routing W)
          → Ends false f t
          → Ensures
              (Ends true)
              IsOneSource
              (once_more scores score services models request requested b f t)
      second over t p = record { holds = p }
      second again t p = stream_attempt-IsOneSource b true t p.0
      second (next_model id) t p = record { holds = p }

  stream_skipped-IsOneSource :
      (b : ModelBinding) (k : FailureKind) (s : Routing W)
      → IsClean s
      → Ensures
          (Ends true)
          IsClean
          (stream_skipped scores score services models request requested b k s)
  unfolding stream_skipped
  stream_skipped-IsOneSource b k s i =
      bound-Keeps _ _
        (note_auth_kept scores score services models registry request requested IsClean
          IsClean-IsFrame (same_kind k auth) b.provider.provider_id s i)
        λ _ t j.
          bound-Keeps _ _
            (find_next-Keeps scores score services models registry request IsClean IsClean-IsFrame b
              [] t j)
            onward
    where
      onward :
          (o : Option String) (u : Routing W)
          → IsClean u
          → Ensures
              (Ends true)
              IsClean
              (skipped_on scores score services models request requested b k o u)
      onward none u h = record { holds = h }
      onward (some id) u h = record { holds = h }

  stream_turn-IsOneSource :
      (id : String) (s : Routing W)
      → IsClean s
      → Ensures
          (Ends true)
          IsOneSource
          (stream_turn scores score services models request requested id s)
  unfolding stream_turn
  stream_turn-IsOneSource id s i = go (get id models)
    where
      on :
          (b : ModelBinding) (k : Option FailureKind) (t : Routing W)
          → IsClean t
          → Ensures
              (Ends true)
              IsOneSource
              (stream_on scores score services models request requested b k t)
      on b none t j = attempts_on-IsOneSource b t j
      on b (some k) t j =
          Ensures-mono (λ f u p. p) IsClean-IsOneSource (stream_skipped-IsOneSource b k t j)

      go :
          (o : Option ModelBinding)
          → Ensures
              (Ends true)
              IsOneSource
              (stream_binding scores score services models request requested id o s)
      go none = record { holds = IsClean-IsOneSource s i }
      go (some b) =
          bound-Ensures _ _
            (Ensures-mono (λ a t h. h) IsClean-IsOneSource
              (clock-Keeps services IsClean-IsFrame (record s { visited = add_new id s.visited })
                i))
            λ now t j. on b (skip_reason now b requested t.stats) t j

  stream_loop-IsOneSource :
      (fuel : ℕ) (id : String) (s : Routing W)
      → IsClean s
      → Ensures
          (λ _. IsOneSource)
          IsOneSource
          (stream_loop scores score services models request requested fuel id s)
  unfolding stream_loop
  stream_loop-IsOneSource zero id s i = record { holds = IsClean-IsOneSource s i }
  stream_loop-IsOneSource (suc n) id s i =
      bound-Ensures _ _ (stream_turn-IsOneSource id s i)
        (go (λ id t j. stream_loop-IsOneSource n id t j))
    where
      go :
          ((id : String) (t : Routing W)
            → IsClean t
            → Ensures
                (λ _. IsOneSource)
                IsOneSource
                (stream_loop scores score services models request requested n id t))
          → (f : Flow) (t : Routing W) → Ends true f t
          → Ensures
              (λ _. IsOneSource)
              IsOneSource
              (next_stream scores score services models request requested
                (stream_loop scores score services models request requested n)
                f
                t)
      go k over t p = record { holds = p }
      go k again t p = absurd (ground (arith, p.1))
      go k (next_model id) t p = k id t p

  -- On a well-formed registry, whatever the clock and the providers do and with any fuel: all content that
  -- a stream gives is from one model, whether it ends or throws.
  pub run_model_stream_within-IsOneSource :
      (fuel : ℕ) (s : Routing W)
      → IsClean s
      → Ensures
          (λ _. IsOneSource)
          IsOneSource
          (run_model_stream_within scores score services models request requested fuel s)
  unfolding run_model_stream_within
  run_model_stream_within-IsOneSource fuel s i = go (requested == "auto")
    where
      go :
          (c : Bool)
          → Ensures
              (λ _. IsOneSource)
              IsOneSource
              ((if c
                  then fail
                      (plain_error "Auto model routing does not support provider-native streaming.")
                  else stream_loop scores score services models request requested fuel requested)
                s)
      go true = record { holds = IsClean-IsOneSource s i }
      go false = stream_loop-IsOneSource fuel requested s i
