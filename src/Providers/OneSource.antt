-- ===== src/Providers/OneSource.antt =====
-- The content of a stream of `runModelStreamWithin` in src/providers/registry.ts comes from one model.
use cli_model_gateway.Base.{
  ℕ, zero, suc, ◌≡◌, refl, String, Bool, true, false, not, ◌&&◌, ◌||◌, Option, none, some, [], ◌∷◌,
  List, arith, Table, get, nat_eq, string_eq, All,
}
use cli_model_gateway.Stats.{ModelStatsTracker}
use cli_model_gateway.Providers.Bindings.{
  Error, ModelBinding, Request, supports_request, replay_safe,
}
use cli_model_gateway.Providers.Auto.{Scores}
use cli_model_gateway.Providers.Routing.{
  Services, Answer, answered, refused, StreamEvent, done, output_text_delta, reasoning_delta,
  tool_call, other_event, Routing,
}
use cli_model_gateway.Providers.Turns.{is_upstream, note_auth}
use cli_model_gateway.Providers.Run.{checked, thrown_by, judged}
use cli_model_gateway.Providers.Hoare.{
  Ensures, Keeps, IsFrame, bound-Keeps, Ensures-mono, if-Ensures, clock-Keeps, check-Keeps,
  can_fallback-Keeps, provider_run-Keeps, retry_delay-Keeps,
}
use cli_model_gateway.Providers.Registered.{IsRegistry}
use cli_model_gateway.Providers.Search.{find_next-Keeps}
use cli_model_gateway.Providers.Stream.{
  Flow, over, again, next_model, has_content, is_no_model, yield_times, received, consumed,
  ended_by, opened, streamed, answered_whole, stream_tried, moved_on, searched, retried_or_not,
  gone_on,
}

-- Content that was given is from one model.
abbrev pub IsFrom : String → List (String × StreamEvent) → Type 0
IsFrom id given = All (λ e. has_content e.1 ≡ true → e.0 ≡ id) given

abbrev pub IsEmpty : List (String × StreamEvent) → Type 0
IsEmpty given = All (λ e. has_content e.1 ≡ false) given

pub IsEmpty-IsFrom : (id : String) (es : List (String × StreamEvent)) → IsEmpty es → IsFrom id es
IsEmpty-IsFrom id [] a = tt
IsEmpty-IsFrom id (e ∷ es) (h, a) = ((λ c. absurd (ground (arith, h, c))), IsEmpty-IsFrom id es a)

module _ {W : Type 0} where
  -- While a model is tried.
  abbrev pub IsOpen : String → Routing W → Type 0
  IsOpen id s = IsFrom id s.given × (s.emitted ≡ false → IsEmpty s.given)

  -- Between two models.
  abbrev pub IsClean : Routing W → Type 0
  IsClean s = (s.emitted ≡ false) × IsEmpty s.given

  -- The content that was given is from one model.
  abbrev pub IsOneSource : Routing W → Type 0
  IsOneSource s = (id : String) × IsFrom id s.given

  pub IsOpen-IsFrame : (id : String) → IsFrame {W = W} (IsOpen id)
  IsOpen-IsFrame id = record {
    stats = λ s x i. i;
    world = λ s x i. i;
    auth_failed = λ s x i. i;
    pending = λ s x i. i;
    emergency = λ s i. i;
    attempted = λ s x i. i;
    last_error = λ s x i. i;
    signal = λ s x i. i;
  }

  pub IsClean-IsFrame : IsFrame {W = W} IsClean
  IsClean-IsFrame = record {
    stats = λ s x i. i;
    world = λ s x i. i;
    auth_failed = λ s x i. i;
    pending = λ s x i. i;
    emergency = λ s i. i;
    attempted = λ s x i. i;
    last_error = λ s x i. i;
    signal = λ s x i. i;
  }

  pub IsClean-IsOneSource : (s : Routing W) → IsClean s → IsOneSource s
  IsClean-IsOneSource s i = ("", IsEmpty-IsFrom "" s.given i.1)

  given-IsOpen :
      (id : String) (e : StreamEvent) (s : Routing W)
      → IsOpen id s
      → IsOpen id (record s { emitted = s.emitted || has_content e; given = (id, e) ∷ s.given })
  given-IsOpen id e s i = (((λ c. refl), i.0), (λ h. (ground (arith, h), i.1 (ground (arith, h)))))

  yield_times-IsOpen :
      (n : ℕ) (id : String) (e : StreamEvent) (s : Routing W)
      → IsOpen id s
      → Keeps (IsOpen id) (yield_times n id e s)
  yield_times-IsOpen zero id e s i = record { holds = i }
  yield_times-IsOpen (suc n) id e s i = yield_times-IsOpen n id e _ (given-IsOpen id e s i)

module _ {R W : Type 0} (scores : Scores)
    (score : Request → ModelStatsTracker → ModelBinding → scores.Score) (services : Services R W)
    (models : Table String ModelBinding) (registry : IsRegistry models) (request : Request)
    (requested : String) where
  module _ (I : Routing W → Type 0) (frame : IsFrame I) where
    pub check_kept :
        (s : Routing W) → I s → Keeps I (checked scores score services models request requested s)
    check_kept s i =
        bound-Keeps _ _ (clock-Keeps services frame s i) λ now t j. check-Keeps frame now t j

    pub note_auth_kept : (c : Bool) (p : String) (s : Routing W) → I s → Keeps I (note_auth c p s)
    note_auth_kept true p s i = record { holds = frame.auth_failed s _ i }
    note_auth_kept false p s i = record { holds = i }

  received-IsOpen :
      (id : String) (e : StreamEvent) (s : Routing W)
      → IsOpen id s
      → Keeps (IsOpen id) (received scores score services models request requested id e s)
  received-IsOpen id (done true) s i = record { holds = i }
  received-IsOpen id (done false) s i = record { holds = given-IsOpen id (done false) s i }
  received-IsOpen id (output_text_delta x) s i = record {
    holds = given-IsOpen id (output_text_delta x) s i;
  }
  received-IsOpen id (reasoning_delta x) s i = record {
    holds = given-IsOpen id (reasoning_delta x) s i;
  }
  received-IsOpen id tool_call s i = record { holds = given-IsOpen id tool_call s i }
  received-IsOpen id other_event s i = record { holds = given-IsOpen id other_event s i }

  consumed-IsOpen :
      (id : String) (completed : Bool) (es : List StreamEvent) (s : Routing W)
      → IsOpen id s
      → Keeps
          (IsOpen id)
          (consumed scores score services models request requested id completed es s)
  unfolding consumed
  consumed-IsOpen id completed [] s i = record { holds = i }
  consumed-IsOpen id completed (e ∷ es) s i =
      bound-Keeps _ _ (check_kept (IsOpen id) (IsOpen-IsFrame id) s i) λ _ t j.
        bound-Keeps _ _ (received-IsOpen id e t j)
          λ last u k. consumed-IsOpen id (completed || last) es u k

  streamed-IsOpen :
      (b : ModelBinding) (s : Routing W)
      → IsOpen b.model_id s
      → Keeps (IsOpen b.model_id) (streamed scores score services models request requested b s)
  unfolding streamed opened
  streamed-IsOpen b s i =
      let (events, end) = (services.stream b request s.world).0 in
      bound-Keeps _ _ (consumed-IsOpen b.model_id false events _ i)
        λ completed u k. ending end completed u k
    where
      ending :
          (e : Option Error) (c : Bool) (t : Routing W)
          → IsOpen b.model_id t
          → Keeps
              (IsOpen b.model_id)
              (ended_by scores score services models request requested e c t)
      ending (some e) c t j = record { holds = j }
      ending none true t j = record { holds = j }
      ending none false t j = record { holds = j }

  answered_whole-IsOpen :
      (b : ModelBinding) (s : Routing W)
      → IsOpen b.model_id s
      → Keeps
          (IsOpen b.model_id)
          (answered_whole scores score services models request requested b s)
  unfolding answered_whole
  answered_whole-IsOpen b s i =
      let frame = IsOpen-IsFrame b.model_id in
      bound-Keeps _ _ (provider_run-Keeps services frame b request s i) λ a t j.
        bound-Keeps _ _ (thrown a t j) λ r u k.
          bound-Keeps _ _ (check_kept (IsOpen b.model_id) frame u k) λ _ v l.
            bound-Keeps _ _ (judging r (services.judge request b r) v l) λ r' w m.
              bound-Keeps _ _
                (yield_times-IsOpen (services.tool_call_count r') b.model_id tool_call w m)
                λ _ x n. record { holds = given-IsOpen b.model_id (done false) x n }
    where
      thrown :
          (a : Answer R) (t : Routing W)
          → IsOpen b.model_id t
          → Keeps (IsOpen b.model_id) (thrown_by scores score services models request requested a t)
      thrown (answered r) t j = record { holds = j }
      thrown (refused e) t j = record { holds = j }

      judging :
          (r : R) (m : Option (List ℕ)) (t : Routing W)
          → IsOpen b.model_id t
          → Keeps
              (IsOpen b.model_id)
              (judged scores score services models request requested b r m t)
      judging r none t j = record { holds = j }
      judging r (some m) t j = record { holds = j }

  pub stream_tried-IsOpen :
      (b : ModelBinding) (started : ℕ) (s : Routing W)
      → IsOpen b.model_id s
      → Ensures
          (λ f t. (f ≡ over) × IsOpen b.model_id t)
          (IsOpen b.model_id)
          (stream_tried scores score services models request requested b started s)
  unfolding stream_tried
  stream_tried-IsOpen b started s i =
      let frame = IsOpen-IsFrame b.model_id in
      bound-Keeps _ _
        (if-Ensures (not (supports_request request (get b.model_id models))) _ _
          (λ _. record { holds = i })
          λ _.
            if-Ensures b.provider.can_stream _ _ (λ _. streamed-IsOpen b s i)
              (λ _. answered_whole-IsOpen b s i))
        λ _ t j. bound-Keeps _ _ (clock-Keeps services frame t j) λ now u k.
          bound-Keeps _ _ (clock-Keeps services frame u k) λ later v l. record { holds = (refl, l) }

  -- After an attempt: nothing was given if another follows, and no third one follows a second.
  abbrev pub FlowEnds : (retry : Bool) → Flow → Routing W → Type 0
  FlowEnds retry over t = IsOneSource t
  FlowEnds retry again t = IsClean t × (retry ≡ false)
  FlowEnds retry (next_model id) t = IsClean t

  pub gone_on-IsOneSource :
      (b : ModelBinding) (retry : Bool) (e : Error) (s : Routing W)
      → IsOpen b.model_id s
      → Ensures
          (FlowEnds retry)
          IsOneSource
          (gone_on scores score services models request requested b retry e s)
  unfolding gone_on
  gone_on-IsOneSource b retry e s i =
      if-Ensures
        (s.emitted
          || (b.provider.is_cli && not (is_no_model e.class))
          || not (replay_safe request)
          || e.uncertain)
        _ _ (λ _. record { holds = (b.model_id, i.0) })
        λ n.
          let clean : IsClean s = (ground (arith, n), i.1 (ground (arith, n))) in
          Ensures-mono (λ f t p. p) IsClean-IsOneSource
            (if-Ensures
              (not s.emergency && not retry && is_upstream e.class && b.provider.retry_allowed e) _
              _
              (λ h. bound-Keeps _ _ (clock-Keeps services IsClean-IsFrame s clean) λ now t j.
                bound-Keeps _ _ (can_fallback-Keeps IsClean-IsFrame now t j)
                  λ a u k. retry_or_search (ground (arith, h)) a u k)
              (λ _. search s clean))
    where
      search :
          (t : Routing W)
          → IsClean t
          → Ensures
              (FlowEnds retry)
              IsClean
              (searched scores score services models request requested b e t)
      search t j =
          bound-Keeps _ _
            (find_next-Keeps scores score services models registry request IsClean IsClean-IsFrame b
              [] t j)
            moved_on-IsClean
        where
          moved_on-IsClean :
              (o : Option String) (u : Routing W)
              → IsClean u
              → Ensures
                  (FlowEnds retry)
                  IsClean
                  (moved_on scores score services models request requested b e o u)
          moved_on-IsClean none u k = record { holds = k }
          moved_on-IsClean (some id) u k = record { holds = k }

      retry_or_search :
          retry ≡ false
          → (a : Bool) (t : Routing W) → IsClean t
          → Ensures
              (FlowEnds retry)
              IsClean
              (retried_or_not scores score services models request requested b e a t)
      retry_or_search r true t j =
          bound-Keeps _ _ (retry_delay-Keeps services IsClean-IsFrame b e t j)
            λ _ u k. record { holds = (k, r) }
      retry_or_search r false t j = search t j
