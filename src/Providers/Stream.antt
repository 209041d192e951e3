-- ===== src/Providers/Stream.antt =====
-- `runModelStreamWithin` of src/providers/registry.ts: a request to a model whose answer is passed on while it comes. The
-- events that are given are kept with their model. What the reader of the stream does in between is
-- not modelled. The loop takes fuel. The number of attempts is the length of `attempted`.
use cli_model_gateway.Base.{
  ℕ, zero, suc, ◌-◌, String, Bool, true, false, not, ◌&&◌, ◌||◌, Option, none, some, [], ◌∷◌, ◌++◌,
  List, ltb, ◌==◌, if◌then◌else◌, Table, get, nat_eq, string_eq, length, codes,
}
use cli_model_gateway.Stats.Classify.{FailureKind, auth, no_model, auth_error}
use cli_model_gateway.Stats.{
  ModelStatsTracker, same_kind, record_attempt, record_success, record_fallback,
}
use cli_model_gateway.Utils.Execution.{can_fallback}
use cli_model_gateway.Providers.Bindings.{
  Error, ErrorClass, ordinary, upstream, capability_error, plain_error, ModelBinding, Request,
  supports_request, replay_safe,
}
use cli_model_gateway.Providers.Auto.{Scores}
use cli_model_gateway.Providers.Routing.{
  Services, StreamEvent, output_text_delta, reasoning_delta, tool_call, done, ok, err, Routed,
  ◌>>>◌, give, fail, policed, add_new, clock, provider_run, retry_delay,
}
use cli_model_gateway.Providers.Next.{skip_reason, find_next}
use cli_model_gateway.Providers.Turns.{
  attempt_of, is_upstream, is_auth_class, unknown_model, last_index, caught, change, note_error,
  note_auth, failure_noted,
}
use cli_model_gateway.Providers.Run.{checked, dispatched, thrown_by, judged}
use cli_model_gateway.Providers.Messages.{skipped_text}

-- How a part of the loop ends: the stream is over, the same model is tried once more, or the next one.
pub data Flow : Type 0 where
  over again : Flow
  next_model : String → Flow

-- Empty deltas do not count as content.
abbrev pub has_content : StreamEvent → Bool
has_content (output_text_delta t) = ltb 0 (length t)
has_content (reasoning_delta t) = ltb 0 (length t)
has_content _ = true

abbrev pub is_done : StreamEvent → Bool
is_done (done b) = true
is_done _ = false

-- `new UpstreamError(401)`, or the text on a model that is skipped.
abbrev skipped_error : FailureKind → ModelBinding → Error
skipped_error k b =
    if same_kind k auth
    then record {
      class = upstream auth_error;
      uncertain = false;
      message = codes "Provider API request failed (401): auth";
    }
    else record { class = ordinary; uncertain = false; message = skipped_text b.model_id k }

abbrev or_last : Option Error → Error → Error
or_last none e = e
or_last (some last) e = last

abbrev pub is_no_model : ErrorClass → Bool
is_no_model (upstream no_model) = true
is_no_model _ = false

module _ {W : Type 0} where
  -- `yield`, after the note on content.
  abbrev pub yields : String → StreamEvent → Routed W (Unit {0})
  yields id e =
      change λ s. record s { emitted = s.emitted || has_content e; given = (id, e) ∷ s.given }

  abbrev pub yield_times : ℕ → String → StreamEvent → Routed W (Unit {0})
  yield_times zero id e = give tt
  yield_times (suc n) id e = yields id e >>> λ _. yield_times n id e

module _ {R W : Type 0} (scores : Scores)
    (score : Request → ModelStatsTracker → ModelBinding → scores.Score) (services : Services R W)
    (models : Table String ModelBinding) (request : Request) (requested : String) where
  abbrev pub received : String → StreamEvent → Routed W Bool
  received id (done true) = fail (plain_error "Provider terminal reported failure")
  received id e = yields id e >>> λ _. give (is_done e)

  -- The loop over the events: whether a terminal one came.
  unfoldable pub consumed : String → (completed : Bool) → List StreamEvent → Routed W Bool
  consumed id completed [] = give completed
  consumed id completed (e ∷ es) = checked scores score services models request requested >>> λ _.
      received id e >>> λ last. consumed id (completed || last) es

  abbrev pub ended_by : Option Error → Bool → Routed W (Unit {0})
  ended_by (some e) completed = fail e
  ended_by none true = give tt
  ended_by none false = fail (plain_error "Provider stream ended without a terminal receipt")

  abbrev pub with_stream :
      (List StreamEvent × Option Error) × W → Routed W (List StreamEvent × Option Error)
  with_stream (r, w) s = ok r (record s { world = w })

  unfoldable pub opened : ModelBinding → Routed W (List StreamEvent × Option Error)
  opened b s = with_stream (services.stream b request s.world) s

  unfoldable pub streamed : ModelBinding → Routed W (Unit {0})
  streamed b = opened b >>> λ (events, ending).
      consumed b.model_id false events >>> λ completed. ended_by ending completed

  -- A provider that does not stream is called, and its answer is given as events.
  unfoldable pub answered_whole : ModelBinding → Routed W (Unit {0})
  answered_whole b = provider_run services b request >>> λ a.
      thrown_by scores score services models request requested a >>> λ r.
      checked scores score services models request requested >>> λ _.
      judged scores score services models request requested b r (services.judge request b r)
      >>> λ r. yield_times (services.tool_call_count r) b.model_id tool_call >>> λ _.
          yields b.model_id (done false)

  abbrev unsupported : ModelBinding → Error
  unsupported b = record {
    class = capability_error;
    uncertain = false;
    message = codes "Model " ++ codes b.model_id ++ codes " does not support this request.";
  }

  -- The body of the `try`.
  unfoldable pub stream_tried : ModelBinding → (started : ℕ) → Routed W Flow
  stream_tried b started =
      (λ s.
        if not (supports_request request (get b.model_id models))
        then err (unsupported b) s
        else if b.provider.can_stream
        then streamed b s
        else answered_whole b s)
      >>> λ _. clock services >>> λ now. clock services >>> λ later.
          change (λ s. record s {
            stats =
                record_success later (attempt_of requested b (last_index s.attempted))
                  (now - started) s.stats;
          })
          >>> λ _. give over

  abbrev pub moved_on : ModelBinding → Error → Option String → Routed W Flow
  moved_on b e none = fail e
  moved_on b e (some id) =
      change (λ s. record s { stats = record_fallback b.model_id id s.stats }) >>> λ _.
      give (next_model id)

  abbrev pub searched : ModelBinding → Error → Routed W Flow
  searched b e = find_next scores score services models request b [] >>> λ next. moved_on b e next

  abbrev pub retried_or_not : ModelBinding → Error → Bool → Routed W Flow
  retried_or_not b e true = retry_delay services b e >>> λ _. give again
  retried_or_not b e false = searched b e

  -- The end of the `catch`: a second attempt, the next model, or the error.
  unfoldable pub gone_on : ModelBinding → (retry : Bool) → Error → Routed W Flow
  gone_on b retry e s =
      if s.emitted
        || (b.provider.is_cli && not (is_no_model e.class))
        || not (replay_safe request)
        || e.uncertain
      then err e s
      else if not s.emergency && not retry && is_upstream e.class && b.provider.retry_allowed e
      then (clock services >>> λ now. policed (can_fallback now) >>> retried_or_not b e) s
      else searched b e s

  unfoldable pub stream_caught :
      ModelBinding → (retry : Bool) → (started : ℕ) → Error → Routed W Flow
  stream_caught b retry started e = checked scores score services models request requested >>> λ _.
      note_error e >>> λ _.
      note_auth (is_auth_class e.class && b.provider.auth_fail_fast) b.provider.provider_id >>> λ _.
      clock services >>> λ now. clock services >>> λ later s.
      (failure_noted later (attempt_of requested b (last_index s.attempted)) (now - started) e
          >>> λ _. gone_on b retry e)
        s

  -- One round of the inner loop.
  unfoldable pub stream_attempt : ModelBinding → (retry : Bool) → Routed W Flow
  stream_attempt b retry = dispatched scores score services models request requested b >>> λ _.
      clock services >>> λ started. clock services >>> λ now.
      change (λ s. record s {
        attempted = s.attempted ++ b.model_id ∷ [];
        stats = record_attempt now (attempt_of requested b (length s.attempted)) s.stats;
      })
      >>> λ _. caught (stream_tried b started) (stream_caught b retry started)

  abbrev pub once_more : ModelBinding → Flow → Routed W Flow
  once_more b again = stream_attempt b true
  once_more b over = give over
  once_more b (next_model id) = give (next_model id)

  -- The inner loop: `again` comes at most once, since the second round has `retry`.
  unfoldable pub attempts_on : ModelBinding → Routed W Flow
  attempts_on b = stream_attempt b false >>> once_more b

  abbrev pub skipped_on : ModelBinding → FailureKind → Option String → Routed W Flow
  skipped_on b kind none s = err (or_last s.last_error (skipped_error kind b)) s
  skipped_on b kind (some id) s =
      ok (next_model id) (record s { stats = record_fallback b.model_id id s.stats })

  unfoldable pub stream_skipped : ModelBinding → FailureKind → Routed W Flow
  stream_skipped b kind = note_auth (same_kind kind auth) b.provider.provider_id >>> λ _.
      find_next scores score services models request b [] >>> λ next. skipped_on b kind next

  abbrev pub stream_on : ModelBinding → Option FailureKind → Routed W Flow
  stream_on b none = attempts_on b
  stream_on b (some kind) = stream_skipped b kind

  abbrev pub stream_binding : String → Option ModelBinding → Routed W Flow
  stream_binding id none = fail (unknown_model id)
  stream_binding id (some b) = change (λ s. record s { visited = add_new id s.visited }) >>> λ _.
      clock services >>> λ now s. stream_on b (skip_reason now b requested s.stats) s

  -- A turn of the outer loop.
  unfoldable pub stream_turn : String → Routed W Flow
  stream_turn id = stream_binding id (get id models)

  abbrev pub next_stream : (String → Routed W (Unit {0})) → Flow → Routed W (Unit {0})
  next_stream rest over = give tt
  next_stream rest again = give tt
  next_stream rest (next_model id) = rest id

  unfoldable pub stream_loop : (fuel : ℕ) → String → Routed W (Unit {0})
  stream_loop zero id = give tt
  stream_loop (suc n) id = stream_turn id >>> next_stream (stream_loop n)

  -- `runModelStreamWithin`
  unfoldable pub run_model_stream_within : (fuel : ℕ) → Routed W (Unit {0})
  run_model_stream_within fuel =
      if requested == "auto"
      then fail (plain_error "Auto model routing does not support provider-native streaming.")
      else stream_loop fuel requested
