-- ===== src/Providers/Run.antt =====
-- A turn of the loop in `runModelWithin` of src/providers/registry.ts: a model with its second attempt and the way to its
-- fallback. Only runs are modelled that no signal interrupts between two of their steps. The loop takes
-- fuel. The receipts and the metrics that are sent out are left out. A clock that goes back gives a duration of 0.
use cli_model_gateway.Base.{
  ℕ, zero, suc, ◌-◌, String, Bool, true, false, not, ◌&&◌, ◌||◌, Option, none, some, [], ◌∷◌, ◌++◌,
  List, if◌then◌else◌, Table, get, nat_eq, string_eq, length,
}
use cli_model_gateway.Stats.Classify.{FailureKind, auth}
use cli_model_gateway.Stats.{
  ModelStatsTracker, same_kind, record_attempt, record_success, record_fallback,
}
use cli_model_gateway.Utils.Execution.{check, attempt, can_fallback}
use cli_model_gateway.Providers.Bindings.{
  tools, has_capability, Error, ordinary, ModelBinding, Request, requires_tools,
  required_capability, meets, replay_safe,
}
use cli_model_gateway.Providers.Auto.{Scores}
use cli_model_gateway.Providers.Routing.{
  Answer, answered, refused, Services, ok, Routed, ◌>>>◌, give, fail, policed, mem, clock,
  provider_run, retry_delay,
}
use cli_model_gateway.Providers.Next.{skip_reason, find_next}
use cli_model_gateway.Providers.Messages.{unavailable_text}
use cli_model_gateway.Providers.Turns.{
  ProviderResult, Turn, served, stopped, onward, attempt_of, missing_attempt, is_upstream,
  is_auth_class, missing_error, capability_failure, capability_text, snapshot_of, last_index,
  caught, change, note_error, note_auth, failure_noted,
}

module _ {R W : Type 0} (scores : Scores)
    (score : Request → ModelStatsTracker → ModelBinding → scores.Score) (services : Services R W)
    (models : Table String ModelBinding) (request : Request) (requested : String) where
  abbrev pub checked : Routed W (Unit {0})
  checked = clock services >>> λ now. policed (check now)

  abbrev pub dispatched : ModelBinding → Routed W (Unit {0})
  dispatched b = clock services >>> λ now.
      clock services >>> λ at. policed (attempt b.model_id b.provider.provider_id now at)

  -- `recordFallback`, if there is a next model.
  abbrev pub moved : ModelBinding → Option String → Routed W (Turn R)
  moved b none = give stopped
  moved b (some id) =
      change (λ s. record s { stats = record_fallback b.model_id id s.stats }) >>> λ _.
      give (onward id)

  -- The fallback model is not registered.
  unfoldable pub missing : String → Routed W (Turn R)
  missing id =
      change
        (λ s. record s { attempted = s.attempted ++ id ∷ []; last_error = some (missing_error id) })
      >>> λ _. clock services >>> λ now.
          change (λ s. record s {
            stats =
                record_attempt now (missing_attempt requested id (last_index s.attempted)) s.stats;
          })
          >>> λ _. clock services >>> λ later s.
              (failure_noted later (missing_attempt requested id (last_index s.attempted)) 0
                    (missing_error id)
                  >>> λ _. give stopped)
                s

  abbrev noted_unavailable : (now : ℕ) → ModelBinding → FailureKind → Routed W (Unit {0})
  noted_unavailable now b kind s =
      note_error
        (record {
          class = ordinary;
          uncertain = false;
          message =
              unavailable_text b.model_id kind (snapshot_of now (get b.model_id s.stats.models));
        })
        s

  -- A model that is not tried now.
  unfoldable pub skipped : List String → ModelBinding → FailureKind → Routed W (Turn R)
  skipped auto_ids b kind = note_auth (same_kind kind auth) b.provider.provider_id >>> λ _.
      find_next scores score services models request b auto_ids >>> λ next.
      clock services >>> λ now. noted_unavailable now b kind >>> λ _. moved b next

  -- The guards before the provider.
  unfoldable pub guarded : ModelBinding → Routed W (Unit {0})
  guarded b =
      if not (meets (required_capability request.kind) b)
      then fail (capability_failure b (capability_text (required_capability request.kind)))
      else if requires_tools request && not (has_capability tools b.capabilities)
      then fail (capability_failure b "tools")
      else give tt

  abbrev pub thrown_by : Answer R → Routed W R
  thrown_by (answered r) = give r
  thrown_by (refused e) = fail e

  -- One call of the provider, which may throw.
  abbrev pub sent : ModelBinding → Routed W R
  sent b = provider_run services b request >>> thrown_by

  abbrev pub second : ModelBinding → Error → Bool → Routed W R
  second b e false = fail e
  second b e true = retry_delay services b e >>> λ _. dispatched b >>> λ _. sent b

  -- Whether an error may be tried again on the same model: the last test reads the policy.
  unfoldable pub retried : ModelBinding → Error → Routed W R
  retried b e s =
      if s.emergency
        || not (is_upstream e.class)
        || not (b.provider.retry_allowed e)
        || not (replay_safe request)
      then fail e s
      else (clock services >>> λ now. policed (can_fallback now) >>> second b e) s

  abbrev pub judged : ModelBinding → R → Option (List ℕ) → Routed W R
  judged b r none = give r
  judged b r (some m) = fail (record { class = ordinary; uncertain = false; message = m })

  abbrev pub succeeded : ModelBinding → (started : ℕ) → R → Routed W (Turn R)
  succeeded b started r = clock services >>> λ now. clock services >>> λ later.
      change (λ s. record s {
        stats =
            record_success later (attempt_of requested b (last_index s.attempted)) (now - started)
              s.stats;
      })
      >>> λ _. give (served (record { served_model = b.model_id; result = r }))

  -- The body of the `try`.
  unfoldable pub tried : ModelBinding → (started : ℕ) → Routed W (Turn R)
  tried b started = guarded b >>> λ _. dispatched b >>> λ _. caught (sent b) (retried b) >>> λ r.
      checked >>> λ _. judged b r (services.judge request b r) >>> λ r. succeeded b started r

  -- The `catch` after the test on `uncertain`.
  unfoldable pub fell_back : List String → ModelBinding → (started : ℕ) → Error → Routed W (Turn R)
  fell_back auto_ids b started e = note_error e >>> λ _.
      note_auth (is_auth_class e.class && b.provider.auth_fail_fast) b.provider.provider_id >>> λ _.
      clock services >>> λ now. clock services >>> λ later s.
      (failure_noted later (attempt_of requested b (last_index s.attempted)) (now - started) e
          >>> λ _.
              find_next scores score services models request b auto_ids >>> λ next. moved b next)
        s

  abbrev pub recovered : List String → ModelBinding → (started : ℕ) → Error → Routed W (Turn R)
  recovered auto_ids b started e =
      checked >>> λ _. if e.uncertain then fail e else fell_back auto_ids b started e

  unfoldable pub attempted_on : List String → String → ModelBinding → Routed W (Turn R)
  attempted_on auto_ids id b = clock services >>> λ started. clock services >>> λ now.
      change (λ s. record s {
        attempted = s.attempted ++ id ∷ [];
        stats = record_attempt now (attempt_of requested b (length s.attempted)) s.stats;
      })
      >>> λ _. caught (tried b started) (recovered auto_ids b started)

  abbrev pub skipped_or_not :
      List String → String → ModelBinding → Option FailureKind → Routed W (Turn R)
  skipped_or_not auto_ids id b none = attempted_on auto_ids id b
  skipped_or_not auto_ids id b (some kind) = skipped auto_ids b kind

  abbrev pub on_binding : List String → String → Option ModelBinding → Routed W (Turn R)
  on_binding auto_ids id none = missing id
  on_binding auto_ids id (some b) = clock services >>> λ now s.
      skipped_or_not auto_ids id b (skip_reason now b requested s.stats) s

  -- A turn of the loop on a model.
  unfoldable pub turn : List String → String → Routed W (Turn R)
  turn auto_ids id = checked >>> λ _ s.
      if mem id s.visited
      then ok stopped s
      else on_binding auto_ids id (get id models) (record s { visited = s.visited ++ id ∷ [] })

  abbrev pub next_turn :
      (String → Routed W (Option (ProviderResult R)))
      → Turn R
      → Routed W (Option (ProviderResult R))
  next_turn rest (served r) = give (some r)
  next_turn rest stopped = give none
  next_turn rest (onward id) = rest id

  -- The loop: a result that is returned, or none. `more` goes on when the fuel is over.
  unfoldable pub loop :
      (more : String → Routed W (Option (ProviderResult R))) (fuel : ℕ)
      → List String
      → String
      → Routed W (Option (ProviderResult R))
  loop more zero auto_ids id = more id
  loop more (suc n) auto_ids id = turn auto_ids id >>> next_turn (loop more n auto_ids)
