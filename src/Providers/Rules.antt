-- ===== src/Providers/Rules.antt =====
-- A rule for a turn of the loop in `runModelWithin` of src/providers/registry.ts: a predicate that the notes, the dispatch of
-- a model that can serve the request and the search for the next model leave true is true after the turn.
use cli_model_gateway.Base.{
  ℕ, ◌≡◌, refl, String, Bool, true, false, not, ◌&&◌, ◌||◌, Option, none, some, List, if◌then◌else◌,
  Table, Bool-cases, inl, inr, nat_eq, string_eq,
}
use cli_model_gateway.Stats.Classify.{FailureKind, auth}
use cli_model_gateway.Stats.{ModelStatsTracker, same_kind}
use cli_model_gateway.Utils.Execution.{ExecutionPolicy, start_attempt}
use cli_model_gateway.Providers.Bindings.{
  Error, ModelBinding, Request, can_serve, requires_tools, required_capability, meets,
  has_capability, tools, replay_safe,
}
use cli_model_gateway.Providers.Auto.{Scores}
use cli_model_gateway.Providers.Routing.{Services, Answer, answered, refused, Routing, fail}
use cli_model_gateway.Providers.Next.{find_next}
use cli_model_gateway.Providers.Turns.{
  Turn, served, stopped, onward, is_upstream, is_auth_class, note_auth,
}
use cli_model_gateway.Providers.Run.{
  checked, dispatched, moved, missing, skipped, guarded, thrown_by, sent, second, retried, judged,
  succeeded, tried, fell_back, recovered, attempted_on,
}
use cli_model_gateway.Providers.Hoare.{
  Ensures, Keeps, IsFrame, bound-Ensures, bound-Keeps, rescued-Ensures, clock-Keeps,
  provider_run-Keeps, retry_delay-Keeps, check-Keeps, can_fallback-Keeps, attempt-Keeps,
}

abbrev pub NextOf : (String → Type 0) → Option String → Type 0
NextOf N none = Unit {0}
NextOf N (some id) = N id

module _ {R W : Type 0} where
  -- The predicate after a turn on a model, with what holds of the next model.
  abbrev pub Ends :
      Request
      → (Routing W → Type 0)
      → (String → Type 0)
      → ModelBinding
      → Turn R
      → Routing W
      → Type 0
  Ends request I N b (served r) t =
      I t × (r.served_model ≡ b.model_id) × (can_serve request b ≡ true)
  Ends request I N b stopped t = I t
  Ends request I N b (onward id) t = I t × N id

module _ {R W : Type 0} (scores : Scores)
    (score : Request → ModelStatsTracker → ModelBinding → scores.Score) (services : Services R W)
    (models : Table String ModelBinding) (request : Request) (requested : String)
    (I : Routing W → Type 0) (frame : IsFrame I) (N : String → Type 0)
    (next-Ensures : (b : ModelBinding) (auto_ids : List String) (s : Routing W)
      → I s
      → Ensures
          (λ o t. I t × NextOf N o)
          I
          (find_next scores score services models request b auto_ids s)) where
  pub checked-Keeps :
      (s : Routing W) → I s → Keeps I (checked scores score services models request requested s)
  checked-Keeps s i =
      bound-Keeps _ _ (clock-Keeps services frame s i) λ now t j. check-Keeps frame now t j

  moved-Ends :
      (b : ModelBinding) (o : Option String) (s : Routing W)
      → I s
      → NextOf N o
      → Ensures (Ends request I N b) I (moved scores score services models request requested b o s)
  moved-Ends b none s i n = record { holds = i }
  moved-Ends b (some id) s i n = record { holds = (frame.stats s _ i, n) }

  note_auth-Keeps : (c : Bool) (p : String) (s : Routing W) → I s → Keeps I (note_auth c p s)
  note_auth-Keeps true p s i = record { holds = frame.auth_failed s _ i }
  note_auth-Keeps false p s i = record { holds = i }

  pub skipped-Ends :
      (auto_ids : List String) (b : ModelBinding) (kind : FailureKind) (s : Routing W)
      → I s
      → Ensures
          (Ends request I N b)
          I
          (skipped scores score services models request requested auto_ids b kind s)
  unfolding skipped
  skipped-Ends auto_ids b kind s i =
      bound-Keeps _ _ (note_auth-Keeps (same_kind kind auth) b.provider.provider_id s i) λ _ t j.
        bound-Ensures _ _ (next-Ensures b auto_ids t j) λ o u k.
          bound-Keeps _ _ (clock-Keeps services frame u k.0)
            λ now v l. moved-Ends b o _ (frame.last_error v _ l) k.1

  fell_back-Ends :
      (auto_ids : List String) (b : ModelBinding) (started : ℕ) (e : Error) (s : Routing W)
      → I s
      → Ensures
          (Ends request I N b)
          I
          (fell_back scores score services models request requested auto_ids b started e s)
  unfolding fell_back
  fell_back-Ends auto_ids b started e s i =
      bound-Keeps _ _
        (note_auth-Keeps (is_auth_class e.class && b.provider.auth_fail_fast) b.provider.provider_id
          _ (frame.last_error s _ i))
        λ _ t j. bound-Keeps _ _ (clock-Keeps services frame t j) λ now u k.
          bound-Keeps _ _ (clock-Keeps services frame u k) λ later v l.
            bound-Ensures _ _ (next-Ensures b auto_ids _ (frame.stats v _ l))
              λ o w m. moved-Ends b o w m.0 m.1

  recovered-Ends :
      (auto_ids : List String) (b : ModelBinding) (started : ℕ) (e : Error) (s : Routing W)
      → I s
      → Ensures
          (Ends request I N b)
          I
          (recovered scores score services models request requested auto_ids b started e s)
  recovered-Ends auto_ids b started e s i =
      bound-Keeps _ _ (checked-Keeps s i) λ _ t j. go e.uncertain t j
    where
      go :
          (c : Bool) (t : Routing W)
          → I t
          → Ensures (Ends request I N b) I (
              (if c
                  then fail e
                  else fell_back scores score services models request requested auto_ids b started
                      e)
                t)
      go true t j = record { holds = j }
      go false t j = fell_back-Ends auto_ids b started e t j

  guarded-Ensures :
      (b : ModelBinding) (s : Routing W)
      → I s
      → Ensures
          (λ _ t. I t × can_serve request b ≡ true)
          I
          (guarded scores score services models request requested b s)
  unfolding guarded can_serve
  guarded-Ensures b s i = elim (Bool-cases (meets (required_capability request.kind) b)) [
    | inr n ↦ rw n (record { holds = i })
    | inl y ↦
        elim (Bool-cases (requires_tools request && not (has_capability tools b.capabilities))) [
          | inl t ↦ rw (y, t) (record { holds = i })
          | inr n ↦ rw (y, n) (record { holds = (i, refl) })
        ]
  ]

  sent-Keeps :
      (b : ModelBinding) (s : Routing W)
      → I s
      → Keeps I (sent scores score services models request requested b s)
  sent-Keeps b s i = bound-Keeps _ _ (provider_run-Keeps services frame b request s i) answer-Keeps
    where
      answer-Keeps :
          (a : Answer R) (t : Routing W)
          → I t
          → Keeps I (thrown_by scores score services models request requested a t)
      answer-Keeps (answered r) t j = record { holds = j }
      answer-Keeps (refused e) t j = record { holds = j }

  pub missing-Ends :
      (id : String) (s : Routing W)
      → I s
      → Ensures
          (λ a t. (a ≡ stopped) × I t)
          I
          (missing scores score services models request requested id s)
  unfolding missing
  missing-Ends id s i =
      bound-Keeps _ _ (clock-Keeps services frame _ (frame.last_error _ _ (frame.attempted s _ i)))
        λ now t j.
          bound-Keeps _ _ (clock-Keeps services frame _ (frame.stats t _ j))
            λ later u k. record { holds = (refl, frame.stats u _ k) }

  -- A dispatch of a model that can serve the request.
  module _ (b : ModelBinding)
      (start : can_serve request b ≡ true
        → (at : ℕ) (s : Routing W) (p : ExecutionPolicy) → I (record s { policy = p })
        → I (record s { policy = start_attempt b.model_id b.provider.provider_id at p })) where
    dispatched-Keeps :
        (s : Routing W)
        → can_serve request b ≡ true
        → I s
        → Keeps I (dispatched scores score services models request requested b s)
    dispatched-Keeps s c i = bound-Keeps _ _ (clock-Keeps services frame s i) λ now t j.
        bound-Keeps _ _ (clock-Keeps services frame t j)
          λ at u k. attempt-Keeps frame b.model_id b.provider.provider_id now at u (start c at u) k

    retried-Keeps :
        (e : Error) (s : Routing W)
        → can_serve request b ≡ true
        → I s
        → Keeps I (retried scores score services models request requested b e s)
    unfolding retried
    retried-Keeps e s c i =
        elim (Bool-cases (
          s.emergency
          || not (is_upstream e.class)
          || not (b.provider.retry_allowed e)
          || not (replay_safe request))) [
            | inl y ↦ rw y (record { holds = i })
            | inr n ↦ rw n (
                bound-Keeps _ _ (clock-Keeps services frame s i)
                  λ now t j. bound-Keeps _ _ (can_fallback-Keeps frame now t j) second-Keeps)
          ]
      where
        second-Keeps :
            (a : Bool) (t : Routing W)
            → I t
            → Keeps I (second scores score services models request requested b e a t)
        second-Keeps false t j = record { holds = j }
        second-Keeps true t j =
            bound-Keeps _ _ (retry_delay-Keeps services frame b e t j)
              λ _ u k. bound-Keeps _ _ (dispatched-Keeps u c k) λ _ v l. sent-Keeps b v l

    succeeded-Ends :
        (started : ℕ) (r : R) (s : Routing W)
        → can_serve request b ≡ true
        → I s
        → Ensures
            (Ends request I N b)
            I
            (succeeded scores score services models request requested b started r s)
    succeeded-Ends started r s c i = bound-Keeps _ _ (clock-Keeps services frame s i) λ now t j.
        bound-Keeps _ _ (clock-Keeps services frame t j)
          λ later u k. record { holds = (frame.stats u _ k, refl, c) }

    judged-Keeps :
        (r : R) (m : Option (List ℕ)) (s : Routing W)
        → I s
        → Keeps I (judged scores score services models request requested b r m s)
    judged-Keeps r none s i = record { holds = i }
    judged-Keeps r (some m) s i = record { holds = i }

    tried-Ends :
        (started : ℕ) (s : Routing W)
        → I s
        → Ensures
            (Ends request I N b)
            I
            (tried scores score services models request requested b started s)
    unfolding tried
    tried-Ends started s i = bound-Ensures _ _ (guarded-Ensures b s i) λ _ t j.
        bound-Keeps _ _ (dispatched-Keeps t j.1 j.0) λ _ u k.
          bound-Keeps _ _ (rescued-Ensures _ _ (sent-Keeps b u k) λ e v l. retried-Keeps e v j.1 l)
            λ r v l. bound-Keeps _ _ (checked-Keeps v l) λ _ w m.
              bound-Keeps _ _ (judged-Keeps r (services.judge request b r) w m)
                λ r' x n. succeeded-Ends started r' x j.1 n

    pub attempted_on-Ends :
        (auto_ids : List String) (id : String) (s : Routing W)
        → I s
        → Ensures
            (Ends request I N b)
            I
            (attempted_on scores score services models request requested auto_ids id b s)
    unfolding attempted_on
    attempted_on-Ends auto_ids id s i =
        bound-Keeps _ _ (clock-Keeps services frame s i) λ started t j.
          bound-Keeps _ _ (clock-Keeps services frame t j) λ now u k.
            rescued-Ensures _ _ (tried-Ends started _ (frame.stats _ _ (frame.attempted u _ k)))
              λ e v l. recovered-Ends auto_ids b started e v l
