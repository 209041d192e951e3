-- ===== src/Providers/Answers.antt =====
-- `runModel` of src/providers/registry.ts answers: a model that is not skipped, can serve the request and gives a valid answer
-- is the one whose answer is returned, when the policy sets no limits.
use cli_model_gateway.Base.{
  ℕ, suc, ◌≡◌, refl, sym, ap, ◌∙◌, subst, String, Bool, true, false, not, ◌&&◌, Option, none, some,
  [], List, arith, ◌==◌, if◌then◌else◌, Table, get, Act, ◌>>=◌, returns, throws, nat_eq, string_eq,
}
use cli_model_gateway.Stats.{ModelStatsTracker}
use cli_model_gateway.Utils.Execution.{
  ExecutionPolicy, check, attempt, start_attempt, throw_if_aborted, due, abort, deadline_exceeded,
  budgeted, exhausted,
}
use cli_model_gateway.Providers.Bindings.{
  ModelBinding, Request, can_serve, meets, required_capability, requires_tools, has_capability,
  tools, Error,
}
use cli_model_gateway.Providers.Auto.{Scores}
use cli_model_gateway.Providers.Routing.{
  Services, answered, Routing, Result, ok, err, Routed, clock, give, policed, from_policy,
  provider_run, mem,
}
use cli_model_gateway.Providers.Next.{skip_reason}
use cli_model_gateway.Providers.Turns.{ProviderResult, Turn, served, rescued}
use cli_model_gateway.Providers.Run.{
  checked, dispatched, guarded, thrown_by, sent, judged, tried, attempted_on, turn, loop, next_turn,
}
use cli_model_gateway.Providers.Model.{
  first_model, returned, run_model_within, waited, run_model, settled, checks, finished,
}
use cli_model_gateway.Providers.Hoare.{Ensures, bound-Ensures, if-Ensures}

-- No limit is set, and no signal was given.
abbrev pub IsQuiet : ExecutionPolicy → Type 0
IsQuiet p = (p.signal ≡ none) × (p.deadline ≡ none) × (p.max_attempts ≡ none)

check-IsQuiet : (now : ℕ) (p : ExecutionPolicy) → IsQuiet p → check now p ≡ returns tt p
unfolding check
check-IsQuiet now p (no_signal, no_deadline, _) =
    let late : due now p.deadline ≡ false = ap (due now) no_deadline in
    subst
      (λ c.
        throw_if_aborted (if c then abort deadline_exceeded p else p).signal
          (if c then abort deadline_exceeded p else p)
        ≡ returns tt p)
      (sym late) (subst (λ x. throw_if_aborted x p ≡ returns tt p) (sym no_signal) refl)

attempt-IsQuiet :
    (model provider : String) (now at : ℕ) (p : ExecutionPolicy)
    → IsQuiet p
    → attempt model provider now at p ≡ returns tt (start_attempt model provider at p)
unfolding attempt
attempt-IsQuiet model provider now at p q =
    ap (λ o. ◌>>=◌ (λ (_ : ExecutionPolicy). o) (λ _. budgeted model provider at) p)
      (check-IsQuiet now p q)
    ∙ subst
        (λ m.
          (if exhausted p.attempts m
            then throws "Request attempt budget exhausted" p
            else returns tt (start_attempt model provider at p))
          ≡ returns tt (start_attempt model provider at p))
        (sym q.2) refl

module _ {W A : Type 0} where
  -- The call gives a result, and the predicate holds after it.
  abbrev pub Gives : (A → Routing W → Type 0) → Result W A → Type 0
  Gives P r = Ensures P (λ s. ⊥) r

  rescued-Gives :
      {P : A → Routing W → Type 0} (r : Result W A) (h : Error → Routed W A)
      → Gives P r
      → Gives P (rescued r h)
  rescued-Gives (ok a t) h p = record { holds = p.holds }
  rescued-Gives (err e t) h p = absurd p.holds

  policed-Gives :
      (m : Act ExecutionPolicy A) (s : Routing W) (a : A) (p : ExecutionPolicy)
      → m s.policy ≡ returns a p
      → (P : A → Routing W → Type 0) → P a (record s { policy = p })
      → Gives P (policed m s)
  policed-Gives m s a p e P h =
      subst (λ o. Gives P (from_policy o s)) (sym e) (record { holds = h })

module _ {R W : Type 0} (scores : Scores)
    (score : Request → ModelStatsTracker → ModelBinding → scores.Score) (services : Services R W)
    (models : Table String ModelBinding) (request : Request) (requested : String) where
  clock-Gives :
      (P : Routing W → Type 0) (s : Routing W)
      → ((w : W) → P (record s { world = w }))
      → Gives (λ _. P) (clock services s)
  unfolding clock
  clock-Gives P s h = record { holds = h (services.tick s.world).1 }

  -- A check leaves the state as it was, but for the world.
  checked-Gives :
      (P : Routing W → Type 0) (s : Routing W)
      → IsQuiet s.policy
      → ((w : W) → P (record s { world = w }))
      → Gives (λ _. P) (checked scores score services models request requested s)
  checked-Gives P s q h =
      bound-Ensures _ _ (clock-Gives (λ t. IsQuiet t.policy × P t) s (λ w. (q, h w)))
        λ now t (r, p).
          policed-Gives (check now) t tt t.policy (check-IsQuiet now t.policy r) (λ _. P) p

  -- A model whose calls are answered with a result that is judged valid.
  module _ (b : ModelBinding) (r : R) (c : can_serve request b ≡ true)
      (answers : (w : W) → (services.call b request w).0 ≡ answered r)
      (judges : services.judge request b r ≡ none) where
    abbrev pub Quiet : Routing W → Type 0
    Quiet s = IsQuiet s.policy

    guarded-Gives :
        (s : Routing W)
        → Quiet s
        → Gives (λ _. Quiet) (guarded scores score services models request requested b s)
    unfolding guarded can_serve
    guarded-Gives s q =
        let able : meets (required_capability request.kind) b ≡ true = ground (arith, c) in
        let armed : (requires_tools request && not (has_capability tools b.capabilities)) ≡ false =
          ground (arith, c) in
        rw (able, armed) (record { holds = q })

    dispatched-Gives :
        (s : Routing W)
        → Quiet s
        → Gives (λ _. Quiet) (dispatched scores score services models request requested b s)
    dispatched-Gives s q = bound-Ensures _ _ (clock-Gives Quiet s (λ w. q)) λ now t p.
        bound-Ensures _ _ (clock-Gives Quiet t (λ w. p)) λ at u n.
          policed-Gives (attempt b.model_id b.provider.provider_id now at) u tt _
            (attempt-IsQuiet b.model_id b.provider.provider_id now at u.policy n) (λ _. Quiet) n

    sent-Gives :
        (s : Routing W)
        → Quiet s
        → Gives (λ a t. (a ≡ r) × Quiet t) (sent scores score services models request requested b s)
    unfolding provider_run
    sent-Gives s q =
        subst
          (λ a.
            Gives (λ x t. (x ≡ r) × Quiet t)
              (thrown_by scores score services models request requested a
                (record s { world = (services.call b request s.world).1 })))
          (sym (answers s.world)) (record { holds = (refl, q) })

    abbrev pub answer : ProviderResult R
    answer = record { served_model = b.model_id; result = r }

    abbrev Answers : Turn R → Routing W → Type 0
    Answers a t = (a ≡ served answer) × Quiet t

    tried-Gives :
        (started : ℕ) (s : Routing W)
        → Quiet s
        → Gives Answers (tried scores score services models request requested b started s)
    unfolding tried
    tried-Gives started s q = bound-Ensures _ _ (guarded-Gives s q) λ _ t p.
        bound-Ensures _ _ (dispatched-Gives t p) λ _ u n.
          bound-Ensures _ _ (rescued-Gives _ _ (sent-Gives u n)) λ a v m.
            bound-Ensures _ _ (checked-Gives Quiet v m.1 (λ w. m.1)) λ _ w l.
              bound-Ensures _ _ (judged-Gives a w m.0 l) λ a' x k.
                bound-Ensures _ _ (clock-Gives Quiet x (λ w. k.1)) λ now y j.
                  bound-Ensures _ _ (clock-Gives Quiet y (λ w. j)) λ later z i. record {
                    holds = (
                      ap (λ a. served (record { served_model = b.model_id; result = a })) k.0,
                      i,
                    );
                  }
      where
        judged-Gives :
            (a : R) (s : Routing W)
            → a ≡ r
            → Quiet s
            → Gives
                (λ x t. (x ≡ r) × Quiet t)
                (judged scores score services models request requested b a
                  (services.judge request b a)
                  s)
        judged-Gives a s e q = rw e (rw judges (record { holds = (refl, q) }))

    attempted_on-Gives :
        (auto_ids : List String) (id : String) (s : Routing W)
        → Quiet s
        → Gives Answers
            (attempted_on scores score services models request requested auto_ids id b s)
    unfolding attempted_on
    attempted_on-Gives auto_ids id s q =
        bound-Ensures _ _ (clock-Gives Quiet s (λ w. q)) λ started t p.
          bound-Ensures _ _ (clock-Gives Quiet t (λ w. p))
            λ now u n. rescued-Gives _ _ (tried-Gives started _ n)

    module _ (stats : ModelStatsTracker) (g : get requested models ≡ some b)
        (unskipped : (now : ℕ) → skip_reason now b requested stats ≡ none)
        (unreserved : (requested == "auto") ≡ false) where
      -- Before the first turn.
      abbrev pub IsFresh : Routing W → Type 0
      IsFresh s = Quiet s × (s.stats ≡ stats) × (s.visited ≡ [])

      turn-Gives :
          (auto_ids : List String) (s : Routing W)
          → IsFresh s
          → Gives Answers (turn scores score services models request requested auto_ids requested s)
      unfolding turn
      turn-Gives auto_ids s f = bound-Ensures _ _ (checked-Gives IsFresh s f.0 (λ w. f)) λ _ t k.
          if-Ensures (mem requested t.visited) _ _
            (λ y. absurd (ground (arith, y, ap (mem requested) k.2)))
            λ _. rw g (
              bound-Ensures _ _ (clock-Gives (λ u. Quiet u × (u.stats ≡ stats)) _ (λ w. (k.0, k.1)))
                λ now u j.
                  rw (ap (skip_reason now b requested) j.1 ∙ unskipped now)
                    (attempted_on-Gives auto_ids requested u j.0))

      run_model_within-Gives :
          (fuel : ℕ) (s : Routing W)
          → IsFresh s
          → Gives
              (λ a t. (a ≡ answer) × Quiet t)
              (run_model_within scores score services models request requested (suc fuel) s)
      unfolding run_model_within first_model loop
      run_model_within-Gives fuel s f =
          rw (unreserved, g)
            (bound-Ensures _ _ (bound-Ensures _ _ (turn-Gives [] s f) after_turn) after_loop)
        where
          after_turn :
              (a : Turn R) (t : Routing W)
              → Answers a t
              → Gives
                  (λ o u. (o ≡ some answer) × Quiet u)
                  (next_turn scores score services models request requested
                    (loop scores score services models request requested (λ _. give none) fuel [])
                    a
                    t)
          after_turn a t p = rw (p.0) (record { holds = (refl, p.1) })

          after_loop :
              (o : Option (ProviderResult R)) (t : Routing W)
              → (o ≡ some answer) × Quiet t
              → Gives
                  (λ a u. (a ≡ answer) × Quiet u)
                  (returned scores score services models request requested o t)
          after_loop o t p = rw (p.0) (record { holds = (refl, p.1) })

      finished-Gives :
          (E : Type 0) (success : Bool) (s : Routing W)
          → E
          → Gives (λ _ t. E) (finished scores score services models request requested success s)
      finished-Gives E success s e =
          bound-Ensures _ _ (clock-Gives (λ u. E) s (λ w. e)) λ at u h. record { holds = h }

      checks-Gives :
          (P : Routing W → Type 0) (s : Routing W)
          → IsQuiet s.policy
          → ((w : W) → P (record s { world = w }))
          → Gives (λ _. P) (checks scores score services models request requested s)
      checks-Gives = checked-Gives

      waited-Gives :
          (fuel : ℕ) (s : Routing W)
          → IsFresh s
          → Gives
              (λ a t. a ≡ answer)
              (waited scores score services models request requested (suc fuel) s)
      unfolding waited
      waited-Gives fuel s f = bound-Ensures _ _ (checks-Gives IsFresh s f.0 (λ w. f)) λ _ t k.
          bound-Ensures _ _ (checks-Gives IsFresh t k.0 (λ w. k)) λ _ u l.
            bound-Ensures _ _ (run_model_within-Gives fuel u l) λ a v p.
              bound-Ensures _ _ (checks-Gives (λ t. a ≡ answer) v p.1 (λ w. p.0))
                λ _ w e. record { holds = e }

      -- If the policy sets no limits, the model that the request names is registered, is not skipped at
      -- any time and can serve the request, each of its calls is answered with `r` and `r` is judged
      -- valid, then with any fuel but 0 the answer `r` of this model is returned.
      pub run_model-Gives :
          (fuel : ℕ) (s : Routing W)
          → IsFresh s
          → Gives
              (λ a t. a ≡ answer)
              (run_model scores score services models request requested (suc fuel) s)
      unfolding run_model
      run_model-Gives fuel s f =
          go (waited scores score services models request requested (suc fuel) s)
            (waited-Gives fuel s f)
        where
          go :
              (o : Result W (ProviderResult R))
              → Gives (λ a t. a ≡ answer) o
              → Gives (λ a t. a ≡ answer) (settled scores score services models request requested o)
          go (ok a t) p =
              bound-Ensures _ _ (finished-Gives (a ≡ answer) true t p.holds)
                λ _ u e. record { holds = e }
          go (err e t) p = absurd p.holds
