-- ===== src/Pool/Workers/Rounds.antt =====
-- The loop of `pump` in src/agent/pool/worker-pool.ts ends.
use cli_model_gateway.Base.{
  ℕ, zero, suc, ◌≤◌, ◌≡◌, refl, sym, ◌∙◌, String, Bool, true, false, some, [], ◌∷◌, List, arith,
  ltb, if◌then◌else◌, Outcome, Act, ◌>>=◌, returns, throws, after, Bool-cases, Option-cases, inl,
  inr, ◌⊎◌, nat_eq, string_eq, length,
}
use cli_model_gateway.Pool.Leases.{LeaseManager, Grant, granted, busy, acquire}
use cli_model_gateway.Pool.Workers.{
  leased, JobInput, PoolJob, Outside, Readings, WorkerPool, pick, modify,
}
use cli_model_gateway.Pool.Workers.Calls.{
  swallow, begin, activate, with_lease, dispatch, has_room, pump_loop,
}
use cli_model_gateway.Pool.Workers.Queue.{pick-cons}
use cli_model_gateway.Pool.Workers.Invariant.{emit_cases}

module _ {P : Type 0} where
  length-pick :
      (p : JobInput P → Bool) (q : List (JobInput P)) (j : JobInput P) (rest : List (JobInput P))
      → pick p q ≡ some (j, rest)
      → length q ≡ suc (length rest)
  length-pick p [] j rest h = unfold pick in absurd (cc)
  length-pick p (k ∷ q) j rest h =
      step (pick-cons p k q j rest h) (λ more e. length-pick p q j more e)
    where
      step :
          ((p k ≡ true) × (k ≡ j) × (q ≡ rest))
            ⊎ ((more : List (JobInput P)) × (pick p q ≡ some (j, more)) × (rest ≡ k ∷ more))
          → ((more : List (JobInput P)) → pick p q ≡ some (j, more) → length q ≡ suc (length more))
          → length (k ∷ q) ≡ suc (length rest)
      step (inl (_, _, e)) ih = rw e refl
      step (inr (more, e, f)) ih = rw f (omega (arith, ih more e))

module _ {P R W : Type 0} (outside : Outside P R W) where
  abbrev Pool : Type 0
  Pool = WorkerPool P R W

  -- If the loop goes on, the queue is `q`.
  abbrev IfAgain : List (JobInput P) → Outcome Pool Bool → Type 0
  IfAgain q (returns true t) = t.queue ≡ q
  IfAgain q (returns false t) = Unit
  IfAgain q (throws e t) = Unit

  begin-queue : (id : String) (s : Pool) → (after (begin outside id s)).queue ≡ s.queue
  unfolding begin modify
  begin-queue id s =
      emit_cases outside (λ o. (after (swallow outside o)).queue ≡ s.queue) id _ (λ w. refl)
        (λ e w. refl)

  begun-IfAgain :
      (q : List (JobInput P)) (o : Outcome Pool (Unit {0})) (s : Pool)
      → (after o).queue ≡ q
      → IfAgain q ((◌>>=◌ (λ (_ : Pool). o) (λ _ u. returns true u)) s)
  begun-IfAgain q (returns _ u) s e = e
  begun-IfAgain q (throws _ u) s e = tt

  with_lease-IfAgain :
      (job : JobInput P) (s : Pool) (o : Outcome LeaseManager Grant)
      → IfAgain s.queue (with_lease outside job s o)
  unfolding modify
  with_lease-IfAgain job s (throws e m) = tt
  with_lease-IfAgain job s (returns busy m) = tt
  with_lease-IfAgain job s (returns (granted l) m) =
      emit_cases outside
        (λ o. IfAgain s.queue (
          (◌>>=◌ (λ (_ : Pool). o)
              (λ _ t.
                (begin outside job.job_id >>= λ _ u. returns true u) (activate outside job t)))
            s))
        job.job_id
        (modify (λ j. record j { lease = some l; state = leased }) job.job_id
          (record s { leases = m }))
        (λ w.
          begun
            (record (modify (λ (j : PoolJob P R). record j { lease = some l; state = leased })
              job.job_id (record s { leases = m })) { world = w })
            refl)
        (λ e w. tt)
    where
      begun :
          (t : Pool)
          → t.queue ≡ s.queue
          → IfAgain s.queue
              ((begin outside job.job_id >>= λ _ u. returns true u) (activate outside job t))
      begun t e =
          begun-IfAgain s.queue (begin outside job.job_id (activate outside job t))
            (activate outside job t) (begin-queue job.job_id (activate outside job t) ∙ e)

  dispatch-IfAgain :
      (r : Readings) (job : JobInput P) (s : Pool) → IfAgain s.queue (dispatch outside r job s)
  unfolding dispatch
  dispatch-IfAgain r job s = with_lease-IfAgain job s (
      acquire (r.now job.job_id) (r.later job.job_id) (r.uuid job.job_id) job.resource_key
        job.job_id s.ttl_ms s.leases)

  again_cong :
      (q : List (JobInput P)) (o : Outcome Pool Bool) (f g : Act Pool (Unit {0})) (s : Pool)
      → IfAgain q o
      → ((t : Pool) → t.queue ≡ q → f t ≡ g t)
      → (◌>>=◌ (λ (_ : Pool). o) (λ again t. if again then f t else returns tt t)) s
        ≡ (◌>>=◌ (λ (_ : Pool). o) (λ again t. if again then g t else returns tt t)) s
  again_cong q (returns true t) f g s k same = same t k
  again_cong q (returns false t) f g s k same = refl
  again_cong q (throws e t) f g s k same = refl

  pump_loop_empty :
      (n : ℕ) (r : Readings) (s : Pool)
      → length s.queue ≤ 0
      → pump_loop outside (suc n) r s ≡ returns tt s
  unfolding pump_loop
  pump_loop_empty n r s h = elim (Bool-cases (ltb (length s.running) s.max_concurrency)) [
    | inr f ↦ rw f refl
    | inl y ↦ rw y (elim (Option-cases (pick (has_room outside s) s.queue)) [
      | inl e ↦ rw e refl
      | inr ((job, q), e) ↦
          absurd (omega (arith, h, length-pick (has_room outside s) s.queue job q e))
    ])
  ]

  -- Any two amounts of fuel that are at least the length of the queue give the same run of the loop of
  -- `pump`: it ends by itself.
  pub pump_loop_fuel :
      (n m : ℕ) (r : Readings) (s : Pool)
      → length s.queue ≤ n
      → length s.queue ≤ m
      → pump_loop outside n r s ≡ pump_loop outside m r s
  unfolding pump_loop
  pump_loop_fuel zero zero r s h k = refl
  pump_loop_fuel zero (suc m) r s h k = sym (pump_loop_empty m r s h)
  pump_loop_fuel (suc n) zero r s h k = pump_loop_empty n r s k
  pump_loop_fuel (suc n) (suc m) r s h k =
      elim (Bool-cases (ltb (length s.running) s.max_concurrency)) [
        | inr f ↦ rw f refl
        | inl y ↦ rw y (elim (Option-cases (pick (has_room outside s) s.queue)) [
          | inl e ↦ rw e refl
          | inr ((job, q), e) ↦ rw e (
              again_cong q (dispatch outside r job (record s { queue = q })) (pump_loop outside n r)
                (pump_loop outside m r) (record s { queue = q })
                (dispatch-IfAgain r job (record s { queue = q }))
                (λ t same.
                  pump_loop_fuel n m r t (fewer job q t e same h) (fewer job q t e same k)))
        ])
      ]
    where
      fewer :
          (job : JobInput P) (q : List (JobInput P)) (t : Pool)
          → pick (has_room outside s) s.queue ≡ some (job, q)
          → t.queue ≡ q
          → {l : ℕ} → length s.queue ≤ suc l
          → length t.queue ≤ l
      fewer job q t e same le =
          rw same (omega (arith, length-pick (has_room outside s) s.queue job q e, le))
