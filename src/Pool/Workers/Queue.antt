-- ===== src/Pool/Workers/Queue.antt =====
-- The queue of src/agent/pool/worker-pool.ts: which identifiers stand in it, and that none does twice.
use cli_model_gateway.Base.{
  suc, ◌≡◌, refl, ap, ◌∙◌, String, Bool, true, false, ◌||◌, Option, none, some, [], ◌∷◌, ◌++◌, List,
  arith, ◌==◌, ◌!=◌, ==_iff, ==_refl, Bool-cases, inl, inr, ◌⊎◌, nat_eq, string_eq, length, any,
  filter,
}
use cli_model_gateway.Pool.Workers.{JobInput, insert, sort, pick, put_back}

module _ {P : Type 0} where
  -- The identifier of a queued job.
  abbrev pub is_queued : String → List (JobInput P) → Bool
  is_queued id q = any (λ j. j.job_id == id) q

  abbrev pub IsDistinct : List (JobInput P) → Type 0
  IsDistinct [] = Unit {0}
  IsDistinct (j ∷ q) = (is_queued j.job_id q ≡ false) × IsDistinct q

  is_queued-insert :
      (id : String) (j : JobInput P) (q : List (JobInput P))
      → is_queued id (insert j q) ≡ is_queued id (j ∷ q)
  unfolding insert
  is_queued-insert id j [] = refl
  is_queued-insert id j (k ∷ q) = ground (arith, is_queued-insert id j q)

  pub is_queued-sort :
      (id : String) (q : List (JobInput P)) → is_queued id (sort q) ≡ is_queued id q
  unfolding sort
  is_queued-sort id [] = refl
  is_queued-sort id (j ∷ q) =
      is_queued-insert id j (sort q) ∙ ap (λ b. j.job_id == id || b) (is_queued-sort id q)

  insert-IsDistinct :
      (j : JobInput P) (q : List (JobInput P))
      → is_queued j.job_id q ≡ false
      → IsDistinct q
      → IsDistinct (insert j q)
  unfolding insert
  insert-IsDistinct j [] n d = (refl, tt)
  insert-IsDistinct j (k ∷ q) n (m, d) = ground (
    arith,
    insert-IsDistinct j q (ground arith) d,
    is_queued-insert k.job_id j q,
    ==_iff k.job_id j.job_id,
    ==_iff j.job_id k.job_id,
  )

  pub sort-IsDistinct : (q : List (JobInput P)) → IsDistinct q → IsDistinct (sort q)
  unfolding sort
  sort-IsDistinct [] d = tt
  sort-IsDistinct (j ∷ q) (n, d) =
      insert-IsDistinct j (sort q) (is_queued-sort j.job_id q ∙ n) (sort-IsDistinct q d)

  pub is_queued-concat :
      (id : String) (j : JobInput P) (q : List (JobInput P))
      → is_queued id (q ++ j ∷ []) ≡ (is_queued id q || j.job_id == id)
  is_queued-concat id j [] = ground arith
  is_queued-concat id j (k ∷ q) = ground (arith, is_queued-concat id j q)

  pub concat-IsDistinct :
      (j : JobInput P) (q : List (JobInput P))
      → is_queued j.job_id q ≡ false
      → IsDistinct q
      → IsDistinct (q ++ j ∷ [])
  concat-IsDistinct j [] n d = (refl, tt)
  concat-IsDistinct j (k ∷ q) n (m, d) = (
    ground
        (arith, is_queued-concat k.job_id j q, ==_iff k.job_id j.job_id, ==_iff j.job_id k.job_id),
    concat-IsDistinct j q (ground arith) d,
  )

  pub pick-cons :
      (p : JobInput P → Bool) (k : JobInput P) (q : List (JobInput P)) (j : JobInput P)
      (rest : List (JobInput P))
      → pick p (k ∷ q) ≡ some (j, rest)
      → ((p k ≡ true) × (k ≡ j) × (q ≡ rest))
        ⊎ ((more : List (JobInput P)) × (pick p q ≡ some (j, more)) × (rest ≡ k ∷ more))
  unfolding pick
  pick-cons p k q j rest h = elim (Bool-cases (p k)) [
    | inl y ↦ inl (y, ground arith, ground arith)
    | inr n ↦ inr (later (pick p q) refl (rw n at h))
  ]
    where
      later :
          (o : Option (JobInput P × List (JobInput P)))
          → pick p q ≡ o
          → put_back k o ≡ some (j, rest)
          → (more : List (JobInput P)) × (pick p q ≡ some (j, more)) × (rest ≡ k ∷ more)
      later none e g = absurd (cc)
      later (some (k', more)) e g = (more, ground arith, ground arith)

  -- What `pick` finds passes the test and was queued; the rest of the queue is what was there before.
  pub record Picked (p : JobInput P → Bool) (q : List (JobInput P)) (j : JobInput P)
      (rest : List (JobInput P)) : Type 0 where
    pub passes : p j ≡ true
    pub was_queued : is_queued j.job_id q ≡ true
    pub distinct : IsDistinct rest
    pub taken : is_queued j.job_id rest ≡ false
    pub others : (id : String) → is_queued id rest ≡ true → is_queued id q ≡ true
    pub shorter : length q ≡ suc (length rest)

  pub pick-Picked :
      (p : JobInput P → Bool) (q : List (JobInput P)) (j : JobInput P) (rest : List (JobInput P))
      → IsDistinct q
      → pick p q ≡ some (j, rest)
      → Picked p q j rest
  pick-Picked p [] j rest d h = unfold pick in absurd (cc)
  pick-Picked p (k ∷ q) j rest (n, d) h =
      step (pick-cons p k q j rest h) (λ more e. pick-Picked p q j more d e)
    where
      step :
          ((p k ≡ true) × (k ≡ j) × (q ≡ rest))
            ⊎ ((more : List (JobInput P)) × (pick p q ≡ some (j, more)) × (rest ≡ k ∷ more))
          → ((more : List (JobInput P)) → pick p q ≡ some (j, more) → Picked p q j more)
          → Picked p (k ∷ q) j rest
      step (inl (y, e, f)) ih =
          rw (← e, ← f)
            (record {
              passes = y;
              was_queued = ground (arith, ==_refl k.job_id);
              distinct = d;
              taken = n;
              others = λ id h. ground arith;
              shorter = refl;
            })
      step (inr (more, e, f)) ih =
          let v = ih more e in
          rw f (record {
            passes = v.passes;
            was_queued = ground (arith, v.was_queued);
            distinct = (ground (arith, v.others k.job_id), v.distinct);
            taken = ground (arith, v.taken, v.was_queued, ==_iff k.job_id j.job_id);
            others = λ id g. ground (arith, v.others id);
            shorter = omega (arith, v.shorter);
          })

  pub is_queued-filter :
      (id drop_id : String) (q : List (JobInput P))
      → is_queued id q ≡ false
      → is_queued id (filter (λ j. j.job_id != drop_id) q) ≡ false
  is_queued-filter id d [] h = refl
  is_queued-filter id d (k ∷ q) h = ground (arith, is_queued-filter id d q)

  pub filter-IsDistinct :
      (drop_id : String) (q : List (JobInput P))
      → IsDistinct q
      → IsDistinct (filter (λ j. j.job_id != drop_id) q)
  filter-IsDistinct d [] h = tt
  filter-IsDistinct d (k ∷ q) (n, h) =
      ground (arith, filter-IsDistinct d q h, is_queued-filter k.job_id d q)
