-- ===== src/Delegate/Restored.antt =====
-- The restart of src/agent/delegate/delegate-tool.ts.
use cli_model_gateway.Base.{
  ℕ, ◌≡◌, refl, sym, subst, String, Bool, true, false, ◌&&◌, some, [], ◌∷◌, List, arith, ◌==◌,
  ==_iff, if◌then◌else◌, Table, Each, values, set, has, Outcome, ◌>>=◌, returns, throws, Each-mono,
  IsUnique, set-IsUnique, Each-set, Bool-cases, inl, inr, nat_eq, string_eq, any,
}
use cli_model_gateway.Delegate.{
  Spec, DelegateJob, DelegateTool, Outside, is_active, interrupted, saved, save, interrupt_all,
  loaded, restore,
}

interrupted_inactive : (spec : Spec) → is_active (interrupted spec) ≡ false
interrupted_inactive spec = ground arith

abbrev awaits : String → List DelegateJob → Bool
awaits id jobs = any (λ j. j.job_id == id && is_active j.state) jobs

-- A job that is active is still to come.
abbrev IsPending : List DelegateJob → String → DelegateJob → Type 0
IsPending rest id j = is_active j.state ≡ true → awaits id rest ≡ true

module _ {V : Type 0} (P : String → V → Type 0) (k : String) where
  -- What holds of the entries but those of the key.
  abbrev Others : Table String V → Type 0
  Others t = Each (λ j w. (j == k) ≡ false → P j w) t

  Others-has : (t : Table String V) → has k t ≡ false → Others t → Each P t
  unfolding has
  Others-has [] h a = tt
  Others-has ((j, w) ∷ t) h (p, a) = (p (ground (arith, h)), Others-has t (ground (arith, h)) a)

  Others-set : (v : V) (t : Table String V) → IsUnique t → P k v → Others t → Each P (set k v t)
  unfolding set
  Others-set v [] u p a = (p, tt)
  Others-set v ((j, w) ∷ t) (n, u) p (q, a) = elim (Bool-cases (j == k)) [
    | inl y ↦
        let same : j ≡ k = (==_iff j k).0 y in
        rw y (subst (λ i. P i v) (sym same) p, Others-has t (subst (λ i. has i t ≡ false) same n) a)
    | inr x ↦ rw x (q x, Others-set v t u p a)
  ]

module _ {P R W : Type 0} (outside : Outside P R W) where
  abbrev pub NoneActive : Outcome (DelegateTool W) (Unit {0}) → Type 0
  NoneActive (returns a s) = Each (λ id j. is_active j.state ≡ false) s.jobs
  NoneActive (throws e s) = Unit {0}

  inactive :
      (t : Table String DelegateJob)
      → Each (IsPending []) t
      → Each (λ id j. is_active j.state ≡ false) t
  inactive t =
      Each-mono (IsPending []) (λ id j. is_active j.state ≡ false) (λ id j h. ground (arith, h)) t

  interrupt_all-NoneActive :
      (rest : List DelegateJob) (s : DelegateTool W)
      → IsUnique s.jobs
      → Each (IsPending rest) s.jobs
      → NoneActive (interrupt_all outside rest s)
  unfolding interrupt_all save
  interrupt_all-NoneActive [] s u h = inactive s.jobs h
  interrupt_all-NoneActive (job ∷ rest) s u h =
      go (is_active job.state) refl (λ t v k. interrupt_all-NoneActive rest t v k)
    where
      stopped : DelegateJob
      stopped = record job { state = interrupted job.spec }

      later :
          ((t : DelegateTool W)
            → IsUnique t.jobs
            → Each (IsPending rest) t.jobs
            → NoneActive (interrupt_all outside rest t))
          → (o : Outcome W ℕ)
          → NoneActive (
              ◌>>=◌
                (λ (_ : DelegateTool W). saved outside stopped o s)
                (λ _. interrupt_all outside rest)
                s)
      later k (throws e w) = tt
      later k (returns seq w) =
          let entry : DelegateJob = record stopped { last_event_seq = some seq } in
          k (record s { jobs = set job.job_id entry s.jobs; world = w })
            (set-IsUnique job.job_id entry s.jobs u)
            (Others-set (IsPending rest) job.job_id entry s.jobs u
              (λ a. absurd (ground (arith, a, interrupted_inactive job.spec)))
              (Each-mono (IsPending (job ∷ rest))
                (λ id j. (id == job.job_id) ≡ false → IsPending rest id j)
                (λ id j p n a. ground (arith, p a, n, ==_iff id job.job_id, ==_iff job.job_id id))
                s.jobs h))

      go :
          (b : Bool)
          → is_active job.state ≡ b
          → ((t : DelegateTool W)
              → IsUnique t.jobs
              → Each (IsPending rest) t.jobs
              → NoneActive (interrupt_all outside rest t))
          → NoneActive (
              (if b
                  then (save outside stopped >>= λ _. interrupt_all outside rest)
                  else interrupt_all outside rest)
                s)
      go true e k = later k (outside.append_job stopped s.world)
      go false e k = k s u (
          Each-mono (IsPending (job ∷ rest)) (IsPending rest) (λ id j p a. ground (arith, p a, e))
            s.jobs h)

  loaded-IsUnique :
      (jobs : List DelegateJob) (t : Table String DelegateJob)
      → IsUnique t
      → IsUnique (loaded jobs t)
  loaded-IsUnique [] t u = u
  loaded-IsUnique (job ∷ rest) t u =
      loaded-IsUnique rest (set job.job_id job t) (set-IsUnique job.job_id job t u)

  loaded-own :
      (jobs : List DelegateJob) (t : Table String DelegateJob)
      → Each (λ id j. j.job_id ≡ id) t
      → Each (λ id j. j.job_id ≡ id) (loaded jobs t)
  loaded-own [] t h = h
  loaded-own (job ∷ rest) t h =
      loaded-own rest (set job.job_id job t)
        (Each-set (λ id j. j.job_id ≡ id) job.job_id job t refl h)

  values-IsPending :
      (t : Table String DelegateJob)
      → Each (λ id j. j.job_id ≡ id) t
      → Each (IsPending (values t)) t
  values-IsPending [] h = tt
  values-IsPending ((id, j) ∷ t) (own, h) = (
    (λ a. ground (arith, a, ==_iff j.job_id id, own)),
    Each-mono (IsPending (values t)) (IsPending (j ∷ values t)) (λ i x p a. ground (arith, p a)) t
        (values-IsPending t h),
  )

  -- Whatever jobs the log holds, when the tool has been restored without an error no job is queued, leased,
  -- running or stopping.
  pub restore-NoneActive :
      (recorded : List DelegateJob) (w : W) → NoneActive (restore outside recorded w)
  unfolding restore
  restore-NoneActive recorded w =
      interrupt_all-NoneActive (values (loaded recorded []))
        (record { jobs = loaded recorded []; world = w }) (loaded-IsUnique recorded [] tt)
        (values-IsPending (loaded recorded []) (loaded-own recorded [] tt))
