-- ===== src/Coordinator/Finish.antt =====
-- `finish` of src/agent/coordinator/coordinator.ts.
use cli_model_gateway.Base.{
  sym, ap, ◌∙◌, set, after, Act, ◌≡◌, refl, String, Bool, true, false, Option, none, some, arith,
  ==_iff, if◌then◌else◌, get, Outcome, [], ◌∷◌, List, pure, ◌>>=◌, returns, throws, nat_eq,
  string_eq, length,
}
use cli_model_gateway.Coordinator.{
  outer, JobState, planning, running, awaiting_approval, awaiting_check, needs_review, done,
  reconciliation_required, CoordinatorJob, Services, Coordinator,
}
use cli_model_gateway.Coordinator.Advance.{
  has_open_child, may_finish, finished, complete, finish_job, finish,
}

module _ {P A R W : Type 0} (services : Services P A R W) where
  open services use {is_done, same_digest, child_is_done, append, remember}

  abbrev Job : Type 0
  Job = CoordinatorJob P A R

  abbrev Coord : Type 0
  Coord = Coordinator P A R W

  may_finish_holds :
      (job : Job) (artifacts : A) (receipt : Option R) (st : JobState)
      → may_finish services job artifacts receipt st ≡ true
      → (st ≡ awaiting_check)
        × (same_digest artifacts job.artifacts ≡ true)
        × (job.next ≡ length job.steps)
        × (is_done job.job_id artifacts receipt ≡ true)
  may_finish_holds job artifacts receipt awaiting_check h =
      (refl, ground arith, ground (arith, ==_iff job.next (length job.steps)), ground arith)
  may_finish_holds job artifacts receipt planning h = absurd (cc)
  may_finish_holds job artifacts receipt running h = absurd (cc)
  may_finish_holds job artifacts receipt awaiting_approval h = absurd (cc)
  may_finish_holds job artifacts receipt needs_review h = absurd (cc)
  may_finish_holds job artifacts receipt done h = absurd (cc)
  may_finish_holds job artifacts receipt reconciliation_required h = absurd (cc)

  children_closed :
      (job : Job) (s t : Coord) (o : Outcome Coord Bool)
      → (◌>>=◌
            (λ (_ : Coord). o)
            (λ open_. elim open_ [ true ↦ pure false | false ↦ complete services job ]))
          s
        ≡ returns true t
      → (u : Coord) × (o ≡ returns false u) × (complete services job u ≡ returns true t)
  children_closed job s t (throws e u) h = absurd (cc)
  children_closed job s t (returns true u) h = absurd (cc)
  children_closed job s t (returns false u) h = (u, refl, h)

  -- A call of another part leaves the jobs as they are.
  outer-jobs :
      {B : Type 0} (f : Act W B) (s v : Coord) (b : B) → outer f s ≡ returns b v → v.jobs ≡ s.jobs
  outer-jobs {B = B} f s v b h = go (f s.world) h
    where
      go : (o : Outcome W B) → outer (λ (_ : W). o) s ≡ returns b v → v.jobs ≡ s.jobs
      go (returns c w) g = sym (ap (λ (x : Outcome Coord B). (after x).jobs) g)
      go (throws e w) g = absurd (cc)

  complete-jobs :
      (job : Job) (u t : Coord)
      → complete services job u ≡ returns true t
      → t.jobs ≡ set job.job_id job u.jobs
  complete-jobs job u t h = appended (append job u.world) h
    where
      remembered :
          (o : Outcome W (Unit {0})) (v : Coord)
          → ((outer (λ (_ : W). o) >>= λ _. pure true) v) ≡ returns true t
          → t.jobs ≡ v.jobs
      remembered (throws e w) v g = absurd (cc)
      remembered (returns x w) v g = sym (ap (λ (x : Outcome Coord Bool). (after x).jobs) g)

      appended :
          (o : Outcome W (Unit {0}))
          → ((outer (λ (_ : W). o) >>= λ _ s.
                  returns tt (record s { jobs = set job.job_id job s.jobs }))
                >>= λ _. outer (remember job) >>= λ _. pure true)
              u
            ≡ returns true t
          → t.jobs ≡ set job.job_id job u.jobs
      appended (throws e w) g = absurd (cc)
      appended (returns x w) g =
          let saved : Coord = record u { world = w; jobs = set job.job_id job u.jobs } in
          remembered (remember job w) saved g

  -- The children are asked one after the other, each in the state that the one before it left, and every
  -- answer is that the child is done.
  abbrev pub AllDone : List String → Coord → Coord → Type 0
  AllDone [] s u = s ≡ u
  AllDone (c ∷ cs) s u = (v : Coord) × (outer (child_is_done c) s ≡ returns true v) × AllDone cs v u

  AllDone-jobs : (cs : List String) (s u : Coord) → AllDone cs s u → u.jobs ≡ s.jobs
  AllDone-jobs [] s u h = sym (ap (λ (x : Coord). x.jobs) h)
  AllDone-jobs (c ∷ cs) s u (v, one, rest) =
      AllDone-jobs cs v u rest ∙ outer-jobs (child_is_done c) s v true one

  asked :
      (c : String) (cs : List String) (s u : Coord) (o : Outcome Coord Bool)
      → outer (child_is_done c) s ≡ o
      → ((v : Coord) → has_open_child services cs v ≡ returns false u → AllDone cs v u)
      → (◌>>=◌
            (λ (_ : Coord). o)
            (λ ok. elim ok [ true ↦ has_open_child services cs | false ↦ pure true ]))
          s
        ≡ returns false u
      → AllDone (c ∷ cs) s u
  asked c cs s u (throws e v) a rest h = absurd (cc)
  asked c cs s u (returns false v) a rest h = absurd (cc)
  asked c cs s u (returns true v) a rest h = (v, a, rest v h)

  has_open_child-AllDone :
      (cs : List String) (s u : Coord)
      → has_open_child services cs s ≡ returns false u
      → AllDone cs s u
  unfolding has_open_child
  has_open_child-AllDone [] s u h = cc
  has_open_child-AllDone (c ∷ cs) s u h =
      asked c cs s u (outer (child_is_done c) s) refl (λ v g. has_open_child-AllDone cs v u g) h

  -- The job is known and waits for its check, its steps have been carried out, the artifacts are its
  -- own, the gate is open for them, every child was asked and is done, and all that has changed in the
  -- jobs is that this one is kept as done, with the artifacts and the receipt.
  abbrev pub IsFinished : String → A → Option R → Coord → Coord → Type 0
  IsFinished id artifacts receipt s t =
      (job : Job) × (get id s.jobs ≡ some job)
      × (job.state ≡ awaiting_check)
      × (same_digest artifacts job.artifacts ≡ true)
      × (job.next ≡ length job.steps)
      × (is_done job.job_id artifacts receipt ≡ true)
      × (t.jobs
          ≡ set job.job_id (record job { artifacts = artifacts; receipt = receipt; state = done })
              s.jobs)
      × (u : Coord) × AllDone job.children s u

  -- If `finish` returns `true`, then the job is known and waits for its check, all its steps have been
  -- carried out, the artifacts are those of the job, the gate is open for them with this receipt, and
  -- every child of the job was asked in turn and answered that it is done; and all that has changed in
  -- the jobs is that this one is kept as done, with the artifacts and the receipt.
  pub finish-IsFinished :
      (id : String) (artifacts : A) (receipt : Option R) (s t : Coord)
      → finish services id artifacts receipt s ≡ returns true t
      → IsFinished id artifacts receipt s t
  unfolding finish
  finish-IsFinished id artifacts receipt s t h = found (get id s.jobs) refl h
    where
      found :
          (x : Option Job)
          → get id s.jobs ≡ x
          → finish_job services artifacts receipt x s ≡ returns true t
          → IsFinished id artifacts receipt s t
      found none e g = absurd (cc)
      found (some job) e g = go (may_finish services job artifacts receipt job.state) refl g
        where
          go :
              (b : Bool)
              → may_finish services job artifacts receipt job.state ≡ b
              → (if b
                  then (has_open_child services job.children >>= λ open_. elim open_ [
                    | true ↦ pure false
                    | false ↦ complete services (finished services job artifacts receipt)
                  ])
                      s
                  else returns false s)
                ≡ returns true t
              → IsFinished id artifacts receipt s t
          go false m f = absurd (cc)
          go true m f =
              let (a, b, c, d) = may_finish_holds job artifacts receipt job.state m in
              let (u, closed, completed) =
                children_closed (finished services job artifacts receipt) s t
                  (has_open_child services job.children s) f in
              let asked_all = has_open_child-AllDone job.children s u closed in
              let saved = complete-jobs (finished services job artifacts receipt) u t completed in
              let kept =
                ap (set job.job_id (finished services job artifacts receipt))
                  (AllDone-jobs job.children s u asked_all) in
              (job, e, a, b, c, d, saved ∙ kept, u, asked_all)
