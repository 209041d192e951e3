-- ===== src/Memory/Restart.antt =====
-- The memory of src/agent/memory/index.ts over a sequence of calls: what a restart restores, and what may stand in it.
use cli_model_gateway.Base.{
  ◌≡◌, refl, sym, ap, ◌∙◌, String, Bool, true, not, ◌&&◌, ◌||◌, Option, none, some, [], ◌∷◌, ◌++◌,
  List, ◌==◌, Outcome, Act, returns, throws, after, Bool-cases, inl, inr, nat_eq, string_eq, find,
  All, All-append,
}
use cli_model_gateway.Memory.{
  MemoryRecord, verified, Records, put, put_all, has_receipt, is_date, is_profile, is_journal,
  is_facts, is_verified, is_text, has_key, facts, AgentMemory, restore, written, write, promoted,
  promoted_one, promote, Provenance,
}

pub data Call : Type 0 where
  writes : MemoryRecord → (approval : Option String) → Call
  promotes : (id receipt : String) → Call

-- A journal entry has a date and a receipt, and a verified fact has a receipt.
abbrev pub is_guarded : MemoryRecord → Bool
is_guarded r =
    not (is_journal r.layer && (not (is_date r.id) || not (has_receipt r)))
    && not (is_facts r.layer && is_verified r.status && not (has_receipt r))

put_all-append :
    (rs : List MemoryRecord) (r : MemoryRecord) (qs : Records)
    → put_all (rs ++ r ∷ []) qs ≡ put r (put_all rs qs)
unfolding put_all
put_all-append [] r qs = refl
put_all-append (x ∷ rs) r qs = put_all-append rs r (put x qs)

module _ (P : MemoryRecord → Type 0) where
  All-put : (r : MemoryRecord) (qs : Records) → P r → All P qs → All P (put r qs)
  unfolding put
  All-put r [] h a = (h, tt)
  All-put r (q ∷ qs) h (g, a) = elim (Bool-cases (has_key r.layer r.id q)) [
    | inl y ↦ rw y (h, a)
    | inr n ↦ rw n (g, All-put r qs h a)
  ]

  All-put_all :
      (rs : List MemoryRecord) (qs : Records) → All P rs → All P qs → All P (put_all rs qs)
  unfolding put_all
  All-put_all [] qs a b = b
  All-put_all (r ∷ rs) qs (h, a) b = All-put_all rs (put r qs) a (All-put r qs h b)

module _ {Log : Type 0} (append : MemoryRecord → Act Log (Unit {0}))
    (read : Log → List MemoryRecord) where
  -- What an append leaves in the log: the record at the end, or, if it throws, what was there.
  abbrev pub Appends : MemoryRecord → Log → Outcome Log (Unit {0}) → Type 0
  Appends r l (returns a m) = read m ≡ read l ++ r ∷ []
  Appends r l (throws e m) = read m ≡ read l

  unfoldable pub step : AgentMemory Log → Call → AgentMemory Log
  step s (writes r approval) = after (write append read r approval s)
  step s (promotes id receipt) = after (promote append read id receipt s)

  unfoldable pub run : AgentMemory Log → List Call → AgentMemory Log
  run s [] = s
  run s (c ∷ cs) = run (step s c) cs

  -- The memory is what a restart on its log restores, and its log has only guarded records.
  pub record IsRestored (s : AgentMemory Log) : Type 0 where
    pub records : s.records ≡ put_all (read s.log) []
    pub docs : s.docs ≡ put_all (read s.log) []
    pub guarded : All (λ r. is_guarded r ≡ true) (read s.log)

  module _ (appends : (r : MemoryRecord) (l : Log) → Appends r l (append r l)) where
    written-IsRestored :
        (r : MemoryRecord) (s : AgentMemory Log) (o : Outcome Log (Unit {0}))
        → Appends r s.log o
        → is_guarded r ≡ true
        → IsRestored s
        → IsRestored (after (written append read r o s))
    written-IsRestored r s (returns a m) h g i = record {
      records =
          ap (put r) i.records
          ∙ sym (put_all-append (read s.log) r [])
          ∙ ap (λ x. put_all x []) (sym h);
      docs =
          ap (put r) i.docs
          ∙ sym (put_all-append (read s.log) r [])
          ∙ ap (λ x. put_all x []) (sym h);
      guarded =
          rw h (All-append (λ r. is_guarded r ≡ true) (read s.log) (r ∷ []) i.guarded (g, tt));
    }
    written-IsRestored r s (throws e m) h g i = record {
      records = i.records ∙ ap (λ x. put_all x []) (sym h);
      docs = i.docs ∙ ap (λ x. put_all x []) (sym h);
      guarded = rw h i.guarded;
    }

    write-IsRestored :
        (r : MemoryRecord) (approval : Option String) (s : AgentMemory Log)
        → IsRestored s
        → IsRestored (after (write append read r approval s))
    unfolding write
    write-IsRestored r approval s i =
        elim (Bool-cases (is_profile r.layer && not (is_text approval))) [
          | inl y ↦ rw y i
          | inr n ↦
              elim (Bool-cases
                (is_journal r.layer && (not (is_date r.id) || not (has_receipt r)))) [
                  | inl y ↦ rw (n, y) i
                  | inr m ↦
                      elim (Bool-cases
                        (is_facts r.layer && is_verified r.status && not (has_receipt r))) [
                          | inl y ↦ rw (n, m, y) i
                          | inr k ↦
                              rw (n, m, k)
                                (written-IsRestored r s (append r s.log) (appends r s.log)
                                  (rw (m, k) refl) i)
                        ]
                ]
        ]

    promote-IsRestored :
        (id receipt : String) (s : AgentMemory Log)
        → IsRestored s
        → IsRestored (after (promote append read id receipt s))
    unfolding promote
    promote-IsRestored id receipt s i = go (find (has_key facts id) s.records)
      where
        with_provenance :
            (r : MemoryRecord) (p : Option Provenance)
            → IsRestored (after (promoted append read receipt r p s))
        with_provenance r none = i
        with_provenance r (some p) = elim (Bool-cases (receipt == "")) [
          | inl y ↦ rw y i
          | inr n ↦ rw n (
              write-IsRestored
                (record r {
                  status = some verified;
                  provenance = some (record p { receipt_id = some receipt });
                })
                none s i)
        ]

        go : (o : Option MemoryRecord) → IsRestored (after (promoted_one append read receipt o s))
        go none = i
        go (some r) = with_provenance r r.provenance

    run-IsRestored : (s : AgentMemory Log) (cs : List Call) → IsRestored s → IsRestored (run s cs)
    unfolding run step
    run-IsRestored s [] i = i
    run-IsRestored s (writes r approval ∷ cs) i =
        run-IsRestored (after (write append read r approval s)) cs (write-IsRestored r approval s i)
    run-IsRestored s (promotes id receipt ∷ cs) i =
        run-IsRestored (after (promote append read id receipt s)) cs
          (promote-IsRestored id receipt s i)

    -- After any calls on a memory that was restored from a log of guarded records, a restart restores the
    -- same memory from the log as it is then, and every record of the memory is guarded: a journal entry
    -- has a date and a receipt, and a verified fact has a receipt.
    pub run-restore :
        (l : Log) (cs : List Call)
        → All (λ r. is_guarded r ≡ true) (read l)
        → let s = run (restore append read l) cs in
          (s.records ≡ (restore append read s.log).records)
          × (s.docs ≡ (restore append read s.log).docs)
          × All (λ r. is_guarded r ≡ true) s.records
    run-restore l cs g =
        let i =
          run-IsRestored (restore append read l) cs
            (record { records = refl; docs = refl; guarded = g }) in
        (
          i.records,
          i.docs,
          rw (i.records) (
              All-put_all (λ r. is_guarded r ≡ true) (read (run (restore append read l) cs).log) []
                i.guarded tt),
        )
