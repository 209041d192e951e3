-- ===== src/Approvals/Durable.antt =====
-- A restart of src/agent/approvals/inbox.ts on the same log finds the same items.
use cli_model_gateway.Base.{
  ℕ, ◌≡◌, ◌≢◌, refl, ◌∙◌, String, true, Option, none, some, [], ◌∷◌, ◌++◌, List, arith, ==_iff,
  Table, values, get, set, Outcome, Act, ◌>>=◌, returns, throws, after, Bool-cases, inl, inr,
  nat_eq, string_eq, find, All,
}
use cli_model_gateway.Log.{LogRecord, Envelope, SealedLog, replay, read_log, next_record}
use cli_model_gateway.Log.Replay.{IsSound, append-IsSound, append_cases, replay-IsSound}
use cli_model_gateway.Log.Read.{read_all}
use cli_model_gateway.Approvals.{
  State, expired, approved, denied, consumed, InboxItem, ApprovalInbox, Codec, put_item,
  has_run_out, expire_items, save, list, request, request_new, decide, decide_item, approve, deny,
  consume, consume_item, is_approved_for, is_open_for, new_inbox, restore, restore_one,
}
use cli_model_gateway.Approvals.Calls.{
  Call, requests, lists, approves, denies, consumes, logs, step, run,
}

module _ {E B A : Type 0} (env : Envelope E B) (codec : Codec A B) where
  abbrev Inbox : Type 0
  Inbox = ApprovalInbox E B A

  -- What `save` keeps, every method keeps.
  module _ (S : Inbox → Type 0)
      (saved : (i : InboxItem A) (s : Inbox) → S s → S (after (save env codec i s))) where
    bind_keeps :
        {X Y : Type 0} (m : Act Inbox X) (f : X → Act Inbox Y)
        → ((x : X) (s : Inbox) → S s → S (after (f x s)))
        → (s : Inbox) → S (after (m s))
        → S (after ((m >>= f) s))
    bind_keeps {X} {Y} m f k s h = go (m s) h
      where
        go : (o : Outcome Inbox X) → S (after o) → S (after ((◌>>=◌ (λ (_ : Inbox). o) f) s))
        go (returns x s') h = k x s' h
        go (throws e s') h = h

    expire_items_keeps :
        (clock : String → ℕ) (is : List (InboxItem A)) (s : Inbox)
        → S s
        → S (after (expire_items env codec clock is s))
    unfolding expire_items
    expire_items_keeps clock [] s h = h
    expire_items_keeps clock (i ∷ is) s h = elim (Bool-cases (has_run_out env codec clock i)) [
      | inl y ↦ rw y (
          bind_keeps (save env codec (record i { state = expired }))
            (λ _. expire_items env codec clock is) (λ _ s' k. expire_items_keeps clock is s' k) s
            (saved (record i { state = expired }) s h))
      | inr n ↦ rw n (expire_items_keeps clock is s h)
    ]

    list_keeps : (clock : String → ℕ) (s : Inbox) → S s → S (after (list env codec clock s))
    unfolding list
    list_keeps clock s h =
        bind_keeps (expire_items env codec clock (values s.items))
          (λ _ s'. returns (values s'.items) s') (λ _ s' k. k) s
          (expire_items_keeps clock (values s.items) s h)

    request_keeps :
        (clock : String → ℕ) (created later : ℕ) (a : A) (s : Inbox)
        → S s
        → S (after (request env codec clock created later a s))
    unfolding request
    request_keeps clock created later a s h =
        bind_keeps (list env codec clock)
          (λ is.
            request_new env codec created later a
              (find (is_open_for env codec (codec.digest a)) is))
          (λ is s' k. new (find (is_open_for env codec (codec.digest a)) is) s' k) s
          (list_keeps clock s h)
      where
        new :
            (o : Option (InboxItem A)) (s' : Inbox)
            → S s'
            → S (after (request_new env codec created later a o s'))
        new (some i) s' k = k
        new none s' k = saved _ s' k

    decide_keeps :
        (clock : String → ℕ) (id : String) (state : State) (s : Inbox)
        → S s
        → S (after (decide env codec clock id state s))
    unfolding decide
    decide_keeps clock id state s h =
        bind_keeps (list env codec clock) (λ _ s'. decide_item env codec state (get id s'.items) s')
          (λ _ s' k. decided (get id s'.items) s' k) s (list_keeps clock s h)
      where
        decided :
            (o : Option (InboxItem A)) (s' : Inbox)
            → S s'
            → S (after (decide_item env codec state o s'))
        decided none s' k = k
        decided (some i) s' k = ground (arith, saved (record i { state = state }) s' k)

    consume_keeps :
        (clock : String → ℕ) (d : String) (s : Inbox)
        → S s
        → S (after (consume env codec clock d s))
    unfolding consume
    consume_keeps clock d s h =
        bind_keeps (list env codec clock)
          (λ is. consume_item env codec (find (is_approved_for env codec d) is))
          (λ is s' k. used (find (is_approved_for env codec d) is) s' k) s (list_keeps clock s h)
      where
        used :
            (o : Option (InboxItem A)) (s' : Inbox) → S s' → S (after (consume_item env codec o s'))
        used none s' k = k
        used (some i) s' k =
            bind_keeps (save env codec (record i { state = consumed })) (λ _ t. returns true t)
              (λ _ t m. m) s' (saved (record i { state = consumed }) s' k)

  restore-concat :
      (t : Table String (InboxItem A)) (rs : List (LogRecord B)) (r : LogRecord B)
      → restore env codec t (rs ++ r ∷ []) ≡ restore_one env codec (restore env codec t rs) r
  unfolding restore
  restore-concat t [] r = refl
  restore-concat t (x ∷ rs) r = restore-concat (restore_one env codec t x) rs r

  -- The log is sound, and holds the items.
  pub record IsDurable (ttl_ms : ℕ) (s : ApprovalInbox E B A) : Type 0 where
    pub sound : IsSound env s.log
    pub held : restore env codec [] s.log.records ≡ s.items
    pub term : s.ttl_ms ≡ ttl_ms

  save-IsDurable :
      (ttl_ms : ℕ) (i : InboxItem A) (s : Inbox)
      → IsDurable ttl_ms s
      → IsDurable ttl_ms (after (save env codec i s))
  unfolding save
  save-IsDurable ttl_ms i s v =
      let kept = append-IsSound env "inbox" i.id (codec.wrap i) s.log v.sound in
      append_cases env
        (λ o. IsSound env (after o) → IsDurable ttl_ms (after (put_item env codec i s o))) "inbox"
        i.id (codec.wrap i) s.log (λ e k. record { sound = k; held = v.held; term = v.term })
        (λ k. record { sound = k; held = written; term = v.term }) kept
    where
      r : LogRecord B
      r = next_record env "inbox" i.id (codec.wrap i) s.log

      written : restore env codec [] (s.log.records ++ r ∷ []) ≡ set i.id i s.items
      written = restore-concat [] s.log.records r ∙ rw (codec.unwrap-wrap i, v.held) refl

  step-IsDurable :
      (ttl_ms : ℕ) (s : Inbox) (c : Call A B)
      → ((type id : String) (body : B) → c ≡ logs type id body → type ≢ "inbox")
      → IsDurable ttl_ms s
      → IsDurable ttl_ms (step env codec s c)
  unfolding step
  step-IsDurable ttl_ms s (requests clock created later action) _ v =
      request_keeps (IsDurable ttl_ms) (save-IsDurable ttl_ms) clock created later action s v
  step-IsDurable ttl_ms s (lists clock) _ v =
      list_keeps (IsDurable ttl_ms) (save-IsDurable ttl_ms) clock s v
  step-IsDurable ttl_ms s (approves clock id) _ v =
      unfold approve in
      decide_keeps (IsDurable ttl_ms) (save-IsDurable ttl_ms) clock id approved s v
  step-IsDurable ttl_ms s (denies clock id) _ v =
      unfold deny in decide_keeps (IsDurable ttl_ms) (save-IsDurable ttl_ms) clock id denied s v
  step-IsDurable ttl_ms s (consumes clock d) _ v =
      consume_keeps (IsDurable ttl_ms) (save-IsDurable ttl_ms) clock d s v
  step-IsDurable ttl_ms s (logs type id body) other v =
      let kept = append-IsSound env type id body s.log v.sound in
      append_cases env (λ o. IsSound env (after o) → IsDurable ttl_ms (record s { log = after o }))
        type id body s.log (λ e k. record { sound = k; held = v.held; term = v.term })
        (λ k. record { sound = k; held = unread; term = v.term }) kept
    where
      r : LogRecord B
      r = next_record env type id body s.log

      unread : restore env codec [] (s.log.records ++ r ∷ []) ≡ s.items
      unread =
          restore-concat [] s.log.records r
          ∙ ground (arith, ==_iff type "inbox", other type id body refl, v.held)

  -- The records that other parts of the program write are of another type.
  abbrev pub IsForeign : Call A B → Type 0
  IsForeign c = (type id : String) (body : B) → c ≡ logs type id body → type ≢ "inbox"

  run-IsDurable :
      (ttl_ms : ℕ) (s : Inbox) (cs : List (Call A B))
      → All IsForeign cs
      → IsDurable ttl_ms s
      → IsDurable ttl_ms (run env codec s cs)
  unfolding run
  run-IsDurable ttl_ms s [] f v = v
  run-IsDurable ttl_ms s (c ∷ cs) (f, fs) v =
      run-IsDurable ttl_ms (step env codec s c) cs fs (step-IsDurable ttl_ms s c f v)

  new_inbox-IsDurable :
      (log : SealedLog E B) (ttl_ms : ℕ)
      → IsSound env log
      → IsDurable ttl_ms (new_inbox env codec log ttl_ms)
  unfolding new_inbox
  new_inbox-IsDurable log ttl_ms v = record {
    sound = v;
    held = rw (read_all env log v.chained) refl;
    term = refl;
  }

  IsDurable-restart :
      (ttl_ms : ℕ) (s : Inbox) → IsDurable ttl_ms s → new_inbox env codec s.log ttl_ms ≡ s
  unfolding new_inbox
  IsDurable-restart ttl_ms s v =
      let all_read = read_all env s.log v.sound.chained in
      let same : restore env codec [] (read_log env 0 none s.log) ≡ s.items = rw all_read v.held in
      cc (same, v.term)

  -- After any calls, whether they return or throw, the log replays to itself and an inbox that is
  -- started on it is the inbox that there was: no decision is lost, and none comes back.
  pub run-restart :
      (log : SealedLog E B) (ttl_ms : ℕ) (cs : List (Call A B))
      → IsSound env log
      → All IsForeign cs
      → let s = run env codec (new_inbox env codec log ttl_ms) cs in
        (replay env s.log ≡ returns s.log.records s.log) × (new_inbox env codec s.log ttl_ms ≡ s)
  run-restart log ttl_ms cs v f =
      let d = run-IsDurable ttl_ms _ cs f (new_inbox-IsDurable log ttl_ms v) in
      (replay-IsSound env _ d.sound, IsDurable-restart ttl_ms _ d)
