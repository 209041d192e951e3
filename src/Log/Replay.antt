-- ===== src/Log/Replay.antt =====
-- What `append` writes, `replay` reads back: src/agent/store/sealed-log.ts.
use cli_model_gateway.Base.{
  ℕ, suc, ◌+◌, ◌≡◌, refl, sym, ap, subst, String, Bool, true, false, Option, none, some, [], ◌∷◌,
  ◌++◌, List, arith, if◌then◌else◌, Outcome, returns, throws, after, Bool-cases, Option-cases, inl,
  inr, nat_eq, string_eq, length, get_last?,
}
use cli_model_gateway.Checker.Secrets.{has_secret}
use cli_model_gateway.Log.{
  LogRecord, Line, blank, sealed, garbage, Envelope, SealedLog, genesis, is_chained, open_lines,
  opened, append, next_record, write_record, replay, replay_records,
}
use cli_model_gateway.Log.Chain.{is_chained-concat, is_chained_unique, last_from-genesis}

module _ {E B : Type 0} (env : Envelope E B) where
  open env use {seal, open_envelope, hash, text, aad}

  -- The records form a chain, and the file holds them.
  pub record IsSound (log : SealedLog E B) : Type 0 where
    pub chained : is_chained env 0 genesis log.records ≡ true
    pub stored : open_lines env log.log_id 0 log.file ≡ some log.records
    pub whole : log.cut ≡ false

  opened-eq-some :
      (o : Option (LogRecord B)) (m : Option (List (LogRecord B))) (rs : List (LogRecord B))
      → opened env o m ≡ some rs
      → (r : LogRecord B) × (rest : List (LogRecord B)) × (o ≡ some r)
        × (m ≡ some rest)
        × (r ∷ rest ≡ rs)
  opened-eq-some none m rs h = absurd (cc)
  opened-eq-some (some r) none rs h = absurd (cc)
  opened-eq-some (some r) (some rest) rs h = (r, rest, refl, refl, cc)

  open_lines-concat :
      (log_id : String) (i n : ℕ) (ls : List (Line E)) (rs : List (LogRecord B)) (r : LogRecord B)
      → n ≡ i + length rs
      → open_lines env log_id i ls ≡ some rs
      → open_lines env log_id i (ls ++ sealed (seal r (aad log_id n)) ∷ []) ≡ some (rs ++ r ∷ [])
  unfolding open_lines
  open_lines-concat log_id i n [] [] r e h =
      let at : n ≡ i = omega arith in rw (at, env.open-seal r (aad log_id i))
  open_lines-concat log_id i n [] (x ∷ rs) r e h = absurd (cc)
  open_lines-concat log_id i n (blank ∷ ls) rs r e h = open_lines-concat log_id i n ls rs r e h
  open_lines-concat log_id i n (garbage ∷ ls) rs r e h = absurd (cc)
  open_lines-concat log_id i n (sealed env_line ∷ ls) rs r e h =
      let (x, rest, opens, more, same) =
        opened-eq-some (open_envelope env_line (aad log_id i)) (open_lines env log_id (suc i) ls) rs
          h in
      let size : length (x ∷ rest) ≡ length rs = ap length same in
      let ih = open_lines-concat log_id (suc i) n ls rest r (omega arith) more in
      rw (opens, ih, ← same)

  write_record-IsSound :
      (type id : String) (body : B) (log : SealedLog E B)
      → IsSound log
      → IsSound (write_record env (next_record env type id body log) log)
  write_record-IsSound type id body log s = record {
    chained =
        is_chained-concat env 0 genesis log.records _ s.chained (omega arith)
          (sym (last_from-genesis env log.records));
    stored =
        open_lines-concat log.log_id 0 (length log.records) log.file log.records _ (omega arith)
          s.stored;
    whole = s.whole;
  }

  -- Whatever `append` does, a throw included, leaves a sound log sound.
  pub append-IsSound :
      (type id : String) (body : B) (log : SealedLog E B)
      → IsSound log
      → IsSound (after (append env type id body log))
  unfolding append
  append-IsSound type id body log s = elim (Option-cases (text body)) [
    | inl e ↦ rw (e, append) (ground arith)
    | inr (t, e) ↦
        let written = write_record-IsSound type id body log s in rw (e, append) (ground arith)
  ]

  -- Opening a sound log again finds the records that it has in memory and changes nothing.
  pub replay-IsSound :
      (log : SealedLog E B) → IsSound log → replay env log ≡ returns log.records log
  unfolding replay
  replay-IsSound log s = rw (s.whole, s.stored, s.chained)

  -- `append` throws and changes nothing, or writes the next record.
  pub append_cases :
      (Q : Outcome (SealedLog E B) (LogRecord B) → Type 0) (type id : String) (body : B)
      (log : SealedLog E B)
      → ((e : String) → Q (throws e log))
      → Q (
          returns
            (next_record env type id body log)
            (write_record env (next_record env type id body log) log))
      → Q (append env type id body log)
  unfolding append
  append_cases Q type id body log bad good = elim (Option-cases (text body)) [
    | inl e ↦ rw (e, append) (refuse log.closed)
    | inr (t, e) ↦ rw (e, append) (write log.closed (has_secret t))
  ]
    where
      refuse :
          (b : Bool) → Q (if b then throws "Log closed" log else throws "Value is not JSON" log)
      refuse true = bad "Log closed"
      refuse false = bad "Value is not JSON"

      write :
          (b c : Bool)
          → Q (
              if b
              then throws "Log closed" log
              else if c
              then throws "Secret detected; record rejected" log
              else returns
                  (next_record env type id body log)
                  (write_record env (next_record env type id body log) log))
      write true c = bad "Log closed"
      write false true = bad "Secret detected; record rejected"
      write false false = good

  appended :
      (type id : String) (body : B) (log log' : SealedLog E B) (r : LogRecord B)
      → append env type id body log ≡ returns r log'
      → (log'.records ≡ log.records ++ r ∷ []) × (r.seq ≡ length log.records) × (r.body ≡ body)
  unfolding append
  appended type id body log log' r h = elim (Option-cases (text body)) [
    | inl e ↦ absurd (ground arith)
    | inr (t, e) ↦ (ground arith, ground arith, ground arith)
  ]

  -- So a restart after any `append` that returns finds one more record, the one that it returned.
  pub replay-append :
      (type id : String) (body : B) (log log' : SealedLog E B) (r : LogRecord B)
      → IsSound log
      → append env type id body log ≡ returns r log'
      → (replay env log' ≡ returns (log.records ++ r ∷ []) log')
        × (r.seq ≡ length log.records)
        × (r.body ≡ body)
  replay-append type id body log log' r s h =
      let sound : IsSound log' =
        subst (λ o. IsSound (after o)) h (append-IsSound type id body log s) in
      let (e, at, b) = appended type id body log log' r h in
      (rw (← e) (replay-IsSound log' sound), at, b)

  replay-chained :
      (log log' : SealedLog E B) (m : Option (List (LogRecord B))) (rs : List (LogRecord B))
      → replay_records env m log ≡ returns rs log'
      → is_chained env 0 genesis rs ≡ true
  replay-chained log log' none rs h = absurd (cc)
  replay-chained log log' (some xs) rs h = elim (Bool-cases (is_chained env 0 genesis xs)) [
    | inl y ↦
        let same : xs ≡ rs = ground arith in subst (λ zs. is_chained env 0 genesis zs ≡ true) same y
    | inr n ↦ absurd (ground arith)
  ]

  replayed :
      (log log' : SealedLog E B) (rs : List (LogRecord B))
      → replay env log ≡ returns rs log'
      → is_chained env 0 genesis rs ≡ true
  unfolding replay
  replayed log log' rs h =
      replay-chained log log' (open_lines env log.log_id 0 log.file) rs (ground arith)

  -- Two files of one log that both open, and end in the same record, hold the same records, if the
  -- hash has no collisions: nothing before the last record can be changed, dropped or put in.
  pub replay_unique :
      ((a b : LogRecord B) → hash a ≡ hash b → a ≡ b)
      → (log log' later later' : SealedLog E B) (rs rs' : List (LogRecord B)) (r : LogRecord B)
      → replay env log ≡ returns rs later
      → replay env log' ≡ returns rs' later'
      → get_last? rs ≡ some r
      → get_last? rs' ≡ some r
      → rs ≡ rs'
  replay_unique injective log log' later later' rs rs' r h h' e e' =
      (is_chained_unique env injective 0 genesis genesis rs rs' r (replayed log later rs h)
        (replayed log' later' rs' h') e e').0
