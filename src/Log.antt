-- ===== src/Log.antt =====
-- src/agent/store/sealed-log.ts. The cipher, the hash and the canonical JSON text are the fields of
-- `Envelope`; a line of the file is blank, an envelope, or something that is no JSON. Creating the
-- directory, the lock file and `fsync` are left out.
pub mod Chain
pub mod Replay
pub mod Secrecy
pub mod Read
pub mod Fenced
pub mod Tests
use cli_model_gateway.Base.{
  ℕ, zero, suc, ◌+◌, ◌-◌, ◌*◌, ◌/◌, ◌%◌, ◌<◌, ◌≤◌, min, max, ◌≡◌, ◌≢◌, refl, sym, ap, ◌∙◌, subst,
  String, Bool, true, false, not, ◌&&◌, ◌||◌, Option, none, some, [], ◌∷◌, ◌++◌, map, List, arith,
  leb, ltb, ◌==◌, ◌!=◌, ==_iff, ==_refl, if◌then◌else◌, Table, Each, keys, values, get, set, has,
  delete, Outcome, Act, pure, ◌>>=◌, ◌>>◌, returns, throws, after, get-set, get-set_self,
  get-delete, get-has, has-get, length-set, Each-mono, has-Each, Each-set, Each-delete, Each-get,
  Bool-cases, Option-cases, inl, inr, ◌⊎◌, ◌↔◌, nat_eq, string_eq, Eq, length, any, all, filter,
  codes, between, is_upper, is_lower, is_digit, Extends, starts, starts-Extends, anywhere,
  anywhere-append_left, anywhere-Extends, find, get_last?, get_elem?, take, drop, All, All-append,
  All-filter, All-find, length-append, length-drop, length-filter-le, find_holds, ltb→lt, leb→le,
}
use cli_model_gateway.Checker.Secrets.{has_secret}

pub record LogRecord (B : Type 0) : Type 0 where
  pub seq : ℕ
  pub type : String
  pub id : String
  pub prev_hash : String
  pub body : B

pub data Line (E : Type 0) : Type 0 where
  blank : Line E
  sealed : E → Line E
  garbage : Line E

-- What the log takes from src/agent/crypto/sealed.ts and `node:crypto`. A record is sealed once, so the random
-- nonce is part of `seal`; `open_envelope` fails on an envelope that does not authenticate.
pub record Envelope (E B : Type 0) : Type 0 where
  pub seal : LogRecord B → String → E
  pub open_envelope : E → String → Option (LogRecord B)
  pub hash : LogRecord B → String
  pub text : B → Option (List ℕ)
  pub aad : String → ℕ → String
  pub open-seal : (r : LogRecord B) (a : String) → open_envelope (seal r a) a ≡ some r

-- `cut` says that bytes with no newline follow the last line.
pub record SealedLog (E B : Type 0) : Type 0 where
  pub log_id : String
  pub records : List (LogRecord B)
  pub file : List (Line E)
  pub cut : Bool
  pub closed : Bool

-- `"0".repeat(64)`
abbrev pub genesis : String
genesis = "0000000000000000000000000000000000000000000000000000000000000000"

module _ {E B : Type 0} (env : Envelope E B) where
  open env use {seal, open_envelope, hash, text, aad}

  abbrev pub hash_of_last : Option (LogRecord B) → String
  hash_of_last none = genesis
  hash_of_last (some r) = hash r

  -- The record that `append` builds.
  abbrev pub next_record : String → String → B → SealedLog E B → LogRecord B
  next_record type id body log = record {
    seq = length log.records;
    type = type;
    id = id;
    prev_hash = hash_of_last (get_last? log.records);
    body = body;
  }

  abbrev pub write_record : LogRecord B → SealedLog E B → SealedLog E B
  write_record r log = record log {
    records = log.records ++ r ∷ [];
    file = log.file ++ sealed (seal r (aad log.log_id r.seq)) ∷ [];
  }

  -- `append` once the body's text is known.
  abbrev pub append_text : String → String → B → Option (List ℕ) → Act (SealedLog E B) (LogRecord B)
  append_text type id body none log = throws "Value is not JSON" log
  append_text type id body (some t) log =
      let r = next_record type id body log in
      if has_secret t
      then throws "Secret detected; record rejected" log
      else returns r (write_record r log)

  unfoldable pub append : (type id : String) (body : B) → Act (SealedLog E B) (LogRecord B)
  append type id body log =
      if log.closed then throws "Log closed" log else append_text type id body (text body) log

  -- `toSeq` defaults to the last index.
  abbrev last_index : Option ℕ → ℕ → ℕ
  last_index none n = n - 1
  last_index (some to) n = to

  unfoldable pub read_log : ℕ → Option ℕ → SealedLog E B → List (LogRecord B)
  read_log from to log =
      filter (λ r. leb from r.seq && leb r.seq (last_index to (length log.records))) log.records

  abbrev pub opened :
      Option (LogRecord B) → Option (List (LogRecord B)) → Option (List (LogRecord B))
  opened none rest = none
  opened (some r) none = none
  opened (some r) (some rs) = some (r ∷ rs)

  -- The `map` of `replay`, over the lines that are not blank.
  unfoldable pub open_lines : String → ℕ → List (Line E) → Option (List (LogRecord B))
  open_lines log_id seq [] = some []
  open_lines log_id seq (blank ∷ ls) = open_lines log_id seq ls
  open_lines log_id seq (garbage ∷ ls) = none
  open_lines log_id seq (sealed e ∷ ls) =
      opened (open_envelope e (aad log_id seq)) (open_lines log_id (suc seq) ls)

  -- The loop of `replay` over the records.
  unfoldable pub is_chained : ℕ → String → List (LogRecord B) → Bool
  is_chained i prev [] = true
  is_chained i prev (r ∷ rs) = r.seq == i && r.prev_hash == prev && is_chained (suc i) (hash r) rs

  abbrev pub replay_records : Option (List (LogRecord B)) → Act (SealedLog E B) (List (LogRecord B))
  replay_records none log = throws "Unreadable line" log
  replay_records (some rs) log =
      if is_chained 0 genesis rs
      then returns rs (record log { records = rs })
      else throws "Broken log chain" log

  -- Also what the constructor does with a file that is there.
  unfoldable pub replay : Act (SealedLog E B) (List (LogRecord B))
  replay log =
      if log.cut
      then throws "Truncated log" log
      else replay_records (open_lines log.log_id 0 log.file) log

  unfoldable pub verify_chain : Act (SealedLog E B) Bool
  verify_chain log = elim (replay log) [
    | returns rs log' ↦ returns true log'
    | throws e log' ↦ returns false log'
  ]

  unfoldable pub close : Act (SealedLog E B) (Unit {0})
  close log = returns tt (record log { closed = true })
