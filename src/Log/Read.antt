-- ===== src/Log/Read.antt =====
-- `read` of src/agent/store/sealed-log.ts with its default bounds.
use cli_model_gateway.Base.{
  ℕ, suc, ◌+◌, ◌-◌, ◌≤◌, ◌≡◌, refl, String, true, ◌&&◌, none, [], ◌∷◌, List, arith, leb, ==_iff,
  nat_eq, string_eq, length, filter,
}
use cli_model_gateway.Log.{LogRecord, Envelope, SealedLog, genesis, is_chained, read_log}

module _ {E B : Type 0} (env : Envelope E B) where
  filter_below :
      (i n : ℕ) (prev : String) (rs : List (LogRecord B))
      → is_chained env i prev rs ≡ true
      → i + length rs ≤ n
      → filter (λ r. leb 0 r.seq && leb r.seq (n - 1)) rs ≡ rs
  unfolding is_chained
  filter_below i n prev [] h b = refl
  filter_below i n prev (r ∷ rs) h b =
      ground (arith, filter_below (suc i) n (env.hash r) rs, ==_iff r.seq i)

  -- On a chain, `read()` gives every record.
  pub read_all :
      (log : SealedLog E B)
      → is_chained env 0 genesis log.records ≡ true
      → read_log env 0 none log ≡ log.records
  unfolding read_log
  read_all log h = filter_below 0 (length log.records) genesis log.records h (omega arith)
