-- ===== src/Log/Fenced.antt =====
-- `appendFenced` of src/agent/store/sealed-log.ts with the leases of src/agent/pool/leases.ts: a holder whose lease has passed to
-- another one no longer writes.
use cli_model_gateway.Base.{
  ℕ, ◌≡◌, ap, String, List, Outcome, Act, returns, throws, nat_eq, string_eq,
}
use cli_model_gateway.Pool.Leases.{Lease, LeaseManager, granted, acquire, assert_fence, Call, run}
use cli_model_gateway.Pool.Leases.Stale.{assert_fence_stale}
use cli_model_gateway.Log.{Envelope, SealedLog, LogRecord, append}

module _ {E B : Type 0} (env : Envelope E B) where
  abbrev if_fenced :
      Outcome LeaseManager (Unit {0})
      → Act (SealedLog E B) (LogRecord B)
      → Act (SealedLog E B) (LogRecord B)
  if_fenced (returns a m) write log = write log
  if_fenced (throws e m) write log = throws e log

  -- `at` is the reading of the clock by `assert_fence`.
  unfoldable pub append_fenced :
      (type id : String) (body : B) (leases : LeaseManager) (at : ℕ) (key : String) (token : ℕ)
      → Act (SealedLog E B) (LogRecord B)
  append_fenced type id body leases at key token =
      if_fenced (assert_fence at key token leases) (append env type id body)

  -- Once a key has been granted anew, an append with the token of an earlier grant throws and leaves the log
  -- as it was, whatever calls came in between or come later and whatever the clock says; and while the
  -- fence lets a token pass, the append is the one without a fence.
  pub append_fenced_stale :
      (type id : String) (body : B) (log : SealedLog E B) (key : String) (m m₁ m₂ m₃ : LeaseManager)
      (cs later_calls : List Call) (l l' : Lease) (now later : ℕ) (lease_id holder : String)
      (ttl_ms : ℕ) (now' later' : ℕ) (lease_id' holder' : String) (ttl_ms' at : ℕ)
      → acquire now later lease_id key holder ttl_ms m ≡ returns (granted l) m₁
      → run m₁ cs ≡ m₂
      → acquire now' later' lease_id' key holder' ttl_ms' m₂ ≡ returns (granted l') m₃
      → (append_fenced type id body (run m₃ later_calls) at key l.fencing_token log
          ≡ throws "Stale fencing token" log)
        × ((leases : LeaseManager) (token : ℕ)
            → assert_fence at key token leases ≡ returns tt leases
            → append_fenced type id body leases at key token log ≡ append env type id body log)
  unfolding append_fenced
  append_fenced_stale type id body log key m m₁ m₂ m₃ cs ds l l' now later i h ttl now' later' i' h'
        ttl' at e r e' =
      (
        ap (λ o. if_fenced o (append env type id body) log)
            (assert_fence_stale key m m₁ m₂ m₃ cs ds l l' now later i h ttl now' later' i' h' ttl'
              at e r e'),
        λ leases token g. ap (λ o. if_fenced o (append env type id body) log) g,
      )
