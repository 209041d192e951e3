-- ===== src/Pool/Leases/Stale.antt =====
-- A superseded fencing token of src/agent/pool/leases.ts is refused for ever.
use cli_model_gateway.Base.{
  ℕ, ◌<◌, ◌≡◌, refl, ap, String, false, List, arith, ==_iff, get, has, returns, throws, has-Each,
  Each-set, Each-get, Option-cases, inl, inr, nat_eq, string_eq,
}
use cli_model_gateway.Pool.Leases.{
  Lease, LeaseManager, granted, sweep, claim, acquire, assert_fence, Call, run,
}
use cli_model_gateway.Pool.Leases.Fencing.{
  fence, fence-run-le, run-IsPassed, IsPassed, Granted, acquire-Granted, Granted-fence,
}

acquire-claim :
    (now later : ℕ) (lease_id key holder : String) (ttl_ms : ℕ) (m m' : LeaseManager) (l : Lease)
    → acquire now later lease_id key holder ttl_ms m ≡ returns (granted l) m'
    → has key (sweep now m).leases ≡ false
unfolding acquire claim
acquire-claim now later lease_id key holder ttl_ms m m' l h = ground arith

fence-sweep : (k : String) (now : ℕ) (m : LeaseManager) → fence k (sweep now m) ≡ fence k m
unfolding sweep
fence-sweep k now m = refl

-- Two grants of one key, with any calls in between, carry growing fencing tokens.
pub acquire_token_grows :
    (key : String) (m m₁ m₂ m₃ : LeaseManager) (cs : List Call) (l l' : Lease) (now later : ℕ)
    (lease_id holder : String) (ttl_ms : ℕ) (now' later' : ℕ) (lease_id' holder' : String)
    (ttl_ms' : ℕ)
    → acquire now later lease_id key holder ttl_ms m ≡ returns (granted l) m₁
    → run m₁ cs ≡ m₂
    → acquire now' later' lease_id' key holder' ttl_ms' m₂ ≡ returns (granted l') m₃
    → l.fencing_token < l'.fencing_token
acquire_token_grows key m m₁ m₂ m₃ cs l l' now later i h ttl now' later' i' h' ttl' e r e' =
    let g = acquire-Granted now later i key h ttl m m₁ l e in
    let g' = acquire-Granted now' later' i' key h' ttl' m₂ m₃ l' e' in
    let f = Granted-fence (sweep now m) key l m₁ g in
    let grown = fence-run-le key m₁ cs in
    let kept : fence key (run m₁ cs) ≡ fence key m₂ = ap (fence key) r in
    omega (arith, g.token, g'.token, f.0, grown, kept, fence-sweep key now' m₂)

IsPassed-refused :
    (now : ℕ) (key : String) (n : ℕ) (m : LeaseManager)
    → IsPassed key n m
    → assert_fence now key n m ≡ throws "Stale fencing token" m
unfolding assert_fence
IsPassed-refused now key n m (a, h) = elim (Option-cases (get key m.leases)) [
  | inl e ↦ rw e
  | inr (l, e) ↦
      let above : n < l.fencing_token = Each-get _ key m.leases a e refl in
      ground (arith, ==_iff l.fencing_token n)
]

grant-IsPassed :
    (key : String) (n : ℕ) (m m' : LeaseManager) (l : Lease)
    → Granted m key l m'
    → has key m.leases ≡ false
    → n < l.fencing_token
    → IsPassed key n m'
grant-IsPassed key n m m' l g vacant above =
    let f = Granted-fence m key l m' g in
    rw g.result (
      Each-set (λ j x. j ≡ key → n < x.fencing_token) key l m.leases (λ _. above)
          (has-Each (λ x. n < x.fencing_token) key m.leases vacant),
      omega (arith, f.0, g.token, ap (fence key) g.result),
    )

-- Once a key has been granted anew, no later state accepts the token of an earlier grant, whatever
-- calls came in between and whatever the clock says.
pub assert_fence_stale :
    (key : String) (m m₁ m₂ m₃ : LeaseManager) (cs later_calls : List Call) (l l' : Lease)
    (now later : ℕ) (lease_id holder : String) (ttl_ms : ℕ) (now' later' : ℕ)
    (lease_id' holder' : String) (ttl_ms' at : ℕ)
    → acquire now later lease_id key holder ttl_ms m ≡ returns (granted l) m₁
    → run m₁ cs ≡ m₂
    → acquire now' later' lease_id' key holder' ttl_ms' m₂ ≡ returns (granted l') m₃
    → assert_fence at key l.fencing_token (run m₃ later_calls)
      ≡ throws "Stale fencing token" (run m₃ later_calls)
assert_fence_stale key m m₁ m₂ m₃ cs ds l l' now later i h ttl now' later' i' h' ttl' at e r e' =
    IsPassed-refused at key l.fencing_token (run m₃ ds) (
      run-IsPassed key l.fencing_token m₃ ds (
        grant-IsPassed key l.fencing_token (sweep now' m₂) m₃ l'
          (acquire-Granted now' later' i' key h' ttl' m₂ m₃ l' e')
          (acquire-claim now' later' i' key h' ttl' m₂ m₃ l' e')
          (acquire_token_grows key m m₁ m₂ m₃ cs l l' now later i h ttl now' later' i' h' ttl' e r
            e')))
