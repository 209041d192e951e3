-- ===== src/Pool/Leases/Exclusion.antt =====
-- Who holds a key of src/agent/pool/leases.ts, and for how long.
use cli_model_gateway.Base.{
  ℕ, ◌+◌, ◌<◌, ◌≤◌, ◌≡◌, ◌≢◌, String, true, false, none, some, [], ◌∷◌, arith, ==_iff, ==_refl,
  Table, get, returns, after, get-set_self, get-delete, get-has, ◌⊎◌, ◌↔◌, nat_eq, string_eq,
}
use cli_model_gateway.Pool.Leases.{
  Lease, LeaseManager, granted, busy, live, sweep, claim, acquire, renew, release, assert_fence,
}
use cli_model_gateway.Pool.Leases.Fencing.{fence, acquire-Granted, Granted-fence}

pub get-live :
    (now : ℕ) (k : String) (t : Table String Lease) (l : Lease)
    → get k t ≡ some l
    → now < l.expires_at
    → get k (live now t) ≡ some l
unfolding live get
get-live now k [] l e h = e
get-live now k ((j, x) ∷ t) l e h = ground (arith, get-live now k t l)

-- While a lease of the key has not run out, nobody else is granted the key, and the lease stays.
pub acquire_busy :
    (now later : ℕ) (lease_id key holder : String) (ttl_ms : ℕ) (m : LeaseManager) (l : Lease)
    → 0 < ttl_ms
    → get key m.leases ≡ some l
    → now < l.expires_at
    → (acquire now later lease_id key holder ttl_ms m ≡ returns busy (sweep now m))
      × (get key (sweep now m).leases ≡ some l)
unfolding acquire claim sweep
acquire_busy now later lease_id key holder ttl_ms m l h e t =
    let kept = get-live now key m.leases l e t in
    (ground (arith, get-has key (live now m.leases) kept), kept)

-- A granted key passes the fence check with its token exactly until the lease runs out.
pub acquire-assert_fence :
    (now later : ℕ) (lease_id key holder : String) (ttl_ms : ℕ) (m m' : LeaseManager) (l : Lease)
    (at : ℕ)
    → acquire now later lease_id key holder ttl_ms m ≡ returns (granted l) m'
    → ((assert_fence at key l.fencing_token m' ≡ returns tt m') ↔ (at < later + ttl_ms))
unfolding assert_fence
acquire-assert_fence now later lease_id key holder ttl_ms m m' l at e =
    let g = acquire-Granted now later lease_id key holder ttl_ms m m' l e in
    let f = (Granted-fence (sweep now m) key l m' g).1 in
    let x : l.expires_at ≡ later + ttl_ms = unfold acquire claim in ground arith in
    (ground (arith, ==_refl l.fencing_token), ground (arith, ==_refl l.fencing_token))

-- A renewal succeeds for the lease's own identifier before it runs out, and for nothing else; the
-- holder and the token stay, and the new term counts from the second reading of the clock.
pub renew_iff :
    (now later : ℕ) (key lease_id : String) (ttl_ms : ℕ) (m : LeaseManager) (l : Lease)
    → get key m.leases ≡ some l
    → let r = renew now later key lease_id ttl_ms m in
      ((l.lease_id ≡ lease_id) × (now < l.expires_at) × (0 < ttl_ms)
        → (get key (after r).leases ≡ some (record l { expires_at = later + ttl_ms }))
          × (r ≡ returns true (after r)))
      × (((l.lease_id ≢ lease_id) ⊎ (l.expires_at ≤ now) ⊎ (ttl_ms ≡ 0)) → r ≡ returns false m)
unfolding renew
renew_iff now later key lease_id ttl_ms m l e = (
  λ (same, live, pos). (
    ground (
      arith,
      ==_iff l.lease_id lease_id,
      get-set_self key (record l { expires_at = later + ttl_ms }) m.leases,
    ),
    ground (arith, ==_iff l.lease_id lease_id),
  ),
  λ bad. ground (arith, ==_iff l.lease_id lease_id),
)

-- Only the holder of the identifier releases a key; then the key is free, and its fence stays.
pub release_lem :
    (key lease_id : String) (m : LeaseManager) (l : Lease)
    → get key m.leases ≡ some l
    → let r = release key lease_id m in
      (l.lease_id ≡ lease_id
        → (r ≡ returns true (after r))
          × (get key (after r).leases ≡ none)
          × (fence key (after r) ≡ fence key m))
      × (l.lease_id ≢ lease_id → r ≡ returns false m)
unfolding release
release_lem key lease_id m l e = (
  λ same. (
    ground (arith, ==_iff l.lease_id lease_id),
    ground (arith, ==_iff l.lease_id lease_id, get-delete key key m.leases, ==_refl key),
    ground (arith, ==_iff l.lease_id lease_id),
  ),
  λ other. ground (arith, ==_iff l.lease_id lease_id),
)
