-- ===== src/Pool/Leases/Steps.antt =====
-- One rule for everything that the calls of src/agent/pool/leases.ts keep.
use cli_model_gateway.Base.{
  ℕ, ◌+◌, ◌≡◌, String, some, [], ◌∷◌, List, arith, get, set, delete, after, Option-cases, inl, inr,
  nat_eq, string_eq,
}
use cli_model_gateway.Pool.Leases.{
  Lease, LeaseManager, sweep, claim, acquire, renew, release, assert_fence, Call, acquires, renews,
  releases, sweeps, asserts, step, run, install, new_lease,
}

module _ (P : LeaseManager → Type 0) (swept : (now : ℕ) (m : LeaseManager) → P m → P (sweep now m))
    (installed : (m : LeaseManager) (later : ℕ) (lease_id key holder : String) (ttl_ms : ℕ)
      → P m
      → P (install m key (new_lease m later lease_id key holder ttl_ms)))
    (extended : (m : LeaseManager) (key : String) (l : Lease) (deadline : ℕ)
      → get key m.leases ≡ some l
      → P m
      → P (record m { leases = set key (record l { expires_at = deadline }) m.leases }))
    (deleted : (m : LeaseManager) (key : String)
      → P m
      → P (record m { leases = delete key m.leases })) where
  claim_keeps :
      (later : ℕ) (lease_id key holder : String) (ttl_ms : ℕ) (m : LeaseManager)
      → P m
      → P (after (claim later lease_id key holder ttl_ms m))
  unfolding claim
  claim_keeps later lease_id key holder ttl_ms m p =
      ground (arith, installed m later lease_id key holder ttl_ms p)

  pub acquire_keeps :
      (now later : ℕ) (lease_id key holder : String) (ttl_ms : ℕ) (m : LeaseManager)
      → P m
      → P (after (acquire now later lease_id key holder ttl_ms m))
  unfolding acquire
  acquire_keeps now later lease_id key holder ttl_ms m p =
      ground (arith, claim_keeps later lease_id key holder ttl_ms (sweep now m) (swept now m p))

  renew_keeps :
      (now later : ℕ) (key lease_id : String) (ttl_ms : ℕ) (m : LeaseManager)
      → P m
      → P (after (renew now later key lease_id ttl_ms m))
  unfolding renew
  renew_keeps now later key lease_id ttl_ms m p = elim (Option-cases (get key m.leases)) [
    | inl e ↦ rw e p
    | inr (l, e) ↦ ground (arith, extended m key l (later + ttl_ms) e p)
  ]

  release_keeps :
      (key lease_id : String) (m : LeaseManager) → P m → P (after (release key lease_id m))
  unfolding release
  release_keeps key lease_id m p = ground (arith, deleted m key p)

  pub step_keeps : (m : LeaseManager) (c : Call) → P m → P (step m c)
  unfolding step assert_fence
  step_keeps m (acquires now later lease_id key holder ttl_ms) p =
      acquire_keeps now later lease_id key holder ttl_ms m p
  step_keeps m (renews now later key lease_id ttl_ms) p =
      renew_keeps now later key lease_id ttl_ms m p
  step_keeps m (releases key lease_id) p = release_keeps key lease_id m p
  step_keeps m (sweeps now) p = swept now m p
  step_keeps m (asserts now key token) p = ground arith

  pub run_keeps : (m : LeaseManager) (cs : List Call) → P m → P (run m cs)
  unfolding run
  run_keeps m [] p = p
  run_keeps m (c ∷ cs) p = run_keeps (step m c) cs (step_keeps m c p)
