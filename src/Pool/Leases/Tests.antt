-- ===== src/Pool/Leases/Tests.antt =====
-- Examples of src/agent/pool/leases.ts.
use cli_model_gateway.Base.{
  ℕ, ◌+◌, ◌<◌, ◌≡◌, refl, String, some, [], ◌∷◌, arith, get, set, has, returns, ◌↔◌, nat_eq,
  string_eq,
}
use cli_model_gateway.Pool.Leases.{
  Lease, LeaseManager, busy, no_leases, live, sweep, claim, acquire, assert_fence,
}
use cli_model_gateway.Pool.Leases.Exclusion.{acquire_busy, acquire-assert_fence}

abbrev lease : String → ℕ → String → ℕ → Lease
lease id token holder expires_at = record {
  lease_id = id;
  fencing_token = token;
  key = "repo";
  holder = holder;
  expires_at = expires_at;
}

abbrev held : LeaseManager
held = record { leases = ("repo", lease "l1" 1 "ann" 110) ∷ []; fences = ("repo", 1) ∷ [] }

acquire_busy_example :
    (acquire 50 50 "l2" "repo" "bob" 100 held ≡ returns busy (sweep 50 held))
    × (get "repo" (sweep 50 held).leases ≡ some (lease "l1" 1 "ann" 110))
acquire_busy_example =
    acquire_busy 50 50 "l2" "repo" "bob" 100 held (lease "l1" 1 "ann" 110) (omega arith)
      (unfold get in refl) (omega arith)

acquire-assert_fence_example : (assert_fence 50 "repo" 1 held ≡ returns tt held) ↔ (50 < 10 + 100)
unfolding acquire claim sweep live has get set
acquire-assert_fence_example =
    acquire-assert_fence 10 10 "l1" "repo" "ann" 100 no_leases held (lease "l1" 1 "ann" 110) 50 refl

abbrev term : ℕ
term = 100

abbrev first_id : String
first_id = "l1"
