-- ===== src/Pool/Leases.antt =====
-- src/agent/pool/leases.ts. A reading of the clock is an argument: `now` is the first reading of a
-- call and `later` the second. `randomUUID` is the argument `lease_id`. A lifetime that is not
-- positive is 0.
pub mod Steps
pub mod Fencing
pub mod Stale
pub mod Exclusion
pub mod Tests
use cli_model_gateway.Base.{
  ℕ, zero, suc, ◌+◌, ◌-◌, ◌*◌, ◌/◌, ◌%◌, ◌<◌, ◌≤◌, min, max, ◌≡◌, ◌≢◌, refl, sym, ap, ◌∙◌, subst,
  String, Bool, true, false, not, ◌&&◌, ◌||◌, Option, none, some, [], ◌∷◌, ◌++◌, map, List, arith,
  leb, ltb, ◌==◌, ◌!=◌, ==_iff, ==_refl, if◌then◌else◌, Table, Each, keys, values, get, set, has,
  delete, Outcome, Act, pure, ◌>>=◌, ◌>>◌, returns, throws, after, get-set, get-set_self,
  get-delete, get-has, has-get, length-set, Each-set, Each-delete, Each-get, Bool-cases,
  Option-cases, inl, inr, ◌⊎◌, ◌↔◌, nat_eq, string_eq, Eq, length, any, all, filter, find,
  get_last?, get_elem?, take, drop, All, All-append, All-filter, All-find, length-append,
  length-drop, length-filter-le, find_holds, ltb→lt, leb→le,
}

pub record Lease : Type 0 where
  pub lease_id : String
  pub fencing_token : ℕ
  pub key : String
  pub holder : String
  pub expires_at : ℕ

pub record LeaseManager : Type 0 where
  pub leases : Table String Lease
  pub fences : Table String ℕ

-- `Lease | { busy: true }`
pub data Grant : Type 0 where
  granted : Lease → Grant
  busy : Grant

abbrev pub no_leases : LeaseManager
no_leases = record { leases = []; fences = [] }

-- `?? 0`
abbrev pub or_zero : Option ℕ → ℕ
or_zero none = 0
or_zero (some n) = n

-- The loop of `sweep`.
unfoldable pub live : ℕ → Table String Lease → Table String Lease
live now [] = []
live now ((k, l) ∷ t) = if leb l.expires_at now then live now t else (k, l) ∷ live now t

unfoldable pub sweep : ℕ → LeaseManager → LeaseManager
unfolding live
sweep now m = record m { leases = live now m.leases }

-- The lease that `acquire` makes.
abbrev pub new_lease : LeaseManager → ℕ → String → String → String → ℕ → Lease
new_lease m later lease_id key holder ttl_ms = record {
  lease_id = lease_id;
  fencing_token = or_zero (get key m.fences) + 1;
  key = key;
  holder = holder;
  expires_at = later + ttl_ms;
}

abbrev pub install : LeaseManager → String → Lease → LeaseManager
install m key l = record { leases = set key l m.leases; fences = set key l.fencing_token m.fences }

-- What `acquire` does after the sweep.
unfoldable pub claim : ℕ → String → String → String → ℕ → LeaseManager → Outcome LeaseManager Grant
claim later lease_id key holder ttl_ms m =
    let l = new_lease m later lease_id key holder ttl_ms in
    if has key m.leases then returns busy m else returns (granted l) (install m key l)

unfoldable pub acquire :
    (now later : ℕ) (lease_id key holder : String) (ttl_ms : ℕ)
    → LeaseManager
    → Outcome LeaseManager Grant
unfolding claim sweep
acquire now later lease_id key holder ttl_ms m =
    if leb ttl_ms 0
    then throws "Invalid TTL" m
    else claim later lease_id key holder ttl_ms (sweep now m)

-- The test that `renew` makes before it writes.
abbrev pub renewable : ℕ → String → ℕ → Option Lease → Bool
renewable now lease_id ttl_ms none = false
renewable now lease_id ttl_ms (some l) =
    if (l.lease_id != lease_id) || leb l.expires_at now || leb ttl_ms 0 then false else true

abbrev pub extend : ℕ → Option Lease → String → LeaseManager → LeaseManager
extend deadline none key m = m
extend deadline (some l) key m = record m {
  leases = set key (record l { expires_at = deadline }) m.leases;
}

unfoldable pub renew :
    (now later : ℕ) (key lease_id : String) (ttl_ms : ℕ) → LeaseManager → Outcome LeaseManager Bool
renew now later key lease_id ttl_ms m =
    if renewable now lease_id ttl_ms (get key m.leases)
    then returns true (extend (later + ttl_ms) (get key m.leases) key m)
    else returns false m

-- `this.leases.get(key)?.leaseId !== leaseId`
abbrev pub holds : String → Option Lease → Bool
holds lease_id none = false
holds lease_id (some l) = l.lease_id == lease_id

unfoldable pub release : (key lease_id : String) → LeaseManager → Outcome LeaseManager Bool
release key lease_id m =
    if holds lease_id (get key m.leases)
    then returns true (record m { leases = delete key m.leases })
    else returns false m

abbrev pub current : ℕ → ℕ → Option Lease → Bool
current now token none = false
current now token (some l) =
    if (l.fencing_token != token) || leb l.expires_at now then false else true

unfoldable pub assert_fence :
    (now : ℕ) (key : String) (token : ℕ) → LeaseManager → Outcome LeaseManager (Unit {0})
assert_fence now key token m =
    if current now token (get key m.leases) then returns tt m else throws "Stale fencing token" m

-- The calls that other parts of the program make, in any order.
pub data Call : Type 0 where
  acquires : (now later : ℕ) (lease_id key holder : String) (ttl_ms : ℕ) → Call
  renews : (now later : ℕ) (key lease_id : String) (ttl_ms : ℕ) → Call
  releases : (key lease_id : String) → Call
  sweeps : (now : ℕ) → Call
  asserts : (now : ℕ) (key : String) (token : ℕ) → Call

unfoldable pub step : LeaseManager → Call → LeaseManager
step m (acquires now later lease_id key holder ttl_ms) =
    after (acquire now later lease_id key holder ttl_ms m)
step m (renews now later key lease_id ttl_ms) = after (renew now later key lease_id ttl_ms m)
step m (releases key lease_id) = after (release key lease_id m)
step m (sweeps now) = sweep now m
step m (asserts now key token) = after (assert_fence now key token m)

unfoldable pub run : LeaseManager → List Call → LeaseManager
run m [] = m
run m (c ∷ cs) = run (step m c) cs
