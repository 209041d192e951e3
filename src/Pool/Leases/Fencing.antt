-- ===== src/Pool/Leases/Fencing.antt =====
-- Fencing tokens of src/agent/pool/leases.ts: what the calls keep of them.
use cli_model_gateway.Base.{
  ℕ, suc, ◌+◌, ◌<◌, ◌≤◌, ◌≡◌, refl, String, none, some, [], ◌∷◌, List, arith, ◌==◌, ==_iff, ==_refl,
  if◌then◌else◌, Table, Each, get, set, returns, get-set, get-set_self, has-get, Each-mono,
  Each-set, Each-delete, Each-get, nat_eq, string_eq,
}
use cli_model_gateway.Pool.Leases.{
  Lease, LeaseManager, granted, or_zero, live, sweep, claim, acquire, Call, step, run, install,
  new_lease,
}
use cli_model_gateway.Pool.Leases.Steps.{step_keeps, run_keeps}

-- The last token given out for a key.
abbrev pub fence : String → LeaseManager → ℕ
fence k m = or_zero (get k m.fences)

pub live-Each :
    (P : String → Lease → Type 0) (now : ℕ) (t : Table String Lease)
    → Each P t
    → Each P (live now t)
unfolding live
live-Each P now [] a = tt
live-Each P now ((k, l) ∷ t) a = ground (arith, live-Each P now t a.1)

-- Where an entry stands is the lease's own key, and no lease has a token that was not given out.
abbrev pub Issued : (String → ℕ) → String → Lease → Type 0
Issued last k l = (l.key ≡ k) × (l.fencing_token ≤ last k)

abbrev pub IsWellFenced : LeaseManager → Type 0
IsWellFenced m = Each (Issued (λ k. fence k m)) m.leases

fence-install :
    (k key : String) (m : LeaseManager) (l : Lease)
    → fence k (install m key l) ≡ (if key == k then l.fencing_token else fence k m)
fence-install k key m l = ground (arith, get-set key k l.fencing_token m.fences)

install-IsWellFenced :
    (m : LeaseManager) (later : ℕ) (lease_id key holder : String) (ttl_ms : ℕ)
    → IsWellFenced m
    → IsWellFenced (install m key (new_lease m later lease_id key holder ttl_ms))
install-IsWellFenced m later lease_id key holder ttl_ms v =
    Each-set (Issued new) key l m.leases
      (refl, ground (arith, fence-install key key m l, ==_refl key))
      (Each-mono (Issued (λ k. fence k m)) (Issued new) grow m.leases v)
  where
    l : Lease
    l = new_lease m later lease_id key holder ttl_ms

    new : String → ℕ
    new k = fence k (install m key l)

    grow : (k : String) (x : Lease) → Issued (λ j. fence j m) k x → Issued new k x
    grow k x (p, q) = (p, ground (arith, fence-install k key m l, ==_iff key k))

extend-IsWellFenced :
    (m : LeaseManager) (key : String) (l : Lease) (deadline : ℕ)
    → get key m.leases ≡ some l
    → IsWellFenced m
    → IsWellFenced (record m { leases = set key (record l { expires_at = deadline }) m.leases })
extend-IsWellFenced m key l deadline e v =
    let old = Each-get (Issued (λ k. fence k m)) key m.leases v e in
    Each-set (Issued (λ k. fence k m)) key _ m.leases (old.0, old.1) v

-- Every call keeps each entry under its lease's own key, with a token that has been given out.
pub step-IsWellFenced : (m : LeaseManager) (c : Call) → IsWellFenced m → IsWellFenced (step m c)
step-IsWellFenced m c v =
    step_keeps IsWellFenced (λ now n w. unfold sweep in live-Each _ now n.leases w)
      install-IsWellFenced extend-IsWellFenced
      (λ n key w. Each-delete (Issued (λ k. fence k n)) key n.leases w) m c v

-- No call takes a token back.
abbrev Reached : String → ℕ → LeaseManager → Type 0
Reached k n m = n ≤ fence k m

Reached-install :
    (k : String) (n : ℕ) (m : LeaseManager) (later : ℕ) (lease_id key holder : String) (ttl_ms : ℕ)
    → Reached k n m
    → Reached k n (install m key (new_lease m later lease_id key holder ttl_ms))
Reached-install k n m later lease_id key holder ttl_ms p =
    ground
      (arith, fence-install k key m (new_lease m later lease_id key holder ttl_ms), ==_iff key k)

pub fence-run-le : (k : String) (m : LeaseManager) (cs : List Call) → fence k m ≤ fence k (run m cs)
fence-run-le k m cs =
    run_keeps (Reached k (fence k m)) (λ now n p. unfold sweep in p) (Reached-install k (fence k m))
      (λ n key l d e p. p) (λ n key p. p) m cs (omega arith)

-- Every lease of the key has a token above n, and n has been passed.
abbrev pub IsPassed : String → ℕ → LeaseManager → Type 0
IsPassed k n m = Each (λ j l. j ≡ k → n < l.fencing_token) m.leases × (n < fence k m)

pub run-IsPassed :
    (k : String) (n : ℕ) (m : LeaseManager) (cs : List Call)
    → IsPassed k n m
    → IsPassed k n (run m cs)
run-IsPassed k n m cs p =
    run_keeps (IsPassed k n) (λ now s (a, h). unfold sweep in (live-Each _ now s.leases a, h))
      (λ s later lease_id key holder ttl_ms (a, h). (
        Each-set _ key (new_lease s later lease_id key holder ttl_ms) s.leases
            (λ e. rw e (omega arith)) a,
        Reached-install k (suc n) s later lease_id key holder ttl_ms h,
      ))
      (λ s key l d e (a, h). (Each-set _ key _ s.leases (Each-get _ key s.leases a e) a, h))
      (λ s key (a, h). (Each-delete _ key s.leases a, h)) m cs p

-- What a successful `acquire` tells: the lease, its token and the state after.
pub record Granted (m : LeaseManager) (key : String) (l : Lease) (m' : LeaseManager) : Type 0 where
  pub vacant : get key (m.leases) ≡ none
  pub token : l.fencing_token ≡ fence key m + 1
  pub own_key : l.key ≡ key
  pub result : m' ≡ install m key l

pub acquire-Granted :
    (now later : ℕ) (lease_id key holder : String) (ttl_ms : ℕ) (m m' : LeaseManager) (l : Lease)
    → acquire now later lease_id key holder ttl_ms m ≡ returns (granted l) m'
    → Granted (sweep now m) key l m'
unfolding acquire claim
acquire-Granted now later lease_id key holder ttl_ms m m' l h = record {
  vacant = has-get key (sweep now m).leases (ground arith);
  token = ground arith;
  own_key = ground arith;
  result = ground arith;
}

pub Granted-fence :
    (m : LeaseManager) (key : String) (l : Lease) (m' : LeaseManager)
    → Granted m key l m'
    → (fence key m' ≡ fence key m + 1) × (get key m'.leases ≡ some l)
Granted-fence m key l m' g =
    let a = fence-install key key m l in
    let b = get-set_self key l m.leases in
    let e = g.result in (ground (arith, a, ==_refl key, g.token), rw e b)
