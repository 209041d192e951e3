-- ===== src/Pool/Workers/Capacity.antt =====
-- How many jobs run, in all and for one owner: the writes to `running` in
-- src/agent/pool/worker-pool.ts.
use cli_model_gateway.Base.{
  ℕ, ◌+◌, ◌<◌, ◌≤◌, ◌≡◌, refl, ap, String, some, [], ◌∷◌, arith, ◌==◌, ==_iff, if◌then◌else◌, Table,
  values, get, set, delete, get-has, length-set, length-delete-le, nat_eq, string_eq, length,
}
use cli_model_gateway.Pool.Workers.{JobInput, Active, count_owner, abort_all}

module _ {P : Type 0} where
  -- At most `most` jobs run, and at most `each` for one owner.
  pub record IsWithin (most each : ℕ) (t : Table String (Active P)) : Type 0 where
    pub total : length t ≤ most
    pub owners : (o : String) → count_owner o (values t) ≤ each

  count_owner-set :
      (o k : String) (a : Active P) (t : Table String (Active P))
      → count_owner o (values (set k a t))
        ≤ count_owner o (values t) + (if a.job.owner == o then 1 else 0)
  unfolding set
  count_owner-set o k a [] = ground arith
  count_owner-set o k a ((j, b) ∷ t) = ground (arith, count_owner-set o k a t)

  count_owner-set_same :
      (o k : String) (a b : Active P) (t : Table String (Active P))
      → get k t ≡ some a
      → b.job ≡ a.job
      → count_owner o (values (set k b t)) ≡ count_owner o (values t)
  unfolding set get
  count_owner-set_same o k a b [] e same = absurd (ground arith)
  count_owner-set_same o k a b ((j, c) ∷ t) e same =
      ground (arith, count_owner-set_same o k a b t, ap (λ (i : JobInput P). i.owner) same)

  count_owner-delete-le :
      (o k : String) (t : Table String (Active P))
      → count_owner o (values (delete k t)) ≤ count_owner o (values t)
  unfolding delete
  count_owner-delete-le o k [] = omega arith
  count_owner-delete-le o k ((j, c) ∷ t) = ground (arith, count_owner-delete-le o k t)

  pub activate-IsWithin :
      (most each : ℕ) (k : String) (a : Active P) (t : Table String (Active P))
      → length t < most
      → count_owner a.job.owner (values t) < each
      → IsWithin most each t
      → IsWithin most each (set k a t)
  activate-IsWithin most each k a t room own w = record {
    total = ground (arith, length-set k a t);
    owners = λ o. ground (arith, count_owner-set o k a t, w.owners o, ==_iff a.job.owner o);
  }

  pub set_same-IsWithin :
      (most each : ℕ) (k : String) (a b : Active P) (t : Table String (Active P))
      → get k t ≡ some a
      → b.job ≡ a.job
      → IsWithin most each t
      → IsWithin most each (set k b t)
  set_same-IsWithin most each k a b t e same w = record {
    total = ground (arith, length-set k b t, get-has k t e, w.total);
    owners = λ o. omega (arith, count_owner-set_same o k a b t e same, w.owners o);
  }

  pub delete-IsWithin :
      (most each : ℕ) (k : String) (t : Table String (Active P))
      → IsWithin most each t
      → IsWithin most each (delete k t)
  delete-IsWithin most each k t w = record {
    total = omega (arith, length-delete-le k t, w.total);
    owners = λ o. omega (arith, count_owner-delete-le o k t, w.owners o);
  }

  length-abort_all : (t : Table String (Active P)) → length (abort_all t) ≡ length t
  unfolding abort_all
  length-abort_all [] = refl
  length-abort_all ((k, a) ∷ t) = omega (arith, length-abort_all t)

  count_owner-abort_all :
      (o : String) (t : Table String (Active P))
      → count_owner o (values (abort_all t)) ≡ count_owner o (values t)
  unfolding abort_all
  count_owner-abort_all o [] = refl
  count_owner-abort_all o ((k, a) ∷ t) = ground (arith, count_owner-abort_all o t)

  pub abort_all-IsWithin :
      (most each : ℕ) (t : Table String (Active P))
      → IsWithin most each t
      → IsWithin most each (abort_all t)
  abort_all-IsWithin most each t w = record {
    total = omega (arith, length-abort_all t, w.total);
    owners = λ o. omega (arith, count_owner-abort_all o t, w.owners o);
  }
