-- ===== src/Log/Chain.antt =====
-- The hash chain of src/agent/store/sealed-log.ts.
use cli_model_gateway.Base.{
  ℕ, suc, ◌+◌, ◌≤◌, ◌≡◌, refl, sym, ap, ◌∙◌, String, true, Option, none, some, [], ◌∷◌, ◌++◌, List,
  arith, ==_iff, nat_eq, string_eq, length, get_last?,
}
use mathlib.Core.Path.{ap₂}
use cli_model_gateway.Log.{LogRecord, Envelope, genesis, hash_of_last, is_chained}

module _ {E B : Type 0} (env : Envelope E B) where
  open env use {hash}

  pub last_from : String → List (LogRecord B) → String
  last_from prev [] = prev
  last_from prev (r ∷ rs) = last_from (hash r) rs

  last_from-last :
      (prev : String) (r : LogRecord B) (rs : List (LogRecord B))
      → last_from prev (r ∷ rs) ≡ hash_of_last env (get_last? (r ∷ rs))
  unfolding last_from
  last_from-last prev r [] = refl
  last_from-last prev r (s ∷ rs) = last_from-last (hash r) s rs

  pub last_from-genesis :
      (rs : List (LogRecord B)) → last_from genesis rs ≡ hash_of_last env (get_last? rs)
  unfolding last_from
  last_from-genesis [] = refl
  last_from-genesis (r ∷ rs) = last_from-last genesis r rs

  pub is_chained-concat :
      (i : ℕ) (prev : String) (rs : List (LogRecord B)) (r : LogRecord B)
      → is_chained env i prev rs ≡ true
      → r.seq ≡ i + length rs
      → r.prev_hash ≡ last_from prev rs
      → is_chained env i prev (rs ++ r ∷ []) ≡ true
  unfolding is_chained last_from
  is_chained-concat i prev [] r h e p = ground (arith, ==_iff r.seq i, ==_iff r.prev_hash prev)
  is_chained-concat i prev (x ∷ rs) r h e p =
      ground (arith, is_chained-concat (suc i) (hash x) rs r)

  is_chained-cons :
      (i : ℕ) (prev : String) (r : LogRecord B) (rs : List (LogRecord B))
      → is_chained env i prev (r ∷ rs) ≡ true
      → (r.seq ≡ i) × (r.prev_hash ≡ prev) × (is_chained env (suc i) (hash r) rs ≡ true)
  unfolding is_chained
  is_chained-cons i prev r rs h =
      ((==_iff r.seq i).0 (ground arith), (==_iff r.prev_hash prev).0 (ground arith), ground arith)

  is_chained-last_seq :
      (i : ℕ) (prev : String) (rs : List (LogRecord B)) (r : LogRecord B)
      → is_chained env i prev rs ≡ true
      → get_last? rs ≡ some r
      → i ≤ r.seq
  is_chained-last_seq i prev [] r h e = absurd (cc)
  is_chained-last_seq i prev (x ∷ []) r h e =
      let (at, _, _) = is_chained-cons i prev x [] h in
      let same : x.seq ≡ r.seq = ap (λ (o : Option (LogRecord B)). seq_or i o) e in omega arith
    where
      seq_or : ℕ → Option (LogRecord B) → ℕ
      seq_or n none = n
      seq_or n (some z) = z.seq
  is_chained-last_seq i prev (x ∷ y ∷ rs) r h e =
      let (_, _, rest) = is_chained-cons i prev x (y ∷ rs) h in
      let later = is_chained-last_seq (suc i) (hash x) (y ∷ rs) r rest e in omega arith

  -- A chain of one record and a longer one do not end in the same record.
  last-ne :
      (i : ℕ) (p p' : String) (x y y' r : LogRecord B) (ys : List (LogRecord B))
      → is_chained env i p (x ∷ []) ≡ true
      → is_chained env i p' (y ∷ y' ∷ ys) ≡ true
      → some x ≡ some r
      → get_last? (y' ∷ ys) ≡ some r
      → ⊥
  last-ne i p p' x y y' r ys h k e f =
      let (at, _, _) = is_chained-cons i p x [] h in
      let (_, _, rest) = is_chained-cons i p' y (y' ∷ ys) k in
      let later = is_chained-last_seq (suc i) (hash y) (y' ∷ ys) r rest f in
      let same : x ≡ r = cc in
      let seqs : x.seq ≡ r.seq = ap (λ (z : LogRecord B). z.seq) same in omega arith

  prev_hash-eq :
      (i : ℕ) (p p' : String) (x y : LogRecord B) (xs ys : List (LogRecord B))
      → is_chained env i p (x ∷ xs) ≡ true
      → is_chained env i p' (y ∷ ys) ≡ true
      → x ≡ y
      → p ≡ p'
  prev_hash-eq i p p' x y xs ys h k e =
      let (_, hx, _) = is_chained-cons i p x xs h in
      let (_, hy, _) = is_chained-cons i p' y ys k in
      sym hx ∙ (ap (λ (z : LogRecord B). z.prev_hash) e ∙ hy)

  module _ (injective : (a b : LogRecord B) → hash a ≡ hash b → a ≡ b) where
    -- If the hash has no collisions, two chains that end in one record are one chain.
    pub is_chained_unique :
        (i : ℕ) (p p' : String) (xs ys : List (LogRecord B)) (r : LogRecord B)
        → is_chained env i p xs ≡ true
        → is_chained env i p' ys ≡ true
        → get_last? xs ≡ some r
        → get_last? ys ≡ some r
        → (xs ≡ ys) × (p ≡ p')
    is_chained_unique i p p' [] ys r h k e f = absurd (cc)
    is_chained_unique i p p' (x ∷ xs) [] r h k e f = absurd (cc)
    is_chained_unique i p p' (x ∷ []) (y ∷ []) r h k e f =
        let same : x ≡ y = cc in
        (ap (λ (z : LogRecord B). z ∷ []) same, prev_hash-eq i p p' x y [] [] h k same)
    is_chained_unique i p p' (x ∷ []) (y ∷ y' ∷ ys) r h k e f =
        absurd (last-ne i p p' x y y' r ys h k e f)
    is_chained_unique i p p' (x ∷ x' ∷ xs) (y ∷ []) r h k e f =
        absurd (last-ne i p' p y x x' r xs k h f e)
    is_chained_unique i p p' (x ∷ x' ∷ xs) (y ∷ y' ∷ ys) r h k e f =
        let (_, _, hr) = is_chained-cons i p x (x' ∷ xs) h in
        let (_, _, kr) = is_chained-cons i p' y (y' ∷ ys) k in
        let ih = is_chained_unique (suc i) (hash x) (hash y) (x' ∷ xs) (y' ∷ ys) r hr kr e f in
        let same = injective x y ih.1 in
        (
          ap₂ (λ (z : LogRecord B) zs. z ∷ zs) same ih.0,
          prev_hash-eq i p p' x y (x' ∷ xs) (y' ∷ ys) h k same,
        )
