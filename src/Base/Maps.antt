-- ===== src/Base/Maps.antt =====
-- A JavaScript `Map`: an association list in the order of insertion. Writing to a key that is there
-- keeps its place; a new key goes to the end.
use Prim.Native.Nat.{suc, ◌≤◌}
use mathlib.Core.Path.{◌≡◌, refl}
use mathlib.Core.Bool.{Bool, true, false, not, ◌&&◌, ◌||◌}
use mathlib.Core.Option.{Option, none, some}
use mathlib.Core.List.{List, [], ◌∷◌}
use native.Mathlib.Omega.{arith}
use mathlib.Core.Path.{ap}
use mathlib.Core.Logic.{◌≢◌, ◌⊎◌, inl, inr}
use cli_model_gateway.Base.Tests.{Eq, ◌==◌, ==_iff, if◌then◌else◌, Bool-cases}
use cli_model_gateway.Base.Lists.{length, find, All}

abbrev pub Table {ℓ κ} : Type ℓ → Type κ → Type (ℓ ⊔ κ)
Table K V = List (K × V)

module _ {ℓ κ} {K : Type ℓ} {V : Type κ} where
  abbrev pub keys : Table K V → List K
  keys [] = []
  keys ((k, v) ∷ t) = k ∷ keys t

  abbrev pub values : Table K V → List V
  values [] = []
  values ((k, v) ∷ t) = v ∷ values t

  -- Every entry satisfies P.
  abbrev pub Each {μ} : (K → V → Type μ) → Table K V → Type μ
  Each P [] = Unit
  Each P ((k, v) ∷ t) = P k v × Each P t

module _ {ℓ κ} {K : Type ℓ} {V : Type κ} ⦃e : Eq K⦄ where
  unfoldable pub get : K → Table K V → Option V
  get k [] = none
  get k ((j, v) ∷ t) = if j == k then some v else get k t

  unfoldable pub has : K → Table K V → Bool
  has k [] = false
  has k ((j, v) ∷ t) = if j == k then true else has k t

  unfoldable pub set : K → V → Table K V → Table K V
  set k v [] = (k, v) ∷ []
  set k v ((j, w) ∷ t) = if j == k then (j, v) ∷ t else (j, w) ∷ set k v t

  unfoldable pub delete : K → Table K V → Table K V
  delete k [] = []
  delete k ((j, v) ∷ t) = if j == k then delete k t else (j, v) ∷ delete k t

  pub get-set :
      (k j : K) (v : V) (t : Table K V) → get j (set k v t) ≡ (if k == j then some v else get j t)
  unfolding get set
  get-set k j v [] = refl
  get-set k j v ((i, w) ∷ t) = ground (arith, ==_iff k j, ==_iff i k, ==_iff i j, get-set k j v t)

  pub get-set_self : (k : K) (v : V) (t : Table K V) → get k (set k v t) ≡ some v
  get-set_self k v t = ground (arith, get-set k k v t, ==_iff k k)

  pub get-delete :
      (k j : K) (t : Table K V) → get j (delete k t) ≡ (if k == j then none else get j t)
  unfolding get delete
  get-delete k j [] = ground arith
  get-delete k j ((i, w) ∷ t) = ground (arith, ==_iff k j, ==_iff i k, ==_iff i j, get-delete k j t)

  pub has-get : (k : K) (t : Table K V) → has k t ≡ false → get k t ≡ none
  unfolding get has
  has-get k [] h = refl
  has-get k ((j, v) ∷ t) h = ground (arith, has-get k t)

  pub get-has : (k : K) {v : V} (t : Table K V) → get k t ≡ some v → has k t ≡ true
  unfolding get has
  get-has k [] h = ground arith
  get-has k {v} ((j, w) ∷ t) h = ground (arith, get-has k {v = v} t)

  pub length-set :
      (k : K) (v : V) (t : Table K V)
      → length (set k v t) ≡ (if has k t then length t else suc (length t))
  unfolding set has
  length-set k v [] = refl
  length-set k v ((j, w) ∷ t) = ground (arith, length-set k v t)

  pub length-delete-le : (k : K) (t : Table K V) → length (delete k t) ≤ length t
  unfolding delete
  length-delete-le k [] = omega arith
  length-delete-le k ((j, w) ∷ t) = ground (arith, length-delete-le k t)

  pub Each-get {μ} :
      (P : K → V → Type μ) (k : K) {v : V} (t : Table K V) → Each P t → get k t ≡ some v → P k v
  unfolding get
  Each-get P k [] a h = absurd (ground arith)
  Each-get P k {v} ((j, w) ∷ t) (p, a) h = ground (arith, ==_iff j k, Each-get P k {v = v} t a)

  pub Each-set {μ} :
      (P : K → V → Type μ) (k : K) (v : V) (t : Table K V) → P k v → Each P t → Each P (set k v t)
  unfolding set
  Each-set P k v [] p a = (p, tt)
  Each-set P k v ((j, w) ∷ t) p (q, a) = ground (arith, ==_iff j k, Each-set P k v t p a)

  pub Each-delete {μ} :
      (P : K → V → Type μ) (k : K) (t : Table K V) → Each P t → Each P (delete k t)
  unfolding delete
  Each-delete P k [] a = tt
  Each-delete P k ((j, w) ∷ t) (q, a) = ground (arith, Each-delete P k t a)

module _ {ℓ κ} {K : Type ℓ} {V : Type κ} where
  pub Each-mono {μ ν} :
      (P : K → V → Type μ) (Q : K → V → Type ν)
      → ((k : K) (v : V) → P k v → Q k v)
      → (t : Table K V) → Each P t
      → Each Q t
  Each-mono P Q f [] a = tt
  Each-mono P Q f ((k, v) ∷ t) (p, a) = (f k v p, Each-mono P Q f t a)

module _ {ℓ κ} {K : Type ℓ} {V : Type κ} ⦃e : Eq K⦄ where
  -- A key that is not there makes every claim about its entries true.
  pub has-Each {μ} :
      (Q : V → Type μ) (k : K) (t : Table K V) → has k t ≡ false → Each (λ j v. j ≡ k → Q v) t
  unfolding has
  has-Each Q k [] h = tt
  has-Each Q k ((j, v) ∷ t) h =
      ((λ same. absurd (ground (arith, ==_iff j k))), has-Each Q k t (ground (arith, ==_iff j k)))

module _ {ℓ κ} {K : Type ℓ} {V : Type κ} ⦃e : Eq K⦄ where
  abbrev pub IsUnique : Table K V → Type 0
  IsUnique [] = Unit
  IsUnique ((k, v) ∷ t) = (has k t ≡ false) × IsUnique t

  has-set : (k j : K) (v : V) (t : Table K V) → k ≢ j → has j (set k v t) ≡ has j t
  unfolding has set
  has-set k j v [] n = ground (arith, ==_iff k j)
  has-set k j v ((i, w) ∷ t) n =
      ground (arith, ==_iff i k, ==_iff i j, ==_iff k j, has-set k j v t n)

  pub set-IsUnique : (k : K) (v : V) (t : Table K V) → IsUnique t → IsUnique (set k v t)
  unfolding set
  set-IsUnique k v [] u = (unfold has in refl, tt)
  set-IsUnique k v ((j, w) ∷ t) (n, u) = elim (Bool-cases (j == k)) [
    | inl y ↦ rw y (n, u)
    | inr x ↦
        rw x (
          rw (has-set k j v t (λ same. absurd (ground (arith, ==_iff j k)))) n,
          set-IsUnique k v t u,
        )
  ]

  -- Where every value knows its own key, a search of the values finds what a lookup finds.
  pub find-get :
      (key : V → K) (p : V → Bool) (t : Table K V) {v : V}
      → IsUnique t
      → Each (λ k w. key w ≡ k) t
      → find p (values t) ≡ some v
      → (get (key v) t ≡ some v) × (p v ≡ true)
  unfolding get
  find-get key p [] u a h = absurd (ground arith)
  find-get key p ((k, w) ∷ t) {v} (n, u) (own, a) h = elim (Bool-cases (p w)) [
    | inl y ↦
        let same : w ≡ v = ground arith in
        (ground (arith, ==_iff k (key v), ap key same), ground arith)
    | inr x ↦
        let (found, holds) = find-get key p t {v = v} u a (ground arith) in
        (ground (arith, ==_iff k (key v), get-has (key v) t found), holds)
  ]

  pub find-get-none :
      (p : V → Bool) (k : K) (t : Table K V) {v : V}
      → find p (values t) ≡ none
      → get k t ≡ some v
      → p v ≡ false
  unfolding get
  find-get-none p k [] h g = absurd (ground arith)
  find-get-none p k ((j, w) ∷ t) {v} h g = ground (arith, find-get-none p k t {v = v})

module _ {ℓ κ} {K : Type ℓ} {V : Type κ} where
  pub Each-values {μ ν} :
      (P : K → V → Type μ) (Q : V → Type ν)
      → ((k : K) (v : V) → P k v → Q v)
      → (t : Table K V) → Each P t
      → All Q (values t)
  Each-values P Q f [] a = tt
  Each-values P Q f ((k, v) ∷ t) (p, a) = (f k v p, Each-values P Q f t a)

module _ {ℓ κ} {K : Type ℓ} {V : Type κ} ⦃e : Eq K⦄ where
  pub has-set_lem : (k j : K) (v : V) (t : Table K V) → has j (set k v t) ≡ (k == j || has j t)
  unfolding has set
  has-set_lem k j v [] = ground arith
  has-set_lem k j v ((i, w) ∷ t) =
      ground (arith, ==_iff i k, ==_iff i j, ==_iff k j, has-set_lem k j v t)

  pub has-delete : (k j : K) (t : Table K V) → has j (delete k t) ≡ (not (k == j) && has j t)
  unfolding has delete
  has-delete k j [] = ground arith
  has-delete k j ((i, w) ∷ t) = ground (arith, ==_iff i k, ==_iff i j, ==_iff k j, has-delete k j t)

module _ {ℓ κ} {K : Type ℓ} {V : Type κ} ⦃e : Eq K⦄ where
  pub get-set_cases :
      (k j : K) (v : V) (t : Table K V) {x : V}
      → get j (set k v t) ≡ some x
      → ((k ≡ j) × (v ≡ x)) ⊎ ((k ≢ j) × (get j t ≡ some x))
  get-set_cases k j v t {x} h = elim (Bool-cases (k == j)) [
    | inl y ↦ inl ((==_iff k j).0 y, ground (arith, get-set k j v t))
    | inr n ↦ inr (λ same. absurd (ground (arith, ==_iff k j)), ground (arith, get-set k j v t))
  ]

  pub get-none-has : (k : K) (t : Table K V) → get k t ≡ none → has k t ≡ false
  unfolding get has
  get-none-has k [] h = refl
  get-none-has k ((j, v) ∷ t) h = ground (arith, get-none-has k t)
