-- ===== src/Providers/Ranking.antt =====
-- The ranking of the models for `auto` in src/providers/registry.ts.
use mathlib.Core.List.{Perm}
use mathlib.Core.List.Perm
use cli_model_gateway.Base.{
  ◌≤◌, ℕ, ◌≡◌, refl, String, Bool, true, false, ◌&&◌, Option, none, some, [], ◌∷◌, List, arith,
  Table, values, get, Bool-cases, inl, inr, ◌⊎◌, nat_eq, string_eq, filter, All,
}
use cli_model_gateway.Providers.Bindings.{ModelBinding, Request, supports_request}
use cli_model_gateway.Providers.Auto.{
  Scores, insert_by, sort_by, ranks_before, index_before, rank_auto,
}
use cli_model_gateway.Providers.Registered.{All-mono, All-insert_by}

-- A comparison in which neither a value nor a cycle precedes itself, and of which ties are transitive.
pub record IsOrder {A : Type 0} (precedes : A → A → Bool) : Type 0 where
  pub asym : (x y : A) → precedes x y ≡ true → precedes y x ≡ false
  pub weak : (x y z : A) → precedes z y ≡ false → precedes y x ≡ false → precedes z x ≡ false

insert_by-perm :
    {A : Type 0} (precedes : A → A → Bool) (x : A) (xs : List A)
    → Perm (insert_by precedes x xs) (x ∷ xs)
unfolding insert_by
insert_by-perm precedes x [] = Perm.rfl
insert_by-perm precedes x (y ∷ ys) = elim (Bool-cases (precedes y x)) [
  | inl e ↦ rw e (Perm.trans (Perm.cons y (insert_by-perm precedes x ys)) (Perm.swap x y ys))
  | inr e ↦ rw e Perm.rfl
]

sort_by-perm : {A : Type 0} (precedes : A → A → Bool) (xs : List A) → Perm (sort_by precedes xs) xs
unfolding sort_by
sort_by-perm precedes [] = Perm.rfl
sort_by-perm precedes (x ∷ xs) =
    Perm.trans (insert_by-perm precedes x (sort_by precedes xs))
      (Perm.cons x (sort_by-perm precedes xs))

module _ {A : Type 0} (precedes : A → A → Bool) where
  -- No element is preceded by a later one.
  abbrev IsSorted : List A → Type 0
  IsSorted [] = Unit {0}
  IsSorted (x ∷ xs) = All (λ y. precedes y x ≡ false) xs × IsSorted xs

  insert_by-IsSorted :
      (order : IsOrder precedes) (x : A) (xs : List A)
      → IsSorted xs
      → IsSorted (insert_by precedes x xs)
  unfolding insert_by
  insert_by-IsSorted order x [] s = (tt, tt)
  insert_by-IsSorted order x (y ∷ ys) (a, s) = elim (Bool-cases (precedes y x)) [
    | inl e ↦ rw e (
      All-insert_by (λ z. precedes z y ≡ false) precedes x ys (order.asym y x e) a,
      insert_by-IsSorted order x ys s,
    )
    | inr e ↦ rw e (
      (
        e,
        All-mono (λ z. precedes z y ≡ false) (λ z. precedes z x ≡ false)
            (λ z n. order.weak x y z n e) ys a,
      ),
      (a, s),
    )
  ]

  sort_by-IsSorted : (order : IsOrder precedes) (xs : List A) → IsSorted (sort_by precedes xs)
  unfolding sort_by
  sort_by-IsSorted order [] = tt
  sort_by-IsSorted order (x ∷ xs) =
      insert_by-IsSorted order x (sort_by precedes xs) (sort_by-IsSorted order xs)

-- Every element stands rightly before all that come after it.
abbrev pub IsInOrder : {A : Type 0} → (A → A → Type 0) → List A → Type 0
IsInOrder Rightly [] = Unit {0}
IsInOrder Rightly (x ∷ xs) = All (Rightly x) xs × IsInOrder Rightly xs

IsSorted-IsInOrder :
    {A : Type 0} (precedes : A → A → Bool) (Rightly : A → A → Type 0)
    → ((x y : A) → precedes y x ≡ false → Rightly x y)
    → (xs : List A) → IsSorted precedes xs
    → IsInOrder Rightly xs
IsSorted-IsInOrder precedes Rightly f [] s = tt
IsSorted-IsInOrder precedes Rightly f (x ∷ xs) (a, s) = (
  All-mono (λ y. precedes y x ≡ false) (Rightly x) (f x) xs a,
  IsSorted-IsInOrder precedes Rightly f xs s,
)

-- No index, which is -1, is at most every index.
abbrev pub IndexAtMost : Option ℕ → Option ℕ → Type 0
IndexAtMost none j = Unit {0}
IndexAtMost (some i) none = ⊥
IndexAtMost (some i) (some j) = i ≤ j

index_before-IndexAtMost : (i j : Option ℕ) → index_before j i ≡ false → IndexAtMost i j
index_before-IndexAtMost none j h = tt
index_before-IndexAtMost (some i) none h = absurd (ground (arith, h))
index_before-IndexAtMost (some i) (some j) h = ground arith

index_before-weak :
    (i j k : Option ℕ)
    → index_before k j ≡ false
    → index_before j i ≡ false
    → index_before k i ≡ false
index_before-weak none none none h g = refl
index_before-weak none none (some k) h g = refl
index_before-weak none (some j) none h g = absurd (ground (arith, h))
index_before-weak none (some j) (some k) h g = refl
index_before-weak (some i) none none h g = absurd (ground (arith, g))
index_before-weak (some i) none (some k) h g = absurd (ground (arith, g))
index_before-weak (some i) (some j) none h g = absurd (ground (arith, h))
index_before-weak (some i) (some j) (some k) h g = ground arith

index_before-asym : (i j : Option ℕ) → index_before i j ≡ true → index_before j i ≡ false
index_before-asym none none h = refl
index_before-asym none (some j) h = refl
index_before-asym (some i) none h = absurd (ground (arith, h))
index_before-asym (some i) (some j) h = ground arith

module _ (scores : Scores) (score : ModelBinding → scores.Score) where
  -- The first has the higher score, or the second has not and the index of the first is at most its own.
  abbrev pub IsRightlyBefore : ModelBinding → ModelBinding → Type 0
  IsRightlyBefore x y =
      (scores.higher (score x) (score y) ≡ true)
      ⊎ ((scores.higher (score y) (score x) ≡ false) × IndexAtMost x.routing_index y.routing_index)

module _ (scores : Scores) (higher : IsOrder scores.higher)
    (score : ModelBinding → scores.Score) where
  ranks_before-IsOrder : IsOrder (ranks_before scores score)
  ranks_before-IsOrder = record {
    asym = λ x y h. ground (
      arith,
      h,
      higher.asym (score x) (score y),
      higher.asym (score y) (score x),
      index_before-asym x.routing_index y.routing_index,
    );
    weak = λ x y z h g. ground (
      arith,
      h,
      g,
      higher.weak (score x) (score y) (score z),
      higher.asym (score y) (score x),
      higher.asym (score x) (score y),
      higher.asym (score z) (score y),
      higher.asym (score y) (score z),
      higher.asym (score z) (score x),
      higher.asym (score x) (score z),
      higher.weak (score y) (score x) (score z),
      higher.weak (score z) (score y) (score x),
      higher.weak (score x) (score z) (score y),
      higher.weak (score z) (score x) (score y),
      higher.weak (score y) (score z) (score x),
      index_before-weak x.routing_index y.routing_index z.routing_index,
    );
  }

  ranks_before-IsRightlyBefore :
      (x y : ModelBinding)
      → ranks_before scores score y x ≡ false
      → IsRightlyBefore scores score x y
  ranks_before-IsRightlyBefore x y h = elim (Bool-cases (scores.higher (score x) (score y))) [
    | inl e ↦ inl e
    | inr e ↦
        inr (ground arith, index_before-IndexAtMost x.routing_index y.routing_index (ground arith))
  ]

  -- If the comparison of scores is an order, the ranking for `auto` holds the models that are eligible for
  -- it and support the request, each as often as it is registered, and of any two models in it the first
  -- has the higher score, or neither has and the routing index of the first is not the greater one.
  pub rank_auto-IsInOrder :
      (request : Request) (models : Table String ModelBinding)
      → IsInOrder (IsRightlyBefore scores score) (rank_auto scores score request models)
        × Perm (rank_auto scores score request models) (
            filter
              (λ b. b.auto_eligible && supports_request request (get b.model_id models))
              (values models))
  unfolding rank_auto
  rank_auto-IsInOrder request models =
      let eligible : List ModelBinding =
        filter (λ b. b.auto_eligible && supports_request request (get b.model_id models))
          (values models) in
      (
        IsSorted-IsInOrder (ranks_before scores score) (IsRightlyBefore scores score)
            ranks_before-IsRightlyBefore _
            (sort_by-IsSorted (ranks_before scores score) ranks_before-IsOrder eligible),
        sort_by-perm (ranks_before scores score) eligible,
      )
