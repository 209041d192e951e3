-- ===== src/Utils/Lru/Eviction.antt =====
-- What src/utils/lru-map.ts keeps and what it evicts.
use cli_model_gateway.Base.{
  ℕ, zero, suc, ◌+◌, ◌-◌, ◌≤◌, ◌≡◌, refl, ap, ◌∙◌, [], ◌∷◌, ◌++◌, arith, ltb, Table, delete,
  Bool-cases, inl, inr, nat_eq, string_eq, Eq, length, drop, length-append, length-drop,
}
use cli_model_gateway.Utils.Lru.{lru_set, evict, capacity}

capacity-ge : (n : ℕ) → 1 ≤ capacity n
capacity-ge n = ground arith

module _ {K : Type 0} {V : Type 0} where
  evict-drop : (most : ℕ) (t : Table K V) → evict most t ≡ drop (length t - most) t
  unfolding evict
  evict-drop most [] = ground arith
  evict-drop most (x ∷ t) = elim (Bool-cases (ltb most (length (x ∷ t)))) [
    | inr n ↦ let none_left : length (x ∷ t) - most ≡ 0 = ground arith in rw (n, none_left) refl
    | inl y ↦
        let one_more : length (x ∷ t) - most ≡ suc (length t - most) = ground arith in
        rw (y, one_more) (evict-drop most t)
  ]

  drop-concat :
      (n : ℕ) (t : Table K V) (x : K × V) → n ≤ length t → drop n (t ++ x ∷ []) ≡ drop n t ++ x ∷ []
  drop-concat zero t x h = refl
  drop-concat (suc n) [] x h = absurd (omega (arith, h))
  drop-concat (suc n) (y ∷ t) x h = drop-concat n t x (omega (arith, h))

module _ {K : Type 0} {V : Type 0} ⦃e : Eq K⦄ where
  -- Setting a key leaves the newest of the other entries, in their order, as many as there is room
  -- for, and then the key with its value; there are never more entries than the capacity.
  pub lru_set_lem :
      (max_size : ℕ) (k : K) (v : V) (t : Table K V)
      → (lru_set max_size k v t
          ≡ drop (length (delete k t) + 1 - capacity max_size) (delete k t) ++ (k, v) ∷ [])
        × (length (lru_set max_size k v t) ≤ capacity max_size)
  unfolding lru_set
  lru_set_lem max_size k v t = (shape, bound)
    where
      size : length (delete k t ++ (k, v) ∷ []) ≡ length (delete k t) + 1
      size = length-append (delete k t) ((k, v) ∷ [])

      shape :
          evict (capacity max_size) (delete k t ++ (k, v) ∷ [])
          ≡ drop (length (delete k t) + 1 - capacity max_size) (delete k t) ++ (k, v) ∷ []
      shape =
          evict-drop (capacity max_size) (delete k t ++ (k, v) ∷ [])
          ∙ ap (λ n. drop (n - capacity max_size) (delete k t ++ (k, v) ∷ [])) size
          ∙ drop-concat (length (delete k t) + 1 - capacity max_size) (delete k t) (k, v)
              (omega (arith, capacity-ge max_size))

      bound : length (evict (capacity max_size) (delete k t ++ (k, v) ∷ [])) ≤ capacity max_size
      bound =
          let cut =
            length-drop (length (delete k t ++ (k, v) ∷ []) - capacity max_size)
              (delete k t ++ (k, v) ∷ []) in
          let same = ap length (evict-drop (capacity max_size) (delete k t ++ (k, v) ∷ [])) in
          omega (arith, cut, same)
