-- ===== src/Memory/Retrieval.antt =====
-- What `retrieve` of src/agent/memory/index.ts gives.
use cli_model_gateway.Base.{
  ℕ, zero, suc, ◌-◌, ◌≤◌, ◌≡◌, refl, sym, ap, ◌∙◌, false, not, [], ◌∷◌, ◌++◌, List, arith, ◌==◌,
  Bool-cases, inl, inr, nat_eq, string_eq, length, filter, take, All, length-append,
}
use cli_model_gateway.Providers.Registered.{All-filter_by, All-sort_by}
use cli_model_gateway.Providers.Choice.{All-unit}
use cli_model_gateway.Memory.{
  MemoryRecord, Records, Scores, is_retracted, pack, separator, entry_text, ranked, retrieve,
}

abbrev pub all_texts : List MemoryRecord → List ℕ
all_texts [] = []
all_texts (r ∷ rs) = r.text ++ all_texts rs

length-take_le : (n : ℕ) (xs : List ℕ) → length (take n xs) ≤ n
length-take_le zero xs = omega arith
length-take_le (suc n) [] = omega arith
length-take_le (suc n) (x ∷ xs) = omega (arith, length-take_le n xs)

append_assoc : (xs ys zs : List ℕ) → (xs ++ ys) ++ zs ≡ xs ++ (ys ++ zs)
append_assoc [] ys zs = refl
append_assoc (x ∷ xs) ys zs = ap (λ l. x ∷ l) (append_assoc xs ys zs)

append_nil : (xs : List ℕ) → xs ++ [] ≡ xs
append_nil [] = refl
append_nil (x ∷ xs) = ap (λ l. x ∷ l) (append_nil xs)

-- The record comes from a list, but for its text.
abbrev pub IsKept : MemoryRecord → Type 0
IsKept r = is_retracted r.status ≡ false

pack_lem :
    (budget : ℕ) (text : List ℕ) (rs : List MemoryRecord)
    → length text ≤ budget
    → All IsKept rs
    → (length (pack budget text rs).0 ≤ budget)
      × ((pack budget text rs).0 ≡ text ++ all_texts (pack budget text rs).1)
      × All IsKept (pack budget text rs).1
unfolding pack
pack_lem budget text [] h a = (h, sym (append_nil text), tt)
pack_lem budget text (r ∷ rs) h (k, a) = elim (Bool-cases (budget - length text == 0)) [
  | inl y ↦ rw y (h, sym (append_nil text), tt)
  | inr n ↦
      let addition = take (budget - length text) (separator text ++ entry_text r) in
      let short : length addition ≤ budget - length text =
        length-take_le (budget - length text) (separator text ++ entry_text r) in
      let (fits, whole, kept) =
        pack_lem budget (text ++ addition) rs (omega (arith, length-append text addition, short, h))
          a in
      rw n (fits, whole ∙ append_assoc text addition _, (k, kept))
]

module _ (scores : Scores)
    (score : (query : List ℕ) → List MemoryRecord → MemoryRecord → scores.Score) where
  -- Whatever the scores are: the text keeps within the budget, it is made up of the texts of the records
  -- that are given, and none of them is retracted.
  pub retrieve_lem :
      (query : List ℕ) (budget : ℕ) (docs : Records)
      → let (text, records) = retrieve scores score query budget docs in
        (length text ≤ budget) × (text ≡ all_texts records) × All IsKept records
  unfolding retrieve
  retrieve_lem query budget docs =
      let kept = filter (λ r. not (is_retracted r.status)) docs in
      let all_kept : All IsKept kept =
        All-filter_by (λ r. Unit {0}) IsKept (λ r. not (is_retracted r.status))
          (λ r _ h. ground (arith, h)) docs (All-unit docs) in
      pack_lem budget [] (ranked scores score query docs) (omega arith) (
        All-sort_by IsKept _ _ (
          All-filter_by IsKept IsKept (λ r. scores.is_positive (score query kept r)) (λ r h _. h)
            kept all_kept))
