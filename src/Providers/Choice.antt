-- ===== src/Providers/Choice.antt =====
-- The evaluator of answers that src/providers/registry.ts chooses.

use cli_model_gateway.Base.{
  suc, ◌≡◌, refl, sym, String, Bool, true, false, not, ◌&&◌, Option, none, some, [], ◌∷◌, List,
  arith, ◌!=◌, Table, values, get, Bool-cases, inl, inr, ◌⊎◌, nat_eq, string_eq, length, filter,
  All,
}
use cli_model_gateway.Providers.Bindings.{ModelBinding}
use cli_model_gateway.Providers.Auto.{
  insert_by, sort_by, Evaluator, evaluator, no_evaluator, not_configured, is_manual, is_tested,
  not_chat, can_evaluate, select_evaluator, preferred, first_of,
}
use cli_model_gateway.Providers.Registered.{All-filter_by, All-sort_by}

length-insert_by :
    {A : Type 0} (precedes : A → A → Bool) (x : A) (xs : List A)
    → length (insert_by precedes x xs) ≡ suc (length xs)
unfolding insert_by
length-insert_by precedes x [] = refl
length-insert_by precedes x (y ∷ ys) = ground (arith, length-insert_by precedes x ys)

length-sort_by :
    {A : Type 0} (precedes : A → A → Bool) (xs : List A) → length (sort_by precedes xs) ≡ length xs
unfolding sort_by
length-sort_by precedes [] = refl
length-sort_by precedes (x ∷ xs) =
    omega (arith, length-insert_by precedes x (sort_by precedes xs), length-sort_by precedes xs)

pub All-unit : {A : Type 0} (xs : List A) → All (λ x. Unit {0}) xs
All-unit [] = tt
All-unit (x ∷ xs) = (tt, All-unit xs)

-- A model that may judge the answers of another.
abbrev pub may_judge : (tested : String) → ModelBinding → Bool
may_judge tested b = not b.manual_only && b.model_id != tested && can_evaluate b

-- For a model that was named: it is the one that is found, or it is refused for a reason.
abbrev pub IsEvaluatorOf : (tested : String) → Option ModelBinding → Evaluator → Type 0
IsEvaluatorOf tested none e = e ≡ not_configured
IsEvaluatorOf tested (some b) e =
    ((may_judge tested b ≡ true) × (e ≡ evaluator b))
    ⊎ ((may_judge tested b ≡ false) × ((e ≡ is_manual) ⊎ (e ≡ is_tested) ⊎ (e ≡ not_chat)))

-- For no named model: one that may judge is found, or none may.
abbrev pub IsEvaluatorAmong : (tested : String) → List ModelBinding → Evaluator → Type 0
IsEvaluatorAmong tested bs (evaluator b) = may_judge tested b ≡ true
IsEvaluatorAmong tested bs no_evaluator = All (λ b. may_judge tested b ≡ false) bs
IsEvaluatorAmong tested bs _ = ⊥

abbrev pub IsEvaluator :
    (tested : String) → Table String ModelBinding → Option String → Evaluator → Type 0
IsEvaluator tested models none e = IsEvaluatorAmong tested (values models) e
IsEvaluator tested models (some id) e = IsEvaluatorOf tested (get id models) e

All-filter_nil :
    {A : Type 0} (p : A → Bool) (xs : List A) → length (filter p xs) ≡ 0 → All (λ x. p x ≡ false) xs
All-filter_nil p [] h = tt
All-filter_nil p (x ∷ xs) h = elim (Bool-cases (p x)) [
  | inl y ↦ absurd (ground (arith, y, h))
  | inr n ↦ (n, All-filter_nil p xs (ground (arith, n, h)))
]

module _ (evaluates_before : ModelBinding → ModelBinding → Bool) where
  -- The evaluator that is chosen is not manual-only, is not the model under test and can give a judgement;
  -- when none is named and none is found then no model may judge, and a named model is refused only if
  -- it is not registered or may not judge.
  pub select_evaluator-IsEvaluator :
      (id : Option String) (tested : String) (models : Table String ModelBinding)
      → IsEvaluator tested models id (select_evaluator evaluates_before id tested models)
  unfolding select_evaluator
  select_evaluator-IsEvaluator none tested models =
      go (sort_by evaluates_before (filter (may_judge tested) (values models)))
        (All-sort_by (λ b. may_judge tested b ≡ true) evaluates_before _
          (All-filter_by (λ b. Unit {0}) (λ b. may_judge tested b ≡ true) (may_judge tested)
            (λ b _ h. h) (values models) (All-unit (values models))))
        (length-sort_by evaluates_before (filter (may_judge tested) (values models)))
    where
      go :
          (bs : List ModelBinding)
          → All (λ b. may_judge tested b ≡ true) bs
          → length bs ≡ length (filter (may_judge tested) (values models))
          → IsEvaluator tested models none (first_of bs)
      go [] a n = All-filter_nil (may_judge tested) (values models) (sym n)
      go (b ∷ bs) a n = a.0
  select_evaluator-IsEvaluator (some id) tested models = go (get id models)
    where
      go : (o : Option ModelBinding) → IsEvaluatorOf tested o (preferred tested o)
      go none = refl
      go (some b) = ground arith
