-- ===== src/Utils/OutputLimit.antt =====
-- `readOutputLimit` of src/utils/output-limit.ts and the limits that follow from it. A value of the metadata
-- is a natural number or something else; a number above 2^53 - 1 is not a safe integer.
use cli_model_gateway.Base.{
  ℕ, ◌<◌, ◌≤◌, min, ◌≡◌, refl, ap, subst, Bool, true, false, ◌&&◌, Option, none, some, [], ◌∷◌,
  List, arith, leb, ltb, ◌!=◌, ==_iff, if◌then◌else◌, Bool-cases, inl, inr, ◌⊎◌, nat_eq, string_eq,
  All,
}

pub data Value : Type 0 where
  number : ℕ → Value
  other : Value

-- The values under the aliases, in their order; `none` stands for `undefined`.
pub record Metadata : Type 0 where
  pub max_tokens : Option Value
  pub max_completion_tokens : Option Value
  pub max_output_tokens : Option Value

abbrev pub aliases : Metadata → List (Option Value)
aliases m = m.max_tokens ∷ m.max_completion_tokens ∷ m.max_output_tokens ∷ []

pub data Limit : Type 0 where
  limit : Option ℕ → Limit
  not_positive conflicting : Limit

abbrev pub max_safe : ℕ
max_safe = 9007199254740991

abbrev pub is_positive : ℕ → Bool
is_positive n = ltb 0 n && leb n max_safe

-- `limit !== undefined && limit !== value`
abbrev clashes : Option ℕ → ℕ → Bool
clashes none n = false
clashes (some m) n = m != n

-- The loop over the aliases with the limit found so far.
unfoldable pub read_from : Option ℕ → List (Option Value) → Limit
read_from found [] = limit found
read_from found (none ∷ vs) = read_from found vs
read_from found (some other ∷ vs) = not_positive
read_from found (some (number n) ∷ vs) =
    let rest = read_from (some n) vs in
    if is_positive n then (if clashes found n then conflicting else rest) else not_positive

unfoldable pub read_output_limit : Option Metadata → Limit
unfolding read_from
read_output_limit none = limit none
read_output_limit (some m) = read_from none (aliases m)

-- The field of the chat request that `copyChatOutputLimit` sets.
pub data Field : Type 0 where
  in_max_tokens in_max_completion_tokens : Field

abbrev pub field_for : Option Value → Field
field_for none = in_max_tokens
field_for (some v) = in_max_completion_tokens

-- What `copyChatOutputLimit` writes, if it writes and does not throw.
unfoldable pub copy_chat_output_limit : Option Metadata → Limit × Option (Field × ℕ)
unfolding read_output_limit
copy_chat_output_limit none = (limit none, none)
copy_chat_output_limit (some m) = (
  read_output_limit (some m),
  elim (read_output_limit (some m)) [
    | limit (some n) ↦ some (field_for m.max_completion_tokens, n)
    | _ ↦ none
  ],
)

-- A variable of the inherited environment as a safe positive number, or `none`.
abbrev pub capped : ℕ → Option ℕ → ℕ
capped n none = n
capped n (some c) = if is_positive c then min n c else n

-- What `kimiOutputEnvironment` sets for the first of the two variables that it reads.
unfoldable pub kimi_limit : ℕ → (completion tokens : Option ℕ) → ℕ
kimi_limit requested completion tokens = capped (capped requested completion) tokens

-- Every value that is given is `n`.
abbrev pub Agrees : ℕ → List (Option Value) → Type 0
Agrees n vs = All (λ v. (v ≡ none) ⊎ (v ≡ some (number n))) vs

clashes-none :
    (found : Option ℕ) (n : ℕ) → clashes found n ≡ false → (found ≡ none) ⊎ (found ≡ some n)
clashes-none none n h = inl refl
clashes-none (some m) n h = inr (ap some ((==_iff m n).0 (ground arith)))

read_from-some :
    (found : Option ℕ) (vs : List (Option Value)) (n : ℕ)
    → ((m : ℕ) → found ≡ some m → is_positive m ≡ true)
    → read_from found vs ≡ limit (some n)
    → ((found ≡ none) ⊎ (found ≡ some n)) × Agrees n vs × (is_positive n ≡ true)
unfolding read_from
read_from-some found [] n p h = let same : found ≡ some n = cc in (inr same, tt, p n same)
read_from-some found (none ∷ vs) n p h =
    let (a, b, c) = read_from-some found vs n p h in (a, (inl refl, b), c)
read_from-some found (some other ∷ vs) n p h = absurd (cc)
read_from-some found (some (number k) ∷ vs) n p h = elim (Bool-cases (is_positive k)) [
  | inr bad ↦ absurd (ground arith)
  | inl y ↦ elim (Bool-cases (clashes found k)) [
    | inl bad ↦ absurd (ground arith)
    | inr calm ↦
        let (a, b, c) =
          read_from-some (some k) vs n
            (λ m e. let same : k ≡ m = cc in subst (λ x. is_positive x ≡ true) same y)
            (rw (y, calm) at h) in
        let same = only k n a in
        (
          subst (λ x. (found ≡ none) ⊎ (found ≡ some x)) same (clashes-none found k calm),
          (inr (ap (λ x. some (number x)) same), b),
          c,
        )
  ]
]
  where
    only : (k n : ℕ) → (some k ≡ none) ⊎ (some k ≡ some n) → k ≡ n
    only k n (inl e) = absurd (cc)
    only k n (inr e) = cc

-- If a limit is found, it is a positive safe integer, and every alias that is given gives it.
pub read_output_limit-Agrees :
    (m : Metadata) (n : ℕ)
    → read_output_limit (some m) ≡ limit (some n)
    → Agrees n (aliases m) × (0 < n) × (n ≤ max_safe)
unfolding read_output_limit
read_output_limit-Agrees m n h =
    let (_, a, p) = read_from-some none (aliases m) n (λ k e. absurd (cc)) h in
    (a, ground arith, ground arith)

-- The limit for the child process is the least of the limit asked for and those of the environment
-- that are positive safe integers.
pub kimi_limit_lem :
    (n a b : ℕ)
    → is_positive a ≡ true
    → is_positive b ≡ true
    → (kimi_limit n (some a) (some b) ≡ min (min n a) b)
      × (kimi_limit n none (some b) ≡ min n b)
      × (kimi_limit n (some a) none ≡ min n a)
      × (kimi_limit n none none ≡ n)
unfolding kimi_limit
kimi_limit_lem n a b p q = (rw (p, q) refl, rw q refl, rw p refl, refl)
