-- ===== src/Checker/Commands.antt =====
-- `policyViolation` of src/agent/checker/checker.ts: commands that an added line of a diff must not
-- have. Letters are compared without their case. All the words begin and end in a letter, so a word
-- boundary asks for a character outside `[A-Za-z0-9_]`, or none, on the other side.
use cli_model_gateway.Base.{
  is_space, ℕ, ◌+◌, Bool, true, false, not, ◌&&◌, ◌||◌, [], ◌∷◌, List, ◌==◌, if◌then◌else◌, nat_eq,
  string_eq, any, codes, is_upper, is_lower, is_digit, starts,
}

-- `/i` on ASCII letters
abbrev lower : ℕ → ℕ
lower c = if is_upper c then c + 32 else c

-- `\w`
abbrev is_word : ℕ → Bool
is_word c = is_upper c || is_lower c || is_digit c || c == b'_'

-- The word boundary after the last letter.
abbrev word_end : List ℕ → Bool
word_end [] = true
word_end (c ∷ s) = not (is_word c)

-- A word in small letters, then what `next` accepts.
unfoldable word_then : List ℕ → (List ℕ → Bool) → List ℕ → Bool
word_then [] next s = next s
word_then (c ∷ w) next [] = false
word_then (c ∷ w) next (d ∷ s) = c == lower d && word_then w next s

-- `\s+`, then what `next` accepts; no word begins with a space.
unfoldable spaces_then : Bool → (List ℕ → Bool) → List ℕ → Bool
spaces_then seen next [] = false
spaces_then seen next (c ∷ s) = if is_space c then spaces_then true next s else seen && next (c ∷ s)

unfoldable command : List (List ℕ) → List ℕ → Bool
unfolding word_then spaces_then
command [] s = word_end s
command (w ∷ []) s = word_then w word_end s
command (w ∷ v ∷ ws) s = word_then w (spaces_then false (command (v ∷ ws))) s

-- The alternatives in the order of the source; `upgrade|install` is written as two.
unfoldable commands : List (List (List ℕ))
commands =
    (codes "gh" ∷ codes "pr" ∷ codes "merge" ∷ [])
    ∷ (codes "git" ∷ codes "merge" ∷ [])
    ∷ (codes "kubectl" ∷ codes "apply" ∷ [])
    ∷ (codes "helm" ∷ codes "upgrade" ∷ [])
    ∷ (codes "helm" ∷ codes "install" ∷ [])
    ∷ (codes "terraform" ∷ codes "apply" ∷ [])
    ∷ (codes "deploy" ∷ [])
    ∷ (codes "dns" ∷ [])
    ∷ []

-- The pattern at some place; `after_word` says that a word character stands before.
unfoldable pub has_command : (after_word : Bool) → List ℕ → Bool
unfolding command commands
has_command after_word [] = false
has_command after_word (c ∷ s) =
    (not after_word && any (λ ws. command ws (c ∷ s)) commands) || has_command (is_word c) s

abbrev push : ℕ → List (List ℕ) → List (List ℕ)
push c [] = (c ∷ []) ∷ []
push c (l ∷ ls) = (c ∷ l) ∷ ls

-- `split(/\r?\n/)`
unfoldable pub split_lines : List ℕ → List (List ℕ)
unfolding starts
split_lines [] = [] ∷ []
split_lines (c ∷ s) =
    let rest = split_lines s in
    if c == 10 then [] ∷ rest else if c == 13 && starts (10 ∷ []) s then rest else push c rest

unfoldable pub is_added : List ℕ → Bool
unfolding starts
is_added line = starts (codes "+") line && not (starts (codes "+++") line)

unfoldable pub policy_violation : List ℕ → Bool
unfolding split_lines is_added has_command
policy_violation diff = any (λ line. is_added line && has_command false line) (split_lines diff)
