-- ===== src/Utils/Shell.antt =====
-- `shellEscape` of src/utils/shell.ts, and the words of a POSIX shell that it relies on: blanks between words, single
-- quotes, in which every character stands for itself, and double quotes. Any other character outside the
-- quotes, and a `$`, a backquote or a backslash between double quotes, is not read here.
use cli_model_gateway.Base.{
  ℕ, ◌≡◌, refl, ◌||◌, Option, none, some, [], ◌∷◌, ◌++◌, List, ◌==◌, ==_iff, if◌then◌else◌,
  Bool-cases, inl, inr, nat_eq, string_eq, append_assoc, append-nil,
}

-- `replace(/'/g, "'\"'\"'")`
unfoldable pub escape_quotes : List ℕ → List ℕ
escape_quotes [] = []
escape_quotes (c ∷ s) =
    if c == 39 then 39 ∷ 34 ∷ 39 ∷ 34 ∷ 39 ∷ escape_quotes s else c ∷ escape_quotes s

unfoldable pub shell_escape : List ℕ → List ℕ
unfolding escape_quotes
shell_escape [] = 39 ∷ 39 ∷ []
shell_escape (c ∷ s) = 39 ∷ (escape_quotes (c ∷ s) ++ 39 ∷ [])

-- Where the reader stands: before a word, in a word outside the quotes, or between quotes.
pub data Mode : Type 0 where
  start plain single double : Mode

abbrev also : ℕ → Option (List (List ℕ)) → Option (List (List ℕ))
also c none = none
also c (some []) = none
also c (some (w ∷ ws)) = some ((c ∷ w) ∷ ws)

abbrev next_word : Option (List (List ℕ)) → Option (List (List ℕ))
next_word none = none
next_word (some ws) = some ([] ∷ ws)

-- The words that a shell splits quoted text into, at blanks outside the quotes. A word begins at a quote:
-- nothing is no word, and a pair of quotes with nothing between them is the empty one.
unfoldable pub read_words : Mode → List ℕ → Option (List (List ℕ))
read_words start [] = some []
read_words start (c ∷ s) =
    let in_single = read_words single s in
    let in_double = read_words double s in
    let later = read_words start s in
    if c == 32 then later else if c == 39 then in_single else if c == 34 then in_double else none
read_words plain [] = some ([] ∷ [])
read_words plain (c ∷ s) =
    let in_single = read_words single s in
    let in_double = read_words double s in
    let later = read_words start s in
    if c == 32
    then next_word later
    else if c == 39
    then in_single
    else if c == 34
    then in_double
    else none
read_words single [] = none
read_words single (c ∷ s) =
    let outside = read_words plain s in
    let more = read_words single s in if c == 39 then outside else also c more
read_words double [] = none
read_words double (c ∷ s) =
    let outside = read_words plain s in
    let more = read_words double s in
    if c == 34 then outside else if c == 36 || c == 92 || c == 96 then none else also c more

-- The text stands before the first of the words.
abbrev before : List ℕ → Option (List (List ℕ)) → Option (List (List ℕ))
before [] m = m
before (c ∷ s) m = also c (before s m)

before-some : (s w : List ℕ) (ws : List (List ℕ)) → before s (some (w ∷ ws)) ≡ some ((s ++ w) ∷ ws)
before-some [] w ws = refl
before-some (c ∷ s) w ws = rw (before-some s w ws) refl

read_words-escape_quotes :
    (s rest : List ℕ)
    → read_words single (escape_quotes s ++ 39 ∷ rest) ≡ before s (read_words plain rest)
unfolding read_words escape_quotes
read_words-escape_quotes [] rest = refl
read_words-escape_quotes (c ∷ s) rest = elim (Bool-cases (c == 39)) [
  | inl y ↦ let same : c ≡ 39 = (==_iff c 39).0 y in rw (same, read_words-escape_quotes s rest) refl
  | inr n ↦ rw (n, n, read_words-escape_quotes s rest) refl
]

read_words-quoted :
    (s rest : List ℕ) → read_words start (shell_escape s ++ rest) ≡ before s (read_words plain rest)
unfolding read_words shell_escape
read_words-quoted [] rest = refl
read_words-quoted (c ∷ s) rest =
    rw (append_assoc (escape_quotes (c ∷ s)) (39 ∷ []) rest) (read_words-escape_quotes (c ∷ s) rest)

-- The arguments, each through `shellEscape`, with a blank between one and the next.
abbrev pub command_line : List (List ℕ) → List ℕ
command_line [] = []
command_line (a ∷ []) = shell_escape a
command_line (a ∷ b ∷ args) = shell_escape a ++ 32 ∷ command_line (b ∷ args)

-- A shell splits arguments that went through `shellEscape`, with a blank between one and the next, into
-- just these arguments: each is one word, the empty text too, and the word is the text.
pub read_words-shell_escape :
    (args : List (List ℕ)) → read_words start (command_line args) ≡ some args
unfolding read_words
read_words-shell_escape [] = refl
read_words-shell_escape (a ∷ []) =
    let one = read_words-quoted a [] in
    rw (← append-nil (shell_escape a)) (rw (one, before-some a [] [], append-nil a) refl)
read_words-shell_escape (a ∷ b ∷ args) =
    rw
      (
        read_words-quoted a (32 ∷ command_line (b ∷ args)),
        read_words-shell_escape (b ∷ args),
        before-some a [] (b ∷ args),
        append-nil a,
      )
      refl
