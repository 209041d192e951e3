-- ===== src/Checker/Secrets.antt =====
-- `hasSecret` of src/agent/checker/checker.ts: each regular expression is a matcher at a place of the
-- text. The patterns need no backtracking but the last, whose possible ends are all tried.
use cli_model_gateway.Base.{
  ℕ, zero, suc, ◌≡◌, refl, Bool, true, false, ◌&&◌, ◌||◌, [], ◌∷◌, ◌++◌, List, arith, ◌==◌,
  if◌then◌else◌, Bool-cases, inl, inr, nat_eq, string_eq, any, codes, is_upper, is_lower, is_digit,
  Extends, starts, starts-Extends, anywhere, anywhere-append_left, anywhere-Extends, All,
}

-- `[A-Za-z0-9]`
abbrev is_alnum : ℕ → Bool
is_alnum c = is_upper c || is_lower c || is_digit c

-- `[A-Za-z0-9_-]`
abbrev is_token : ℕ → Bool
is_token c = is_alnum c || c == b'_' || c == b'-'

-- `[A-Z0-9]`
abbrev is_key_char : ℕ → Bool
is_key_char c = is_upper c || is_digit c

-- `[A-Z ]`
abbrev is_label : ℕ → Bool
is_label c = is_upper c || c == b' '

-- At least `n` characters of a class.
run_of : (ℕ → Bool) → ℕ → List ℕ → Bool
run_of cls zero s = true
run_of cls (suc n) [] = false
run_of cls (suc n) (c ∷ s) = cls c && run_of cls n s

-- A literal, then at least `n` characters of a class.
literal_run : List ℕ → (ℕ → Bool) → ℕ → List ℕ → Bool
literal_run [] cls n s = run_of cls n s
literal_run (c ∷ lit) cls n [] = false
literal_run (c ∷ lit) cls n (d ∷ s) = c == d && literal_run lit cls n s

-- A literal, then what `next` accepts.
literal_then : List ℕ → (List ℕ → Bool) → List ℕ → Bool
literal_then [] next s = next s
literal_then (c ∷ lit) next [] = false
literal_then (c ∷ lit) next (d ∷ s) = c == d && literal_then lit next s

-- `[A-Za-z0-9_-]+\.`, then what `next` accepts. The class has no dot.
segment : Bool → (List ℕ → Bool) → List ℕ → Bool
segment seen next [] = false
segment seen next (c ∷ s) =
    if is_token c then segment true next s else (seen && c == b'.' && next s)

-- `(?:[A-Z ]+ )?PRIVATE KEY-----` after its beginning: `ready` says that the part read may end the
-- optional group.
private_key : (many ready : Bool) → List ℕ → Bool
private_key many ready [] = false
private_key many ready (c ∷ s) =
    (ready && starts (codes "PRIVATE KEY-----") (c ∷ s))
    || (is_label c && private_key true (many && c == b' ') s)

-- The patterns in the order of the source; `gh[po]_` is written as its two prefixes.
patterns : List (List ℕ → Bool)
unfolding run_of literal_run literal_then segment private_key
patterns =
    literal_run (codes "AGE-SECRET-KEY-") is_key_char 1
    ∷ literal_run (codes "sk-") is_token 16
    ∷ literal_run (codes "sk_live_") is_alnum 1
    ∷ literal_run (codes "gho_") is_alnum 16
    ∷ literal_run (codes "ghp_") is_alnum 16
    ∷ literal_run (codes "npm_") is_alnum 16
    ∷ literal_then (codes "eyJ")
        (segment false (literal_then (codes "eyJ") (segment false (run_of is_token 1))))
    ∷ literal_then (codes "-----BEGIN ") (private_key false true)
    ∷ []

unfoldable pub has_secret : List ℕ → Bool
unfolding patterns
has_secret text = any (λ p. anywhere p text) patterns

run_of-Extends : (cls : ℕ → Bool) (n : ℕ) → Extends (run_of cls n)
unfolding run_of
run_of-Extends cls zero s t h = refl
run_of-Extends cls (suc n) [] t h = absurd (ground arith)
run_of-Extends cls (suc n) (c ∷ s) t h = ground (arith, run_of-Extends cls n s t)

literal_run-Extends : (lit : List ℕ) (cls : ℕ → Bool) (n : ℕ) → Extends (literal_run lit cls n)
unfolding literal_run
literal_run-Extends [] cls n s t h = run_of-Extends cls n s t h
literal_run-Extends (c ∷ lit) cls n [] t h = absurd (ground arith)
literal_run-Extends (c ∷ lit) cls n (d ∷ s) t h = ground (arith, literal_run-Extends lit cls n s t)

literal_then-Extends :
    (lit : List ℕ) (next : List ℕ → Bool) → Extends next → Extends (literal_then lit next)
unfolding literal_then
literal_then-Extends [] next e s t h = e s t h
literal_then-Extends (c ∷ lit) next e [] t h = absurd (ground arith)
literal_then-Extends (c ∷ lit) next e (d ∷ s) t h =
    ground (arith, literal_then-Extends lit next e s t)

segment-Extends : (seen : Bool) (next : List ℕ → Bool) → Extends next → Extends (segment seen next)
unfolding segment
segment-Extends seen next e [] t h = absurd (ground arith)
segment-Extends seen next e (c ∷ s) t h = elim (Bool-cases (is_token c)) [
  | inl y ↦ rw y (segment-Extends true next e s t (rw y at h))
  | inr n ↦ rw n (ground (arith, e s t))
]

or_mono :
    (a b a' b' : Bool)
    → (a ≡ true → a' ≡ true)
    → (b ≡ true → b' ≡ true)
    → (a || b) ≡ true
    → (a' || b') ≡ true
or_mono true b a' b' f g h = rw (f refl)
or_mono false b true b' f g h = refl
or_mono false b false b' f g h = g h

and_mono : (a b b' : Bool) → (b ≡ true → b' ≡ true) → (a && b) ≡ true → (a && b') ≡ true
and_mono true b b' g h = g h
and_mono false b b' g h = h

private_key-Extends : (many ready : Bool) → Extends (private_key many ready)
unfolding private_key
private_key-Extends many ready [] t h = absurd (ground arith)
private_key-Extends many ready (c ∷ s) t h =
    or_mono _ _ _ _
      (λ e. and_mono ready _ _ (starts-Extends (codes "PRIVATE KEY-----") (c ∷ s) t) e)
      (λ e. and_mono (is_label c) _ _ (private_key-Extends true (many && c == b' ') s t) e) h

patterns-Extends : All Extends patterns
unfolding patterns
patterns-Extends = (
  literal_run-Extends (codes "AGE-SECRET-KEY-") is_key_char 1,
  (
    literal_run-Extends (codes "sk-") is_token 16,
    (
      literal_run-Extends (codes "sk_live_") is_alnum 1,
      (
        literal_run-Extends (codes "gho_") is_alnum 16,
        (
          literal_run-Extends (codes "ghp_") is_alnum 16,
          (
            literal_run-Extends (codes "npm_") is_alnum 16,
            (
              literal_then-Extends (codes "eyJ")
                  (segment false (literal_then (codes "eyJ") (segment false (run_of is_token 1))))
                  (segment-Extends false
                    (literal_then (codes "eyJ") (segment false (run_of is_token 1)))
                    (literal_then-Extends (codes "eyJ") (segment false (run_of is_token 1))
                      (segment-Extends false (run_of is_token 1) (run_of-Extends is_token 1)))),
              (
                literal_then-Extends (codes "-----BEGIN ") (private_key false true)
                    (private_key-Extends false true),
                tt,
              ),
            ),
          ),
        ),
      ),
    ),
  ),
)

any-append :
    (ps : List (List ℕ → Bool)) (before text rest : List ℕ)
    → All Extends ps
    → any (λ p. anywhere p text) ps ≡ true
    → any (λ p. anywhere p (before ++ (text ++ rest))) ps ≡ true
any-append [] before text rest e h = h
any-append (p ∷ ps) before text rest (e, es) h =
    or_mono _ _ _ _
      (λ y. anywhere-append_left p before (text ++ rest) (anywhere-Extends p e text rest y))
      (any-append ps before text rest es) h

-- A text with a secret in it has one, whatever stands before and after it.
pub has_secret-append :
    (before text rest : List ℕ)
    → has_secret text ≡ true
    → has_secret (before ++ (text ++ rest)) ≡ true
unfolding has_secret
has_secret-append before text rest h = any-append patterns before text rest patterns-Extends h
