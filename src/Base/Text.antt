-- ===== src/Base/Text.antt =====
-- Text that the program walks: a list of code units.
use Prim.Native.Nat.{ℕ, ◌+◌}
use Prim.Native.Char.{code}
use Prim.Native.String.{String}
use mathlib.Core.Bool.{Bool, true, false, ◌&&◌, ◌||◌}
use mathlib.Core.Path.{◌≡◌, refl}
use mathlib.Core.List.{List, [], ◌∷◌, ◌++◌}
use native.Mathlib.Omega.{arith}
use cli_model_gateway.Base.Tests.{◌==◌, nat_eq, leb, if◌then◌else◌}

abbrev pub codes : String → List ℕ
codes String.[] = []
codes (String.◌∷◌ c s) = code c ∷ codes s

abbrev pub between : ℕ → ℕ → ℕ → Bool
between lo hi c = leb lo c && leb c hi

abbrev pub is_upper : ℕ → Bool
is_upper c = between b'A' b'Z' c

abbrev pub is_lower : ℕ → Bool
is_lower c = between b'a' b'z' c

abbrev pub is_digit : ℕ → Bool
is_digit c = between b'0' b'9' c

-- A test of a text that only asks for a beginning, so that a longer text passes too.
abbrev pub Extends : (List ℕ → Bool) → Type 0
Extends p = (s t : List ℕ) → p s ≡ true → p (s ++ t) ≡ true

unfoldable pub starts : List ℕ → List ℕ → Bool
starts [] s = true
starts (c ∷ lit) [] = false
starts (c ∷ lit) (d ∷ s) = c == d && starts lit s

pub starts-Extends : (lit : List ℕ) → Extends (starts lit)
unfolding starts
starts-Extends [] s t h = refl
starts-Extends (c ∷ lit) [] t h = absurd (ground arith)
starts-Extends (c ∷ lit) (d ∷ s) t h = ground (arith, starts-Extends lit s t)

-- `pattern.test(text)`: the pattern matches at some place.
unfoldable pub anywhere : (List ℕ → Bool) → List ℕ → Bool
anywhere p [] = p []
anywhere p (c ∷ s) = p (c ∷ s) || anywhere p s

pub anywhere-append_left :
    (p : List ℕ → Bool) (s t : List ℕ) → anywhere p t ≡ true → anywhere p (s ++ t) ≡ true
unfolding anywhere
anywhere-append_left p [] t h = h
anywhere-append_left p (c ∷ s) t h = ground (arith, anywhere-append_left p s t h)

pub anywhere-Extends : (p : List ℕ → Bool) → Extends p → Extends (anywhere p)
unfolding anywhere
anywhere-Extends p e [] [] h = h
anywhere-Extends p e [] (c ∷ t) h = ground (arith, e [] (c ∷ t))
anywhere-Extends p e (c ∷ s) t h = ground (arith, e (c ∷ s) t, anywhere-Extends p e s t)

-- `\s`
abbrev pub is_space : ℕ → Bool
is_space c =
    between 9 13 c
    || c == 32
    || c == 160
    || c == 5760
    || between 8192 8202 c
    || c == 8232
    || c == 8233
    || c == 8239
    || c == 8287
    || c == 12288
    || c == 65279

abbrev pub drop_spaces : List ℕ → List ℕ
drop_spaces [] = []
drop_spaces (c ∷ s) = let rest = drop_spaces s in if is_space c then rest else c ∷ s

abbrev pub end_with : ℕ → List ℕ → List ℕ
end_with c [] = if is_space c then [] else c ∷ []
end_with c (d ∷ s) = c ∷ d ∷ s

abbrev pub trim_end : List ℕ → List ℕ
trim_end [] = []
trim_end (c ∷ s) = end_with c (trim_end s)

-- `trim()`
abbrev pub trim : List ℕ → List ℕ
trim s = drop_spaces (trim_end s)

-- `toLowerCase()`, as far as it gives ASCII letters: a Kelvin sign is a k, and a dotted capital I is an
-- i and a combining dot.
abbrev pub lower_code : ℕ → List ℕ
lower_code c =
    if is_upper c
    then (c + 32) ∷ []
    else if c == 8490
    then 107 ∷ []
    else if c == 304
    then 105 ∷ 775 ∷ []
    else c ∷ []

abbrev pub lower_text : List ℕ → List ℕ
lower_text [] = []
lower_text (c ∷ s) = lower_code c ++ lower_text s

-- `includes` of a text that is not empty.
abbrev pub includes : List ℕ → List ℕ → Bool
includes needle text = anywhere (starts needle) text
