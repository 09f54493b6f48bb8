-- ===== src/Tools/Matching.antt =====
-- Python's `fnmatch`, and the few operations on texts that the rules of tools use, on the code points of a text. A text is ASCII where
-- the case or the class of a character is asked for; names of files and tools are compared as on
-- POSIX.
pub mod Plain
use Prim.Native.Char.{code}
use Prim.Native.String.{String}
use chat_tree.Prelude.{
  ℕ, zero, suc, ◌+◌, Bool, true, false, not, ◌&&◌, ◌||◌, Option, none, some, List, [], ◌∷◌, ◌++◌,
  reverse, eqb, leb, ltb, length, if◌then◌else◌,
}

abbrev pub Codes : Type 0
Codes = List ℕ

abbrev pub codes : String → Codes
codes String.[] = []
codes (String.◌∷◌ c s) = code c ∷ codes s

-- Equality of texts.
unfoldable pub same : Codes → Codes → Bool
same [] [] = true
same [] (d ∷ t) = false
same (c ∷ s) [] = false
same (c ∷ s) (d ∷ t) = eqb c d && same s t

abbrev pub among : Codes → List String → Bool
among s [] = false
among s (w ∷ ws) = same s (codes w) || among s ws

-- s.lower()
abbrev pub lower_code : ℕ → ℕ
lower_code c = if leb b'A' c && leb c b'Z' then c + 32 else c

abbrev pub lower : Codes → Codes
lower [] = []
lower (c ∷ s) = lower_code c ∷ lower s

abbrev pub is_space : ℕ → Bool
is_space c = (leb 9 c && leb c 13) || (leb 28 c && leb c 32)

unfoldable pub skip_spaces : Codes → Codes
skip_spaces [] = []
skip_spaces (c ∷ s) = if is_space c then skip_spaces s else c ∷ s

-- s.strip()
unfoldable pub strip : Codes → Codes
unfolding skip_spaces
strip s = reverse (skip_spaces (reverse (skip_spaces s)))

-- What is left of the text after a prefix, if it has it.
unfoldable pub after_prefix : Codes → Codes → Option Codes
after_prefix [] s = some s
after_prefix (c ∷ p) [] = none
after_prefix (c ∷ p) (d ∷ s) = if eqb c d then after_prefix p s else none

-- s.split(separator, 1) where the separator occurs; `none` where it does not.
unfoldable pub split_once : Codes → Codes → Option (Codes × Codes)
unfolding after_prefix
split_once separator [] = none
split_once separator (c ∷ s) =
    let later = split_once separator s in
    elim (after_prefix separator (c ∷ s)) [
      | some rest ↦ some ([], rest)
      | none ↦ elim later [ none ↦ none | some (p, q) ↦ some (c ∷ p, q) ]
    ]

-- c in s
abbrev pub has_code : ℕ → Codes → Bool
has_code c [] = false
has_code c (d ∷ s) = eqb d c || has_code c s

-- A pattern of `fnmatch`, read into what its parts match; a set has ranges, and may be negated.
pub data Token : Type 0 where
  star any : Token
  literal : ℕ → Token
  one_of : Bool → List (ℕ × ℕ) → Token

-- The text up to the next `]`, and what follows it.
abbrev pub closed : Codes → Option (Codes × Codes)
closed [] = none
closed (c ∷ s) =
    let rest = closed s in
    if eqb c b']' then some ([], s) else elim rest [ none ↦ none | some (p, q) ↦ some (c ∷ p, q) ]

-- A `]` that comes first belongs to the set.
abbrev pub set_text : Codes → Option (Codes × Codes)
set_text [] = none
set_text (c ∷ s) = elim (closed s) [ none ↦ none | some (p, q) ↦ some (c ∷ p, q) ]

-- The ranges of a set: a character by itself, or `a-b` where something follows the dash.
abbrev pub ranges : Codes → List (ℕ × ℕ)
ranges [] = []
ranges (a ∷ []) = (a, a) ∷ []
ranges (a ∷ b ∷ []) = (a, a) ∷ (b, b) ∷ []
ranges (a ∷ b ∷ c ∷ s) =
    let apart = ranges (b ∷ c ∷ s) in
    let after = ranges s in if eqb b b'-' then (a, c) ∷ after else (a, a) ∷ apart

abbrev pub set_token : Codes → Option (Token × Codes)
set_token [] = none
set_token (c ∷ s) =
    if eqb c b'!'
    then elim (set_text s) [ none ↦ none | some (p, q) ↦ some (one_of true (ranges p), q) ]
    else elim (set_text (c ∷ s)) [ none ↦ none | some (p, q) ↦ some (one_of false (ranges p), q) ]

-- A `[` that nothing closes is a character.
unfoldable pub token : ℕ → Codes → Token × Codes
token c s =
    if eqb c b'*'
    then (star, s)
    else if eqb c b'?'
    then (any, s)
    else if eqb c b'['
    then elim (set_token s) [ none ↦ (literal c, s) | some t ↦ t ]
    else (literal c, s)

-- On fuel: every token takes a character of the pattern.
unfoldable pub tokens : ℕ → Codes → List Token
unfolding token
tokens fuel [] = []
tokens zero (c ∷ s) = []
tokens (suc fuel) (c ∷ s) = let (t, rest) = token c s in t ∷ tokens fuel rest

abbrev pub in_ranges : ℕ → List (ℕ × ℕ) → Bool
in_ranges c [] = false
in_ranges c ((a, b) ∷ rs) = (leb a c && leb c b) || in_ranges c rs

abbrev pub fits_token : Token → ℕ → Bool
fits_token star c = false
fits_token any c = true
fits_token (literal d) c = eqb c d
fits_token (one_of negated rs) c = if negated then not (in_ranges c rs) else in_ranges c rs

-- Whether some rest of the text passes a test.
abbrev pub some_rest : (Codes → Bool) → Codes → Bool
some_rest test [] = test []
some_rest test (c ∷ s) = test (c ∷ s) || some_rest test s

abbrev pub fits_one : Token → (Codes → Bool) → Codes → Bool
fits_one t test [] = false
fits_one t test (c ∷ s) = fits_token t c && test s

unfoldable pub fits_all : List Token → Codes → Bool
fits_all [] [] = true
fits_all [] (c ∷ s) = false
fits_all (star ∷ ts) s = some_rest (λ x. fits_all ts x) s
fits_all (any ∷ ts) s = fits_one any (λ x. fits_all ts x) s
fits_all (literal c ∷ ts) s = fits_one (literal c) (λ x. fits_all ts x) s
fits_all (one_of negated rs ∷ ts) s = fits_one (one_of negated rs) (λ x. fits_all ts x) s

-- fnmatch.fnmatch(name, pattern)
unfoldable pub fnmatch : Codes → Codes → Bool
unfolding tokens fits_all
fnmatch name pattern = fits_all (tokens (length pattern) pattern) name
