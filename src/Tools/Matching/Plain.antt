-- ===== src/Tools/Matching/Plain.antt =====
-- Patterns of `fnmatch` without wildcards match themselves only.
use chat_tree.Prelude.{
  ℕ, ◌≡◌, refl, ap, Bool, true, ◌&&◌, ◌||◌, not, [], ◌∷◌, eqb, length, arith, All,
}
use chat_tree.Tools.Matching.{Codes, same, literal, token, tokens, fits_all, fnmatch}

abbrev pub is_plain : ℕ → Bool
is_plain c = not (eqb c b'*' || eqb c b'?' || eqb c b'[')

abbrev pub IsPlain : Codes → Type 0
IsPlain pattern = All (λ c. is_plain c ≡ true) pattern

token_plain : (c : ℕ) (s : Codes) → is_plain c ≡ true → token c s ≡ (literal c, s)
unfolding token
token_plain c s h = ground arith

fits_plain :
    (pattern name : Codes)
    → IsPlain pattern
    → fits_all (tokens (length pattern) pattern) name ≡ same name pattern
unfolding fits_all tokens same
fits_plain [] [] h = refl
fits_plain [] (d ∷ name) h = refl
fits_plain (c ∷ pattern) [] h = rw (token_plain c pattern h.0) refl
fits_plain (c ∷ pattern) (d ∷ name) h =
    rw (token_plain c pattern h.0) (ap (λ b. eqb d c && b) (fits_plain pattern name h.1))

-- A pattern in which no `*`, `?` or `[` occurs matches the text that it is, and no other.
pub fnmatch_plain :
    (name pattern : Codes) → IsPlain pattern → fnmatch name pattern ≡ same name pattern
unfolding fnmatch
fnmatch_plain name pattern h = fits_plain pattern name h
