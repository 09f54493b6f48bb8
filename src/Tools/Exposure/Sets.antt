-- ===== src/Tools/Exposure/Sets.antt =====
-- The sets of names of backend/core/tools/exposure.py by their members.
use chat_tree.Prelude.{
  String, ◌≡◌, refl, ◌∙◌, ◌==◌, eq_iff, Bool, true, false, ◌&&◌, ◌||◌, List, [], ◌∷◌, ◌++◌, arith,
  Bool-cases, inl, inr, subst,
}
use chat_tree.Chat.Conversation.{contains}
use chat_tree.Tools.Exposure.{kept}

pub contains-kept :
    (x : String) (keep : String → Bool) (xs : List String)
    → contains x (kept keep xs) ≡ (contains x xs && keep x)
unfolding kept
contains-kept x keep [] = refl
contains-kept x keep (y ∷ xs) = elim (Bool-cases (y == x)) [
  | inl e ↦
      let same : y ≡ x = (eq_iff y x).0 e in
      elim (Bool-cases (keep y)) [
        | inl k ↦
            let there : keep x ≡ true = subst (λ z. keep z ≡ true) same k in rw (k, e, there) refl
        | inr k ↦
            let gone : keep x ≡ false = subst (λ z. keep z ≡ false) same k in
            rw (k, e, gone) (contains-kept x keep xs ∙ rw gone (ground arith))
      ]
  | inr e ↦ elim (Bool-cases (keep y)) [
    | inl k ↦ rw (k, e) (contains-kept x keep xs)
    | inr k ↦ rw (k, e) (contains-kept x keep xs)
  ]
]

pub contains-append :
    (x : String) (xs ys : List String) → contains x (xs ++ ys) ≡ (contains x xs || contains x ys)
contains-append x [] ys = refl
contains-append x (y ∷ xs) ys = ground (arith, contains-append x xs ys)
