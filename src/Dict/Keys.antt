-- ===== src/Dict/Keys.antt =====
-- Keys of dictionaries: case splits on what a lookup finds after a change, and that the keys of
-- a dictionary are distinct.

use chat_tree.Prelude.{
  ◌∙◌, some-cancel, Bool, subst, ap, String, ◌≡◌, refl, sym, ◌≢◌, ◌⊎◌, inl, inr, ◌==◌, eq_iff,
  eq_refl, Bool-cases, none, some, [], ◌∷◌, arith, true, false, ne→eq_false, if◌then◌else◌, All,
}
use chat_tree.Dict.{Dict, get, insert, remove, get-insert, get-remove}

module _ {ℓ} {V : Type ℓ} where
  pub get-insert_self : (k : String) (v : V) (d : Dict V) → get k (insert k v d) ≡ some v
  get-insert_self k v d = simp (get-insert, eq_refl)

  pub get-insert_ne : (k j : String) (v : V) (d : Dict V) → j ≢ k → get j (insert k v d) ≡ get j d
  get-insert_ne k j v d h = rw get-insert (rw (ne→eq_false k j (λ e. h (sym e))) refl)

  pub get-insert_cases :
      (k j : String) (v w : V) (d : Dict V)
      → get j (insert k v d) ≡ some w
      → ((j ≡ k) × (w ≡ v)) ⊎ ((j ≢ k) × (get j d ≡ some w))
  get-insert_cases k j v w d h = elim (Bool-cases (k == j)) [
    | inl e ↦
        let h' : (if k == j then some v else get j d) ≡ some w = rw get-insert at h in
        inl (sym ((eq_iff k j).0 e), cc (rw e at h'))
    | inr n ↦
        let h' : (if k == j then some v else get j d) ≡ some w = rw get-insert at h in
        inr ((λ e. cc (n, (eq_iff k j).1 (sym e))), rw n at h')
  ]

  pub get-remove_cases :
      (k j : String) (w : V) (d : Dict V)
      → get j (remove k d) ≡ some w
      → (j ≢ k) × (get j d ≡ some w)
  get-remove_cases k j w d h = elim (Bool-cases (k == j)) [
    | inl e ↦
        let h' : (if k == j then none else get j d) ≡ some w = rw get-remove at h in
        absurd (cc (rw e at h'))
    | inr n ↦
        let h' : (if k == j then none else get j d) ≡ some w = rw get-remove at h in
        ((λ e. cc (n, (eq_iff k j).1 (sym e))), rw n at h')
  ]

  pub get-remove_ne : (k j : String) (d : Dict V) → j ≢ k → get j (remove k d) ≡ get j d
  get-remove_ne k j d h = rw get-remove (rw (ne→eq_false k j (λ e. h (sym e))) refl)

  pub get-remove_self : (k : String) (d : Dict V) → get k (remove k d) ≡ none
  get-remove_self k d = simp (get-remove, eq_refl)

  -- The keys are distinct, as those of a Python dictionary are.
  abbrev pub IsUnique : Dict V → Type ℓ
  IsUnique [] = Unit
  IsUnique ((k, v) ∷ d) = (get k d ≡ none) × IsUnique d

  pub insert-IsUnique : (k : String) (v : V) (d : Dict V) → IsUnique d → IsUnique (insert k v d)
  unfolding insert
  insert-IsUnique k v [] u = (unfold get in refl, tt)
  insert-IsUnique k v ((j, w) ∷ d) u = elim (Bool-cases (j == k)) [
    | inl e ↦ rw e u
    | inr n ↦
        rw n
          (rw get-insert (ground (arith, eq_iff j k, eq_iff k j, u.0)), insert-IsUnique k v d u.1)
  ]

  get-remove_absent : (k j : String) (d : Dict V) → get j d ≡ none → get j (remove k d) ≡ none
  get-remove_absent k j d h = rw get-remove (ground arith)

  keep-IsUnique :
      (b : Bool) (j : String) (w : V) (rest : Dict V)
      → get j rest ≡ none
      → IsUnique rest
      → IsUnique (if b then rest else (j, w) ∷ rest)
  keep-IsUnique true j w rest n u = u
  keep-IsUnique false j w rest n u = (n, u)

  pub remove-IsUnique : (k : String) (d : Dict V) → IsUnique d → IsUnique (remove k d)
  unfolding remove
  remove-IsUnique k [] u = u
  remove-IsUnique k ((j, w) ∷ d) u =
      keep-IsUnique (j == k) j w (remove k d) (get-remove_absent k j d u.0)
        (remove-IsUnique k d u.1)

  -- What holds of every value that a lookup finds.
  pub All-get {κ} :
      (P : V → Type κ) (k : String) (d : Dict V) {v : V}
      → All (λ e. P e.1) d
      → get k d ≡ some v
      → P v
  unfolding get
  All-get P k [] a h = absurd (cc h)
  All-get P k ((j, w) ∷ d) a h = elim (Bool-cases (j == k)) [
    | inl e ↦ subst P (some-cancel (rw e at h)) a.0
    | inr n ↦ All-get P k d a.1 (rw n at h)
  ]

  -- Conversely, over distinct keys.
  pub All_of_get {κ} :
      (P : String × V → Type κ) (d : Dict V)
      → IsUnique d
      → ((k : String) (v : V) → get k d ≡ some v → P (k, v))
      → All P d
  unfolding get
  All_of_get P [] u h = tt
  All_of_get P ((k, v) ∷ d) u h = (
    h k v (rw eq_refl),
    All_of_get P d u.1
        (λ j w e. h j w (rw (ne→eq_false k j (λ p. cc (u.0, e, ap (λ i. get i d) p))) e)),
  )

-- Assigning to a key that is there adds none.
pub get-insert_absent {ℓ} :
    {V : Type ℓ} (t k : String) (v : V) (d : Dict V) {w : V}
    → get t d ≡ some w
    → get k d ≡ none
    → get k (insert t v d) ≡ none
get-insert_absent t k v d there absent =
    get-insert_ne t k v d (λ p. cc (there, absent, ap (λ x. get x d) p)) ∙ absent
