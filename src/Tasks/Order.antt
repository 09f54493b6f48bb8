-- ===== src/Tasks/Order.antt =====
-- That the steps of backend/core/persistence/task_repository.py are completed in their order.
use chat_tree.Prelude.{
  ℕ, ◌≡◌, refl, sym, ap, ◌∙◌, true, false, not, ◌&&◌, ◌||◌, some, List, [], ◌∷◌, ltb, eqb, arith,
  ◌⊎◌, inl, inr, Bool-cases, some-cancel,
}
use chat_tree.Tasks.Types.{Step}
use chat_tree.Tasks.Steps.{is_completed, find_step, previous_completed, update_step}

-- Before a completed step all steps are completed.
abbrev pub IsOrdered : List Step → Type 0
IsOrdered xs =
    (p : ℕ) (x : Step)
    → find_step p xs ≡ some x
    → is_completed x ≡ true
    → previous_completed p xs ≡ true

-- A change that leaves the position of a step.
abbrev pub KeepsPosition : (Step → Step) → Type 0
KeepsPosition change = (x : Step) → (change x).position ≡ x.position

-- A change that leaves a completed step completed.
abbrev pub KeepsCompleted : (Step → Step) → Type 0
KeepsCompleted change = (x : Step) → is_completed x ≡ true → is_completed (change x) ≡ true

previous-find :
    (p q : ℕ) (xs : List Step) {current : Step}
    → previous_completed p xs ≡ true
    → ltb q p ≡ true
    → find_step q xs ≡ some current
    → is_completed current ≡ true
unfolding previous_completed find_step
previous-find p q [] a h f = absurd (cc f)
previous-find p q (x ∷ xs) {current} a h f = elim (Bool-cases (eqb x.position q)) [
  | inl e ↦
      let same : x ≡ current = some-cancel (rw e at f) in
      let early : ltb x.position p ≡ true = ground arith in
      ap is_completed (sym same) ∙ ground arith
  | inr e ↦ previous-find p q xs (ground arith) h (rw e at f)
]

pub find-update_ne :
    (p q : ℕ) (change : Step → Step) (xs : List Step)
    → KeepsPosition change
    → eqb q p ≡ false
    → find_step p (update_step q change xs) ≡ find_step p xs
unfolding find_step update_step
find-update_ne p q change [] k h = refl
find-update_ne p q change (x ∷ xs) k h = elim (Bool-cases (eqb x.position q)) [
  | inl e ↦
      let other : eqb x.position p ≡ false = ground arith in
      rw e (rw (k x) (rw other (find-update_ne p q change xs k h)))
  | inr e ↦ rw e (rw (find-update_ne p q change xs k h) refl)
]

kept_step :
    (p q : ℕ) (change : Step → Step) (x : Step)
    → (ltb q p ≡ false) ⊎ KeepsCompleted change
    → (not (ltb x.position p) || is_completed x) ≡ true
    → eqb x.position q ≡ true
    → ((not (ltb x.position p) || is_completed (change x)) && true) ≡ true
kept_step p q change x (inl late) h e =
    let late' : ltb x.position p ≡ false = ground arith in rw late' refl
kept_step p q change x (inr keeps) h e = elim (Bool-cases (ltb x.position p)) [
  | inl b ↦ rw (keeps x (rw b at h)) (rw b refl)
  | inr b ↦ rw b refl
]

previous-update :
    (p q : ℕ) (change : Step → Step) (xs : List Step)
    → KeepsPosition change
    → (ltb q p ≡ false) ⊎ KeepsCompleted change
    → previous_completed p xs ≡ true
    → previous_completed p (update_step q change xs) ≡ true
unfolding previous_completed update_step
previous-update p q change [] k c h = refl
previous-update p q change (x ∷ xs) k c h =
    let rest = previous-update p q change xs k c (ground arith) in
    elim (Bool-cases (eqb x.position q)) [
      | inl e ↦ rw e (rw (k x) (rw rest (kept_step p q change x c (ground arith) e)))
      | inr e ↦ rw e (rw rest (ground arith))
    ]

pub find-update_self :
    (q : ℕ) (change : Step → Step) (xs : List Step) {x : Step}
    → KeepsPosition change
    → find_step q xs ≡ some x
    → find_step q (update_step q change xs) ≡ some (change x)
unfolding find_step update_step
find-update_self q change [] k h = absurd (cc h)
find-update_self q change (y ∷ xs) {x} k h = elim (Bool-cases (eqb y.position q)) [
  | inl e ↦
      let here : eqb (change y).position q ≡ true = ap (λ i. eqb i q) (k y) ∙ e in
      let same : y ≡ x = some-cancel (rw e at h) in rw e (rw here (ap (λ z. some (change z)) same))
  | inr e ↦ rw e (rw e (find-update_self q change xs k (rw e at h)))
]

-- A step with all before it completed may change, if it stays completed or was not.
pub update_step-IsOrdered :
    (q : ℕ) (change : Step → Step) (xs : List Step) (current : Step)
    → KeepsPosition change
    → IsOrdered xs
    → previous_completed q xs ≡ true
    → find_step q xs ≡ some current
    → (is_completed current ≡ false) ⊎ KeepsCompleted change
    → IsOrdered (update_step q change xs)
update_step-IsOrdered q change xs current k ordered before there c p x found done =
    elim (Bool-cases (eqb q p)) [
      | inl e ↦
          let same : p ≡ q = ground arith in
          previous-update p q change xs k (inl (ground arith))
            (ap (λ i. previous_completed i xs) same ∙ before)
      | inr e ↦
          let was = ordered p x (sym (find-update_ne p q change xs k e) ∙ found) done in
          previous-update p q change xs k (allowed was c) was
    ]
  where
    allowed :
        previous_completed p xs ≡ true
        → (is_completed current ≡ false) ⊎ KeepsCompleted change
        → (ltb q p ≡ false) ⊎ KeepsCompleted change
    allowed was (inr keeps) = inr keeps
    allowed was (inl live) = elim (Bool-cases (ltb q p)) [
      | inl early ↦ absurd (cc (live, previous-find p q xs was early there))
      | inr late ↦ inl late
    ]
