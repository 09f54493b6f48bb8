-- ===== src/Runs/Listed.antt =====
-- What the lists of runs of backend/core/runs/repository.py hold.
use chat_tree.Prelude.{
  String, ◌≡◌, refl, ap, ◌∙◌, none, some, List, [], ◌∷◌, Bool-cases, inl, inr, ◌⊎◌, Bool, true,
  false, not, if◌then◌else◌, All, subst,
}
use chat_tree.Dict.{Dict, get, values}
use chat_tree.Dict.Keys.{All-get, All_of_get}
use chat_tree.Runs.Types.{Run, Repository, is_finished}
use chat_tree.Runs.Listing.{comes_first, insert_sorted, sorted_runs, keep, list_runs, list_active}
use chat_tree.Runs.WellFormed.{WellFormed}

module _ (P : Run → Type 0) where
  All-insert_sorted : (r : Run) (l : List Run) → P r → All P l → All P (insert_sorted r l)
  unfolding insert_sorted
  All-insert_sorted r [] h a = (h, tt)
  All-insert_sorted r (x ∷ l) h a = elim (Bool-cases (comes_first r x)) [
    | inl e ↦ rw e (h, a)
    | inr e ↦ rw e (a.0, All-insert_sorted r l h a.1)
  ]

  All_of_insert_sorted : (r : Run) (l : List Run) → All P (insert_sorted r l) → P r × All P l
  unfolding insert_sorted
  All_of_insert_sorted r [] a = a
  All_of_insert_sorted r (x ∷ l) a = elim (Bool-cases (comes_first r x)) [
    | inl e ↦ subst (λ b. All P (if b then r ∷ x ∷ l else x ∷ insert_sorted r l)) e a
    | inr e ↦
        let a' = subst (λ b. All P (if b then r ∷ x ∷ l else x ∷ insert_sorted r l)) e a in
        let (h, rest) = All_of_insert_sorted r l a'.1 in (h, (a'.0, rest))
  ]

  All-sorted_runs : (l : List Run) → All P l → All P (sorted_runs l)
  unfolding sorted_runs
  All-sorted_runs [] a = tt
  All-sorted_runs (r ∷ l) a = All-insert_sorted r (sorted_runs l) a.0 (All-sorted_runs l a.1)

  All_of_sorted_runs : (l : List Run) → All P (sorted_runs l) → All P l
  unfolding sorted_runs
  All_of_sorted_runs [] a = tt
  All_of_sorted_runs (r ∷ l) a =
      let (h, rest) = All_of_insert_sorted r (sorted_runs l) a in (h, All_of_sorted_runs l rest)

  All-keep : (p : Run → Bool) (l : List Run) → All P l → All P (keep p l)
  All-keep p [] a = tt
  All-keep p (r ∷ l) a = elim (Bool-cases (p r)) [
    | inl e ↦ rw e (a.0, All-keep p l a.1)
    | inr e ↦ rw e (All-keep p l a.1)
  ]

  All_of_keep :
      (p : Run → Bool) (l : List Run) → All P (keep p l) → All (λ r. (p r ≡ false) ⊎ P r) l
  All_of_keep p [] a = tt
  All_of_keep p (r ∷ l) a = elim (Bool-cases (p r)) [
    | inl e ↦
        let a' = subst (λ b. All P (if b then r ∷ keep p l else keep p l)) e a in
        (inr a'.0, All_of_keep p l a'.1)
    | inr e ↦
        let a' = subst (λ b. All P (if b then r ∷ keep p l else keep p l)) e a in
        (inl e, All_of_keep p l a')
  ]

  All-values : (d : Dict Run) → All (λ e. P e.1) d → All P (values d)
  All-values [] a = tt
  All-values (e ∷ d) a = (a.0, All-values d a.1)

  All_of_values : (d : Dict Run) → All P (values d) → All (λ e. P e.1) d
  All_of_values [] a = tt
  All_of_values (e ∷ d) a = (a.0, All_of_values d a.1)

keep_all : (l : List Run) → keep (λ r. true) l ≡ l
keep_all [] = refl
keep_all (r ∷ l) = ap (λ m. r ∷ m) (keep_all l)

keep_none : (p : Run → Bool) (l : List Run) → All (λ r. p r ≡ false) l → keep p l ≡ []
keep_none p [] a = refl
keep_none p (r ∷ l) a = rw a.0 (keep_none p l a.1)

list_runs_all : (s : Repository) → list_runs none s ≡ sorted_runs (values s.runs)
unfolding list_runs
list_runs_all s = ap sorted_runs (keep_all (values s.runs))

-- Nothing is listed as active where every run is over.
pub list_active_over :
    (s : Repository)
    → WellFormed s
    → ((k : String) (r : Run) → get k s.runs ≡ some r → is_finished r.status ≡ true)
    → list_active none s ≡ []
unfolding list_active
list_active_over s w over = rw list_runs_all (
    keep_none _ (sorted_runs (values s.runs)) (
      All-sorted_runs _ (values s.runs)
        (All-values _ s.runs (All_of_get _ s.runs w.unique (λ k r h. ap not (over k r h))))))

-- Every run is over or is listed as active.
pub list_active_covers :
    (P : Run → Type 0) (s : Repository)
    → All P (list_active none s)
    → (k : String) (r : Run) → get k s.runs ≡ some r
    → (not (is_finished r.status) ≡ false) ⊎ P r
unfolding list_active
list_active_covers P s a k r h =
    All-get _ k s.runs
      (All_of_values _ s.runs (
        All_of_sorted_runs _ (values s.runs)
          (rw list_runs_all at (All_of_keep P _ (list_runs none s) a))))
      h

-- A run that is listed is there, under its identifier.
pub list_active_there :
    (s : Repository)
    → WellFormed s
    → All (λ r. (run : Run) × (get r.run_id s.runs ≡ some run)) (list_active none s)
unfolding list_active
list_active_there s w = All-keep _ _ (list_runs none s) (
    rw list_runs_all (
      All-sorted_runs _ (values s.runs) (
        All-values _ s.runs (
          All_of_get _ s.runs w.unique
            (λ k r h. (r, ap (λ x. get x s.runs) (w.logged k r h).named.1 ∙ h))))))
