-- ===== src/Runs/WellFormed/Deletion.antt =====
-- `delete_run` of backend/core/runs/repository.py keeps the invariant, and takes the key of the run
-- out of use.
use chat_tree.Prelude.{
  String, ◌≡◌, refl, sym, ◌≢◌, inl, inr, ◌==◌, eq_iff, Bool-cases, Option-cases, Option, none, some,
  ap, ◌∙◌, some-cancel,
}
use chat_tree.Dict.{get, remove}
use chat_tree.Dict.Keys.{remove-IsUnique, get-remove_cases, get-remove_ne, get-remove_self}
use chat_tree.Runs.Types.{Repository}
use chat_tree.Runs.Finish.{unbind, key_of, delete_run}
use chat_tree.Runs.WellFormed.{WellFormed}

module _ (s : Repository) (w : WellFormed s) (k : String) where
  abbrev gone : Option String
  gone = key_of (get k s.runs)

  -- The run that a key is bound to is `k` exactly if `k` carries the key.
  key_of_bound : (key j : String) → get key s.idempotency ≡ some j → j ≡ k → gone ≡ some key
  key_of_bound key j h jk =
      let (r, e, f) = w.bound key j h in ap key_of (ap (λ x. get x s.runs) (sym jk) ∙ e) ∙ f

  bound_of_key : (key : String) → gone ≡ some key → get key s.idempotency ≡ some k
  bound_of_key key h = elim (Option-cases (get k s.runs)) [
    | inl e ↦ absurd (cc (h, ap key_of e))
    | inr e ↦ let (run, there) = e in w.recorded k key run there (sym (ap key_of there) ∙ h)
  ]

  unbind_cases :
      (o : Option String) (key j : String)
      → gone ≡ o
      → get key (unbind o s.idempotency) ≡ some j
      → (j ≢ k) × (get key s.idempotency ≡ some j)
  unbind_cases none key j e h = ((λ jk. cc (e, key_of_bound key j h jk)), h)
  unbind_cases (some key') key j e h =
      let (ne, old) = get-remove_cases key' key j s.idempotency h in
      ((λ jk. ne (some-cancel (sym (key_of_bound key j old jk) ∙ e))), old)

  unbind_keeps :
      (o : Option String) (key j : String)
      → gone ≡ o
      → j ≢ k
      → get key s.idempotency ≡ some j
      → get key (unbind o s.idempotency) ≡ some j
  unbind_keeps none key j e ne h = h
  unbind_keeps (some key') key j e ne h =
      get-remove_ne key' key s.idempotency
        (λ p. ne (some-cancel (sym h ∙ ap (λ x. get x s.idempotency) p ∙ bound_of_key key' e)))
      ∙ h

  pub delete_run-WellFormed : WellFormed (delete_run k s)
  unfolding delete_run
  delete_run-WellFormed = record {
    logged = λ j r h.
        let (ne, old) = get-remove_cases k j r s.runs h in
        let l = w.logged j r old in
        record {
          named = l.named;
          log = l.log;
          filed = get-remove_ne k j s.events ne ∙ l.filed;
          counted = l.counted;
          numbered = l.numbered;
        };
    bound = λ key j h.
        let (ne, old) = unbind_cases gone key j refl h in
        let (r, e, f) = w.bound key j old in (r, get-remove_ne k j s.runs ne ∙ e, f);
    recorded = λ j key r h f.
        let (ne, old) = get-remove_cases k j r s.runs h in
        unbind_keeps gone key j refl ne (w.recorded j key r old f);
    owned = λ j h. elim (Bool-cases (k == j)) [
      | inl e ↦
          ap (λ x. get x (remove k s.events)) (sym ((eq_iff k j).0 e)) ∙ get-remove_self k s.events
      | inr n ↦
          let ne : j ≢ k = λ p. cc (n, (eq_iff k j).1 (sym p)) in
          get-remove_ne k j s.events ne ∙ w.owned j (sym (get-remove_ne k j s.runs ne) ∙ h)
    ];
    unique = remove-IsUnique k s.runs w.unique;
  }
