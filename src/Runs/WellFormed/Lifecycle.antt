-- ===== src/Runs/WellFormed/Lifecycle.antt =====
-- Creating, finishing, stopping and deleting runs, and the interruption at startup, keep the
-- invariant of the repository of backend/core/runs/repository.py.
use chat_tree.Prelude.{
  ℕ, String, ◌≡◌, refl, sym, ◌≢◌, ◌⊎◌, inl, inr, ◌==◌, eq_iff, Bool-cases, Option-cases, Option,
  none, some, List, [], ◌∷◌, arith, subst, ap, ◌∙◌, is_none, is_some, ◌&&◌, ◌||◌, ok, err, Result,
}
use chat_tree.Dict.{get, insert}
use chat_tree.Dict.Keys.{get-insert_cases, get-insert_self, get-insert_ne, insert-IsUnique}
use chat_tree.Json.{Value}
use chat_tree.Runs.Types.{RepositoryError, Run, Repository, is_finished}
use chat_tree.Runs.Create.{bind_key, bound_to, NewRun, add_run, create_or_get_run}
use chat_tree.Runs.Events.{append_events}
use chat_tree.Runs.Finish.{
  finish_run, finished_run, finish_event, announce_finish, announce_stop, stop_event, request_stop,
}
use chat_tree.Runs.Listing.{after_finish, interrupt_all, mark_unfinished_as_interrupted}
use chat_tree.Runs.WellFormed.{IsLogged, WellFormed}
use chat_tree.Runs.WellFormed.Preserved.{touch-WellFormed}
use chat_tree.Runs.WellFormed.Methods.{append_events-WellFormed}

after_finish-WellFormed :
    (run_id : String) (r : Result RepositoryError (Option Run)) (s' : Repository)
    (later : Result RepositoryError (List String) × Repository)
    → WellFormed s'
    → WellFormed later.1
    → WellFormed (after_finish run_id r s' later).1
after_finish-WellFormed run_id (err e) s' later w w' = w
after_finish-WellFormed run_id (ok run) s' (err e, s'') w w' = w'
after_finish-WellFormed run_id (ok run) s' (ok done, s'') w w' = w'

module _ (str : Value → String) where
  pub announce_finish_eq :
      (run_id : String) (a b : ℕ) (status : String) (error : Option String) (s : Repository)
      → (announce_finish str run_id a b status error s).1
        ≡ (append_events str run_id ((b, finish_event a status error) ∷ []) s).1
  unfolding announce_finish finish_event
  announce_finish_eq run_id a b status error s = ground arith

  pub finish_run-WellFormed :
      (run_id : String) (a b : ℕ) (status : String) (error : Option String) (s : Repository)
      → WellFormed s
      → WellFormed (finish_run str run_id a b status error s).1
  unfolding finish_run
  finish_run-WellFormed run_id a b status error s w = elim (Option-cases (get run_id s.runs)) [
    | inl e ↦ rw (e, finish_run) w
    | inr e ↦
        let (run, there) = e in
        elim (Bool-cases (is_finished run.status)) [
          | inl done ↦ rw (there, finish_run) (rw done w)
          | inr live ↦
              rw (there, finish_run)
                (rw live (
                  rw announce_finish_eq (
                    append_events-WellFormed str run_id _ _ (
                      touch-WellFormed w run_id (finished_run a status error run) there
                        (unfold finished_run in record { id = refl; run_id = refl; key = refl })
                        (unfold finished_run in refl)))))
        ]
  ]

  pub announce_stop_eq :
      (run_id : String) (b : ℕ) (s : Repository)
      → (announce_stop str run_id b s).1 ≡ (append_events str run_id ((b, stop_event) ∷ []) s).1
  unfolding announce_stop
  announce_stop_eq run_id b s = ground arith

  pub request_stop-WellFormed :
      (run_id : String) (a b : ℕ) (s : Repository)
      → WellFormed s
      → WellFormed (request_stop str run_id a b s).1
  unfolding request_stop
  request_stop-WellFormed run_id a b s w = elim (Option-cases (get run_id s.runs)) [
    | inl e ↦ rw (e, request_stop) w
    | inr e ↦
        let (run, there) = e in
        elim (Bool-cases (is_finished run.status)) [
          | inl done ↦ rw (there, request_stop) (rw done w)
          | inr live ↦
              rw (there, request_stop)
                (rw live (
                  rw announce_stop_eq (
                    append_events-WellFormed str run_id _ _ (
                      touch-WellFormed w run_id _ there
                        (record { id = refl; run_id = refl; key = refl }) refl))))
        ]
  ]

  interrupt_all-WellFormed :
      (times : String → ℕ × ℕ) (run_ids : List String) (s : Repository)
      → WellFormed s
      → WellFormed (interrupt_all str times run_ids s).1
  unfolding interrupt_all
  interrupt_all-WellFormed times [] s w = w
  interrupt_all-WellFormed times (run_id ∷ run_ids) s w =
      let w' = finish_run-WellFormed run_id _ _ "interrupted" _ s w in
      after_finish-WellFormed run_id _ _ _ w' (interrupt_all-WellFormed times run_ids _ w')

  pub mark_unfinished_as_interrupted-WellFormed :
      (times : String → ℕ × ℕ) (s : Repository)
      → WellFormed s
      → WellFormed (mark_unfinished_as_interrupted str times s).1
  unfolding mark_unfinished_as_interrupted
  mark_unfinished_as_interrupted-WellFormed times s w = interrupt_all-WellFormed times _ s w

-- A new run under an identifier that is not in use, and a key that is not bound.
add_run-WellFormed :
    (run : Run) (s : Repository)
    → WellFormed s
    → get run.run_id s.runs ≡ none
    → bound_to run.idempotency_key s.idempotency ≡ none
    → run.id ≡ run.run_id
    → run.event_count ≡ 0
    → WellFormed (add_run run s)
unfolding add_run
add_run-WellFormed run s w fresh unbound named empty = record {
  logged = λ j r h. elim (get-insert_cases k j run r s.runs h) [
    | inl (jk, rr) ↦
        subst (λ x. IsLogged (insert k [] s.events) x r) (sym jk)
          (subst (IsLogged (insert k [] s.events) k) (sym rr) (record {
            named = (named, refl);
            log = [];
            filed = get-insert_self k [] s.events;
            counted = empty;
            numbered = tt;
          }))
    | inr (ne, old) ↦
        let l = w.logged j r old in
        record {
          named = l.named;
          log = l.log;
          filed = get-insert_ne k j [] s.events ne ∙ l.filed;
          counted = l.counted;
          numbered = l.numbered;
        }
  ];
  bound = λ key j h. elim (bound_cases run.idempotency_key key j h) [
    | inl (mine, jk) ↦
        (run, ap (λ x. get x (insert k run s.runs)) jk ∙ get-insert_self k run s.runs, mine)
    | inr old ↦
        let (r, e, f) = w.bound key j old in
        (r, get-insert_ne k j run s.runs (λ p. cc (e, fresh, ap (λ x. get x s.runs) p)) ∙ e, f)
  ];
  recorded = λ j key r h f. elim (get-insert_cases k j run r s.runs h) [
    | inl (jk, rr) ↦
        let mine : run.idempotency_key ≡ some key =
          ap (λ (x : Run). x.idempotency_key) (sym rr) ∙ f in
        ap (λ o. get key (bind_key o k s.idempotency)) mine
        ∙ get-insert_self key k s.idempotency
        ∙ ap some (sym jk)
    | inr (ne, old) ↦ keep_bound run.idempotency_key key j unbound (w.recorded j key r old f)
  ];
  owned = λ j h. elim (Bool-cases (k == j)) [
    | inl e ↦ absurd (cc (h, get-insert_self k run s.runs, (eq_iff k j).0 e))
    | inr n ↦
        let ne : j ≢ k = λ p. cc (n, (eq_iff k j).1 (sym p)) in
        get-insert_ne k j [] s.events ne ∙ w.owned j (sym (get-insert_ne k j run s.runs ne) ∙ h)
  ];
  unique = insert-IsUnique k run s.runs w.unique;
}
  where
    k : String
    k = run.run_id

    bound_cases :
        (o : Option String) (key j : String)
        → get key (bind_key o k s.idempotency) ≡ some j
        → ((o ≡ some key) × (j ≡ k)) ⊎ (get key s.idempotency ≡ some j)
    bound_cases none key j h = inr h
    bound_cases (some o) key j h = elim (get-insert_cases o key k j s.idempotency h) [
      | inl (e, e') ↦ inl (ap some (sym e), e')
      | inr (ne, old) ↦ inr old
    ]

    keep_bound :
        (o : Option String) (key j : String)
        → bound_to o s.idempotency ≡ none
        → get key s.idempotency ≡ some j
        → get key (bind_key o k s.idempotency) ≡ some j
    keep_bound none key j n h = h
    keep_bound (some o) key j n h =
        get-insert_ne o key k s.idempotency (λ p. cc (h, n, ap (λ x. get x s.idempotency) p)) ∙ h

-- Whatever `create_or_get_run` returns or raises, if `uuid4` gives an identifier not in use.
pub create_or_get_run-WellFormed :
    (run_id : String) (now : ℕ) (conversation_id : String) (key fingerprint : Option String)
    (new : NewRun) (s : Repository)
    → WellFormed s
    → get run_id s.runs ≡ none
    → WellFormed (create_or_get_run run_id now conversation_id key fingerprint new s).1
unfolding create_or_get_run
create_or_get_run-WellFormed run_id now conversation_id key fingerprint new s w fresh =
    elim (Bool-cases (is_none key && is_some fingerprint || is_some key && is_none fingerprint)) [
      | inl e ↦ rw e w
      | inr e ↦ rw e (elim (Option-cases (bound_to key s.idempotency)) [
        | inl unbound ↦ rw unbound (add_run-WellFormed _ s w fresh unbound refl refl)
        | inr b ↦ let (existing_id, there) = b in rw there w
      ])
    ]
