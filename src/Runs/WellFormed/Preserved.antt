-- ===== src/Runs/WellFormed/Preserved.antt =====
-- A change of one run and its log keeps the invariant, if it keeps the names and the key of the
-- run and leaves a log that is numbered and counted.
use chat_tree.Prelude.{
  String, ◌≡◌, refl, sym, ◌≢◌, inl, inr, ◌==◌, eq_iff, Bool-cases, some, List, length, subst, ap,
  ◌∙◌, some-cancel,
}
use chat_tree.Dict.{Dict, get, insert}
use chat_tree.Dict.Keys.{insert-IsUnique, get-insert_self, get-insert_ne, get-insert_cases}
use chat_tree.Runs.Types.{Run, Event, Repository}
use chat_tree.Runs.WellFormed.{IsLogged, WellFormed, NumberedFrom}

pub record SameIdentity (run' run : Run) : Type 0 where
  pub id : run'.id ≡ run.id
  pub run_id : run'.run_id ≡ run.run_id
  pub key : run'.idempotency_key ≡ run.idempotency_key

module _ {s : Repository} (w : WellFormed s) (k : String) {run : Run} (run' : Run)
    (there : get k s.runs ≡ some run) (same : SameIdentity run' run) where
  -- With any new logs that differ from the old at `k` alone.
  change-WellFormed :
      (events' : Dict (List Event))
      → ((j : String) → j ≢ k → get j events' ≡ get j s.events)
      → IsLogged events' k run'
      → WellFormed (record s { runs = insert k run' s.runs; events = events' })
  change-WellFormed events' others mine = record {
    logged = λ j r h. elim (get-insert_cases k j run' r s.runs h) [
      | inl (jk, rr) ↦
          subst (λ x. IsLogged events' x r) (sym jk) (subst (IsLogged events' k) (sym rr) mine)
      | inr (ne, old) ↦ move j r ne (w.logged j r old)
    ];
    bound = λ key j h.
        let (r, e, f) = w.bound key j h in
        elim (Bool-cases (k == j)) [
          | inl same_id ↦
              let kj : k ≡ j = (eq_iff k j).0 same_id in
              let rr : r ≡ run = some-cancel (sym e ∙ ap (λ x. get x s.runs) (sym kj) ∙ there) in
              (
                run',
                ap (λ x. get x (insert k run' s.runs)) (sym kj) ∙ get-insert_self k run' s.runs,
                same.key ∙ ap (λ (x : Run). x.idempotency_key) (sym rr) ∙ f,
              )
          | inr other ↦
              (r, get-insert_ne k j run' s.runs (λ p. cc (other, (eq_iff k j).1 (sym p))) ∙ e, f)
        ];
    recorded = λ j key r h f. elim (get-insert_cases k j run' r s.runs h) [
      | inl (jk, rr) ↦
          w.recorded k key run there
            (sym same.key ∙ ap (λ (x : Run). x.idempotency_key) (sym rr) ∙ f)
          ∙ ap some (sym jk)
      | inr (ne, old) ↦ w.recorded j key r old f
    ];
    owned = λ j h. elim (Bool-cases (k == j)) [
      | inl e ↦ absurd (cc (h, get-insert_self k run' s.runs, (eq_iff k j).0 e))
      | inr n ↦
          let ne : j ≢ k = λ p. cc (n, (eq_iff k j).1 (sym p)) in
          others j ne ∙ w.owned j (sym (get-insert_ne k j run' s.runs ne) ∙ h)
    ];
    unique = insert-IsUnique k run' s.runs w.unique;
  }
    where
      move : (j : String) (r : Run) → j ≢ k → IsLogged s.events j r → IsLogged events' j r
      move j r ne l = record {
        named = l.named;
        log = l.log;
        filed = others j ne ∙ l.filed;
        counted = l.counted;
        numbered = l.numbered;
      }

  -- With the logs as they are.
  pub touch-WellFormed :
      run'.event_count ≡ run.event_count → WellFormed (record s { runs = insert k run' s.runs })
  touch-WellFormed count =
      change-WellFormed s.events (λ j ne. refl)
        (record {
          named = (same.id ∙ l.named.0, same.run_id ∙ l.named.1);
          log = l.log;
          filed = l.filed;
          counted = count ∙ l.counted;
          numbered = l.numbered;
        })
    where
      l : IsLogged s.events k run
      l = w.logged k run there

  -- With a new log for the run.
  pub relog-WellFormed :
      (log' : List Event)
      → run'.event_count ≡ length log'
      → NumberedFrom k 0 log'
      → WellFormed (record s { runs = insert k run' s.runs; events = insert k log' s.events })
  relog-WellFormed log' count numbers =
      change-WellFormed (insert k log' s.events) (λ j ne. get-insert_ne k j log' s.events ne)
        (record {
          named = (same.id ∙ l.named.0, same.run_id ∙ l.named.1);
          log = log';
          filed = get-insert_self k log' s.events;
          counted = count;
          numbered = numbers;
        })
    where
      l : IsLogged s.events k run
      l = w.logged k run there
