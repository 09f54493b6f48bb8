-- ===== src/Runs/Evolution/Methods.antt =====
-- Each method of backend/core/runs/repository.py but `delete_run` keeps every run that is there.
use chat_tree.Prelude.{
  ℕ, String, ◌≡◌, sym, Bool-cases, Option-cases, inl, inr, Option, none, some, List, [], ◌∷◌,
  append-nil, ap, ◌∙◌, arith, length, ok, err, Result, is_none, is_some, ◌&&◌, ◌||◌,
}
use chat_tree.Dict.{Dict, get}
use chat_tree.Dict.Keys.{get-insert_ne}
use chat_tree.Json.{Value}
use chat_tree.Runs.Types.{Run, Repository, RepositoryError, is_finished}
use chat_tree.Runs.Create.{NewRun, bound_to, create_or_get_run}
use chat_tree.Runs.Update.{
  update_run, update_target_node, update_anchor_node, update_cancellation_parent, merge_metadata,
  update_status,
}
use chat_tree.Runs.Events.{build_events, counted, append_events}
use chat_tree.Runs.Finish.{finish_run, finished_run, request_stop}
use chat_tree.Runs.Listing.{after_finish, interrupt_all, mark_unfinished_as_interrupted}
use chat_tree.Runs.WellFormed.Lifecycle.{announce_finish_eq, announce_stop_eq}
use chat_tree.Runs.Evolution.{Later, Later-refl, Kept, Kept-refl, Kept-trans, put-Kept, log-Kept}

update_run-Kept :
    (k run_id : String) (change : Run → Run) (s : Repository)
    → ((run : Run) → Later run (change run))
    → Kept k s (update_run run_id change s).1
unfolding update_run
update_run-Kept k run_id change s later = elim (Option-cases (get run_id s.runs)) [
  | inl e ↦ rw (e, update_run) (Kept-refl k s)
  | inr e ↦
      let (run, there) = e in
      rw (there, update_run) (put-Kept k run_id s (change run) there (later run))
]

module _ (k run_id : String) (now : ℕ) (s : Repository) where
  pub update_target_node-Kept :
      (value : Option String) → Kept k s (update_target_node run_id now value s).1
  unfolding update_target_node
  update_target_node-Kept value = update_run-Kept k run_id _ s (λ run. ground arith)

  pub update_anchor_node-Kept :
      (value : Option String) → Kept k s (update_anchor_node run_id now value s).1
  unfolding update_anchor_node
  update_anchor_node-Kept value = update_run-Kept k run_id _ s (λ run. ground arith)

  pub update_cancellation_parent-Kept :
      (value : Option String) → Kept k s (update_cancellation_parent run_id now value s).1
  unfolding update_cancellation_parent
  update_cancellation_parent-Kept value = update_run-Kept k run_id _ s (λ run. ground arith)

  pub merge_metadata-Kept : (more : Dict Value) → Kept k s (merge_metadata run_id now more s).1
  unfolding merge_metadata
  merge_metadata-Kept more = update_run-Kept k run_id _ s (λ run. ground arith)

  pub update_status-Kept : (status : String) → Kept k s (update_status run_id now status s).1
  unfolding update_status
  update_status-Kept status = update_run-Kept k run_id _ s (λ run. ground arith)

counted-Later :
    (run : Run) (n : ℕ) (sources : List (ℕ × Dict Value)) → Later run (counted run n sources)
counted-Later run n [] = Later-refl run
counted-Later run n ((at, source) ∷ []) = ground arith
counted-Later run n (a ∷ b ∷ rest) = counted-Later run n (b ∷ rest)

module _ (str : Value → String) (k : String) where
  pub append_events-Kept :
      (run_id : String) (sources : List (ℕ × Dict Value)) (s : Repository)
      → Kept k s (append_events str run_id sources s).1
  unfolding append_events
  append_events-Kept run_id sources s = elim (Option-cases (get run_id s.runs)) [
    | inl e ↦ rw (e, append_events) (Kept-refl k s)
    | inr e ↦
        let (run, there) = e in
        elim (Option-cases (get run_id s.events)) [
          | inl f ↦ rw (there, append_events) (rw f (Kept-refl k s))
          | inr f ↦
              let (log, filed) = f in
              rw (there, append_events)
                (rw filed (
                  Kept-trans (put-Kept k run_id s _ there (counted-Later run _ sources)) (
                    log-Kept k run_id _ log (build_events str run run_id (length log) sources)
                      filed)))
        ]
  ]

  pub finish_run-Kept :
      (run_id : String) (a b : ℕ) (status : String) (error : Option String) (s : Repository)
      → Kept k s (finish_run str run_id a b status error s).1
  unfolding finish_run
  finish_run-Kept run_id a b status error s = elim (Option-cases (get run_id s.runs)) [
    | inl e ↦ rw (e, finish_run) (Kept-refl k s)
    | inr e ↦
        let (run, there) = e in
        elim (Bool-cases (is_finished run.status)) [
          | inl done ↦ rw (there, finish_run) (rw done (Kept-refl k s))
          | inr live ↦
              rw (there, finish_run)
                (rw live (
                  rw announce_finish_eq (
                    Kept-trans
                      (put-Kept k run_id s (finished_run a status error run) there
                        (unfold finished_run in ground arith))
                      (append_events-Kept run_id _ _))))
        ]
  ]

  pub request_stop-Kept :
      (run_id : String) (a b : ℕ) (s : Repository) → Kept k s (request_stop str run_id a b s).1
  unfolding request_stop
  request_stop-Kept run_id a b s = elim (Option-cases (get run_id s.runs)) [
    | inl e ↦ rw (e, request_stop) (Kept-refl k s)
    | inr e ↦
        let (run, there) = e in
        elim (Bool-cases (is_finished run.status)) [
          | inl done ↦ rw (there, request_stop) (rw done (Kept-refl k s))
          | inr live ↦
              rw (there, request_stop)
                (rw live (
                  rw announce_stop_eq (
                    Kept-trans (put-Kept k run_id s _ there (ground arith))
                      (append_events-Kept run_id _ _))))
        ]
  ]

  after_finish-Kept :
      (s : Repository) (run_id : String) (r : Result RepositoryError (Option Run)) (s' : Repository)
      (later : Result RepositoryError (List String) × Repository)
      → Kept k s s'
      → Kept k s' later.1
      → Kept k s (after_finish run_id r s' later).1
  after_finish-Kept s run_id (err e) s' later w w' = w
  after_finish-Kept s run_id (ok run) s' (err e, s'') w w' = Kept-trans w w'
  after_finish-Kept s run_id (ok run) s' (ok done, s'') w w' = Kept-trans w w'

  pub interrupt_all-Kept :
      (times : String → ℕ × ℕ) (run_ids : List String) (s : Repository)
      → Kept k s (interrupt_all str times run_ids s).1
  unfolding interrupt_all
  interrupt_all-Kept times [] s = Kept-refl k s
  interrupt_all-Kept times (run_id ∷ run_ids) s =
      after_finish-Kept s run_id _ _ _ (finish_run-Kept run_id _ _ "interrupted" _ s)
        (interrupt_all-Kept times run_ids _)

  pub mark_unfinished_as_interrupted-Kept :
      (times : String → ℕ × ℕ) (s : Repository)
      → Kept k s (mark_unfinished_as_interrupted str times s).1
  unfolding mark_unfinished_as_interrupted
  mark_unfinished_as_interrupted-Kept times s = interrupt_all-Kept times _ s

-- A new run does not touch the others, if its identifier is not in use.
pub create_or_get_run-Kept :
    (k run_id : String) (now : ℕ) (conversation_id : String) (key fingerprint : Option String)
    (new : NewRun) (s : Repository)
    → get run_id s.runs ≡ none
    → get run_id s.events ≡ none
    → Kept k s (create_or_get_run run_id now conversation_id key fingerprint new s).1
unfolding create_or_get_run
create_or_get_run-Kept k run_id now conversation_id key fingerprint new s fresh unlogged =
    elim (Bool-cases (is_none key && is_some fingerprint || is_some key && is_none fingerprint)) [
      | inl e ↦ rw e (Kept-refl k s)
      | inr e ↦ rw e (elim (Option-cases (bound_to key s.idempotency)) [
        | inl unbound ↦ rw unbound (record {
          run = λ r h. (
            r,
            get-insert_ne run_id k _ s.runs (λ p. cc (h, fresh, ap (λ x. get x s.runs) p)) ∙ h,
            Later-refl r,
          );
          log = λ es h. (
            [],
            get-insert_ne run_id k _ s.events (λ p. cc (h, unlogged, ap (λ x. get x s.events) p))
                ∙ h
                ∙ ap some (sym (append-nil es)),
          );
        })
        | inr b ↦ let (existing_id, there) = b in rw there (Kept-refl k s)
      ])
    ]
