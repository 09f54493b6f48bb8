-- ===== src/Runs/WellFormed/Methods.antt =====
-- Every method of the repository of backend/core/runs/repository.py that changes one run keeps the
-- invariant.
use chat_tree.Prelude.{
  ℕ, suc, ◌+◌, String, ◌≡◌, refl, sym, inl, inr, Option-cases, Option, List, [], ◌∷◌, ◌++◌, arith,
  length, ap, ◌∙◌, append-nil, if◌then◌else◌,
}
use chat_tree.Dict.{Dict, get}
use chat_tree.Json.{Value}
use chat_tree.Runs.Types.{Run, Event, Repository, is_finished}
use chat_tree.Runs.Update.{
  update_run, update_target_node, update_anchor_node, update_cancellation_parent, merge_metadata,
  update_status,
}
use chat_tree.Runs.Events.{build_events, counted, append_events}
use chat_tree.Runs.WellFormed.{WellFormed, NumberedFrom, NumberedFrom-append_log}
use chat_tree.Runs.WellFormed.Preserved.{SameIdentity, touch-WellFormed, relog-WellFormed}

-- A change of fields that are neither names, nor the key, nor the count of events.
record IsPlain (change : Run → Run) : Type 0 where
  same : (run : Run) → SameIdentity (change run) run
  count : (run : Run) → (change run).event_count ≡ run.event_count

update_run-WellFormed :
    (run_id : String) (change : Run → Run) (s : Repository)
    → IsPlain change
    → WellFormed s
    → WellFormed (update_run run_id change s).1
unfolding update_run
update_run-WellFormed run_id change s plain w = elim (Option-cases (get run_id s.runs)) [
  | inl e ↦ rw (e, update_run) w
  | inr e ↦
      let (run, there) = e in
      rw (there, update_run)
        (touch-WellFormed w run_id (change run) there (plain.same run) (plain.count run))
]

status-IsPlain :
    (now : ℕ) (status : String)
    → IsPlain (λ run.
      if is_finished run.status then run else record run { status = status; updated_at = now })
status-IsPlain now status = record {
  same = λ run. record { id = ground arith; run_id = ground arith; key = ground arith };
  count = λ run. ground arith;
}

module _ (run_id : String) (now : ℕ) (s : Repository) (w : WellFormed s) where
  pub update_target_node-WellFormed :
      (value : Option String) → WellFormed (update_target_node run_id now value s).1
  unfolding update_target_node
  update_target_node-WellFormed value =
      update_run-WellFormed run_id _ s
        (record {
          same = λ run. record { id = refl; run_id = refl; key = refl };
          count = λ run. refl;
        })
        w

  pub update_anchor_node-WellFormed :
      (value : Option String) → WellFormed (update_anchor_node run_id now value s).1
  unfolding update_anchor_node
  update_anchor_node-WellFormed value =
      update_run-WellFormed run_id _ s
        (record {
          same = λ run. record { id = refl; run_id = refl; key = refl };
          count = λ run. refl;
        })
        w

  pub update_cancellation_parent-WellFormed :
      (value : Option String) → WellFormed (update_cancellation_parent run_id now value s).1
  unfolding update_cancellation_parent
  update_cancellation_parent-WellFormed value =
      update_run-WellFormed run_id _ s
        (record {
          same = λ run. record { id = refl; run_id = refl; key = refl };
          count = λ run. refl;
        })
        w

  pub merge_metadata-WellFormed :
      (more : Dict Value) → WellFormed (merge_metadata run_id now more s).1
  unfolding merge_metadata
  merge_metadata-WellFormed more =
      update_run-WellFormed run_id _ s
        (record {
          same = λ run. record { id = refl; run_id = refl; key = refl };
          count = λ run. refl;
        })
        w

  pub update_status-WellFormed :
      (status : String) → WellFormed (update_status run_id now status s).1
  unfolding update_status
  update_status-WellFormed status = update_run-WellFormed run_id _ s (status-IsPlain now status) w

module _ (str : Value → String) where
  build_events_numbered :
      (run : Run) (run_id : String) (n : ℕ) (sources : List (ℕ × Dict Value))
      → NumberedFrom run_id n (build_events str run run_id n sources)
  unfolding build_events
  build_events_numbered run run_id n [] = tt
  build_events_numbered run run_id n ((at, source) ∷ rest) =
      ((refl, refl, refl), build_events_numbered run run_id (n + 1) rest)

  pub length-build_events :
      (run : Run) (run_id : String) (n : ℕ) (sources : List (ℕ × Dict Value))
      → length (build_events str run run_id n sources) ≡ length sources
  unfolding build_events
  length-build_events run run_id n [] = refl
  length-build_events run run_id n ((at, source) ∷ rest) =
      ap suc (length-build_events run run_id (n + 1) rest)

  counted_same :
      (run : Run) (n : ℕ) (sources : List (ℕ × Dict Value))
      → SameIdentity (counted run n sources) run
  counted_same run n [] = record { id = refl; run_id = refl; key = refl }
  counted_same run n ((at, source) ∷ []) = record { id = refl; run_id = refl; key = refl }
  counted_same run n (a ∷ b ∷ rest) = counted_same run n (b ∷ rest)

  counted_count :
      (run : Run) (n : ℕ) (source : ℕ × Dict Value) (sources : List (ℕ × Dict Value))
      → (counted run n (source ∷ sources)).event_count ≡ n
  counted_count run n (at, source) [] = refl
  counted_count run n a (b ∷ rest) = counted_count run n b rest

  counted_total :
      (run : Run) (log : List Event) (run_id : String) (sources : List (ℕ × Dict Value))
      → run.event_count ≡ length log
      → (counted run
          (length (log ++ build_events str run run_id (length log) sources))
          sources).event_count
        ≡ length (log ++ build_events str run run_id (length log) sources)
  unfolding build_events
  counted_total run log run_id [] h = h ∙ ap length (sym (append-nil log))
  counted_total run log run_id (a ∷ rest) h = counted_count run _ a rest

  pub append_events-WellFormed :
      (run_id : String) (sources : List (ℕ × Dict Value)) (s : Repository)
      → WellFormed s
      → WellFormed (append_events str run_id sources s).1
  unfolding append_events
  append_events-WellFormed run_id sources s w = elim (Option-cases (get run_id s.runs)) [
    | inl e ↦ rw (e, append_events) w
    | inr e ↦
        let (run, there) = e in
        let l = w.logged run_id run there in
        rw (there, append_events)
          (rw l.filed (
            relog-WellFormed w run_id _ there (counted_same run _ sources) _
              (counted_total run l.log run_id sources l.counted)
              (NumberedFrom-append_log run_id l.log _ l.numbered
                (build_events_numbered run run_id (length l.log) sources))))
  ]
