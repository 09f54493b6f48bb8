-- ===== src/Runs/Finishing.antt =====
-- What `finish_run` of backend/core/runs/repository.py returns and leaves.
use chat_tree.Prelude.{
  ℕ, String, ◌≡◌, refl, ap, ◌∙◌, Option, some, List, [], ◌∷◌, ◌++◌, ok, Bool-cases, inl, inr, true,
  false, if◌then◌else◌, length,
}
use chat_tree.Dict.{Dict, get, insert}
use chat_tree.Dict.Keys.{get-insert_self}
use chat_tree.Json.{Value}
use chat_tree.Runs.Types.{Run, Event, Repository, is_finished}
use chat_tree.Runs.Events.{append_events, build_events, counted}
use chat_tree.Runs.Finish.{finish_run, finished_run, finish_event, announce_finish}
use chat_tree.Runs.WellFormed.{WellFormed}
use chat_tree.Runs.WellFormed.Preserved.{touch-WellFormed}
use chat_tree.Runs.WellFormed.Lifecycle.{announce_finish_eq}
use chat_tree.Runs.Evolution.{Kept}

-- The run is there, with a terminal status.
abbrev pub IsOver : Repository → String → Type 0
IsOver s run_id = (run : Run) × (get run_id s.runs ≡ some run) × (is_finished run.status ≡ true)

pub Kept-IsOver : {k : String} {s s' : Repository} → Kept k s s' → IsOver s k → IsOver s' k
Kept-IsOver kept (run, there, over) =
    let (run', there', later) = kept.run run there in
    (run', there', ap is_finished (later.frozen over).0 ∙ over)

module _ (str : Value → String) where
  counted_status :
      (run : Run) (n : ℕ) (sources : List (ℕ × Dict Value))
      → ((counted run n sources).status ≡ run.status)
        × ((counted run n sources).finished_at ≡ run.finished_at)
  counted_status run n [] = (refl, refl)
  counted_status run n ((at, source) ∷ []) = (refl, refl)
  counted_status run n (a ∷ b ∷ rest) = counted_status run n (b ∷ rest)

  -- Appending to a run that is there changes its status and end not at all.
  append_events_status :
      (s : Repository) (run_id : String) (run : Run) (sources : List (ℕ × Dict Value))
      → WellFormed s
      → get run_id s.runs ≡ some run
      → (events : List Event) × ((append_events str run_id sources s).0 ≡ ok events)
        × ((run' : Run) × (get run_id (append_events str run_id sources s).1.runs ≡ some run')
            × (run'.status ≡ run.status)
            × (run'.finished_at ≡ run.finished_at))
  unfolding append_events
  append_events_status s run_id run sources w there =
      let l = w.logged run_id run there in
      let total = length (l.log ++ build_events str run run_id (length l.log) sources) in
      (
        build_events str run run_id (length l.log) sources,
        rw (there, append_events) (rw l.filed refl),
        (
          counted run total sources,
          rw (there, append_events) (rw l.filed (get-insert_self run_id _ s.runs)),
          (counted_status run total sources).0,
          (counted_status run total sources).1,
        ),
      )

  announce_finish_ok :
      (run_id : String) (a b : ℕ) (status : String) (error : Option String) (s : Repository)
      {events : List Event}
      → (append_events str run_id ((b, finish_event a status error) ∷ []) s).0 ≡ ok events
      → (announce_finish str run_id a b status error s).0
        ≡ ok
            (get run_id (append_events str run_id ((b, finish_event a status error) ∷ []) s).1.runs)
  unfolding announce_finish finish_event
  announce_finish_ok run_id a b status error s h = rw (h, announce_finish) refl

  pub finish_run_live :
      (s : Repository) (run_id : String) (run : Run) (a b : ℕ) (status : String)
      (error : Option String)
      → get run_id s.runs ≡ some run
      → is_finished run.status ≡ false
      → finish_run str run_id a b status error s
        ≡ announce_finish str run_id a b status error
            (record s { runs = insert run_id (finished_run a status error run) s.runs })
  unfolding finish_run
  finish_run_live s run_id run a b status error there live = rw (there, finish_run) (rw live refl)

  -- `finish_run` of a run that is there, in a well-formed repository, succeeds and returns the
  -- run as it is kept from then on: with the given status and time of the end if the run was not
  -- over, and with those that it had if it was.
  pub finish_run_first :
      (s : Repository) (run_id : String) (run : Run) (a b : ℕ) (status : String)
      (error : Option String)
      → WellFormed s
      → get run_id s.runs ≡ some run
      → (run' : Run) × ((finish_run str run_id a b status error s).0 ≡ ok (some run'))
        × (get run_id (finish_run str run_id a b status error s).1.runs ≡ some run')
        × (run'.status ≡ (if is_finished run.status then run.status else status))
        × (run'.finished_at ≡ (if is_finished run.status then run.finished_at else some a))
  unfolding finish_run
  finish_run_first s run_id run a b status error w there =
      elim (Bool-cases (is_finished run.status)) [
        | inl over ↦ (
          run,
          rw (there, finish_run) (rw over refl),
          rw (there, finish_run) (rw over there),
          rw over refl,
          rw over refl,
        )
        | inr live ↦
            let now = finished_run a status error run in
            let w' =
              touch-WellFormed w run_id now there
                (unfold finished_run in record { id = refl; run_id = refl; key = refl })
                (unfold finished_run in refl) in
            let (events, e, r) =
              append_events_status _ run_id now ((b, finish_event a status error) ∷ []) w'
                (get-insert_self run_id now s.runs) in
            let (run', there', same, ended) = r in
            rw (finish_run_live s run_id run a b status error there live) (
              run',
              announce_finish_ok run_id a b status error _ e ∙ ap (λ o. ok o) there',
              rw announce_finish_eq there',
              same ∙ rw live (unfold finished_run in refl),
              ended ∙ rw live (unfold finished_run in refl),
            )
      ]

  pub finish_run-IsOver :
      (s : Repository) (run_id : String) (run : Run) (a b : ℕ) (status : String)
      (error : Option String)
      → is_finished status ≡ true
      → WellFormed s
      → get run_id s.runs ≡ some run
      → IsOver (finish_run str run_id a b status error s).1 run_id
  finish_run-IsOver s run_id run a b status error terminal w there =
      let (run', e, there', same, ended) = finish_run_first s run_id run a b status error w there in
      (run', there', ap is_finished same ∙ over run.status)
    where
      over : (old : String) → is_finished (if is_finished old then old else status) ≡ true
      over old = elim (Bool-cases (is_finished old)) [ inl h ↦ rw h h | inr h ↦ rw h terminal ]
