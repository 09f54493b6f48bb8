-- ===== src/Runs/Startup.antt =====
-- The interruption of unfinished runs at startup, in backend/core/runs/repository.py.
use chat_tree.Prelude.{
  ℕ, String, ◌≡◌, refl, sym, ap, ◌∙◌, Option, none, some, List, [], ◌∷◌, ok, err, Result,
  ok-injective, Bool-cases, Option-cases, inl, inr, ◌⊎◌, true, false, not, All, map, arith,
  some-cancel, subst,
}
use chat_tree.Dict.{Dict, get}
use chat_tree.Dict.Keys.{get-insert_absent}
use chat_tree.Json.{Value}
use chat_tree.Runs.Types.{RepositoryError, Run, Repository, is_finished}
use chat_tree.Runs.Events.{append_events}
use chat_tree.Runs.Finish.{finish_run}
use chat_tree.Runs.Listing.{
  list_active, after_finish, interrupt_all, mark_unfinished_as_interrupted,
}
use chat_tree.Runs.WellFormed.{WellFormed}
use chat_tree.Runs.WellFormed.Lifecycle.{
  announce_finish_eq, finish_run-WellFormed, mark_unfinished_as_interrupted-WellFormed,
}
use chat_tree.Runs.Evolution.{Later, Kept}
use chat_tree.Runs.Evolution.Methods.{
  finish_run-Kept, interrupt_all-Kept, mark_unfinished_as_interrupted-Kept,
}
use chat_tree.Runs.Finishing.{
  IsOver, Kept-IsOver, finish_run_first, finish_run_live, finish_run-IsOver,
}
use chat_tree.Runs.Listed.{list_active_over, list_active_covers, list_active_there}

abbrev IsThere : Repository → String → Type 0
IsThere s run_id = (run : Run) × (get run_id s.runs ≡ some run)

Kept-IsThere : {k : String} {s s' : Repository} → Kept k s s' → IsThere s k → IsThere s' k
Kept-IsThere kept (run, there) = let (run', there', later) = kept.run run there in (run', there')

All-map_ids :
    (P : String → Type 0) (l : List Run) → All (λ r. P r.run_id) l → All P (map (λ r. r.run_id) l)
All-map_ids P [] a = tt
All-map_ids P (r ∷ l) a = (a.0, All-map_ids P l a.1)

All_of_map_ids :
    (P : String → Type 0) (l : List Run) → All P (map (λ r. r.run_id) l) → All (λ r. P r.run_id) l
All_of_map_ids P [] a = tt
All_of_map_ids P (r ∷ l) a = (a.0, All_of_map_ids P l a.1)

All-IsThere :
    (s s' : Repository) (ids : List String)
    → ((k : String) → Kept k s s')
    → All (IsThere s) ids
    → All (IsThere s') ids
All-IsThere s s' [] kept a = tt
All-IsThere s s' (i ∷ ids) kept a = (Kept-IsThere (kept i) a.0, All-IsThere s s' ids kept a.1)

after_finish_ok :
    (i : String) (r : Result RepositoryError (Option Run)) (s' : Repository)
    (later : Result RepositoryError (List String) × Repository) {run : Option Run}
    {ids : List String}
    → r ≡ ok run
    → later.0 ≡ ok ids
    → after_finish i r s' later ≡ (ok (i ∷ ids), later.1)
after_finish_ok i (err e) s' later h h' = absurd (cc h)
after_finish_ok i (ok run) s' (err e, s'') h h' = absurd (cc h')
after_finish_ok i (ok run) s' (ok done, s'') h h' = ap (λ l. (ok (i ∷ l), s'')) (ok-injective h')

module _ (str : Value → String) (times : String → ℕ × ℕ) where
  -- Interrupting runs that are there raises nothing, and they are over.
  interrupt_all-IsOver :
      (ids : List String) (s : Repository)
      → WellFormed s
      → All (IsThere s) ids
      → ((interrupt_all str times ids s).0 ≡ ok ids)
        × All (IsOver (interrupt_all str times ids s).1) ids
  unfolding interrupt_all is_finished
  interrupt_all-IsOver [] s w a = (refl, tt)
  interrupt_all-IsOver (i ∷ ids) s w a =
      let (run, there) = a.0 in
      let done =
        finish_run_first str s i run (times i).0 (times i).1 "interrupted"
          (some "interrupted on startup") w there in
      let s₁ =
        (finish_run str i (times i).0 (times i).1 "interrupted" (some "interrupted on startup")
          s).1 in
      let (rest, over) =
        interrupt_all-IsOver ids s₁ (finish_run-WellFormed str i _ _ "interrupted" _ s w) (
          All-IsThere s _ ids
            (λ k.
              finish_run-Kept str k i (times i).0 (times i).1 "interrupted"
                (some "interrupted on startup") s)
            a.1) in
      let later = Kept-IsOver (interrupt_all-Kept str i times ids s₁) (
        finish_run-IsOver str s i run (times i).0 (times i).1 "interrupted"
          (some "interrupted on startup") refl w there) in
      subst
        (λ (x : Result RepositoryError (List String) × Repository).
          (x.0 ≡ ok (i ∷ ids)) × All (IsOver x.1) (i ∷ ids))
        (sym (after_finish_ok i _ s₁ (interrupt_all str times ids s₁) done.1 rest))
        (refl, (later, over))

  -- No run is added.
  append_events_adds_none :
      (k run_id : String) (sources : List (ℕ × Dict Value)) (s : Repository)
      → get k s.runs ≡ none
      → get k (append_events str run_id sources s).1.runs ≡ none
  unfolding append_events
  append_events_adds_none k run_id sources s absent = elim (Option-cases (get run_id s.runs)) [
    | inl e ↦ rw (e, append_events) absent
    | inr e ↦
        let (run, there) = e in
        elim (Option-cases (get run_id s.events)) [
          | inl f ↦ rw (there, append_events) (rw f absent)
          | inr f ↦
              let (log, filed) = f in
              rw (there, append_events)
                (rw filed (get-insert_absent run_id k _ s.runs there absent))
        ]
  ]

  finish_run_adds_none :
      (k run_id : String) (a b : ℕ) (status : String) (error : Option String) (s : Repository)
      → get k s.runs ≡ none
      → get k (finish_run str run_id a b status error s).1.runs ≡ none
  unfolding finish_run
  finish_run_adds_none k run_id a b status error s absent =
      elim (Option-cases (get run_id s.runs)) [
        | inl e ↦ rw (e, finish_run) absent
        | inr e ↦
            let (run, there) = e in
            elim (Bool-cases (is_finished run.status)) [
              | inl over ↦ rw (there, finish_run) (rw over absent)
              | inr live ↦ rw (finish_run_live str s run_id run a b status error there live) (
                  rw announce_finish_eq (
                    append_events_adds_none k run_id _ _
                      (get-insert_absent run_id k _ s.runs there absent)))
            ]
      ]

  after_finish_adds_none :
      (k i : String) (r : Result RepositoryError (Option Run)) (s' : Repository)
      (later : Result RepositoryError (List String) × Repository)
      → get k s'.runs ≡ none
      → get k later.1.runs ≡ none
      → get k (after_finish i r s' later).1.runs ≡ none
  after_finish_adds_none k i (err e) s' later h h' = h
  after_finish_adds_none k i (ok run) s' (err e, s'') h h' = h'
  after_finish_adds_none k i (ok run) s' (ok done, s'') h h' = h'

  interrupt_all_adds_none :
      (k : String) (ids : List String) (s : Repository)
      → get k s.runs ≡ none
      → get k (interrupt_all str times ids s).1.runs ≡ none
  unfolding interrupt_all
  interrupt_all_adds_none k [] s absent = absent
  interrupt_all_adds_none k (i ∷ ids) s absent =
      let absent' =
        finish_run_adds_none k i (times i).0 (times i).1 "interrupted"
          (some "interrupted on startup") s absent in
      after_finish_adds_none k i _ _ _ absent' (interrupt_all_adds_none k ids _ absent')

  -- On a well-formed repository the interruption at startup raises nothing, returns the runs that
  -- were listed as active, and leaves no run active; the runs that it returns have a terminal
  -- status from then on.
  pub mark_unfinished_as_interrupted_lem :
      (s : Repository)
      → WellFormed s
      → let ids = map (λ r. r.run_id) (list_active none s) in
        let s' = (mark_unfinished_as_interrupted str times s).1 in
        ((mark_unfinished_as_interrupted str times s).0 ≡ ok ids)
        × All (IsOver s') ids
        × (list_active none s' ≡ [])
  mark_unfinished_as_interrupted_lem s w =
      let (done, over) = interrupted in
      (
        done,
        over,
        list_active_over _ (mark_unfinished_as_interrupted-WellFormed str times s w) final,
      )
    where
      ids : List String
      ids = map (λ r. r.run_id) (list_active none s)

      s' : Repository
      s' = (mark_unfinished_as_interrupted str times s).1

      interrupted : ((mark_unfinished_as_interrupted str times s).0 ≡ ok ids) × All (IsOver s') ids
      interrupted =
          unfold mark_unfinished_as_interrupted in
          interrupt_all-IsOver ids s w
            (All-map_ids (IsThere s) (list_active none s) (list_active_there s w))

      was_over :
          {k : String} {old r : Run}
          → ((r' : Run) × (get k s'.runs ≡ some r') × Later old r')
          → (not (is_finished old.status) ≡ false) ⊎ IsOver s' old.run_id
          → old.run_id ≡ k
          → get k s'.runs ≡ some r
          → is_finished r.status ≡ true
      was_over {k} {old} {r} (r', there', later) (inl f) named h =
          let fin : is_finished old.status ≡ true = ground arith in
          ap (λ (x : Run). is_finished x.status) (some-cancel (sym h ∙ there'))
          ∙ ap is_finished (later.frozen fin).0
          ∙ fin
      was_over {k} {old} {r} kept (inr (r', there', fin)) named h =
          ap (λ (x : Run). is_finished x.status)
            (some-cancel (sym h ∙ ap (λ x. get x s'.runs) (sym named) ∙ there'))
          ∙ fin

      final : (k : String) (r : Run) → get k s'.runs ≡ some r → is_finished r.status ≡ true
      final k r h = elim (Option-cases (get k s.runs)) [
        | inl absent ↦
            let gone : get k s'.runs ≡ none =
              unfold mark_unfinished_as_interrupted in interrupt_all_adds_none k ids s absent in
            absurd (cc (h, gone))
        | inr e ↦
            let (old, there) = e in
            let kept = mark_unfinished_as_interrupted-Kept str k times s in
            let over =
              list_active_covers (λ x. IsOver s' x.run_id) s
                (All_of_map_ids (IsOver s') (list_active none s) interrupted.1) k old there in
            was_over (kept.run old there) over (w.logged k old there).named.1 h
      ]
