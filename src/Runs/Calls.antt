-- ===== src/Runs/Calls.antt =====
-- Any sequence of calls of the repository of backend/core/runs/repository.py, in the order in which
-- the lock admits them.
use chat_tree.Prelude.{
  ℕ, String, ◌≡◌, ◌≢◌, Option, none, some, List, [], ◌∷◌, ◌∙◌, ap, sym, append-nil,
}
use chat_tree.Dict.{Dict, get}
use chat_tree.Dict.Keys.{get-remove_ne}
use chat_tree.Json.{Value}
use chat_tree.Runs.Types.{Repository}
use chat_tree.Runs.Create.{NewRun, create_or_get_run}
use chat_tree.Runs.Update.{
  update_target_node, update_anchor_node, update_cancellation_parent, merge_metadata, update_status,
}
use chat_tree.Runs.Events.{append_events}
use chat_tree.Runs.Finish.{finish_run, request_stop, delete_run}
use chat_tree.Runs.Listing.{mark_unfinished_as_interrupted}
use chat_tree.Runs.WellFormed.{WellFormed}
use chat_tree.Runs.WellFormed.Methods.{
  update_target_node-WellFormed, update_anchor_node-WellFormed,
  update_cancellation_parent-WellFormed, merge_metadata-WellFormed, update_status-WellFormed,
  append_events-WellFormed,
}
use chat_tree.Runs.WellFormed.Lifecycle.{
  create_or_get_run-WellFormed, finish_run-WellFormed, request_stop-WellFormed,
  mark_unfinished_as_interrupted-WellFormed,
}
use chat_tree.Runs.WellFormed.Deletion.{delete_run-WellFormed}
use chat_tree.Runs.Evolution.{Kept, Kept-refl, Kept-trans, Later-refl}
use chat_tree.Runs.Evolution.Methods.{
  update_target_node-Kept, update_anchor_node-Kept, update_cancellation_parent-Kept,
  merge_metadata-Kept, update_status-Kept, append_events-Kept, finish_run-Kept, request_stop-Kept,
  mark_unfinished_as_interrupted-Kept, create_or_get_run-Kept,
}

-- A method that changes the repository, with its arguments and the clock readings that it takes.
pub data Call : Type 0 where
  create : String → ℕ → String → Option String → Option String → NewRun → Call
  set_target_node : String → ℕ → Option String → Call
  set_anchor_node : String → ℕ → Option String → Call
  set_cancellation_parent : String → ℕ → Option String → Call
  merge : String → ℕ → Dict Value → Call
  set_status : String → ℕ → String → Call
  append : String → List (ℕ × Dict Value) → Call
  finish : String → ℕ → ℕ → String → Option String → Call
  stop : String → ℕ → ℕ → Call
  interrupt : (String → ℕ × ℕ) → Call
  delete : String → Call

module _ (str : Value → String) where
  -- The repository after the call, whether it returns or raises.
  unfoldable pub perform : Call → Repository → Repository
  perform (create run_id now conversation_id key fingerprint new) s =
      (create_or_get_run run_id now conversation_id key fingerprint new s).1
  perform (set_target_node run_id now value) s = (update_target_node run_id now value s).1
  perform (set_anchor_node run_id now value) s = (update_anchor_node run_id now value s).1
  perform (set_cancellation_parent run_id now value) s =
      (update_cancellation_parent run_id now value s).1
  perform (merge run_id now more) s = (merge_metadata run_id now more s).1
  perform (set_status run_id now status) s = (update_status run_id now status s).1
  perform (append run_id sources) s = (append_events str run_id sources s).1
  perform (finish run_id a b status error) s = (finish_run str run_id a b status error s).1
  perform (stop run_id a b) s = (request_stop str run_id a b s).1
  perform (interrupt times) s = (mark_unfinished_as_interrupted str times s).1
  perform (delete run_id) s = delete_run run_id s

  unfoldable pub perform_all : List Call → Repository → Repository
  perform_all [] s = s
  perform_all (call ∷ calls) s = perform_all calls (perform call s)

  -- `uuid4` gives an identifier that no run has.
  abbrev pub IsFresh : Call → Repository → Type 0
  IsFresh (create run_id now conversation_id key fingerprint new) s = get run_id s.runs ≡ none
  IsFresh _ s = Unit

  abbrev pub AreFresh : List Call → Repository → Type 0
  AreFresh [] s = Unit
  AreFresh (call ∷ calls) s = IsFresh call s × AreFresh calls (perform call s)

  -- The run is deleted by none of the calls.
  abbrev pub Spares : String → List Call → Type 0
  Spares k [] = Unit
  Spares k (delete run_id ∷ calls) = (k ≢ run_id) × Spares k calls
  Spares k (call ∷ calls) = Spares k calls

  perform-WellFormed :
      (call : Call) (s : Repository) → IsFresh call s → WellFormed s → WellFormed (perform call s)
  unfolding perform
  perform-WellFormed (create run_id now conversation_id key fingerprint new) s f w =
      create_or_get_run-WellFormed run_id now conversation_id key fingerprint new s w f
  perform-WellFormed (set_target_node run_id now value) s f w =
      update_target_node-WellFormed run_id now s w value
  perform-WellFormed (set_anchor_node run_id now value) s f w =
      update_anchor_node-WellFormed run_id now s w value
  perform-WellFormed (set_cancellation_parent run_id now value) s f w =
      update_cancellation_parent-WellFormed run_id now s w value
  perform-WellFormed (merge run_id now more) s f w = merge_metadata-WellFormed run_id now s w more
  perform-WellFormed (set_status run_id now status) s f w =
      update_status-WellFormed run_id now s w status
  perform-WellFormed (append run_id sources) s f w = append_events-WellFormed str run_id sources s w
  perform-WellFormed (finish run_id a b status error) s f w =
      finish_run-WellFormed str run_id a b status error s w
  perform-WellFormed (stop run_id a b) s f w = request_stop-WellFormed str run_id a b s w
  perform-WellFormed (interrupt times) s f w =
      mark_unfinished_as_interrupted-WellFormed str times s w
  perform-WellFormed (delete run_id) s f w = delete_run-WellFormed s w run_id

  -- Whatever calls are made from a repository of which this holds, if `uuid4` gives identifiers
  -- that are not in use: every run is filed under its identifier, with a log of events numbered
  -- without gaps from 0 and as long as the run says; an idempotency key and the run that carries
  -- it lead to one another; there is no log without its run; and the identifiers are distinct.
  pub perform_all-WellFormed :
      (calls : List Call) (s : Repository)
      → WellFormed s
      → AreFresh calls s
      → WellFormed (perform_all calls s)
  unfolding perform_all
  perform_all-WellFormed [] s w f = w
  perform_all-WellFormed (call ∷ calls) s w f =
      perform_all-WellFormed calls (perform call s) (perform-WellFormed call s f.0 w) f.1

  delete_run-Kept :
      (k run_id : String) (s : Repository) → k ≢ run_id → Kept k s (delete_run run_id s)
  unfolding delete_run
  delete_run-Kept k run_id s ne = record {
    run = λ r h. (r, get-remove_ne run_id k s.runs ne ∙ h, Later-refl r);
    log = λ es h. ([], get-remove_ne run_id k s.events ne ∙ h ∙ ap some (sym (append-nil es)));
  }

  perform-Kept :
      (k : String) (call : Call) (calls : List Call) (s : Repository)
      → WellFormed s
      → IsFresh call s
      → Spares k (call ∷ calls)
      → Kept k s (perform call s) × Spares k calls
  unfolding perform
  perform-Kept k (create run_id now conversation_id key fingerprint new) calls s w f p = (
    create_or_get_run-Kept k run_id now conversation_id key fingerprint new s f (w.owned run_id f),
    p,
  )
  perform-Kept k (set_target_node run_id now value) calls s w f p =
      (update_target_node-Kept k run_id now s value, p)
  perform-Kept k (set_anchor_node run_id now value) calls s w f p =
      (update_anchor_node-Kept k run_id now s value, p)
  perform-Kept k (set_cancellation_parent run_id now value) calls s w f p =
      (update_cancellation_parent-Kept k run_id now s value, p)
  perform-Kept k (merge run_id now more) calls s w f p =
      (merge_metadata-Kept k run_id now s more, p)
  perform-Kept k (set_status run_id now status) calls s w f p =
      (update_status-Kept k run_id now s status, p)
  perform-Kept k (append run_id sources) calls s w f p =
      (append_events-Kept str k run_id sources s, p)
  perform-Kept k (finish run_id a b status error) calls s w f p =
      (finish_run-Kept str k run_id a b status error s, p)
  perform-Kept k (stop run_id a b) calls s w f p = (request_stop-Kept str k run_id a b s, p)
  perform-Kept k (interrupt times) calls s w f p =
      (mark_unfinished_as_interrupted-Kept str k times s, p)
  perform-Kept k (delete run_id) calls s w f p = (delete_run-Kept k run_id s p.0, p.1)

  -- Over any calls that do not delete a run, from a well-formed repository and with fresh
  -- identifiers from `uuid4`, the run stays, with its identifiers, conversation, kind,
  -- idempotency key, fingerprint and creation time; once its status is terminal, the status and
  -- the time of the end never change; and its log only grows at the end.
  pub perform_all-Kept :
      (k : String) (calls : List Call) (s : Repository)
      → WellFormed s
      → AreFresh calls s
      → Spares k calls
      → Kept k s (perform_all calls s)
  unfolding perform_all
  perform_all-Kept k [] s w f p = Kept-refl k s
  perform_all-Kept k (call ∷ calls) s w f p =
      let (kept, rest) = perform-Kept k call calls s w f.0 p in
      Kept-trans kept
        (perform_all-Kept k calls (perform call s) (perform-WellFormed call s f.0 w) f.1 rest)
