-- ===== src/Runs/Update.antt =====
-- The methods of backend/core/runs/repository.py that read one run or change its fields.
use chat_tree.Prelude.{ℕ, String, Option, none, some, [], ◌∷◌, ok, err, if◌then◌else◌}
use chat_tree.Dict.{Dict, get, insert}
use chat_tree.Json.{Value}
use chat_tree.Runs.Types.{Run, key_error, Repository, Method, is_finished}

unfoldable pub get_run : String → Repository → Option Run
get_run run_id s = get run_id s.runs

unfoldable pub get_run_by_idempotency_key : String → Repository → Option Run
get_run_by_idempotency_key key s = elim (get key s.idempotency) [
  | none ↦ none
  | some run_id ↦ get run_id s.runs
]

-- `self._require_run(run_id)` and then an assignment to fields of the run that it finds.
unfoldable pub update_run : String → (Run → Run) → Method Run
update_run run_id change s = elim (get run_id s.runs) [
  | none ↦ (err (key_error run_id), s)
  | some run ↦ (ok (change run), record s { runs = insert run_id (change run) s.runs })
]

unfoldable pub update_target_node : String → ℕ → Option String → Method Run
unfolding update_run
update_target_node run_id now value =
    update_run run_id (λ run. record run { target_node_id = value; updated_at = now })

unfoldable pub update_anchor_node : String → ℕ → Option String → Method Run
unfolding update_run
update_anchor_node run_id now value =
    update_run run_id (λ run. record run { anchor_node_id = value; updated_at = now })

unfoldable pub update_cancellation_parent : String → ℕ → Option String → Method Run
unfolding update_run
update_cancellation_parent run_id now value =
    update_run run_id (λ run. record run { cancellation_parent_run_id = value; updated_at = now })

-- {**metadata, **more}
unfoldable pub merge_dict : Dict Value → Dict Value → Dict Value
merge_dict d [] = d
merge_dict d ((k, v) ∷ more) = merge_dict (insert k v d) more

unfoldable pub merge_metadata : String → ℕ → Dict Value → Method Run
unfolding update_run
merge_metadata run_id now more =
    update_run run_id
      (λ run. record run { metadata = merge_dict run.metadata more; updated_at = now })

unfoldable pub update_status : String → ℕ → String → Method Run
unfolding update_run
update_status run_id now status = update_run run_id (λ run.
    if is_finished run.status then run else record run { status = status; updated_at = now })
