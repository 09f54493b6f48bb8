-- ===== src/Runs/Idempotency.antt =====
-- Starting a run twice with one idempotency key, in backend/core/runs/repository.py.
use chat_tree.Prelude.{
  ℕ, String, ◌≡◌, refl, ap, ◌∙◌, ◌==◌, eq_refl, none, some, List, [], ◌∷◌, true, false, ok, err,
  if◌then◌else◌,
}
use chat_tree.Dict.{get}
use chat_tree.Dict.Keys.{get-insert_self}
use chat_tree.Json.{Value}
use chat_tree.Runs.Types.{Run, Repository, idempotency_conflict}
use chat_tree.Runs.Create.{NewRun, build_run, add_run, same_text, create_or_get_run}
use chat_tree.Runs.WellFormed.{WellFormed}
use chat_tree.Runs.Calls.{
  Call, create, perform, perform_all, AreFresh, Spares, perform_all-WellFormed, perform_all-Kept,
}

-- While a run of a well-formed repository carries an idempotency key and a fingerprint, a start
-- with that key changes nothing: it returns the run, as not created, if the fingerprint of the
-- request is the same, and raises the conflict that names the run if it is another.
pub create_or_get_run_retry :
    (s : Repository) (run_id key fingerprint fingerprint' : String) (run : Run) (run_id' : String)
    (now' : ℕ) (conversation_id' : String) (new' : NewRun)
    → WellFormed s
    → get run_id s.runs ≡ some run
    → run.idempotency_key ≡ some key
    → run.request_fingerprint ≡ some fingerprint
    → create_or_get_run run_id' now' conversation_id' (some key) (some fingerprint') new' s ≡ (
      (if fingerprint == fingerprint' then ok (run, false) else err (idempotency_conflict run_id)),
      s,
    )
unfolding create_or_get_run same_text
create_or_get_run_retry s run_id key fingerprint fingerprint' run run_id' now' conv' new' w there k
      f =
    rw (w.recorded run_id key run there k) (rw there (rw f refl))

module _ (run_id : String) (now : ℕ) (conversation_id key fingerprint : String) (new : NewRun) where
  abbrev pub started : Run
  started = build_run run_id now conversation_id (some key) (some fingerprint) new

  create_or_get_run_free :
      (s : Repository)
      → get key s.idempotency ≡ none
      → create_or_get_run run_id now conversation_id (some key) (some fingerprint) new s
        ≡ (ok (started, true), add_run started s)
  unfolding create_or_get_run
  create_or_get_run_free s free = rw free

  get-add_run : (s : Repository) → get run_id (add_run started s).runs ≡ some started
  unfolding add_run build_run
  get-add_run s = get-insert_self run_id _ s.runs

  abbrev pub start : Call
  start = create run_id now conversation_id (some key) (some fingerprint) new

  -- In a well-formed repository a start under a key that is free creates the run, and a retry of
  -- it with the same key and fingerprint, after any calls that do not delete the run, returns the
  -- run as not created and changes nothing, whatever else the retry asks for. (`uuid4` gives
  -- identifiers not in use.)
  pub create_or_get_run_once :
      (str : Value → String) (s : Repository) (calls : List Call) (run_id' : String) (now' : ℕ)
      (conversation_id' : String) (new' : NewRun)
      → WellFormed s
      → get run_id s.runs ≡ none
      → get key s.idempotency ≡ none
      → AreFresh str (start ∷ calls) s
      → Spares str run_id calls
      → ((create_or_get_run run_id now conversation_id (some key) (some fingerprint) new s).0
          ≡ ok (started, true))
        × ((run : Run) × (run.run_id ≡ run_id)
            × (create_or_get_run run_id' now' conversation_id'
                  (some key)
                  (some fingerprint)
                  new'
                  (perform_all str (start ∷ calls) s)
                ≡ (ok (run, false), perform_all str (start ∷ calls) s)))
  unfolding perform_all perform build_run
  create_or_get_run_once str s calls run_id' now' conv' new' w fresh free afresh spared =
      let w' = perform_all-WellFormed str (start ∷ []) s w (fresh, tt) in
      let first : perform str start s ≡ add_run started s =
        ap (λ r. r.1) (create_or_get_run_free s free) in
      let (run, there, later) =
        (perform_all-Kept str run_id calls (perform str start s) w' afresh.1 spared).run started
          (ap (λ (x : Repository). get run_id x.runs) first ∙ get-add_run s) in
      (
        ap (λ r. r.0) (create_or_get_run_free s free),
        (
          run,
          later.named.1,
          create_or_get_run_retry _ run_id key fingerprint fingerprint run run_id' now' conv' new'
                (perform_all-WellFormed str (start ∷ calls) s w afresh) there later.keyed.0
                later.keyed.1
              ∙ rw (eq_refl fingerprint) refl,
        ),
      )
