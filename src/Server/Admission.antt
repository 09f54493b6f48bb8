-- ===== src/Server/Admission.antt =====
-- `MutationAdmission` of backend/core/server/admission.py. Between taking the lock and what a block does
-- first there is no `await`, so that both are one call, which waits while the lock is held.
use chat_tree.Prelude.{
  String, ◌≡◌, Bool, true, false, not, ◌||◌, Option, none, some, List, [], ◌∷◌, if◌then◌else◌,
  Result, ok, err,
}

pub record ServerBusyState : Type 0 where
  pub active_run_ids : List String
  pub pending_approval_ids : List String

pub data AdmissionError : Type 0 where
  mutation_admission_closed : AdmissionError
  server_busy : ServerBusyState → AdmissionError

abbrev pub is_nonempty : List String → Bool
is_nonempty [] = false
is_nonempty (x ∷ xs) = true

-- ServerBusyState.busy
unfoldable pub is_busy : ServerBusyState → Bool
is_busy state = is_nonempty state.active_run_ids || is_nonempty state.pending_approval_ids

-- The mutation that holds the lock is inside the body of its `async with`.
pub record MutationAdmission : Type 0 where
  pub lock : Option String
  pub is_open : Bool

abbrev pub new_admission : MutationAdmission
new_admission = record { lock = none; is_open = true }

-- `admit` up to its `yield`; a block that raises gives the lock back.
unfoldable pub admit : String → MutationAdmission → Result AdmissionError MutationAdmission
admit mutation a =
    if not a.is_open then err mutation_admission_closed else ok (record a { lock = some mutation })

-- `admit` after its `yield`, however the body ended.
unfoldable pub leave : MutationAdmission → MutationAdmission
leave a = record a { lock = none }

unfoldable pub close_if_idle :
    ServerBusyState → MutationAdmission → Result AdmissionError MutationAdmission
unfolding is_busy
close_if_idle state a =
    if not a.is_open
    then err mutation_admission_closed
    else if is_busy state
    then err (server_busy state)
    else ok (record a { is_open = false })

-- What tasks may do next: `asyncio.Lock` lets one through while nobody holds it.
pub data Step (a : MutationAdmission) : MutationAdmission → Type 0 where
  enter :
      (mutation : String) (b : MutationAdmission)
      → a.lock ≡ none
      → admit mutation a ≡ ok b
      → Step a b
  turned_away :
      (mutation : String) (e : AdmissionError) → a.lock ≡ none → admit mutation a ≡ err e → Step a a
  exit : (mutation : String) → a.lock ≡ some mutation → Step a (leave a)
  close :
      (state : ServerBusyState) (b : MutationAdmission)
      → a.lock ≡ none
      → close_if_idle state a ≡ ok b
      → Step a b
  kept_open :
      (state : ServerBusyState) (e : AdmissionError)
      → a.lock ≡ none
      → close_if_idle state a ≡ err e
      → Step a a

pub data Steps (a : MutationAdmission) : MutationAdmission → Type 0 where
  here : Steps a a
  next : {b c : MutationAdmission} → Steps a b → Step b c → Steps a c
