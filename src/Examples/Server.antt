-- ===== src/Examples/Server.antt =====
-- Examples for the admission of changes: one mutation, and then the server closes.
use chat_tree.Prelude.{◌≡◌, refl, true, false, none, some, [], ◌∷◌, ok, err}
use chat_tree.Server.Admission.{
  ServerBusyState, server_busy, mutation_admission_closed, is_busy, MutationAdmission,
  new_admission, admit, leave, close_if_idle, enter, turned_away, exit, close, Steps, here, next,
}
use chat_tree.Server.Closing.{IsQuiet, Steps-IsQuiet}

abbrev idle : ServerBusyState
idle = record { active_run_ids = []; pending_approval_ids = [] }

abbrev inside : MutationAdmission
inside = record { lock = some "m1"; is_open = true }

abbrev closed : MutationAdmission
closed = record { lock = none; is_open = false }

m1_admitted : admit "m1" new_admission ≡ ok inside
unfolding admit
m1_admitted = refl

close_accepted : close_if_idle idle (leave inside) ≡ ok closed
unfolding close_if_idle leave is_busy
close_accepted = refl

lock_free : (leave inside).lock ≡ none
unfolding leave
lock_free = refl

closed-Steps : Steps new_admission closed
closed-Steps =
    next (next (next here (enter "m1" inside refl m1_admitted)) (exit "m1" refl))
      (close idle closed lock_free close_accepted)

m2_refused : admit "m2" closed ≡ err mutation_admission_closed
unfolding admit
m2_refused = refl

Steps-IsQuiet_example : IsQuiet closed
Steps-IsQuiet_example =
    Steps-IsQuiet closed-Steps refl
      (next here (turned_away "m2" mutation_admission_closed refl m2_refused))

-- A pending approval keeps the server up.
approval_keeps_open :
    close_if_idle (record { active_run_ids = []; pending_approval_ids = "a1" ∷ [] }) new_admission
    ≡ err (server_busy (record { active_run_ids = []; pending_approval_ids = "a1" ∷ [] }))
unfolding close_if_idle is_busy
approval_keeps_open = refl
