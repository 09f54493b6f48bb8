-- ===== src/Server/Closing.antt =====
-- That nothing is changed after backend/core/server/admission.py has closed.
use chat_tree.Prelude.{
  String, ◌≡◌, refl, sym, ap, ◌∙◌, true, false, none, Bool-cases, inl, inr, ok, ok-injective,
}
use chat_tree.Server.Admission.{
  ServerBusyState, is_busy, MutationAdmission, new_admission, admit, leave, close_if_idle, Step,
  enter, turned_away, exit, close, kept_open, Steps, here, next,
}

-- Closed, and no mutation is inside.
abbrev pub IsQuiet : MutationAdmission → Type 0
IsQuiet a = (a.is_open ≡ false) × (a.lock ≡ none)

admit_open :
    (mutation : String) (a : MutationAdmission) {b : MutationAdmission}
    → admit mutation a ≡ ok b
    → (a.is_open ≡ true) × (b.is_open ≡ a.is_open)
unfolding admit
admit_open mutation a h = elim (Bool-cases a.is_open) [
  | inr e ↦ absurd (cc (rw e at h))
  | inl e ↦ (
    e,
    sym (ap (λ (x : MutationAdmission). x.is_open) (ok-injective (rw (e, admit) at h))) ∙ sym e,
  )
]

-- A closing that is accepted was open and not busy, and leaves the lock.
pub close_if_idle_ok :
    (state : ServerBusyState) (a : MutationAdmission) {b : MutationAdmission}
    → close_if_idle state a ≡ ok b
    → (is_busy state ≡ false) × (b.lock ≡ a.lock)
unfolding close_if_idle
close_if_idle_ok state a h = elim (Bool-cases a.is_open) [
  | inr e ↦ absurd (cc (rw (e, close_if_idle) at h))
  | inl e ↦ elim (Bool-cases (is_busy state)) [
    | inl f ↦ absurd (cc (rw (e, f, close_if_idle) at h))
    | inr f ↦ (
      f,
      sym (ap (λ (x : MutationAdmission). x.lock) (ok-injective (rw (e, f, close_if_idle) at h))),
    )
  ]
]

-- Where the admission is closed, no mutation is inside.
abbrev IsOrdered : MutationAdmission → Type 0
IsOrdered a = a.is_open ≡ false → a.lock ≡ none

Step-IsOrdered : {a b : MutationAdmission} → IsOrdered a → Step a b → IsOrdered b
unfolding leave
Step-IsOrdered {a} o (enter mutation b free h) =
    let (was, same) = admit_open mutation a h in λ shut. absurd (cc (was, same, shut))
Step-IsOrdered o (turned_away mutation e free h) = o
Step-IsOrdered o (exit mutation held) = λ shut. refl
Step-IsOrdered {a} o (close state b free h) = λ shut. (close_if_idle_ok state a h).1 ∙ free
Step-IsOrdered o (kept_open state e free h) = o

Steps-IsOrdered : {a : MutationAdmission} → Steps new_admission a → IsOrdered a
Steps-IsOrdered here = λ shut. refl
Steps-IsOrdered (next steps step) = Step-IsOrdered (Steps-IsOrdered steps) step

Step-IsQuiet : {a b : MutationAdmission} → IsQuiet a → Step a b → IsQuiet b
unfolding leave close_if_idle
Step-IsQuiet {a} (shut, free) (enter mutation b f h) =
    absurd (cc (shut, (admit_open mutation a h).0))
Step-IsQuiet q (turned_away mutation e f h) = q
Step-IsQuiet (shut, free) (exit mutation held) = (shut, refl)
Step-IsQuiet (shut, free) (close state b f h) = absurd (cc (rw shut at h))
Step-IsQuiet q (kept_open state e f h) = q

-- From a server that has just started, in whatever order mutations enter and leave and closings are
-- tried: once the admission is closed, no mutation is inside, and whatever happens after that it
-- stays closed and none gets in.
pub Steps-IsQuiet :
    {a b : MutationAdmission} → Steps new_admission a → a.is_open ≡ false → Steps a b → IsQuiet b
Steps-IsQuiet before shut here = (shut, Steps-IsOrdered before shut)
Steps-IsQuiet before shut (next steps step) = Step-IsQuiet (Steps-IsQuiet before shut steps) step
