-- ===== src/Tools/Waves/Order.antt =====
-- The waves of backend/core/tools/tool_call_scheduler.py, read in order, are the calls as given.
use chat_tree.Prelude.{
  All, ap, none, some, ◌⊎◌, Result-cases, err, ◌>>=◌, ◌∙◌, subst, ok-injective, ℕ, ◌+◌, String, ◌≡◌,
  refl, sym, Bool-cases, inl, inr, List, [], ◌∷◌, ◌++◌, append-nil, append_assoc, Result, ok,
  >>=-ok,
}
use chat_tree.Tools.Capabilities.{ToolCapability, is_parallel_safe}
use chat_tree.Tools.Waves.{
  ToolCall, IndexedToolCall, ToolCallWave, Plan, flush_parallel, plan_step, index_call, plan_from,
  plan_tool_call_waves, tool_call_function_name, Function, missing, mapping, other, PlanError,
  attribute_error, unresolved,
}

-- The calls of the waves, in the order in which the waves are run.
pub all_calls : List ToolCallWave → List IndexedToolCall
all_calls [] = []
all_calls (w ∷ ws) = w.calls ++ all_calls ws

all_calls-append : (xs ys : List ToolCallWave) → all_calls (xs ++ ys) ≡ all_calls xs ++ all_calls ys
unfolding all_calls
all_calls-append [] ys = refl
all_calls-append (w ∷ ws) ys = simp (all_calls-append ws ys, append_assoc)

-- What the loop has read so far.
abbrev seen : Plan → List IndexedToolCall
seen p = all_calls p.waves ++ p.pending_parallel

flush-seen : (p : Plan) → all_calls (flush_parallel p).waves ≡ seen p
unfolding flush_parallel all_calls
flush-seen p = go p.pending_parallel
  where
    go :
        (l : List IndexedToolCall)
        → all_calls (flush_parallel (record { waves = p.waves; pending_parallel = l })).waves
          ≡ all_calls p.waves ++ l
    go [] = simp append-nil
    go (c ∷ cs) = simp (all_calls-append, append-nil)

flush-pending : (p : Plan) → (flush_parallel p).pending_parallel ≡ []
unfolding flush_parallel
flush-pending p = go p.pending_parallel
  where
    go :
        (l : List IndexedToolCall)
        → (flush_parallel (record { waves = p.waves; pending_parallel = l })).pending_parallel ≡ []
    go [] = refl
    go (c ∷ cs) = refl

step-seen : (i : IndexedToolCall) (p : Plan) → seen (plan_step i p) ≡ seen p ++ i ∷ []
unfolding plan_step
step-seen i p = elim (Bool-cases (is_parallel_safe i.capabilities)) [
  | inl safe ↦ rw safe (sym (append_assoc (all_calls p.waves) p.pending_parallel (i ∷ [])))
  | inr unsafe ↦
      rw unsafe
        (simp (all_calls-append, flush-pending, flush-seen) (unfold all_calls in simp (append-nil)))
]

-- The name of a call, case by case.
abbrev pub IsName : ToolCall → String → Type 0
IsName call name =
    (((call.function ≡ missing) ⊎ (call.function ≡ mapping none)) × (name ≡ ""))
    ⊎ (call.function ≡ mapping (some name))

module _ {E : Type 0} (capabilities_for_name : String → Result E (List ToolCapability)) where
  -- The call with the place, its name and the capabilities of the name.
  abbrev pub IsIndexed : ℕ → ToolCall → IndexedToolCall → Type 0
  IsIndexed n call i =
      (i.index ≡ n)
      × (i.call ≡ call)
      × IsName call i.tool_name
      × (capabilities_for_name i.tool_name ≡ ok i.capabilities)

  -- `ics` are the calls with their places, counted from `n`, their names and their capabilities.
  abbrev pub IndexedFrom : ℕ → List ToolCall → List IndexedToolCall → Type 0
  IndexedFrom n [] [] = Unit
  IndexedFrom n [] (i ∷ ics) = ⊥
  IndexedFrom n (call ∷ calls) [] = ⊥
  IndexedFrom n (call ∷ calls) (i ∷ ics) = IsIndexed n call i × IndexedFrom (n + 1) calls ics

  -- The call has a name that can be resolved.
  abbrev pub IsPlanned : ToolCall → Type 0
  IsPlanned call =
      (name : String) × (capabilities : List ToolCapability) × IsName call name
      × (capabilities_for_name name ≡ ok capabilities)

  -- The call has no mapping, or its name cannot be resolved.
  abbrev pub Raises : ToolCall → PlanError E → Type 0
  Raises call attribute_error = call.function ≡ other
  Raises call (unresolved e) =
      (name : String) × IsName call name × (capabilities_for_name name ≡ err e)

  index_named :
      (n : ℕ) (call : ToolCall) (name : String)
      → IsName call name
      → tool_call_function_name {E = E} call ≡ ok name
      → ((i : IndexedToolCall) × IsIndexed n call i
          × (index_call capabilities_for_name n call ≡ ok i))
        ⊎ ((e : PlanError E) × Raises call e × (index_call capabilities_for_name n call ≡ err e))
  unfolding index_call
  index_named n call name named h = elim (Result-cases (capabilities_for_name name)) [
    | inl (capabilities, e) ↦ inl (
      record { index = n; call = call; tool_name = name; capabilities = capabilities },
      (refl, refl, named, e),
      rw (h, e) refl,
    )
    | inr (error, e) ↦ inr (unresolved error, (name, named, e), rw (h, e) refl)
  ]

  -- Either the call gets its place, name and capabilities, or it raises.
  index_call_cases :
      (n : ℕ) (call : ToolCall)
      → ((i : IndexedToolCall) × IsIndexed n call i
          × (index_call capabilities_for_name n call ≡ ok i))
        ⊎ ((e : PlanError E) × Raises call e × (index_call capabilities_for_name n call ≡ err e))
  unfolding tool_call_function_name
  index_call_cases n call = go call.function refl
    where
      go :
          (f : Function)
          → call.function ≡ f
          → ((i : IndexedToolCall) × IsIndexed n call i
              × (index_call capabilities_for_name n call ≡ ok i))
            ⊎ ((e : PlanError E) × Raises call e
                × (index_call capabilities_for_name n call ≡ err e))
      go missing h = index_named n call "" (inl (inl h, refl)) (rw h refl)
      go (mapping none) h = index_named n call "" (inl (inr h, refl)) (rw h refl)
      go (mapping (some name)) h = index_named n call name (inr h) (rw h refl)
      go other h = inr (attribute_error, h, unfold index_call in (rw h refl))

  plan_from-order :
      (calls : List ToolCall) (n : ℕ) (p q : Plan)
      → plan_from capabilities_for_name n p calls ≡ ok q
      → (ics : List IndexedToolCall) × (seen q ≡ seen p ++ ics) × IndexedFrom n calls ics
  unfolding plan_from
  plan_from-order [] n p q h = ([], simp append-nil (cc), tt)
  plan_from-order (call ∷ calls) n p q h = elim (index_call_cases n call) [
    | inr (error, r, e) ↦ absurd (cc (rw e at h))
    | inl (i, indexed, e) ↦
        let (ics, e', r) = plan_from-order calls (n + 1) (plan_step i p) q (rw e at h) in
        (i ∷ ics, e' ∙ (rw step-seen (append_assoc (seen p) (i ∷ []) ics)), (indexed, r))
  ]

  -- When no call raises, the waves read in order are the calls as given: none is lost, repeated or
  -- moved, and each carries its place, counted from 0, the name that its function has, which is
  -- the empty text where there is none, and the capabilities that the resolver gives for it.
  pub plan_tool_call_waves-order :
      (calls : List ToolCall) (ws : List ToolCallWave)
      → plan_tool_call_waves capabilities_for_name calls ≡ ok ws
      → IndexedFrom 0 calls (all_calls ws)
  unfolding plan_tool_call_waves all_calls
  plan_tool_call_waves-order calls ws h =
      let (q, e, h') = >>=-ok (plan_from capabilities_for_name 0 _ calls) _ h in
      let (ics, e', r) = plan_from-order calls 0 _ q e in
      subst (IndexedFrom 0 calls) (sym e' ∙ sym (flush-seen q) ∙ ap all_calls (ok-injective h')) r

  -- All calls are planned, or `e` is what the first call that cannot be planned raises.
  abbrev pub IsOutcome : List ToolCall → {A : Type 0} → Result (PlanError E) A → Type 0
  IsOutcome calls (ok a) = All IsPlanned calls
  IsOutcome calls (err e) =
      (before : List ToolCall) × (call : ToolCall) × (after : List ToolCall) × (calls
        ≡ before ++ call ∷ after)
      × All IsPlanned before
      × Raises call e

  planned_first :
      {A : Type 0} (call : ToolCall) (calls : List ToolCall)
      → IsPlanned call
      → (r : Result (PlanError E) A) → IsOutcome calls r
      → IsOutcome (call ∷ calls) r
  planned_first call calls h (ok a) t = (h, t)
  planned_first call calls h (err e) (before, bad, after, same, hs, r) =
      (call ∷ before, bad, after, ap (λ cs. call ∷ cs) same, (h, hs), r)

  planned_then :
      {A B : Type 0} (calls : List ToolCall) (r : Result (PlanError E) A) (f : A → B)
      → IsOutcome calls r
      → IsOutcome calls (r >>= λ a. ok (f a))
  planned_then calls (ok a) f h = h
  planned_then calls (err e) f h = h

  plan_from-IsOutcome :
      (calls : List ToolCall) (n : ℕ) (p : Plan)
      → IsOutcome calls (plan_from capabilities_for_name n p calls)
  unfolding plan_from
  plan_from-IsOutcome [] n p = tt
  plan_from-IsOutcome (call ∷ calls) n p = elim (index_call_cases n call) [
    | inr (error, r, e) ↦ rw e ([], call, calls, refl, tt, r)
    | inl (i, (place, same, named, found), e) ↦ rw e (
        planned_first call calls (i.tool_name, i.capabilities, named, found) _
          (plan_from-IsOutcome calls (n + 1) (plan_step i p)))
  ]

  -- Planning gives waves exactly if every call has a name that the resolver knows. Otherwise it
  -- raises, and it raises for the first call that cannot be planned, all those before it being
  -- planned: an `AttributeError` if its function is no mapping, or else what the resolver raises
  -- for its name.
  pub plan_tool_call_waves-IsOutcome :
      (calls : List ToolCall) → IsOutcome calls (plan_tool_call_waves capabilities_for_name calls)
  unfolding plan_tool_call_waves
  plan_tool_call_waves-IsOutcome calls =
      planned_then calls _ _
        (plan_from-IsOutcome calls 0 (record { waves = []; pending_parallel = [] }))
