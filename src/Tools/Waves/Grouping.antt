-- ===== src/Tools/Waves/Grouping.antt =====
-- How backend/core/tools/tool_call_scheduler.py groups the calls into waves.
use chat_tree.Prelude.{
  ℕ, ◌+◌, String, ◌≡◌, refl, Bool, true, false, Bool-cases, inl, inr, ◌&&◌, List, [], ◌∷◌, ◌++◌,
  arith, Result, ok, >>=-ok, ok-injective, All, All-append, subst,
}
use chat_tree.Tools.Capabilities.{ToolCapability, is_parallel_safe}
use chat_tree.Tools.Waves.{
  ToolCall, IndexedToolCall, ToolCallWave, Plan, flush_parallel, plan_step, index_call, plan_from,
  plan_tool_call_waves,
}

abbrev IsSafe : IndexedToolCall → Type 0
IsSafe i = is_parallel_safe i.capabilities ≡ true

-- A parallel wave holds safe calls, at least one; any other wave holds one call that is not safe.
abbrev IsWaveOf : Bool → List IndexedToolCall → Type 0
IsWaveOf true [] = ⊥
IsWaveOf true (c ∷ cs) = All IsSafe (c ∷ cs)
IsWaveOf false [] = ⊥
IsWaveOf false (c ∷ []) = is_parallel_safe c.capabilities ≡ false
IsWaveOf false (c ∷ d ∷ cs) = ⊥

abbrev pub IsWave : ToolCallWave → Type 0
IsWave w = IsWaveOf w.parallel w.calls

-- No parallel wave follows another, nor comes first if `b`.
abbrev pub Separated : Bool → List ToolCallWave → Type 0
Separated b [] = Unit
Separated b (w ∷ ws) = ((b && w.parallel) ≡ false) × Separated w.parallel ws

abbrev last_parallel : Bool → List ToolCallWave → Bool
last_parallel b [] = b
last_parallel b (w ∷ ws) = last_parallel w.parallel ws

Separated-append :
    (b : Bool) (ws : List ToolCallWave) (w : ToolCallWave)
    → Separated b ws
    → (last_parallel b ws && w.parallel) ≡ false
    → Separated b (ws ++ w ∷ [])
Separated-append b [] w s h = (h, tt)
Separated-append b (v ∷ ws) w s h = (s.0, Separated-append v.parallel ws w s.1 h)

last_parallel-append :
    (b : Bool) (ws : List ToolCallWave) (w : ToolCallWave)
    → last_parallel b (ws ++ w ∷ []) ≡ w.parallel
last_parallel-append b [] w = refl
last_parallel-append b (v ∷ ws) w = last_parallel-append v.parallel ws w

record Grouped (p : Plan) : Type 0 where
  waves : All IsWave p.waves
  separated : Separated false p.waves
  pending : All IsSafe p.pending_parallel

-- Between two rounds of the loop the last wave is no parallel one.
record Grouping (p : Plan) : Type 0 where
  grouped : Grouped p
  open grouped use *
  last : last_parallel false p.waves ≡ false

flush-Grouped : (p : Plan) → Grouping p → Grouped (flush_parallel p)
unfolding flush_parallel
flush-Grouped p g = go p.pending_parallel g.pending
  where
    go :
        (l : List IndexedToolCall)
        → All IsSafe l
        → Grouped (flush_parallel (record { waves = p.waves; pending_parallel = l }))
    go [] h = record { waves = g.waves; separated = g.separated; pending = tt }
    go (c ∷ cs) h = record {
      waves = All-append IsWave p.waves _ g.waves (h, tt);
      separated = Separated-append false p.waves _ g.separated (rw g.last);
      pending = tt;
    }

flush_last :
    (p : Plan) (w : ToolCallWave)
    → w.parallel ≡ false
    → (last_parallel false (flush_parallel p).waves && w.parallel) ≡ false
flush_last p w h = ground arith

step-Grouping : (i : IndexedToolCall) (p : Plan) → Grouping p → Grouping (plan_step i p)
unfolding plan_step
step-Grouping i p g = elim (Bool-cases (is_parallel_safe i.capabilities)) [
  | inl safe ↦ rw safe (record {
    grouped = record {
      waves = g.waves;
      separated = g.separated;
      pending = All-append IsSafe p.pending_parallel _ g.pending (safe, tt);
    };
    last = g.last;
  })
  | inr unsafe ↦
      let f = flush-Grouped p g in
      rw unsafe (record {
        grouped = record {
          waves = All-append IsWave (flush_parallel p).waves _ f.waves (unsafe, tt);
          separated = Separated-append false (flush_parallel p).waves _ f.separated (ground arith);
          pending = f.pending;
        };
        last = last_parallel-append false (flush_parallel p).waves _;
      })
]

module _ {E : Type 0} (capabilities_for_name : String → Result E (List ToolCapability)) where
  plan_from-Grouping :
      (calls : List ToolCall) (n : ℕ) (p q : Plan)
      → plan_from capabilities_for_name n p calls ≡ ok q
      → Grouping p
      → Grouping q
  unfolding plan_from
  plan_from-Grouping [] n p q h g = subst Grouping (ok-injective h) g
  plan_from-Grouping (call ∷ calls) n p q h g =
      let (i, e, h') = >>=-ok (index_call capabilities_for_name n call) _ h in
      plan_from-Grouping calls (n + 1) (plan_step i p) q h' (step-Grouping i p g)

  -- When no resolution raises, a parallel wave holds one or more calls, all declared safe to run
  -- in parallel; any other wave holds exactly one call, which is not; and no parallel wave follows
  -- another, so that the waves are as long as they can be.
  pub plan_tool_call_waves-IsWave :
      (calls : List ToolCall) (ws : List ToolCallWave)
      → plan_tool_call_waves capabilities_for_name calls ≡ ok ws
      → All IsWave ws × Separated false ws
  unfolding plan_tool_call_waves
  plan_tool_call_waves-IsWave calls ws h =
      let (q, e, h') = >>=-ok (plan_from capabilities_for_name 0 _ calls) _ h in
      let start : Grouping (record { waves = []; pending_parallel = [] }) = record {
        grouped = record { waves = tt; separated = tt; pending = tt };
        last = refl;
      } in
      let f = flush-Grouped q (plan_from-Grouping calls 0 _ q e start) in
      subst (λ l. All IsWave l × Separated false l) (ok-injective h') (f.waves, f.separated)
