-- ===== src/Examples/Tools.antt =====
-- Examples for the planning of tool calls.
use chat_tree.Prelude.{
  ℕ, String, ◌≡◌, refl, Bool, true, false, some, List, [], ◌∷◌, Result, ok, err, is_ok, All, map,
  length,
}
use chat_tree.Dict.{get}
use chat_tree.Tools.Capabilities.{
  ToolCapability, CapabilityError, capabilities_for_tool, is_parallel_safe,
}
use chat_tree.Tools.Waves.{
  ToolCall, PlanError, mapping, other, flush_parallel, plan_step, index_call, ToolCallWave,
  plan_tool_call_waves,
}
use chat_tree.Tools.Waves.Order.{
  all_calls, IndexedFrom, plan_tool_call_waves-order, IsOutcome, plan_tool_call_waves-IsOutcome,
}
use chat_tree.Tools.Waves.Grouping.{IsWave, Separated, plan_tool_call_waves-IsWave}

abbrev resolve : String → Result CapabilityError (List ToolCapability)
resolve name = capabilities_for_tool name []

abbrev call : String → ToolCall
call name = record { function = mapping (some name); body = "" }

abbrev calls : List ToolCall
calls = call "read" ∷ call "grep" ∷ call "edit" ∷ call "glob" ∷ []

waves_of : Result (PlanError CapabilityError) (List ToolCallWave) → List ToolCallWave
waves_of (err e) = []
waves_of (ok ws) = ws

abbrev waves : List ToolCallWave
waves = waves_of (plan_tool_call_waves resolve calls)

planned : plan_tool_call_waves resolve calls ≡ ok waves
unfolding plan_tool_call_waves index_call capabilities_for_tool get is_parallel_safe waves_of
planned = refl

plan_tool_call_waves-order_example : IndexedFrom resolve 0 calls (all_calls waves)
plan_tool_call_waves-order_example = plan_tool_call_waves-order resolve calls waves planned

plan_tool_call_waves-IsWave_example : All IsWave waves × Separated false waves
plan_tool_call_waves-IsWave_example = plan_tool_call_waves-IsWave resolve calls waves planned

-- The second call has a text for its function.
abbrev broken_calls : List ToolCall
broken_calls = call "read" ∷ record { function = other; body = "" } ∷ call "rm" ∷ []

plan_tool_call_waves-IsOutcome_example :
    IsOutcome resolve broken_calls (plan_tool_call_waves resolve broken_calls)
plan_tool_call_waves-IsOutcome_example = plan_tool_call_waves-IsOutcome resolve broken_calls

-- Two reads, an edit on its own, and a read after it.
waves_parallel :
    map {B = Bool × ℕ} (λ w. (w.parallel, length w.calls)) waves
    ≡ (true, 2) ∷ (false, 1) ∷ (true, 1) ∷ []
unfolding plan_tool_call_waves index_call capabilities_for_tool get is_parallel_safe waves_of
    flush_parallel plan_step
waves_parallel = refl

-- A name that no table knows is refused.
unknown_refused : is_ok (plan_tool_call_waves resolve (call "rm" ∷ [])) ≡ false
unfolding plan_tool_call_waves index_call capabilities_for_tool get
unknown_refused = refl
