-- ===== src/Tools/Waves.antt =====
-- backend/core/tools/tool_call_scheduler.py: consecutive tool calls that are safe to run in
-- parallel are grouped into waves. The resolver of capabilities is an argument; it may raise.
pub mod Order
pub mod Grouping
use chat_tree.Prelude.{
  ℕ, ◌+◌, String, Bool, true, false, Option, none, some, List, [], ◌∷◌, ◌++◌, Result, ok, err,
  ◌>>=◌, if◌then◌else◌,
}
use chat_tree.Tools.Capabilities.{ToolCapability, is_parallel_safe}

-- `call["function"]`: missing or false, a mapping with its `name`, which may be missing, or a true
-- value that is no mapping and has no method `get`. A name is the text that `str` makes of it.
pub data Function : Type 0 where
  missing : Function
  mapping : Option String → Function
  other : Function

-- `body` stands for the rest of the call.
pub record ToolCall : Type 0 where
  pub function : Function
  pub body : String

-- An `AttributeError`, or what the resolver raises.
pub data PlanError (E : Type 0) : Type 0 where
  attribute_error : PlanError E
  unresolved : E → PlanError E

unfoldable pub tool_call_function_name : {E : Type 0} → ToolCall → Result (PlanError E) String
tool_call_function_name call = elim call.function [
  | missing ↦ ok ""
  | mapping none ↦ ok ""
  | mapping (some name) ↦ ok name
  | other ↦ err attribute_error
]

pub record IndexedToolCall : Type 0 where
  pub index : ℕ
  pub call : ToolCall
  pub tool_name : String
  pub capabilities : List ToolCapability

pub record ToolCallWave : Type 0 where
  pub parallel : Bool
  pub calls : List IndexedToolCall

-- The two variables of the loop.
pub record Plan : Type 0 where
  pub waves : List ToolCallWave
  pub pending_parallel : List IndexedToolCall

unfoldable pub flush_parallel : Plan → Plan
flush_parallel p = elim p.pending_parallel [
  | [] ↦ p
  | c ∷ cs ↦ record {
    waves = p.waves ++ record { parallel = true; calls = c ∷ cs } ∷ [];
    pending_parallel = [];
  }
]

-- The body of the loop, once the capabilities of the call are known.
unfoldable pub plan_step : IndexedToolCall → Plan → Plan
unfolding flush_parallel
plan_step indexed p =
    if is_parallel_safe indexed.capabilities
    then record p { pending_parallel = p.pending_parallel ++ indexed ∷ [] }
    else (let q = flush_parallel p in
        record q { waves = q.waves ++ record { parallel = false; calls = indexed ∷ [] } ∷ [] })

-- What the resolver raises passes through.
abbrev pub raised : {E : Type 0} {A : Type 0} → Result E A → Result (PlanError E) A
raised (ok a) = ok a
raised (err e) = err (unresolved e)

module _ {E : Type 0} (capabilities_for_name : String → Result E (List ToolCapability)) where
  unfoldable pub index_call : ℕ → ToolCall → Result (PlanError E) IndexedToolCall
  unfolding tool_call_function_name
  index_call index call = do
    tool_name ← tool_call_function_name call
    capabilities ← raised (capabilities_for_name tool_name)
    ok (record { index = index; call = call; tool_name = tool_name; capabilities = capabilities })

  unfoldable pub plan_from : ℕ → Plan → List ToolCall → Result (PlanError E) Plan
  plan_from index p [] = ok p
  plan_from index p (call ∷ calls) = do
    indexed ← index_call index call
    plan_from (index + 1) (plan_step indexed p) calls

  unfoldable pub plan_tool_call_waves : List ToolCall → Result (PlanError E) (List ToolCallWave)
  unfolding plan_from
  plan_tool_call_waves calls = do
    p ← plan_from 0 (record { waves = []; pending_parallel = [] }) calls
    ok (flush_parallel p).waves
