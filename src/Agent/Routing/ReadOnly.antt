-- ===== src/Agent/Routing/ReadOnly.antt =====
-- What a message can make the assistant do.
use ai_document_ops_system.Prelude.{Option, none, some, false, String, ◌≡◌, refl, arith, ℕ}
use ai_document_ops_system.Agent.Contracts.{AgentToolName, read_only}
use ai_document_ops_system.Agent.Routing.{
  CopilotRequest, first_rule, routing_rules, tool_for, select_tool, route,
}
use ai_document_ops_system.Agent.Tools.{get_tool_definition, requires_confirmation}

-- The tool changes nothing and runs without a confirmation.
pub record IsReadOnly (name : AgentToolName) : Type 0 where
  pub risk : (get_tool_definition name).risk ≡ read_only
  pub unconfirmed : requires_confirmation name ≡ false

first_rule-IsReadOnly : (text : String) → IsReadOnly (first_rule text routing_rules)
unfolding first_rule get_tool_definition requires_confirmation
first_rule-IsReadOnly text = record { risk = ground arith; unconfirmed = ground arith }

-- The tool of a request that names `execute_tool`, or none, to be executed.
abbrev pub Routed : Option AgentToolName → AgentToolName → Type 0
Routed none name = IsReadOnly name
Routed (some execute_tool) name = name ≡ execute_tool

tool_for-Routed :
    (text : String) (id : Option ℕ) (execute_tool : Option AgentToolName)
    → Routed execute_tool (tool_for text id execute_tool)
unfolding tool_for get_tool_definition requires_confirmation
tool_for-Routed text id (some execute_tool) = refl
tool_for-Routed text none none = first_rule-IsReadOnly text
tool_for-Routed text (some id) none = record { risk = refl; unconfirmed = refl }

-- A request that names no tool to execute, whatever its message says, is routed to a tool that only
-- reads and that needs no confirmation; and one that names a tool is routed to that tool.
pub route-Routed :
    (lower : String → String) (request : CopilotRequest)
    → Routed request.execute_tool (route lower request).tool_name
unfolding route select_tool
route-Routed lower request =
    tool_for-Routed (lower request.message) request.document_id request.execute_tool
