-- ===== src/Task/ToolCalls.antt =====
-- server/internal/task/toolcalls.go: the record of the tool calls of a run. The collector is the list
-- of its records, and each method is one step under the mutex.
use cogitator.Base.{ℕ, Bool, not, ◌&&◌, List, [], ◌∷◌, ◌++◌, anyb, Option, none, some, String}
use cogitator.Base.Eqs.{string_eq}

pub record ToolCallRecord : Type 0 where
  pub tool : String
  pub arguments : String
  pub result : String
  pub error : String
  pub duration : ℕ
  pub round : ℕ

abbrev pub ToolCallCollector : Type 0
ToolCallCollector = List ToolCallRecord

abbrev pub has_error : ToolCallRecord → Bool
has_error r = not (string_eq.beq r.error "")

-- `none` is a nil error; the duration is in milliseconds.
unfoldable pub record_call :
    ToolCallCollector → String → String → String → ℕ → ℕ → Option String → ToolCallCollector
record_call c tool arguments result duration round err =
    c
    ++ record {
      tool = tool;
      arguments = arguments;
      result = result;
      error = elim err [ none ↦ "" | some msg ↦ msg ];
      duration = duration;
      round = round;
    }
      ∷ []

unfoldable pub has_failures : ToolCallCollector → Bool
has_failures c = anyb has_error c

unfoldable pub used_tool_successfully : ToolCallCollector → String → Bool
used_tool_successfully c name = anyb (λ r. string_eq.beq r.tool name && not (has_error r)) c
