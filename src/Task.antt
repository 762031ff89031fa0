-- ===== src/Task.antt =====
-- server/internal/task: the runs of tasks (types.go, store.go), the record of tool calls
-- (toolcalls.go), the execution (executor.go), and the retry (server/internal/worker/debugger.go).
pub mod Runs
pub mod ToolCalls
pub mod Executor
pub mod Race
pub mod Debugger
pub mod Scheduler
mod Tests
