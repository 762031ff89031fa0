-- ===== src/Agent.antt =====
-- server/internal/agent: the messages of a conversation (context.go) and the loop that calls the
-- provider and the tools (agent.go).
pub mod Context
pub mod Loop
pub mod Providers
mod Tests
