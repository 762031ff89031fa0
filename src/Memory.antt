-- ===== src/Memory.antt =====
-- server/internal/memory: the nodes and their edges (store.go) and their retrieval (retriever.go).
pub mod Nodes
pub mod Retriever
mod Tests
