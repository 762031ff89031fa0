-- ===== src/Worker.antt =====
-- server/internal/worker: the background workers.
pub mod Trigger
