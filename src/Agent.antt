-- ===== src/Agent.antt =====
-- internal/agentrpc: what the host and the guest's agent say to each other.
pub mod Clock
