-- ===== src/Instance.antt =====
-- internal/instance/instance.go and the election in cmd/serialhub/serve.go: who is the master.
pub mod Lock
pub mod Election
pub mod Waiting
