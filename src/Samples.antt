-- ===== src/Samples.antt =====
-- A Vault server and an API server in memory, and a small resource, for tests: they show that what
-- is assumed of the parameters can be met.
pub mod Memory
pub mod Filter
pub mod Secrets
pub mod Digits
pub mod Outputs
pub mod Cluster
