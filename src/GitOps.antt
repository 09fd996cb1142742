-- ===== src/GitOps.antt =====
-- internal/gitops/client.go: the client of the GitOps repository.
pub mod HostKey
pub mod Client
pub mod Repository
pub mod Publishing
pub mod Refinement
