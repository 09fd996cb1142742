-- ===== src/Tests.antt =====
-- The theorems at concrete inputs: a small library kit, a small world, and a module for each part.
mod Fixtures
mod ApiErrors
mod Conversion
mod Migration
mod Handlers
mod Clusters
mod RateLimit
mod Namespaces
mod Paths
mod Auth
mod Ldap
mod GitOps
mod Syncing
mod Config
