-- ===== src/Capps.antt =====
-- internal/resources/namespaced/capps: the Capp resource.
pub mod Types
pub mod ToK8s
pub mod FromK8s
pub mod RoundTrip
pub mod Migrate
pub mod Handler
