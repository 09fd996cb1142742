-- ===== src/Namespaces.antt =====
-- internal/resources/cluster/namespaces: the handlers of the namespace routes.
pub mod Types
pub mod Quota
pub mod Reading
pub mod Handler
pub mod Limits
pub mod Access
pub mod Members
pub mod Limited
