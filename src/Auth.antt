-- ===== src/Auth.antt =====
-- internal/auth: the managers that authenticate requests.
pub mod Types
pub mod Bearer
pub mod State
pub mod OpenShift
pub mod OAuth
pub mod Cache
pub mod Accepting
pub mod Middleware
pub mod Ldap
