-- ===== src/Lib.antt =====
-- capp-backend: the REST backend for Capps (Container Apps) on Kubernetes clusters.
--
-- A request passes the rate limiter, the authentication and the cluster middleware, which attaches a
-- Kubernetes client that acts as the caller; then a handler converts between the bodies of the API and
-- the Capp resource, calls the cluster, and backs the Capp up to a Git repository where that is on.
-- An error of any part goes to `Respond`, which answers with the JSON error envelope.
--
-- Parts, and the files that model them:
--   ApiErrors, ApiErrors/Translate, ApiErrors/Messages: internal/apierrors/errors.go. The error type
--     and its constructors, `translateK8sError`, `Respond`, and the two regular expressions, written
--     out on characters.
--   Kubernetes, Kubernetes/Client, Kubernetes/Exec: the objects and the client of the Kubernetes
--     libraries. A record `Kit` holds the library functions on quantities, URLs and names. Code that
--     talks to a cluster is an action on a world, `Exec W A`, with the world kept beside an error.
--   Capps/Types, Capps/ToK8s, Capps/FromK8s: internal/resources/namespaced/capps/types.go and
--     convert.go. `to_k8s` is `ToK8s`, `bare_from_k8s` is `BareFromK8s`, `from_k8s` is `FromK8s`; the
--     steps of `ToK8s` that can fail are functions of their own in Capps/ToK8s/Env, Volumes and
--     Resources, and the last, `written_capp`, puts their values together. Capps/RoundTrip and its
--     children hold the theorems.
--   Capps/Migrate: internal/resources/namespaced/capps/migrate.go, with the theorems in
--     Capps/Migrate/Hostnames and Capps/Migrate/Copying.
--   Capps/Handler: internal/resources/namespaced/capps/handler.go and values.go,
--     internal/resources/namespaced/client.go and pkg/k8s/labels.go. `set_git_sync` is `setGitSync`,
--     `delete_capp` is `delete`. `migrate` is split where it starts to write: Capps/Handler/Planning
--     has the checks, Capps/Handler/Migration the rest. Theorems: Updates, Checks, Rollback and
--     Backups, where the syncer of the handler is the client of the GitOps repository.
--   Clusters: internal/cluster/manager.go and client.go; Clusters/Middleware:
--     internal/middleware/cluster.go, with its theorem.
--   RateLimit: internal/middleware/ratelimit.go. Theorems: RateLimit/Bounds and RateLimit/Buckets.
--   Config: internal/config/validation.go. `validate` of Config/Validate is `Validate`; Config/Ldap has
--     `validateLDAP`, with the parsers as a record, and Config/Patterns its two regular expressions, as
--     automata. Theorems: Config/Clusters, Config/GitOps, Config/Directory, Config/Login and
--     Config/Accepted.
--   Auth: internal/auth/manager.go, passthrough.go and openshift.go. Auth/OpenShift has
--     `Authenticate` and the cleanup of the token cache, Auth/State the signed state of the login,
--     Auth/OAuth the calls of the OAuth server. Theorems: Auth/Cache, whose steps interleave requests
--     and cleanups, and Auth/Accepting. Auth/Middleware: internal/middleware/auth.go.
--   Auth/Ldap: internal/auth/ldap_directory.go (Auth/Ldap/Search), ldap_tokens.go (Auth/Ldap/Tokens)
--     and ldap.go (Auth/Ldap/Manager). Theorems: Auth/Ldap/Verified, by the steps of Auth/Ldap/Steps,
--     and Auth/Ldap/Issued.
--   GitOps/Client, GitOps/HostKey: internal/gitops/client.go. GitOps/Repository says what the client
--     relies on in go-git and the file system, for paths that stay in a repository without symbolic
--     links. Theorems: GitOps/Publishing and GitOps/Refinement, where the calls refine changes of a
--     function from paths to files.
--   Namespaces: internal/resources/cluster/namespaces/types.go and handler.go. Namespaces/Reading has
--     the list and what the routes read, Namespaces/Quota the quotas and role bindings,
--     Namespaces/Handler the routes that write. Theorems: Access, Limited, Limits, Members.
--   Prelude: tests on numbers, decimal numbers, texts, lists, association lists for Go maps, and a
--     result type.
--   Tests: every theorem of the list below at a concrete input.
--
-- Conventions. A Go map is an association list with at most one entry for a key. A nil pointer is
-- `none`, a nil slice or map an empty list. Every loop is structural recursion on the list that it
-- ranges over, so no fuel is needed. The text that `fmt` makes of a format is not modelled: a message
-- is its format and arguments. A field `other` of a Kubernetes object stands for all that the program
-- never names. What a theorem assumes of a library, such as that a failed creation creates nothing, is
-- a field of a record (`IsReliable`, `IsObserved`, `IsVisible`, `IsRepository`, `IsSound`) that the
-- theorem takes.
--
-- Not modelled: the servers and routes, logging, metrics and tracing, the command line client and the
-- MCP server, which are input and output; and the loading of the configuration, the constructors of
-- the login modes, revisions, Secrets and ConfigMaps as resources of their own, and the benchmarks.
pub mod Prelude
pub mod ApiErrors
pub mod Kubernetes
pub mod Capps
pub mod Clusters
pub mod Config
pub mod RateLimit
pub mod Auth
pub mod GitOps
pub mod Namespaces
pub mod Tests
