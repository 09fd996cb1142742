-- ===== src/Clusters.antt =====
-- internal/cluster/manager.go and client.go: the registry of clusters, its health checks, and the
-- client made for one request. A `rest.Config` is the fields that the program touches, and `other`.
-- The registry is an association list with the names of the configuration. Logging is left out. The
-- probe of a cluster, `checkHealth`, is a parameter: the outcome for its host at one instant.
pub mod Middleware
use capp_backend.Prelude.{
  String, Bool, true, false, Option, none, some, List, [], ◌∷◌, Result, ok, err, ◌==◌, not,
  if◌then◌else◌, map, is_empty, is_some,
}
use capp_backend.Prelude.Assoc.{Assoc, lookup}
use capp_backend.ApiErrors.{GoError, Sentinel, Message, wrapped, sentinel, sprintf}

pub record ClusterMeta : Type 0 where
  pub name : String
  pub display_name : String
  pub healthy : Bool
  pub is_open_shift : Bool
  pub git_ops_path : String
  pub allowed_namespaces : List String

pub record ImpersonationConfig : Type 0 where
  pub user_name : String
  pub groups : List String

pub record RestConfig : Type 0 where
  pub host : String
  pub bearer_token : String
  pub bearer_token_file : String
  pub impersonate : ImpersonationConfig
  pub other : String

pub record ClusterCredential : Type 0 where
  pub bearer_token : String
  pub impersonate_user : String
  pub impersonate_groups : List String

-- `auth.ClusterCredential{}`
abbrev pub no_credential : ClusterCredential
no_credential = record { bearer_token = ""; impersonate_user = ""; impersonate_groups = [] }

-- `healthy` here is the live status; the one in `meta` counts in the snapshots of `list`.
pub record ClusterClient : Type 0 where
  pub meta : ClusterMeta
  pub healthy : Bool
  pub rest_config : RestConfig

abbrev pub Manager : Type 0
Manager = Assoc ClusterClient

unfoldable pub get_cluster : Manager → String → Result GoError ClusterClient
unfolding lookup
get_cluster m name = elim (lookup name m) [
  | none ↦ err (wrapped (sprintf "%q" (name ∷ [])) (sentinel Sentinel.cluster_not_found))
  | some cc ↦ ok cc
]

unfoldable pub list_clusters : Manager → List ClusterMeta
list_clusters [] = []
list_clusters ((name, cc) ∷ m) = record cc.meta { healthy = cc.healthy } ∷ list_clusters m

-- The config of the request's client: a copy of the cluster's with the caller's credential.
unfoldable pub scoped_config : RestConfig → ClusterCredential → RestConfig
scoped_config base cred =
    let with_token =
      if not (cred.bearer_token == "")
      then record base { bearer_token = cred.bearer_token; bearer_token_file = "" }
      else base in
    if not (cred.impersonate_user == "")
    then record with_token {
      impersonate = record { user_name = cred.impersonate_user; groups = cred.impersonate_groups };
    }
    else with_token

-- `new_client` is `client.New` of controller-runtime, with the scheme of the cluster.
unfoldable pub client_for {ℓ} :
    {C : Type ℓ}
    → (RestConfig → Result GoError C)
    → ClusterClient
    → ClusterCredential
    → Result GoError C
unfolding scoped_config
client_for new_client cc cred = new_client (scoped_config cc.rest_config cred)

-- The loop of `IsNamespaceAllowed`.
unfoldable pub listed : String → List String → Bool
listed namespace [] = false
listed namespace (n ∷ ns) = if n == namespace then true else listed namespace ns

unfoldable pub is_namespace_allowed : ClusterClient → String → Bool
unfolding listed
is_namespace_allowed cc namespace =
    if is_empty cc.meta.allowed_namespaces
    then true
    else listed namespace cc.meta.allowed_namespaces

unfoldable pub is_any_healthy : Manager → Bool
is_any_healthy [] = false
is_any_healthy ((name, cc) ∷ m) = if cc.healthy then true else is_any_healthy m

-- `healthy.Store(err == nil)` for each cluster.
unfoldable pub run_health_checks : (String → String → Option GoError) → Manager → Manager
run_health_checks probe [] = []
run_health_checks probe ((name, cc) ∷ m) =
    (name, record cc { healthy = not (is_some (probe name cc.rest_config.host)) })
    ∷ run_health_checks probe m
