-- ===== src/Config.antt =====
-- internal/config/validation.go: the validation of clusters and of GitOps; the rest is in Config/Ldap
-- and Config/Validate. Each validator gives the list of its errors, of which the prefix that names a
-- cluster's place in the list and the numbers are left out. A record has the fields that these
-- validators read. An `int` is an integer.
pub mod Clusters
pub mod GitOps
pub mod Errors
pub mod Directory
pub mod Ldap
pub mod Login
pub mod Patterns
pub mod Accepted
pub mod Validate
use capp_backend.Prelude.{
  zero, suc, ℤ, pos, negsuc, String, Bool, true, false, Option, none, some, List, [], ◌∷◌, ◌++◌,
  ◌==◌, ◌||◌, not, if◌then◌else◌, contains,
}
use capp_backend.ApiErrors.{Message, literal, sprintf}

pub record InlineCredential : Type 0 where
  pub api_server : String
  pub token : String

pub record CredentialConfig : Type 0 where
  pub kubeconfig_path : String
  pub inline : Option InlineCredential

pub record ClusterConfig : Type 0 where
  pub name : String
  pub credential : CredentialConfig
  pub git_ops_path : String

pub record GitOpsConfig : Type 0 where
  pub enabled : Bool
  pub repo_url : String
  pub branch : String
  pub auth_method : String
  pub token : String
  pub ssh_key_path : String
  pub insecure_host_key : Bool
  pub path_prefix : String
  pub timeout_seconds : ℤ

-- One error if the test holds.
abbrev pub error_if : Bool → Message → List Message
error_if true e = e ∷ []
error_if false e = []

-- The errors of several validators, one after another: `errs = append(errs, ...)`.
abbrev pub joined : List (List Message) → List Message
joined [] = []
joined (es ∷ rest) = es ++ joined rest

unfoldable pub validate_credential : CredentialConfig → List Message
validate_credential cred = elim cred.inline [
  | none ↦
      error_if (cred.kubeconfig_path == "")
        (literal "credential: either 'kubeconfigPath' or 'inline' must be set")
  | some inline ↦
      error_if (inline.api_server == "") (literal "credential.inline: 'apiServer' is required")
]

-- The loop of `validateClusters`; `seen` holds the names so far.
unfoldable pub validate_clusters_from : List String → List ClusterConfig → List Message
unfolding validate_credential
validate_clusters_from seen [] = []
validate_clusters_from seen (c ∷ cs) =
    let rest = validate_clusters_from (c.name ∷ seen) cs in
    let rest_unnamed = validate_clusters_from seen cs in
    if c.name == ""
    then literal "'name' is required" ∷ validate_credential c.credential ++ rest_unnamed
    else (error_if (contains seen c.name) (sprintf "duplicate cluster name %q" (c.name ∷ []))
        ++ (validate_credential c.credential ++ rest))

unfoldable pub validate_clusters : List ClusterConfig → List Message
unfolding validate_clusters_from
validate_clusters [] = literal "config: at least one cluster must be defined under 'clusters'" ∷ []
validate_clusters (c ∷ cs) = validate_clusters_from [] (c ∷ cs)

abbrev pub not_positive : ℤ → Bool
not_positive (pos zero) = true
not_positive (pos (suc n)) = false
not_positive (negsuc n) = true

unfoldable pub validate_git_ops : GitOpsConfig → List Message
validate_git_ops g =
    let errs =
      error_if (g.repo_url == "")
        (literal "config: gitops.repoURL is required when gitops.enabled is true")
      ++ error_if (not_positive g.timeout_seconds)
          (literal "config: gitops.timeoutSeconds must be greater than 0") in
    if not g.enabled
    then []
    else if not (g.auth_method == "token" || g.auth_method == "ssh")
    then errs
      ++ sprintf "config: gitops.authMethod %q is not valid; must be one of: token, ssh"
          (g.auth_method ∷ [])
        ∷ []
    else if g.auth_method == "token"
    then errs
      ++ error_if (g.token == "") (
          literal
            "config: gitops.token is required when gitops.authMethod is 'token'; set via CAPP_GITOPS_TOKEN environment variable")
    else (errs
        ++ error_if (g.ssh_key_path == "") (
            literal
              "config: gitops.sshKeyPath is required when gitops.authMethod is 'ssh'; set via CAPP_GITOPS_SSHKEYPATH environment variable"))
