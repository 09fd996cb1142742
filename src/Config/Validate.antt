-- ===== src/Config/Validate.antt =====
-- internal/config/validation.go: `Validate` and the validators of the authentication, the benchmarks
-- and the paths of the GitOps repository. `errors.Join` is nil exactly for the empty list.
use Prim.Native.String.{[]}
use capp_backend.Prelude.{
  ℤ, String, Bool, true, ◌&&◌, ◌||◌, not, Option, none, some, List, [], ◌∷◌, ◌++◌, ◌==◌,
  if◌then◌else◌, contains, is_empty,
}
use capp_backend.ApiErrors.{Message, literal, sprintf}
use capp_backend.Auth.Types.{OpenShiftConfig}
use capp_backend.Config.{
  ClusterConfig, InlineCredential, GitOpsConfig, error_if, joined, not_positive, validate_clusters,
  validate_git_ops,
}
use capp_backend.Config.Ldap.{Formats, LdapSettings, validate_ldap}
use capp_backend.Config.Patterns.{has_slash_or_space}

pub record RateLimitConfig : Type 0 where
  pub enabled : Bool
  pub max_ip_tracked : ℤ

pub record OpenShiftSettings : Type 0 where
  pub api_server : String
  pub client : OpenShiftConfig

pub record AuthConfig : Type 0 where
  pub mode : String
  pub openshift : OpenShiftSettings
  pub ldap : LdapSettings
  pub rate_limit : RateLimitConfig

pub record BenchmarkConfig : Type 0 where
  pub enabled : Bool
  pub image : String
  pub vm_urls : List String
  pub api_key : String

pub record Config : Type 0 where
  pub auth : AuthConfig
  pub clusters : List ClusterConfig
  pub benchmarks : BenchmarkConfig
  pub git_ops : GitOpsConfig

unfoldable pub openshift_errors : OpenShiftSettings → List (List Message)
openshift_errors o =
    (error_if (o.api_server == "")
      (literal "config: auth.openshift.apiServer is required when auth.mode is 'openshift'"))
    ∷ (error_if (o.client.client_id == "")
        (literal "config: auth.openshift.clientId is required when auth.mode is 'openshift'"))
    ∷ (error_if (o.client.client_secret == "") (
        literal
          "config: auth.openshift.clientSecret is required when auth.mode is 'openshift'; set via CAPP_AUTH_OPENSHIFT_CLIENTSECRET environment variable"))
    ∷ (error_if (o.client.redirect_uri == "")
        (literal "config: auth.openshift.redirectUri is required when auth.mode is 'openshift'"))
    ∷ []

unfoldable pub validate_openshift : OpenShiftSettings → List Message
unfolding openshift_errors
validate_openshift o = joined (openshift_errors o)

-- `validateAuth` after the rate limit.
unfoldable pub validate_mode : Formats → AuthConfig → List Message
unfolding validate_openshift validate_ldap
validate_mode f auth =
    if not (contains ("passthrough" ∷ "openshift" ∷ "ldap" ∷ []) auth.mode)
    then sprintf "config: auth.mode %q is not valid; must be one of: passthrough, openshift, ldap"
        (auth.mode ∷ [])
      ∷ []
    else ((if auth.mode == "openshift" then validate_openshift auth.openshift else [])
        ++ (if auth.mode == "ldap" then validate_ldap f auth.ldap else []))

unfoldable pub auth_errors : Formats → AuthConfig → List (List Message)
unfolding validate_mode
auth_errors f auth =
    (error_if (auth.rate_limit.enabled && not_positive auth.rate_limit.max_ip_tracked)
      (literal "config: auth.rateLimit.maxIPTracked must be greater than 0"))
    ∷ validate_mode f auth
    ∷ []

unfoldable pub validate_auth : Formats → AuthConfig → List Message
unfolding auth_errors
validate_auth f auth = joined (auth_errors f auth)

-- `compactVMURLs`.
unfoldable pub compact_vm_urls : (String → String) → List String → List String
compact_vm_urls trim_space [] = []
compact_vm_urls trim_space (u ∷ urls) =
    let rest = compact_vm_urls trim_space urls in
    if trim_space u == "" then rest else trim_space u ∷ rest

unfoldable pub benchmark_errors : Formats → BenchmarkConfig → List (List Message)
unfolding compact_vm_urls
benchmark_errors f b =
    error_if (b.image == "") (
      literal
        "config: resources.benchmarks.image is required when resources.benchmarks.enabled is true")
    ∷ error_if (is_empty (compact_vm_urls f.trim_space b.vm_urls)) (
        literal
          "config: resources.benchmarks.vmURLs is required when resources.benchmarks.enabled is true; set via CAPP_RESOURCES_BENCHMARKS_VMURLS environment variable")
    ∷ error_if (f.trim_space b.api_key == "") (
        literal
          "config: resources.benchmarks.apiKey is required when resources.benchmarks.enabled is true; set via CAPP_RESOURCES_BENCHMARKS_APIKEY environment variable")
    ∷ []

unfoldable pub validate_benchmarks : Formats → BenchmarkConfig → List Message
unfolding benchmark_errors
validate_benchmarks f b = if not b.enabled then [] else joined (benchmark_errors f b)

abbrev pub git_ops_directory : ClusterConfig → String
git_ops_directory c = if c.git_ops_path == "" then c.name else c.git_ops_path

unfoldable pub validate_git_ops_paths : List ClusterConfig → List Message
unfolding has_slash_or_space
validate_git_ops_paths [] = []
validate_git_ops_paths (c ∷ cs) =
    error_if (has_slash_or_space (git_ops_directory c)) (
      sprintf "(%q): gitOpsPath %q must not contain slashes or spaces"
        (c.name ∷ git_ops_directory c ∷ []))
    ++ validate_git_ops_paths cs

abbrev pub has_no_token : Option InlineCredential → Bool
has_no_token none = true
has_no_token (some inline) = inline.token == ""

-- The loop of `Validate` over the clusters.
unfoldable pub validate_tokens : String → List ClusterConfig → List Message
validate_tokens mode [] = []
validate_tokens mode (c ∷ cs) =
    error_if (has_no_token c.credential.inline) (
      sprintf
        "(%q): credential.inline.token is required when auth.mode is '%s' (used as the service-account token for K8s impersonation)"
        (c.name ∷ mode ∷ []))
    ++ validate_tokens mode cs

unfoldable pub all_errors : Formats → Config → List (List Message)
unfolding validate_clusters validate_auth validate_git_ops validate_benchmarks
    validate_git_ops_paths validate_tokens
all_errors f cfg =
    validate_clusters cfg.clusters
    ∷ validate_auth f cfg.auth
    ∷ validate_git_ops cfg.git_ops
    ∷ validate_benchmarks f cfg.benchmarks
    ∷ ((if cfg.git_ops.enabled then validate_git_ops_paths cfg.clusters else []))
    ∷ (if cfg.auth.mode == "openshift" || cfg.auth.mode == "ldap"
        then validate_tokens cfg.auth.mode cfg.clusters
        else [])
    ∷ []

unfoldable pub validate : Formats → Config → List Message
unfolding all_errors
validate f cfg = joined (all_errors f cfg)
