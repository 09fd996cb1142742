-- ===== src/Config/Accepted.antt =====
-- internal/config/validation.go: what `Validate` promises of a configuration that it accepts.
use Prim.Native.String.{[]}
use capp_backend.Prelude.{
  String, ◌≡◌, ◌≢◌, ◌&&◌, ◌⊎◌, inl, inr, refl, Bool, true, false, Option, none, some, List, [], ◌∷◌,
  ◌==◌, if◌then◌else◌, arith, eq_iff, All, IsNodup, Bool-cases, is_empty,
}
use capp_backend.ApiErrors.{Message}
use capp_backend.Config.{ClusterConfig, InlineCredential, GitOpsConfig, error_if, not_positive}
use capp_backend.Config.Clusters.{IsSound, names_of, validate_clusters_iff}
use capp_backend.Config.GitOps.{IsPositive, IsComplete, not_positive_iff, validate_git_ops_iff}
use capp_backend.Config.Ldap.{Formats}
use capp_backend.Config.Errors.{passes, filled, first, others, joined-eq-nil}
use capp_backend.Config.Login.{
  IsDirectoryLogin, IsOAuthLogin, validate_openshift-IsOAuthLogin, ldap-IsDirectoryLogin,
}
use capp_backend.Config.Patterns.{has_slash_or_space}
use capp_backend.Config.Validate.{
  Config, BenchmarkConfig, benchmark_errors, compact_vm_urls, validate_benchmarks, all_errors,
  auth_errors, RateLimitConfig, AuthConfig, git_ops_directory, validate, validate_auth,
  validate_mode, validate_git_ops_paths, validate_tokens, has_no_token,
}

-- The backend has a token of its own for the cluster.
abbrev HasToken : Option InlineCredential → Type 0
HasToken none = ⊥
HasToken (some inline) = inline.token ≢ ""

abbrev pub HasServiceToken : ClusterConfig → Type 0
HasServiceToken c = HasToken c.credential.inline

-- The `gitOpsPath` of the cluster, or its name in place of an empty one, has no slash and no space.
abbrev pub HasPlainPath : ClusterConfig → Type 0
HasPlainPath c = has_slash_or_space (git_ops_directory c) ≡ false

-- A mode that is known, with all it needs; the two modes that impersonate have a token for each
-- cluster.
abbrev pub IsLogin : Formats → AuthConfig → List ClusterConfig → Type 0
IsLogin f auth cs =
    (auth.mode ≡ "passthrough")
    ⊎ (((auth.mode ≡ "openshift") × IsOAuthLogin auth.openshift × All HasServiceToken cs)
        ⊎ ((auth.mode ≡ "ldap") × IsDirectoryLogin f auth.ldap × All HasServiceToken cs))

abbrev pub IsBackup : GitOpsConfig → List ClusterConfig → Type 0
IsBackup g cs = (g.enabled ≡ false) ⊎ (IsComplete g × All HasPlainPath cs)

inline-HasToken :
    (o : Option InlineCredential) (e : Message) → error_if (has_no_token o) e ≡ [] → HasToken o
inline-HasToken none e h = absurd cc
inline-HasToken (some inline) e h = filled inline.token e h

validate_tokens-HasServiceToken :
    (mode : String) (cs : List ClusterConfig)
    → validate_tokens mode cs ≡ []
    → All HasServiceToken cs
unfolding validate_tokens
validate_tokens-HasServiceToken mode [] h = tt
validate_tokens-HasServiceToken mode (c ∷ cs) h = (
  inline-HasToken c.credential.inline _ (first _ _ h),
  validate_tokens-HasServiceToken mode cs (others _ _ h),
)

validate_git_ops_paths-HasPlainPath :
    (cs : List ClusterConfig) → validate_git_ops_paths cs ≡ [] → All HasPlainPath cs
unfolding validate_git_ops_paths
validate_git_ops_paths-HasPlainPath [] h = tt
validate_git_ops_paths-HasPlainPath (c ∷ cs) h =
    (passes _ _ (first _ _ h), validate_git_ops_paths-HasPlainPath cs (others _ _ h))

-- The mode that `validate_auth` accepts, and what it demands of it.
abbrev ByMode : Formats → AuthConfig → Type 0
ByMode f auth =
    (auth.mode ≡ "passthrough")
    ⊎ (((auth.mode ≡ "openshift") × IsOAuthLogin auth.openshift)
        ⊎ ((auth.mode ≡ "ldap") × IsDirectoryLogin f auth.ldap))

reversed : (s t : String) → (s == t) ≡ false → (t == s) ≡ false
reversed s t = ground (arith, eq_iff s t, eq_iff t s)

taken : (b : Bool) (es : List Message) → b ≡ true → (if b then es else []) ≡ [] → es ≡ []
taken true es e h = h
taken false es e h = absurd cc

validate_mode-ByMode : (f : Formats) (auth : AuthConfig) → validate_mode f auth ≡ [] → ByMode f auth
unfolding validate_mode
validate_mode-ByMode f auth h = elim (Bool-cases (auth.mode == "openshift")) [
  | inl openshift ↦
      let name = (eq_iff auth.mode "openshift").0 openshift in
      inr (inl (name, validate_openshift-IsOAuthLogin auth.openshift (first _ _ (rw name at h))))
  | inr other ↦ elim (Bool-cases (auth.mode == "ldap")) [
    | inl ldap ↦
        let name = (eq_iff auth.mode "ldap").0 ldap in
        inr (inr (name, ldap-IsDirectoryLogin f auth.ldap (rw name at h)))
    | inr neither ↦ elim (Bool-cases (auth.mode == "passthrough")) [
      | inl passthrough ↦ inl ((eq_iff auth.mode "passthrough").0 passthrough)
      | inr unknown ↦
          let no = rw (reversed _ _ unknown, reversed _ _ other, reversed _ _ neither) at h in
          absurd cc
    ]
  ]
]

abbrev pub IsLimit : RateLimitConfig → Type 0
IsLimit r = r.enabled ≡ true → IsPositive r.max_ip_tracked

positive-IsLimit :
    (r : RateLimitConfig) (e : Message)
    → error_if (r.enabled && not_positive r.max_ip_tracked) e ≡ []
    → IsLimit r
positive-IsLimit r e h on = (not_positive_iff r.max_ip_tracked).0 (passes _ _ (rw on at h))

-- Benchmarks are off, or have an image, a URL that is not blank, and a key.
abbrev pub IsBenchmark : Formats → BenchmarkConfig → Type 0
IsBenchmark f b =
    (b.enabled ≡ false)
    ⊎ ((b.image ≢ "")
        × (compact_vm_urls f.trim_space b.vm_urls ≢ [])
        × (f.trim_space b.api_key ≢ ""))

not_empty : (urls : List String) → is_empty urls ≡ false → urls ≢ []
not_empty [] h e = absurd cc
not_empty (u ∷ urls) h e = cc

benchmarks-IsBenchmark :
    (f : Formats) (b : BenchmarkConfig) → validate_benchmarks f b ≡ [] → IsBenchmark f b
unfolding validate_benchmarks
benchmarks-IsBenchmark f b h = elim (Bool-cases b.enabled) [
  | inr off ↦ inl off
  | inl on ↦
      let (image, (urls, (key, end))) = joined-eq-nil (benchmark_errors f b) (rw on at h) in
      inr (filled _ _ image, not_empty _ (passes _ _ urls), filled _ _ key)
]

-- If `Validate` accepts a configuration, every validator has found what it asks for. There is a
-- cluster, each has a name and a credential, and no name occurs twice. The mode of the login is
-- known: OpenShift has its four settings; LDAP has an `ldaps` endpoint, DNs, filters with one
-- placeholder, attributes, a password, an issuer, an audience, positive times, a signing key, and
-- no other key under its identifier; and in these two modes each cluster has a token of the
-- backend. Backups are off, or complete with plain paths. A rate limiter that is on tracks at least
-- one address. Benchmarks are off, or complete.
pub validate-IsServable :
    (f : Formats) (cfg : Config)
    → validate f cfg ≡ []
    → ((cfg.clusters ≢ []) × All IsSound cfg.clusters × IsNodup (names_of cfg.clusters))
      × IsLogin f cfg.auth cfg.clusters
      × IsBackup cfg.git_ops cfg.clusters
      × IsLimit cfg.auth.rate_limit
      × IsBenchmark f cfg.benchmarks
unfolding validate all_errors validate_auth auth_errors
validate-IsServable f cfg h =
    let (clusters, (auth, (git_ops, (benchmarks, (paths, (tokens, end)))))) =
      joined-eq-nil (all_errors f cfg) h in
    let (limit, (mode, end)) = joined-eq-nil (auth_errors f cfg.auth) auth in
    (
      (validate_clusters_iff cfg.clusters).0 clusters,
      elim (validate_mode-ByMode f cfg.auth mode) [
        | inl e ↦ inl e
        | inr (inl (e, login)) ↦ inr (
            inl (
              e,
              login,
              validate_tokens-HasServiceToken cfg.auth.mode cfg.clusters
                  (taken _ _ (rw e refl) tokens),
            ))
        | inr (inr (e, login)) ↦ inr (
            inr (
              e,
              login,
              validate_tokens-HasServiceToken cfg.auth.mode cfg.clusters
                  (taken _ _ (rw e refl) tokens),
            ))
      ],
      elim (Bool-cases cfg.git_ops.enabled) [
        | inl on ↦ elim ((validate_git_ops_iff cfg.git_ops).0 git_ops) [
          | inl off ↦ inl off
          | inr complete ↦
              inr (complete, validate_git_ops_paths-HasPlainPath cfg.clusters (taken _ _ on paths))
        ]
        | inr off ↦ inl off
      ],
      positive-IsLimit cfg.auth.rate_limit _ limit,
      benchmarks-IsBenchmark f cfg.benchmarks benchmarks,
    )
