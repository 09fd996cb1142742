-- ===== src/Auth/OpenShift.antt =====
-- internal/auth/openshift.go: `Authenticate`, and a round of `StartCleanup`.
use capp_backend.Prelude.{
  ℕ, ◌+◌, String, Bool, Option, none, some, List, [], ◌∷◌, Result, ok, err, ltb, if◌then◌else◌,
}
use capp_backend.Prelude.Assoc.{lookup, insert, delete}
use capp_backend.ApiErrors.{GoError, sentinel, unauthenticated, wrapped, literal}
use capp_backend.Kubernetes.Exec.{Exec}
use capp_backend.Clusters.{ClusterCredential}
use capp_backend.Auth.Types.{CachedIdentity, TokenCache}
use capp_backend.Auth.Bearer.{bearer_token}

-- `result.Status` of a TokenReview.
pub record ReviewStatus : Type 0 where
  pub authenticated : Bool
  pub username : String
  pub groups : List String

-- What the manager asks of libraries: the SHA-256 of a token in hexadecimal, the clock, and the
-- TokenReview on the home cluster.
pub record Reviewer (W : Type 0) : Type 0 where
  pub sha256_sum : String → String
  pub now : W → ℕ
  pub review : String → Exec W ReviewStatus

abbrev pub impersonating : String → List String → ClusterCredential
impersonating user groups = record {
  bearer_token = "";
  impersonate_user = user;
  impersonate_groups = groups;
}

-- What the cache says of a token.
pub data Cached : Type 0 where
  hit : ClusterCredential → Cached
  corrupt miss : Cached

-- The entry that was found under a key, and the cache after it.
unfoldable pub use_entry :
    String → Option (Option CachedIdentity) → ℕ → TokenCache → Cached × TokenCache
unfolding delete
use_entry key none now cache = (miss, cache)
use_entry key (some none) now cache = (corrupt, delete key cache)
use_entry key (some (some c)) now cache =
    if ltb now c.expires_at
    then (hit (impersonating c.username c.groups), cache)
    else (miss, delete key cache)

unfoldable pub check_cache : String → ℕ → TokenCache → Cached × TokenCache
unfolding use_entry lookup
check_cache key now cache = use_entry key (lookup key cache) now cache

-- What becomes of a review: the credential, and the cache with its entry.
unfoldable pub accept :
    String → ℕ → ℕ → ReviewStatus → TokenCache → Result GoError ClusterCredential × TokenCache
unfolding insert
accept key ttl now status cache =
    if status.authenticated
    then (
      ok (impersonating status.username status.groups),
      insert key
          (some
            (record { username = status.username; groups = status.groups; expires_at = now + ttl }))
          cache,
    )
    else (err (sentinel unauthenticated), cache)

-- A round of the cleanup.
unfoldable pub evict_expired : ℕ → TokenCache → TokenCache
evict_expired now [] = []
evict_expired now ((key, none) ∷ cache) = (key, none) ∷ evict_expired now cache
evict_expired now ((key, some c) ∷ cache) =
    let rest = evict_expired now cache in
    if ltb c.expires_at now then rest else (key, some c) ∷ rest

module _ {W : Type 0} (r : Reviewer W) (ttl : ℕ) where
  -- The world is the cache with all else.
  unfoldable pub after_review :
      String
      → TokenCache
      → Result GoError ReviewStatus × W
      → Result GoError ClusterCredential × (TokenCache × W)
  unfolding accept
  after_review token cache (err e, w) =
      (err (wrapped (literal "openshift: token review failed") e), (cache, w))
  after_review token cache (ok status, w) =
      let (answer, kept) = accept (r.sha256_sum token) ttl (r.now w) status cache in
      (answer, (kept, w))

  unfoldable pub answer_from :
      String → Cached × TokenCache → W → Result GoError ClusterCredential × (TokenCache × W)
  unfolding after_review
  answer_from token (hit cred, cache) w = (ok cred, (cache, w))
  answer_from token (corrupt, cache) w = (err (sentinel unauthenticated), (cache, w))
  answer_from token (miss, cache) w = after_review token cache (r.review token w)

  unfoldable pub authenticate : String → Exec (TokenCache × W) ClusterCredential
  unfolding bearer_token check_cache answer_from
  authenticate header (cache, w) = elim (bearer_token header) [
    | err e ↦ (err e, (cache, w))
    | ok token ↦ answer_from token (check_cache (r.sha256_sum token) (r.now w) cache) w
  ]
