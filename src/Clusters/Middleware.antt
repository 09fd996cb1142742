-- ===== src/Clusters/Middleware.antt =====
-- internal/middleware/cluster.go: what a request must pass before a handler sees a cluster.
use capp_backend.Prelude.{
  String, ◌≡◌, refl, true, false, not, Option, none, some, Result, ok, err, ◌>>=◌, ◌||◌, ◌&&◌, ◌↔◌,
  map_err, ◌==◌, if◌then◌else◌, arith, >>=-eq-ok,
}
use capp_backend.Prelude.Assoc.{lookup}
use capp_backend.ApiErrors.{
  GoError, Sentinel, is_sentinel, api, new_internal, new_cluster_not_found, new_cluster_unhealthy,
  new_namespace_denied, errorf, literal,
}
use capp_backend.Clusters.{
  Manager, ClusterClient, ClusterMeta, ClusterCredential, RestConfig, no_credential, client_for,
  scoped_config, is_namespace_allowed, get_cluster,
}

-- A value that a middleware has put into the Gin context: none, one of another type, or this one.
pub data Slot {ℓ} (A : Type ℓ) : Type ℓ where
  absent mistyped : Slot A
  holding : A → Slot A

-- What the middleware puts into the context.
pub record Scoped {ℓ} (C : Type ℓ) : Type ℓ where
  pub client : C
  pub admin_client : C
  pub meta : ClusterMeta

unfoldable pub credential : Slot ClusterCredential → Result GoError ClusterCredential
credential absent = err (
    new_internal (
      errorf (
        literal
          "cluster middleware: credential not found in context — auth middleware must run first")))
credential mistyped =
    err (new_internal (errorf (literal "cluster middleware: credential has unexpected type")))
credential (holding cred) = ok cred

-- The answer for a name that the manager does not return.
unfoldable pub unresolved : String → GoError → GoError
unfolding is_sentinel
unresolved name e =
    if is_sentinel Sentinel.cluster_not_found e
    then api (new_cluster_not_found name)
    else new_internal e

module _ {ℓ} {C : Type ℓ} (new_client : RestConfig → Result GoError C) (m : Manager) where
  -- The checks on the cluster that the manager returned, and the two clients.
  unfoldable pub admit :
      ClusterClient → String → String → Slot ClusterCredential → Result GoError (Scoped C)
  unfolding credential client_for
  admit cluster cluster_name namespace slot =
      if not cluster.healthy
      then err (api (new_cluster_unhealthy cluster_name))
      else if not (namespace == "") && not (is_namespace_allowed cluster namespace)
      then err (api (new_namespace_denied namespace cluster_name))
      else credential slot >>= λ cred.
          map_err new_internal (client_for new_client cluster cred) >>= λ client.
          map_err new_internal (client_for new_client cluster no_credential) >>= λ admin.
          ok (record { client = client; admin_client = admin; meta = cluster.meta })

  -- `none` where the route has no cluster, which the middleware lets pass untouched.
  unfoldable pub cluster_middleware :
      String → String → Slot ClusterCredential → Result GoError (Option (Scoped C))
  unfolding get_cluster unresolved admit
  cluster_middleware cluster_name namespace slot =
      if cluster_name == ""
      then ok none
      else (map_err (unresolved cluster_name) (get_cluster m cluster_name) >>= λ cluster.
          admit cluster cluster_name namespace slot >>= λ scoped. ok (some scoped))

  -- What a request to a cluster must satisfy, and what it gets.
  pub record Admitted (cluster_name namespace : String) (slot : Slot ClusterCredential)
      (s : Scoped C) : Type ℓ where
    pub cluster : ClusterClient
    pub cred : ClusterCredential
    pub configured : lookup cluster_name m ≡ some cluster
    pub healthy : cluster.healthy ≡ true
    pub accessible : (namespace == "" || is_namespace_allowed cluster namespace) ≡ true
    pub credited : slot ≡ holding cred
    pub callers : new_client (scoped_config cluster.rest_config cred) ≡ ok s.client
    pub own : new_client cluster.rest_config ≡ ok s.admin_client
    pub meta : s.meta ≡ cluster.meta

  admit-holding :
      (cluster : ClusterClient) (cluster_name namespace : String) (cred : ClusterCredential)
      (s : Scoped C)
      → admit cluster cluster_name namespace (holding cred) ≡ ok s
      → (cluster.healthy ≡ true)
        × ((namespace == "" || is_namespace_allowed cluster namespace) ≡ true)
        × (new_client (scoped_config cluster.rest_config cred) ≡ ok s.client)
        × (new_client cluster.rest_config ≡ ok s.admin_client)
        × (s.meta ≡ cluster.meta)
  unfolding admit credential client_for
  admit-holding cluster cluster_name namespace cred s h = ground arith

  admit-credited :
      (cluster : ClusterClient) (cluster_name namespace : String) (slot : Slot ClusterCredential)
      (s : Scoped C)
      → admit cluster cluster_name namespace slot ≡ ok s
      → (cred : ClusterCredential) × (slot ≡ holding cred)
  unfolding admit credential
  admit-credited cluster cluster_name namespace absent s h = absurd (ground arith)
  admit-credited cluster cluster_name namespace mistyped s h = absurd (ground arith)
  admit-credited cluster cluster_name namespace (holding cred) s h = (cred, refl)

  get_cluster-ok :
      (cluster_name : String) (cluster : ClusterClient)
      → map_err (unresolved cluster_name) (get_cluster m cluster_name) ≡ ok cluster
      → lookup cluster_name m ≡ some cluster
  unfolding get_cluster
  get_cluster-ok cluster_name cluster h = ground arith

  -- A handler on a cluster's route is reached exactly if the cluster is configured and healthy, the
  -- namespace of the route, if there is one, is accessible on it, a credential was attached, and both
  -- clients could be built; the handler's client then carries the caller's credential, and the admin
  -- client the cluster's own config.
  pub cluster_middleware_iff :
      (cluster_name namespace : String) (slot : Slot ClusterCredential) (s : Scoped C)
      → (cluster_name == "") ≡ false
      → (cluster_middleware cluster_name namespace slot ≡ ok (some s))
        ↔ Admitted cluster_name namespace slot s
  unfolding cluster_middleware get_cluster client_for
  cluster_middleware_iff cluster_name namespace slot s named = (forward, backward)
    where
      forward :
          cluster_middleware cluster_name namespace slot ≡ ok (some s)
          → Admitted cluster_name namespace slot s
      forward h =
          let named' = rw (named, cluster_middleware) at h in
          let (cluster, found, admitted) =
            >>=-eq-ok (map_err (unresolved cluster_name) (get_cluster m cluster_name)) _ named' in
          let (scoped, e, same) =
            >>=-eq-ok (admit cluster cluster_name namespace slot) _ admitted in
          let (cred, credited) = admit-credited cluster cluster_name namespace slot scoped e in
          let whole : admit cluster cluster_name namespace (holding cred) ≡ ok s = cc in
          let (well, allowed, callers, own, meta) =
            admit-holding cluster cluster_name namespace cred s whole in
          record {
            cluster = cluster;
            cred = cred;
            configured = get_cluster-ok cluster_name cluster found;
            healthy = well;
            accessible = allowed;
            credited = credited;
            callers = callers;
            own = own;
            meta = meta;
          }

      backward :
          Admitted cluster_name namespace slot s
          → cluster_middleware cluster_name namespace slot ≡ ok (some s)
      backward a =
          rw (named, cluster_middleware, get_cluster, a.configured, a.credited, admit)
            (ground (arith, a.healthy, a.accessible, a.callers, a.own, a.meta))
