-- ===== src/Capps/Handler/Planning.antt =====
-- internal/resources/namespaced/capps/handler.go: what `migrate` checks before it writes. The
-- source and the target client are made for two clusters of one world. `new_client` is `client.New`
-- of controller-runtime.
use capp_backend.Prelude.{
  String, Bool, List, [], ◌∷◌, Result, ok, err, ◌==◌, ◌&&◌, not, if◌then◌else◌, map_err, ◌>>=◌,
}
use capp_backend.ApiErrors.{
  GoError, api, errorf, wrapped, literal, sprintf, new_bad_request, new_internal, new_conflict,
  new_cluster_unhealthy, new_namespace_denied,
}
use capp_backend.Kubernetes.{Kit, Capp, Dependent}
use capp_backend.Kubernetes.Client.{Client}
use capp_backend.Clusters.{
  ClusterCredential, RestConfig, get_cluster, client_for, is_namespace_allowed,
}
use capp_backend.Clusters.Middleware.{Slot, absent, mistyped, holding, unresolved}
use capp_backend.Capps.Types.{MigrateRequest}
use capp_backend.Capps.Migrate.{resolve_target_hostname, list_managed_resources}
use capp_backend.Capps.Handler.{
  Libraries, Handler, RequestContext, extract_client, extract_cluster_meta, bind_json, unfound,
  find_capp,
}

unfoldable pub credential : Slot ClusterCredential → Result GoError ClusterCredential
credential absent = err (new_internal (errorf (literal "credential not found in context")))
credential mistyped =
    err (new_internal (errorf (literal "credential has unexpected type in context")))
credential (holding cred) = ok cred

abbrev pub unless : Bool → GoError → Result GoError (Unit {0})
unless b e = if b then ok tt else err e

-- What the checks of `migrate` have found: all that the copy needs.
pub record Plan (k : Kit) (W : Type 0) : Type 0 where
  pub source : Client k W
  pub target : Client k W
  pub req : MigrateRequest
  pub source_cluster : String
  pub source_capp : Capp k
  pub hostname : String
  pub secrets : List Dependent
  pub config_maps : List Dependent

module _ {k : Kit} {W : Type 0} (new_client : RestConfig → Result GoError (Client k W))
    (h : Handler W) where
  -- The target cluster of a request, and the client for it.
  unfoldable pub target_client :
      MigrateRequest → Slot ClusterCredential → Result GoError (Client k W)
  unfolding credential get_cluster unresolved is_namespace_allowed client_for
  target_client req slot = credential slot >>= λ cred.
      map_err (unresolved req.target_cluster) (get_cluster h.cluster_mgr req.target_cluster)
      >>= λ cluster.
          unless cluster.healthy (api (new_cluster_unhealthy req.target_cluster)) >>= λ _.
          unless (is_namespace_allowed cluster req.target_namespace)
            (api (new_namespace_denied req.target_namespace req.target_cluster))
          >>= λ _.
              map_err (λ e. new_internal (wrapped (literal "build target client") e))
                (client_for new_client cluster cred)

module _ {k : Kit} {W : Type 0} (l : Libraries k) where
  -- The target has no Capp of the name.
  unfoldable pub check_no_capp : Client k W → String → String → W → Result GoError (Unit {0})
  check_no_capp target namespace name w = elim (target.get_capp namespace name w) [
    | ok found ↦ err (api (new_conflict (sprintf "Capp %q already exists" (name ∷ []))))
    | err e ↦ if l.errors.is_not_found e then ok tt else err e
  ]

module _ {k : Kit} {W : Type 0} (l : Libraries k)
    (new_client : RestConfig → Result GoError (Client k W)) (h : Handler W) where
  -- `migrate` down to `listManagedResources`, which reads and changes nothing.
  unfoldable pub plan_migration :
      RequestContext k W
      → String
      → String
      → Result GoError MigrateRequest
      → W
      → Result GoError (Plan k W)
  unfolding extract_client bind_json extract_cluster_meta target_client unfound find_capp
      check_no_capp resolve_target_hostname list_managed_resources
  plan_migration rc namespace name body w = extract_client rc.client >>= λ source.
      bind_json l body >>= λ req. map_err new_internal (extract_cluster_meta rc.meta) >>= λ meta.
      unless (not (req.target_cluster == meta.name && req.target_namespace == namespace))
        (api (new_bad_request (literal "cannot migrate to the same cluster and namespace")))
      >>= λ _. target_client new_client h req rc.credential >>= λ target.
          map_err (unfound l "Namespace" req.target_namespace)
            (target.get_namespace req.target_namespace w)
          >>= λ _. find_capp l source namespace name w >>= λ source_capp.
              check_no_capp l target req.target_namespace name w >>= λ _.
              resolve_target_hostname source_capp.spec.route_spec.hostname req.target_hostname
                req.delete_source
              >>= λ hostname.
                  map_err (λ e. new_internal (wrapped (literal "list managed resources") e))
                    (list_managed_resources l.errors source namespace w)
                  >>= λ found. ok (record {
                    source = source;
                    target = target;
                    req = req;
                    source_cluster = meta.name;
                    source_capp = source_capp;
                    hostname = hostname;
                    secrets = found.0;
                    config_maps = found.1;
                  })
