-- ===== src/Capps/Handler/Checks.antt =====
-- internal/resources/namespaced/capps/handler.go: what has been checked once `migrate` starts to
-- write.
use capp_backend.Prelude.{
  subst, ok-injective, String, ◌≡◌, refl, Bool, true, false, ◌&&◌, not, some, Result, ok, err,
  >>=-eq-ok, map_err, map_err-eq-ok, ◌==◌, arith, if◌then◌else◌, Result-cases, inl, inr,
}
use capp_backend.Prelude.Assoc.{lookup}
use capp_backend.ApiErrors.{GoError}
use capp_backend.Kubernetes.{Kit}
use capp_backend.Kubernetes.Client.{Client}
use capp_backend.Clusters.{
  ClusterMeta, ClusterCredential, ClusterClient, RestConfig, get_cluster, client_for, scoped_config,
  is_namespace_allowed,
}
use capp_backend.Capps.Handler.Updates.{extract_client-ok}
use capp_backend.Clusters.Middleware.{Slot, absent, mistyped, holding}
use capp_backend.Capps.Types.{MigrateRequest}
use capp_backend.Capps.Migrate.{resolve_target_hostname, list_managed_resources}
use capp_backend.Capps.Handler.{
  Libraries, Handler, RequestContext, extract_client, extract_cluster_meta, bind_json, find_capp,
}
use capp_backend.Capps.Handler.Planning.{
  Plan, credential, target_client, check_no_capp, plan_migration, unless,
}

module _ {k : Kit} {W : Type 0} (l : Libraries k)
    (new_client : RestConfig → Result GoError (Client k W)) (h : Handler W) where
  -- The caller may use the target: its cluster is configured and healthy, the namespace is accessible
  -- on it, and the client carries the caller's credential.
  pub record MayUse (req : MigrateRequest) (slot : Slot ClusterCredential) (target : Client k W)
      : Type 0 where
    pub cluster : ClusterClient
    pub cred : ClusterCredential
    pub credited : slot ≡ holding cred
    pub configured : lookup req.target_cluster h.cluster_mgr ≡ some cluster
    pub healthy : cluster.healthy ≡ true
    pub accessible : is_namespace_allowed cluster req.target_namespace ≡ true
    pub callers : new_client (scoped_config cluster.rest_config cred) ≡ ok target

  credential-ok :
      (slot : Slot ClusterCredential) (cred : ClusterCredential)
      → credential slot ≡ ok cred
      → slot ≡ holding cred
  unfolding credential
  credential-ok absent cred e = absurd cc
  credential-ok mistyped cred e = absurd cc
  credential-ok (holding c) cred e = cc

  unless-ok : (b : Bool) (e : GoError) {u : Unit {0}} → unless b e ≡ ok u → b ≡ true
  unless-ok true e h = refl
  unless-ok false e h = absurd cc

  get_cluster-ok :
      (name : String) (cluster : ClusterClient)
      → get_cluster h.cluster_mgr name ≡ ok cluster
      → lookup name h.cluster_mgr ≡ some cluster
  unfolding get_cluster
  get_cluster-ok name cluster e = ground arith

  target_client-MayUse :
      (req : MigrateRequest) (slot : Slot ClusterCredential) (target : Client k W)
      → target_client new_client h req slot ≡ ok target
      → MayUse req slot target
  unfolding target_client client_for
  target_client-MayUse req slot target e =
      let (cred, credited, e1) = >>=-eq-ok (credential slot) _ e in
      let (cluster, found, e2) =
        >>=-eq-ok (map_err _ (get_cluster h.cluster_mgr req.target_cluster)) _ e1 in
      let (_, well, e3) = >>=-eq-ok (unless cluster.healthy _) _ e2 in
      let (_, allowed, e4) =
        >>=-eq-ok (unless (is_namespace_allowed cluster req.target_namespace) _) _ e3 in
      record {
        cluster = cluster;
        cred = cred;
        credited = credential-ok slot cred credited;
        configured = get_cluster-ok req.target_cluster cluster (map_err-eq-ok _ _ found);
        healthy = unless-ok _ _ well;
        accessible = unless-ok _ _ allowed;
        callers = map_err-eq-ok _ _ e4;
      }

  -- What a plan rests on.
  pub record Permitted (rc : RequestContext k W) (namespace name : String) (w : W) (p : Plan k W)
      : Type 0 where
    pub meta : ClusterMeta
    pub from_here : rc.client ≡ holding p.source
    pub on : extract_cluster_meta rc.meta ≡ ok meta
    pub elsewhere :
        (p.req.target_cluster == meta.name && p.req.target_namespace == namespace) ≡ false
    pub may_use : MayUse p.req rc.credential p.target
    pub exists : p.source.get_capp namespace name w ≡ ok p.source_capp
    pub free :
        (e : GoError) × (p.target.get_capp p.req.target_namespace name w ≡ err e)
        × (l.errors.is_not_found e ≡ true)
    pub hostname :
        resolve_target_hostname p.source_capp.spec.route_spec.hostname p.req.target_hostname
          p.req.delete_source
        ≡ ok p.hostname
    pub found : list_managed_resources l.errors p.source namespace w ≡ ok (p.secrets, p.config_maps)

  not_found :
      (e : GoError) {u : Unit {0}}
      → (if l.errors.is_not_found e then ok tt else err e) ≡ ok u
      → l.errors.is_not_found e ≡ true
  not_found e h = ground arith

  check_no_capp-ok :
      (target : Client k W) (namespace name : String) (w : W) {u : Unit {0}}
      → check_no_capp l target namespace name w ≡ ok u
      → (e : GoError) × (target.get_capp namespace name w ≡ err e)
        × (l.errors.is_not_found e ≡ true)
  unfolding check_no_capp
  check_no_capp-ok target namespace name w done =
      elim (Result-cases (target.get_capp namespace name w)) [
        | inl (capp, there) ↦ let no = rw (there, check_no_capp) at done in absurd cc
        | inr (e, failed) ↦ (e, failed, not_found e (rw (failed, check_no_capp) at done))
      ]

  not-true : (b : Bool) → not b ≡ true → b ≡ false
  not-true b h = ground arith

  -- Before `migrate` writes anything, all of this holds: the Capp of the URL exists; the target is
  -- not where it already is; the target cluster is configured and healthy, the target namespace
  -- accessible on it, and the target's client carries the caller's credential; no Capp of the name
  -- is there; the hostname is the resolved one; and what is to be copied is what the source's
  -- listing gave.
  pub plan_migration-Permitted :
      (rc : RequestContext k W) (namespace name : String) (body : Result GoError MigrateRequest)
      (w : W) (p : Plan k W)
      → plan_migration l new_client h rc namespace name body w ≡ ok p
      → Permitted rc namespace name w p
  unfolding plan_migration find_capp
  plan_migration-Permitted rc namespace name body w p done =
      let (source, from_here, e1) = >>=-eq-ok (extract_client rc.client) _ done in
      let (req, bound, e2) = >>=-eq-ok (bind_json l body) _ e1 in
      let (meta, on, e3) = >>=-eq-ok (map_err _ (extract_cluster_meta rc.meta)) _ e2 in
      let (_, elsewhere, e4) =
        >>=-eq-ok
          (unless (not (req.target_cluster == meta.name && req.target_namespace == namespace)) _) _
          e3 in
      let (target, usable, e5) = >>=-eq-ok (target_client new_client h req rc.credential) _ e4 in
      let (_, there, e6) =
        >>=-eq-ok (map_err _ (target.get_namespace req.target_namespace w)) _ e5 in
      let (source_capp, exists, e7) = >>=-eq-ok (find_capp l source namespace name w) _ e6 in
      let (_, free, e8) = >>=-eq-ok (check_no_capp l target req.target_namespace name w) _ e7 in
      let (hostname, resolved, e9) =
        >>=-eq-ok
          (resolve_target_hostname source_capp.spec.route_spec.hostname req.target_hostname
            req.delete_source)
          _ e8 in
      let (found, listed, e10) =
        >>=-eq-ok (map_err _ (list_managed_resources l.errors source namespace w)) _ e9 in
      subst (Permitted rc namespace name w) (ok-injective e10) (record {
        meta = meta;
        from_here = extract_client-ok rc.client source from_here;
        on = map_err-eq-ok _ _ on;
        elsewhere = not-true _ (unless-ok _ _ elsewhere);
        may_use = target_client-MayUse req rc.credential target usable;
        exists = map_err-eq-ok _ _ exists;
        free = check_no_capp-ok target req.target_namespace name w free;
        hostname = resolved;
        found = map_err-eq-ok _ _ listed;
      })
