-- ===== src/Capps/Handler.antt =====
-- internal/resources/namespaced/capps/handler.go, values.go, internal/resources/namespaced/client.go
-- and pkg/k8s/labels.go: the handlers of the Capp routes. A handler is an action on the world that
-- gives a reply, or the error that it passes to `Respond`. The request body is what Gin's
-- `ShouldBindJSON` made of it. `Context.Error`, which only the request log reads, is left out.
pub mod Planning
pub mod Migration
pub mod Rollback
pub mod Backups
pub mod Updates
pub mod Checks
use capp_backend.Prelude.{
  ℕ, String, Bool, true, false, Option, none, some, List, [], ◌∷◌, Result, ok, err, ◌==◌,
  if◌then◌else◌, map, map_err, length,
}
use capp_backend.Prelude.Assoc.{Assoc, lookup, insert, delete}
use capp_backend.ApiErrors.{
  GoError, K8sErrors, api, errorf, wrapped, literal, sprintf, new_bad_request, new_not_found,
  new_internal, new_not_supported, new_gitops_failed,
}
use capp_backend.Kubernetes.{Kit, Capp, CappSpec}
use capp_backend.Kubernetes.Client.{Client}
use capp_backend.Kubernetes.Exec.{Exec, pure, lift, read, attempt, fail_with, ◌>>=◌}
use capp_backend.Clusters.{ClusterMeta, ClusterCredential, Manager}
use capp_backend.Clusters.Middleware.{Slot, absent, mistyped, holding}
use capp_backend.Capps.Types.{CappRequest, CappResponse, CappSizes, Warning, MigrateResponse}
use capp_backend.Capps.ToK8s.{to_k8s}
use capp_backend.Capps.FromK8s.{from_k8s}

abbrev pub label_backup_to_git : String
label_backup_to_git = "rcs.dana.io/backup-to-git"

unfoldable pub has_backup_label : Assoc String → Bool
has_backup_label labels = elim (lookup label_backup_to_git labels) [
  | none ↦ false
  | some v ↦ v == "true"
]

-- `syncValues`
pub record SyncValues (k : Kit) : Type 0 where
  pub name : String
  pub namespace : String
  pub spec : CappSpec k

-- What the handlers ask of libraries: the predicates on Kubernetes errors, `Error()` of an error, and
-- `yaml.Marshal`.
pub record Libraries (k : Kit) : Type 0 where
  pub errors : K8sErrors
  pub error_text : GoError → String
  pub marshal : SyncValues k → Result GoError String

-- `GitOpsSyncer`: the arguments are the directory, the namespace and the Capp's name, then the
-- values.
pub record GitOpsSyncer (W : Type 0) : Type 0 where
  pub sync_values : String → String → String → String → Exec W String
  pub delete_values : String → String → String → Exec W String
  pub build_rel_path : String → String → String → String

pub record Handler (W : Type 0) : Type 0 where
  pub gitops_enabled : Bool
  pub gitops : Option (GitOpsSyncer W)
  pub cluster_mgr : Manager
  pub sizes : CappSizes

-- What the middlewares have put into the Gin context.
pub record RequestContext (k : Kit) (W : Type 0) : Type 0 where
  pub client : Slot (Client k W)
  pub meta : Slot ClusterMeta
  pub credential : Slot ClusterCredential

pub record SyncResponse : Type 0 where
  pub enabled : Bool
  pub commit_sha : String
  pub path : String

pub data Body : Type 0 where
  capp_body : CappResponse → Body
  list_body : List CappResponse → ℕ → Body
  delete_body : List Warning → Body
  sync_body : SyncResponse → Body
  migrate_body : MigrateResponse → Body
  no_body : Body

pub record Reply : Type 0 where
  pub status : ℕ
  pub body : Body

abbrev pub reply : ℕ → Body → Reply
reply status body = record { status = status; body = body }

unfoldable pub extract_client {ℓ} : {C : Type ℓ} → Slot C → Result GoError C
extract_client absent = err (
    new_internal
      (errorf (literal "required context value K8sClientKey not set — check middleware order")))
extract_client mistyped =
    err (new_internal (errorf (literal "K8sClientKey has unexpected type in context")))
extract_client (holding c) = ok c

unfoldable pub extract_cluster_meta : Slot ClusterMeta → Result GoError ClusterMeta
extract_cluster_meta absent = err (errorf (literal "ClusterMeta not found in context"))
extract_cluster_meta mistyped = err (errorf (literal "ClusterMeta has unexpected type in context"))
extract_cluster_meta (holding m) = ok m

abbrev pub backup_warning : Warning
backup_warning = record {
  code = "GITOPS_FAILED";
  message =
      "the Capp was changed in the cluster, but its Git backup was not updated; sync/unsync to refresh it";
}

module _ {k : Kit} (l : Libraries k) where
  -- The answer where a `Get` by name failed.
  unfoldable pub unfound : String → String → GoError → GoError
  unfound resource name e = if l.errors.is_not_found e then api (new_not_found resource name) else e

  unfoldable pub bind_json {ℓ} : {A : Type ℓ} → Result GoError A → Result GoError A
  bind_json body =
      map_err
        (λ e. api (new_bad_request (sprintf "invalid request body: %s" (l.error_text e ∷ [])))) body

  abbrev pub bad_request_of : GoError → GoError
  bad_request_of e = api (new_bad_request (literal (l.error_text e)))

  unfoldable pub generate_values : Capp k → Result GoError String
  generate_values capp = map_err (wrapped (literal "marshal values")) (
      l.marshal (record {
        name = capp.metadata.name;
        namespace = capp.metadata.namespace;
        spec = capp.spec;
      }))

module _ {k : Kit} {W : Type 0} (l : Libraries k) where
  -- The `Get` of a Capp by which most handlers start.
  unfoldable pub find_capp : Client k W → String → String → W → Result GoError (Capp k)
  unfolding unfound
  find_capp c namespace name w = map_err (unfound l "Capp" name) (c.get_capp namespace name w)

  unfoldable pub sync_capp_values : GitOpsSyncer W → ClusterMeta → Capp k → Exec W String
  unfolding generate_values
  sync_capp_values g meta capp = do
    values ← lift (map_err (wrapped (literal "generate values")) (generate_values l capp))
    g.sync_values meta.name capp.metadata.namespace capp.metadata.name values

  -- The backup after an update: its warnings.
  unfoldable pub back_up : Option (GitOpsSyncer W × ClusterMeta) → Capp k → Exec W (List Warning)
  unfolding sync_capp_values
  back_up none capp = pure []
  back_up (some (g, meta)) capp =
      attempt (sync_capp_values g meta capp) (λ sha. pure []) (λ e. pure (backup_warning ∷ []))

abbrev pub with_name : {k : Kit} → String → Capp k → Capp k
with_name name capp = record capp { metadata = record capp.metadata { name = name } }

-- The end of `delete`: the values file goes after the Capp has gone.
unfoldable pub drop_values :
    {W : Type 0} → Option (GitOpsSyncer W × ClusterMeta) → String → String → Exec W Reply
drop_values none namespace name = pure (reply 204 no_body)
drop_values (some (g, meta)) namespace name =
    attempt (g.delete_values meta.name namespace name) (λ sha. pure (reply 204 no_body))
      (λ e. pure (reply 200 (delete_body (backup_warning ∷ []))))

-- `isGitOpsConfigured`, with the syncer.
unfoldable pub configured_gitops : {W : Type 0} → Handler W → Option (GitOpsSyncer W)
configured_gitops h = if h.gitops_enabled then h.gitops else none

-- `isGitSyncEnabledForCapp`, with the syncer.
unfoldable pub git_sync_of : {k : Kit} {W : Type 0} → Handler W → Capp k → Option (GitOpsSyncer W)
unfolding configured_gitops has_backup_label
git_sync_of h capp = if has_backup_label capp.metadata.labels then configured_gitops h else none

unfoldable pub with_backup_label : {k : Kit} → Bool → Capp k → Capp k
unfolding insert delete
with_backup_label enable capp = record capp {
  metadata = record capp.metadata {
    labels =
        if enable
        then insert label_backup_to_git "true" capp.metadata.labels
        else delete label_backup_to_git capp.metadata.labels;
  };
}

module _ {k : Kit} {W : Type 0} (l : Libraries k) (h : Handler W) (rc : RequestContext k W) where
  -- Where a change of the Capp is to be backed up, once the cluster's metadata are read.
  unfoldable pub backup_of : Capp k → Result GoError (Option (GitOpsSyncer W × ClusterMeta))
  unfolding git_sync_of extract_cluster_meta
  backup_of capp = elim (git_sync_of h capp) [
    | none ↦ ok none
    | some g ↦ elim (extract_cluster_meta rc.meta) [
      | err e ↦ err (new_internal e)
      | ok meta ↦ ok (some (g, meta))
    ]
  ]

  unfoldable pub respond_list : List (Capp k) → Reply
  respond_list items =
      let shown = map (λ capp. from_k8s k capp h.sizes) items in
      reply 200 (list_body shown (length shown))

  unfoldable pub list_all : Exec W Reply
  unfolding extract_client respond_list
  list_all = do
    client ← lift (extract_client rc.client)
    items ← read (client.list_capps none)
    pure (respond_list items)

  unfoldable pub list : String → Exec W Reply
  unfolding extract_client respond_list
  list namespace = do
    client ← lift (extract_client rc.client)
    items ← read (client.list_capps (some namespace))
    pure (respond_list items)

  unfoldable pub get : String → String → Exec W Reply
  unfolding extract_client find_capp
  get namespace name = do
    client ← lift (extract_client rc.client)
    capp ← read (find_capp l client namespace name)
    pure (reply 200 (capp_body (from_k8s k capp h.sizes)))

  unfoldable pub create : String → Result GoError CappRequest → Exec W Reply
  unfolding extract_client bind_json
  create namespace body = do
    client ← lift (extract_client rc.client)
    req ← lift (bind_json l body)
    capp ← lift (map_err (bad_request_of l) (to_k8s k req none namespace h.sizes))
    stored ← client.create_capp capp
    pure (reply 201 (capp_body (from_k8s k stored h.sizes)))

  unfoldable pub update : String → String → Result GoError CappRequest → Exec W Reply
  unfolding extract_client bind_json find_capp backup_of back_up
  update namespace name body = do
    client ← lift (extract_client rc.client)
    req ← lift (bind_json l body)
    existing ← read (find_capp l client namespace name)
    updated ← lift (map_err (bad_request_of l) (to_k8s k req (some existing) namespace h.sizes))
    backup ← lift (backup_of existing)
    stored ← client.update_capp (with_name name updated)
    warnings ← back_up l backup stored
    pure (reply 200 (capp_body (record (from_k8s k stored h.sizes) { warnings = warnings })))

  unfoldable pub delete_capp : String → String → Exec W Reply
  unfolding extract_client find_capp backup_of drop_values
  delete_capp namespace name = do
    client ← lift (extract_client rc.client)
    capp ← read (find_capp l client namespace name)
    backup ← lift (backup_of capp)
    gone ← client.delete_capp capp
    drop_values backup namespace name

  unfoldable pub set_git_sync : Bool → String → String → Exec W Reply
  unfolding configured_gitops extract_client find_capp extract_cluster_meta sync_capp_values
      with_backup_label
  set_git_sync enable namespace name = do
    g ←
        lift (elim (configured_gitops h) [
          | none ↦ err (api (new_not_supported "sync"))
          | some g ↦ ok g
        ])
    client ← lift (extract_client rc.client)
    capp ← read (find_capp l client namespace name)
    meta ← lift (map_err new_internal (extract_cluster_meta rc.meta))
    sha ← fail_with new_gitops_failed (
        if enable then sync_capp_values l g meta capp else g.delete_values meta.name namespace name)
    stored ← client.patch_capp capp (with_backup_label enable capp)
    pure (
        reply 200 (
          sync_body (record {
            enabled = enable;
            commit_sha = sha;
            path = g.build_rel_path meta.name namespace name;
          })))
