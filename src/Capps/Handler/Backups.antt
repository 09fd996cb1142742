-- ===== src/Capps/Handler/Backups.antt =====
-- internal/resources/namespaced/capps/handler.go: the cluster and the Git backup, in `update` and in
-- the sync endpoints.
use capp_backend.Prelude.{String, ◌≡◌, ◌⊎◌, Bool, Option, is_some, Result, ok, err}
use capp_backend.ApiErrors.{GoError}
use capp_backend.Kubernetes.{Kit, Capp}
use capp_backend.Kubernetes.Client.{Client}
use capp_backend.Clusters.{ClusterMeta}
use capp_backend.GitOps.Client.{Git, sync_values, delete_values, build_rel_path}
use capp_backend.GitOps.Repository.{Files, put, IsRepository}
use capp_backend.Capps.Handler.{GitOpsSyncer, Handler, Reply, has_backup_label}

-- The client of the GitOps repository as the handler's `GitOpsSyncer`, in a world that consists of
-- the clusters and of the repository. Its operations leave the clusters alone.
abbrev pub beside : {K V A : Type 0} → K → Result GoError A × V → Result GoError A × (K × V)
beside k x = (x.0, (k, x.1))

abbrev pub syncer_of :
    {K V : Type 0} → Git V → capp_backend.GitOps.Client.Client → GitOpsSyncer (K × V)
syncer_of g c = record {
  sync_values =
      λ path namespace name yaml w. beside w.0 (sync_values g c path namespace name yaml w.1);
  delete_values = λ path namespace name w. beside w.0 (delete_values g c path namespace name w.1);
  build_rel_path = λ path namespace name. build_rel_path g c path namespace name;
}

module _ {k : Kit} {K V : Type 0} where
  -- What the sync endpoints rely on in the Kubernetes client, for one Capp: a patch that succeeds
  -- leaves the label as it is in the new object, one that fails leaves it as it was, neither
  -- touches the repository, and a Capp that is read has the name that was asked for.
  pub record IsObserved (c : Client k (K × V)) (namespace name : String) : Type 0 where
    pub labelled : K → Bool
    pub patch-ok :
        (old new stored : Capp k) (w w' : K × V)
        → new.metadata.namespace ≡ namespace
        → new.metadata.name ≡ name
        → c.patch_capp old new w ≡ (ok stored, w')
        → (w'.1 ≡ w.1) × (labelled w'.0 ≡ has_backup_label new.metadata.labels)
    pub patch-err :
        (old new : Capp k) (e : GoError) (w w' : K × V)
        → c.patch_capp old new w ≡ (err e, w')
        → (w'.1 ≡ w.1) × (labelled w'.0 ≡ labelled w.0)
    pub get-named :
        (capp : Capp k) (w : K × V)
        → c.get_capp namespace name w ≡ ok capp
        → (capp.metadata.namespace ≡ namespace) × (capp.metadata.name ≡ name)

module _ {k : Kit} {K V : Type 0} (c : Client k (K × V)) (namespace name : String)
    (o : IsObserved c namespace name) (g : Git V) (gc : capp_backend.GitOps.Client.Client)
    (law : IsRepository g) (meta : ClusterMeta) (start : K × V) where
  open o use {labelled}
  open law use {view, Clean}

  -- The path of the values file of the Capp, and the files on the remote at the start.
  abbrev pub file_of : String
  file_of = build_rel_path g gc meta.name namespace name

  abbrev pub before : Files
  before = (view start.1).remote

  -- On the remote the values file is there, or is gone, as was asked for, and all other files are as
  -- before.
  abbrev pub Filed : Bool → V → Type 0
  Filed enable v =
      (content : Option String) × (is_some content ≡ enable)
      × ((view v).remote ≡ put file_of content before)

  -- After a success, the label and the remote are as was asked for; after a failure the label is as
  -- before, and so is the remote, unless the Git operation had already brought it to what was asked
  -- for.
  abbrev pub Synced : Bool → Result GoError Reply × (K × V) → Type 0
  Synced enable (ok r, w) = (labelled w.0 ≡ enable) × Filed enable w.1
  Synced enable (err e, w) =
      (labelled w.0 ≡ labelled start.0) × (((view w.1).remote ≡ before) ⊎ Filed enable w.1)

  -- What the Git operation does.
  abbrev Written : Bool → Result GoError String × (K × V) → Type 0
  Written enable (ok sha, w) = (w.0 ≡ start.0) × Filed enable w.1
  Written enable (err e, w) = (w.0 ≡ start.0) × ((view w.1).remote ≡ before)
