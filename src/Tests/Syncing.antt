-- ===== src/Tests/Syncing.antt =====
-- The sync endpoints with the client of the GitOps repository, on a cluster beside a repository.
use capp_backend.Prelude.{◌≡◌, refl, Bool, true, false, Option, none, some, is_some, Result, []}
use capp_backend.ApiErrors.{GoError}
use capp_backend.ApiErrors.Messages.{after}
use capp_backend.Kubernetes.{Capp}
use capp_backend.Kubernetes.Client.{Client}
use capp_backend.Clusters.Middleware.{holding}
use capp_backend.GitOps.Client.{sync_values}
use capp_backend.GitOps.Repository.{View}
use capp_backend.Capps.Handler.{Handler, RequestContext, set_git_sync, has_backup_label}
use capp_backend.Capps.Handler.Backups.{syncer_of}
use capp_backend.Tests.Fixtures.{
  kit, sizes, World, world, client, manager, caller, meta_of, libraries,
}
use capp_backend.Tests.Paths.{tidy}
use capp_backend.Tests.GitOps.{git, gitops_client, empty_repository}

-- An action on the cluster alone.
abbrev on_cluster :
    {A : Type 0}
    → (World → Result GoError A × World)
    → World × View
    → Result GoError A × (World × View)
on_cluster m w = let r = m w.0 in (r.0, (r.1, w.1))

abbrev client_beside : Client kit (World × View)
client_beside = record {
  get_namespace = λ namespace w. client.get_namespace namespace w.0;
  get_capp = λ namespace name w. client.get_capp namespace name w.0;
  list_capps = λ namespace w. client.list_capps namespace w.0;
  create_capp = λ c. on_cluster (client.create_capp c);
  update_capp = λ c. on_cluster (client.update_capp c);
  patch_capp = λ old new. on_cluster (client.patch_capp old new);
  delete_capp = λ c. on_cluster (client.delete_capp c);
  get_dependent = λ i w. client.get_dependent i w.0;
  list_managed = λ kind namespace w. client.list_managed kind namespace w.0;
  create_dependent = λ kind d. on_cluster (client.create_dependent kind d);
  delete_dependent = λ i. on_cluster (client.delete_dependent i);
}

abbrev labelled : Option (Capp kit) → Bool
labelled none = false
labelled (some c) = has_backup_label c.metadata.labels

abbrev handler_beside : Handler (World × View)
handler_beside = record {
  gitops_enabled = true;
  gitops = some (syncer_of git gitops_client);
  cluster_mgr = manager;
  sizes = sizes;
}

abbrev context_beside : RequestContext kit (World × View)
context_beside = record {
  client = holding client_beside;
  meta = holding (meta_of "east" []);
  credential = holding caller;
}

abbrev start : World × View
start = (world, empty_repository)

-- The remote then holds the values file of the Capp.
filed :
    is_some (
      (set_git_sync libraries handler_beside context_beside true "shop" "web" start).1.1.remote
        "east/shop/web.yaml")
    ≡ true
unfolding set_git_sync sync_values tidy after
filed = refl
