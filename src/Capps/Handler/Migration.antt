-- ===== src/Capps/Handler/Migration.antt =====
-- internal/resources/namespaced/capps/handler.go: `migrate`, from its first write on.
use capp_backend.Prelude.{String, Bool, true, false, Result, ok, err, is_some, if◌then◌else◌, map}
use capp_backend.Prelude.Assoc.{lookup, delete}
use capp_backend.ApiErrors.{GoError}
use capp_backend.Kubernetes.{Kit, Capp}
use capp_backend.Kubernetes.Client.{Client}
use capp_backend.Kubernetes.Exec.{Exec, pure, read, attempt, ◌>>=◌, ◌>>◌}
use capp_backend.Clusters.{RestConfig}
use capp_backend.Capps.Handler.Planning.{Plan, plan_migration}
use capp_backend.Capps.Types.{MigrateRequest, MigrateResponse}
use capp_backend.Capps.Migrate.{
  migration_bypass_annotation, prepare_capp, cleanup_resources, copy_dependent_resources,
}
use capp_backend.Capps.Handler.{Libraries, Handler, RequestContext, Reply, reply, migrate_body}

module _ {k : Kit} {W : Type 0} (l : Libraries k) where
  -- The creation of the Capp on the target; what was copied goes again if it fails.
  unfoldable pub create_target : Plan k W → Exec W (Capp k)
  unfolding prepare_capp cleanup_resources
  create_target p =
      attempt
        (p.target.create_capp (prepare_capp k p.source_capp p.req.target_namespace p.hostname))
        (λ stored. pure stored)
        (λ e w. (
          err e,
          (cleanup_resources l.errors p.target p.req.target_namespace p.secrets p.config_maps w).1,
        ))

  -- The bypass annotation goes once the source is deleted; a failure is only logged.
  unfoldable pub drop_bypass : Plan k W → Capp k → W → W
  unfolding lookup delete
  drop_bypass p created w =
      let patched : Capp k = record created {
        metadata = record created.metadata {
          annotations = delete migration_bypass_annotation created.metadata.annotations;
        };
      } in
      if is_some (lookup migration_bypass_annotation created.metadata.annotations)
      then (p.target.patch_capp created patched w).1
      else w

  -- The end of `migrate`: whether the source was deleted.
  unfoldable pub delete_source : Plan k W → Capp k → Exec W Bool
  unfolding drop_bypass
  delete_source p created =
      if p.req.delete_source
      then attempt (p.source.delete_capp p.source_capp) (λ _ w. (ok true, drop_bypass p created w))
          (λ e. pure false)
      else pure false

  abbrev pub migrated : String → String → Plan k W → Bool → MigrateResponse
  migrated namespace name p deleted = record {
    name = name;
    source_cluster = p.source_cluster;
    source_namespace = namespace;
    target_cluster = p.req.target_cluster;
    target_namespace = p.req.target_namespace;
    source_deleted = deleted;
    copied_secrets = map (λ d. d.metadata.name) p.secrets;
    copied_config_maps = map (λ d. d.metadata.name) p.config_maps;
  }

  unfoldable pub run_migration : String → String → Plan k W → Exec W Reply
  unfolding copy_dependent_resources create_target delete_source
  run_migration namespace name p = do
    copy_dependent_resources l.errors p.target p.req.target_namespace p.secrets p.config_maps
    created ← create_target p
    deleted ← delete_source p created
    pure (reply 200 (migrate_body (migrated namespace name p deleted)))

  unfoldable pub migrate :
      (RestConfig → Result GoError (Client k W))
      → Handler W
      → RequestContext k W
      → String
      → String
      → Result GoError MigrateRequest
      → Exec W Reply
  unfolding plan_migration run_migration
  migrate new_client h rc namespace name body = do
    p ← read (plan_migration l new_client h rc namespace name body)
    run_migration namespace name p
