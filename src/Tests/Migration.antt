-- ===== src/Tests/Migration.antt =====
-- internal/resources/namespaced/capps/migrate.go and the migrate handler at a concrete world.
use capp_backend.Prelude.{
  String, ◌≡◌, ◌≢◌, refl, ◌↔◌, ◌⊎◌, true, false, none, some, List, [], ◌∷◌, ok,
}
use capp_backend.Prelude.Assoc.{lookup}
use capp_backend.Kubernetes.{Capp, Dependent}
use capp_backend.Capps.Types.{MigrateRequest}
use capp_backend.Capps.Migrate.{
  prepare_capp, resolve_target_hostname, migration_bypass_annotation, copy_dependent_resources,
}
use capp_backend.Capps.Migrate.Hostnames.{copy_host, move_host}
use capp_backend.Capps.Migrate.Copying.{AllOrNothing, copy_dependent_resources-AllOrNothing}
use capp_backend.Capps.Handler.Planning.{Plan, plan_migration}
use capp_backend.Capps.Handler.Migration.{run_migration}
use capp_backend.Capps.Handler.Rollback.{Outcome, run_migration-Outcome}
use capp_backend.Capps.Handler.Checks.{Permitted, plan_migration-Permitted}
use capp_backend.Tests.Fixtures.{
  kit, errors, libraries, old_capp, dependent, World, world, client, client-IsReliable, handler,
  context,
}

-- The Capp with a host name of its own.
abbrev hosted : Capp kit
hosted = record old_capp {
  spec = record old_capp.spec {
    route_spec = record old_capp.spec.route_spec { hostname = "a.com" };
  };
}

copied : resolve_target_hostname "a.com" "b.com" false ≡ ok "b.com"
unfolding resolve_target_hostname
copied = refl

copy_host_example :
    ((prepare_capp kit hosted "shop" "b.com").spec.route_spec.hostname ≡ "b.com")
    × (((hosted.spec.route_spec.hostname ≡ "") × (◌≡◌ {A = String} "b.com" ""))
        ⊎ ((prepare_capp kit hosted "shop" "b.com").spec.route_spec.hostname
            ≢ hosted.spec.route_spec.hostname))
copy_host_example = copy_host kit hosted "shop" "b.com" "b.com" copied

moved : resolve_target_hostname "a.com" "" true ≡ ok ""
unfolding resolve_target_hostname
moved = refl

no_bypass : lookup migration_bypass_annotation hosted.metadata.annotations ≡ none
unfolding lookup
no_bypass = refl

move_host_example :
    ((prepare_capp kit hosted "shop" "").spec.route_spec.hostname ≡ "a.com")
    × ((lookup migration_bypass_annotation (prepare_capp kit hosted "shop" "").metadata.annotations
          ≡ some "true")
        ↔ ((hosted.spec.route_spec.hostname ≢ "")
            × ((prepare_capp kit hosted "shop" "").spec.route_spec.hostname
                ≡ hosted.spec.route_spec.hostname)))
move_host_example = move_host kit hosted "shop" "" "" no_bypass moved

abbrev secrets : List Dependent
secrets = dependent "s1" ∷ dependent "s1" ∷ []

-- The second creation fails, since the name is taken by then, and the first is undone.
copy_dependent_resources-AllOrNothing_example :
    AllOrNothing errors client client-IsReliable "mall" world secrets []
      (copy_dependent_resources errors client "mall" secrets [] world)
copy_dependent_resources-AllOrNothing_example =
    copy_dependent_resources-AllOrNothing errors client client-IsReliable "mall" world secrets []

abbrev move : MigrateRequest
move = record {
  target_cluster = "west";
  target_namespace = "mall";
  delete_source = true;
  target_hostname = "";
}

abbrev plan : Plan kit World
plan = record {
  source = client;
  target = client;
  req = move;
  source_cluster = "east";
  source_capp = old_capp;
  hostname = "";
  secrets = dependent "s1" ∷ [];
  config_maps = dependent "s1" ∷ [];
}

run_migration-Outcome_example :
    Outcome libraries "shop" "web" plan world client-IsReliable
      (λ capp w j. refl)
      (run_migration libraries "shop" "web" plan world)
run_migration-Outcome_example =
    run_migration-Outcome libraries "shop" "web" plan world client-IsReliable (λ capp w j. refl)

planned :
    plan_migration libraries (λ c. ok client) handler context "shop" "web" (ok move) world ≡ ok plan
unfolding plan_migration
planned = refl

plan_migration-Permitted_example :
    Permitted libraries (λ c. ok client) handler context "shop" "web" world plan
plan_migration-Permitted_example =
    plan_migration-Permitted libraries (λ c. ok client) handler context "shop" "web" (ok move) world
      plan planned
