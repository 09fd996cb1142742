-- ===== src/Tests/Handlers.antt =====
-- internal/resources/namespaced/capps/handler.go at a concrete world.
use capp_backend.Prelude.{◌≡◌, refl, ok, err}
use capp_backend.Prelude.Assoc.{lookup}
use capp_backend.Capps.ToK8s.{to_k8s}
use capp_backend.Capps.ToK8s.Env.{env_vars_to_k8s, env_var_to_k8s, image_pull_secrets_to_k8s}
use capp_backend.Capps.ToK8s.Volumes.{
  collect_volumes, add_mounts, add_secret_volumes, add_config_map_volumes,
}
use capp_backend.Capps.ToK8s.Resources.{
  nfs_volumes_to_k8s, event_sources_spec_to_k8s, resources_to_k8s, size_to_k8s,
  parse_resource_quantities,
}
use capp_backend.Capps.Handler.{Reply, reply, capp_body, update}
use capp_backend.Capps.Handler.Updates.{Updated, update-Updated}
use capp_backend.Capps.FromK8s.{from_k8s}
use capp_backend.Tests.Fixtures.{
  kit, sizes, request, old_capp, World, world, handler, context, libraries,
}

abbrev answered : Reply
answered = elim (update libraries handler context "shop" "web" (ok request) world).0 [
  | ok r ↦ r
  | err e ↦ reply 500 (capp_body (from_k8s kit old_capp sizes))
]

abbrev after : World
after = (update libraries handler context "shop" "web" (ok request) world).1

done : update libraries handler context "shop" "web" (ok request) world ≡ (ok answered, after)
unfolding update to_k8s env_vars_to_k8s env_var_to_k8s collect_volumes add_mounts add_secret_volumes
    add_config_map_volumes image_pull_secrets_to_k8s nfs_volumes_to_k8s event_sources_spec_to_k8s
    resources_to_k8s size_to_k8s parse_resource_quantities lookup
done = refl

update-Updated_example :
    Updated libraries handler context "shop" "web" (ok request) world answered after
update-Updated_example =
    update-Updated libraries handler context "shop" "web" (ok request) world after answered done
