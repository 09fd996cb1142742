-- ===== src/Tests/Conversion.antt =====
-- internal/resources/namespaced/capps/convert.go at concrete requests.
use Prim.Native.Nat.{Ordering}
use capp_backend.Prelude.Assoc.{lookup}
use text.Mathlib.Text.{is_eq}
use capp_backend.Prelude.{
  ◌&&◌, eq_refl, get_or, String, ◌≡◌, ◌≢◌, refl, ◌↔◌, Bool, true, false, none, some, List, [], ◌∷◌,
  map, ok, IsNodup, All, ◌==◌, arith, eq_iff,
}
use capp_backend.Kubernetes
use capp_backend.Kubernetes.{Kit, Capp, ResourceRequirements}
use capp_backend.Capps.Types.{CappRequest, EnvVar}
use capp_backend.Capps.ToK8s.{to_k8s, first_container, empty_status}
use capp_backend.Capps.ToK8s.Env.{env_vars_to_k8s, env_var_to_k8s, image_pull_secrets_to_k8s}
use capp_backend.Capps.ToK8s.Volumes.{
  Collected, collect_volumes, add_mounts, add_secret_volumes, add_config_map_volumes,
}
use capp_backend.Capps.ToK8s.Resources.{
  nfs_volumes_to_k8s, event_sources_spec_to_k8s, resources_to_k8s, size_to_k8s, custom_to_k8s,
  parse_resource_quantities,
}
use capp_backend.Capps.FromK8s.{bare_from_k8s, limits_match, env_vars_from_k8s}
use capp_backend.Capps.RoundTrip.{Shows, Keeps, bare_from_k8s-to_k8s, to_k8s-Keeps}
use capp_backend.Capps.RoundTrip.Volumes.{collect_volumes_iff, volume_names, IsCollected}
use capp_backend.Capps.RoundTrip.Env.{env_vars_iff, image_pull_secrets_iff, OneReference, shown}
use capp_backend.Capps.RoundTrip.Resources.{TellsApart}
use capp_backend.Capps.RoundTrip.Sizes.{size-bare_from_k8s, to_k8s-keeps_resources}
use capp_backend.Capps.RoundTrip.Resubmit.{resubmit_refused}
use capp_backend.Tests.Fixtures.{kit, sizes, request, old_capp, converted}

abbrev made : Capp kit
made = converted request none

accepted : to_k8s kit request none "shop" sizes ≡ ok made
unfolding to_k8s env_vars_to_k8s env_var_to_k8s collect_volumes add_mounts add_secret_volumes
    add_config_map_volumes image_pull_secrets_to_k8s nfs_volumes_to_k8s event_sources_spec_to_k8s
    resources_to_k8s size_to_k8s custom_to_k8s parse_resource_quantities
accepted = refl

bare_from_k8s-to_k8s_example :
    Shows request "shop" (bare_from_k8s kit made.metadata made.spec sizes)
bare_from_k8s-to_k8s_example = bare_from_k8s-to_k8s kit request none "shop" sizes made accepted

abbrev updated : Capp kit
updated = converted request (some old_capp)

updated_accepted : to_k8s kit request (some old_capp) "shop" sizes ≡ ok updated
unfolding to_k8s env_vars_to_k8s env_var_to_k8s collect_volumes add_mounts add_secret_volumes
    add_config_map_volumes image_pull_secrets_to_k8s nfs_volumes_to_k8s event_sources_spec_to_k8s
    resources_to_k8s size_to_k8s custom_to_k8s parse_resource_quantities
updated_accepted = refl

to_k8s-Keeps_example : Keeps kit old_capp updated request "shop" × (updated.status ≡ empty_status)
to_k8s-Keeps_example = to_k8s-Keeps kit request old_capp updated "shop" sizes updated_accepted

collect_volumes_iff_example :
    IsNodup (volume_names request.volume_mounts request.secret_volumes []) ↔ (
      (c : Collected) × (collect_volumes request.volume_mounts request.secret_volumes [] ≡ ok c)
      × IsCollected request.volume_mounts request.secret_volumes [] c)
collect_volumes_iff_example = collect_volumes_iff request.volume_mounts request.secret_volumes []

env_vars_iff_example : All (λ (e : EnvVar). OneReference e.value_from) request.env ↔ (
    (out : List Kubernetes.EnvVar) × (env_vars_to_k8s request.env ≡ ok out)
    × (env_vars_from_k8s out ≡ map shown request.env))
env_vars_iff_example = env_vars_iff request.env

abbrev registry : List String
registry = "registry" ∷ []

image_pull_secrets_iff_example :
    (image_pull_secrets_to_k8s kit registry ≡ ok registry)
    ↔ ((registry ≡ registry) × All (λ n. kit.name_error n ≡ none) registry × IsNodup registry)
image_pull_secrets_iff_example = image_pull_secrets_iff kit registry registry

medium : request.size ≢ ""
medium e = absurd (ground (arith, eq_iff "medium" "", e))

cmp_refl : (q : String) → kit.cmp q q ≡ Ordering.eq
cmp_refl q = rw (eq_refl q) refl

differ :
    (a b x : String) (m n : Bool)
    → (a == b) ≡ false
    → (is_eq (kit.cmp a x) && m) ≡ true
    → (is_eq (kit.cmp b x) && n) ≡ false
differ a b x m n apart h = ground (arith, eq_iff a x, eq_iff b x, eq_iff a b)

medium_small : TellsApart kit sizes.medium sizes.small
unfolding limits_match
medium_small res h = differ "2" "1" (get_or (lookup "cpu" res.limits) "0") _ _ refl h

large_small : TellsApart kit sizes.large sizes.small
unfolding limits_match
large_small res h = differ "4" "1" (get_or (lookup "cpu" res.limits) "0") _ _ refl h

large_medium : TellsApart kit sizes.large sizes.medium
unfolding limits_match
large_medium res h = differ "4" "2" (get_or (lookup "cpu" res.limits) "0") _ _ refl h

size-bare_from_k8s_example : (bare_from_k8s kit made.metadata made.spec sizes).size ≡ "medium"
size-bare_from_k8s_example =
    size-bare_from_k8s kit request none "shop" sizes made cmp_refl
      (record {
        medium_small = medium_small;
        large_small = large_small;
        large_medium = large_medium;
      })
      medium accepted

abbrev unsized : CappRequest
unsized = record request { size = "" }

unsized_accepted :
    to_k8s kit unsized (some old_capp) "shop" sizes ≡ ok (converted unsized (some old_capp))
unfolding to_k8s env_vars_to_k8s env_var_to_k8s collect_volumes add_mounts add_secret_volumes
    add_config_map_volumes image_pull_secrets_to_k8s nfs_volumes_to_k8s event_sources_spec_to_k8s
    resources_to_k8s size_to_k8s custom_to_k8s parse_resource_quantities
unsized_accepted = refl

to_k8s-keeps_resources_example :
    (first_container kit (converted unsized (some old_capp)).spec.pod_spec.containers).resources
    ≡ (first_container kit old_capp.spec.pod_spec.containers).resources
to_k8s-keeps_resources_example =
    to_k8s-keeps_resources kit unsized old_capp (converted unsized (some old_capp)) "shop" sizes
      refl refl unsized_accepted

abbrev again : CappRequest
again = record request {
  volume_mounts = (bare_from_k8s kit made.metadata made.spec sizes).volume_mounts;
  secret_volumes = (bare_from_k8s kit made.metadata made.spec sizes).secret_volumes;
}

resubmit_refused_example : to_k8s kit again (some made) "shop" sizes ≢ ok made
resubmit_refused_example =
    resubmit_refused kit request again none (some made) "shop" sizes made
      (record { name = "tls"; secret_name = "cert"; mount_path = "/tls" }) [] accepted refl refl
      refl made
