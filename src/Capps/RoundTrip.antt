-- ===== src/Capps/RoundTrip.antt =====
-- internal/resources/namespaced/capps/convert.go: what a response made of an accepted request shows,
-- and what an update keeps of the object that was there.
pub mod Volumes
pub mod Env
pub mod Resources
pub mod Sizes
pub mod Resubmit
use mathlib.Core.List.{map-append}
use capp_backend.Prelude.{
  String, ◌≡◌, refl, ap, ◌∙◌, Bool, true, false, Option, some, none, List, [], ◌∷◌, ◌++◌, map,
  Result, ok, err, ◌>>=◌, >>=-eq-ok, arith, is_some, if◌then◌else◌, get_or,
}
use capp_backend.ApiErrors.{GoError}
use capp_backend.Kubernetes
use capp_backend.Kubernetes.{Kit, Capp, Container}
use capp_backend.Capps.Types.{
  CappRequest, CappSizes, VolumeMount, SecretVolume, ConfigMapVolume, BareCappResponse, EnvVar,
}
use capp_backend.Capps.ToK8s.{
  to_k8s, written_capp, first_container, base_spec, base_meta, empty_status,
}
use capp_backend.Capps.ToK8s.Env.{env_vars_to_k8s, image_pull_secrets_to_k8s}
use capp_backend.Capps.ToK8s.Volumes.{Collected, collect_volumes}
use capp_backend.Capps.ToK8s.Resources.{
  nfs_volumes_to_k8s, event_sources_spec_to_k8s, resources_to_k8s,
}
use capp_backend.Capps.FromK8s.{bare_from_k8s, volume_mounts_from_k8s, volume_mount_from_k8s}
use Volumes.{volumes_back, collect_volumes-IsCollected, plain_mount, secret_mount, config_map_mount}
use Env.{env_vars_back, shown, image_pull_secrets_iff}

module _ (k : Kit) (req : CappRequest) (existing : Option (Capp k)) (namespace : String)
    (sizes : CappSizes) where
  -- The values that the fallible steps of an accepted request computed.
  pub record Parts (capp : Capp k) : Type 0 where
    pub env : List Kubernetes.EnvVar
    pub collected : Collected
    pub pull_secrets : List String
    pub nfs_volumes : List (Kubernetes.NfsVolume k)
    pub sources : List (Kubernetes.SourceConfiguration k)
    pub resources : Option (Kubernetes.ResourceRequirements k)
    pub env_made : env_vars_to_k8s req.env ≡ ok env
    pub volumes_made :
        collect_volumes req.volume_mounts req.secret_volumes req.config_map_volumes ≡ ok collected
    pub secrets_made : image_pull_secrets_to_k8s k req.image_pull_secrets ≡ ok pull_secrets
    pub nfs_made : nfs_volumes_to_k8s k req.nfs_volumes ≡ ok nfs_volumes
    pub sources_made : event_sources_spec_to_k8s k req.event_sources_spec ≡ ok sources
    pub resources_made : resources_to_k8s k req.size req.custom_resources sizes ≡ ok resources
    pub made :
        capp
        ≡ written_capp k req existing namespace env collected pull_secrets nfs_volumes sources
            resources

  pub to_k8s-Parts : (capp : Capp k) → to_k8s k req existing namespace sizes ≡ ok capp → Parts capp
  unfolding to_k8s
  to_k8s-Parts capp h =
      let (env, env_made, h₁) = >>=-eq-ok (env_vars_to_k8s req.env) _ h in
      let (collected, volumes_made, h₂) =
        >>=-eq-ok (collect_volumes req.volume_mounts req.secret_volumes req.config_map_volumes) _
          h₁ in
      let (pull_secrets, secrets_made, h₃) =
        >>=-eq-ok (image_pull_secrets_to_k8s k req.image_pull_secrets) _ h₂ in
      let (nfs_volumes, nfs_made, h₄) = >>=-eq-ok (nfs_volumes_to_k8s k req.nfs_volumes) _ h₃ in
      let (sources, sources_made, h₅) =
        >>=-eq-ok (event_sources_spec_to_k8s k req.event_sources_spec) _ h₄ in
      let (resources, resources_made, h₆) =
        >>=-eq-ok (resources_to_k8s k req.size req.custom_resources sizes) _ h₅ in
      record {
        env = env;
        collected = collected;
        pull_secrets = pull_secrets;
        nfs_volumes = nfs_volumes;
        sources = sources;
        resources = resources;
        env_made = env_made;
        volumes_made = volumes_made;
        secrets_made = secrets_made;
        nfs_made = nfs_made;
        sources_made = sources_made;
        resources_made = resources_made;
        made = cc h₆;
      }

abbrev secret_mount_shown : SecretVolume → VolumeMount
secret_mount_shown sv = record { name = sv.name; mount_path = sv.mount_path }

abbrev config_map_mount_shown : ConfigMapVolume → VolumeMount
config_map_mount_shown cv = record { name = cv.name; mount_path = cv.mount_path }

-- The volume mounts of a response: those of the request, and one for each secret and ConfigMap
-- volume.
abbrev pub mounts_shown : CappRequest → List VolumeMount
mounts_shown req =
    req.volume_mounts
    ++ (map secret_mount_shown req.secret_volumes
        ++ map config_map_mount_shown req.config_map_volumes)

-- The response has what the request asked for.
pub record Shows (req : CappRequest) (namespace : String) (resp : BareCappResponse) : Type 0 where
  pub name : resp.name ≡ req.name
  pub in_namespace : resp.namespace ≡ namespace
  pub state : resp.state ≡ req.state
  pub image : resp.image ≡ req.image
  pub container_name : resp.container_name ≡ req.container_name
  pub scale_spec : resp.scale_spec ≡ req.scale_spec
  pub env : resp.env ≡ map shown req.env
  pub volume_mounts : resp.volume_mounts ≡ mounts_shown req
  pub secret_volumes : resp.secret_volumes ≡ req.secret_volumes
  pub config_map_volumes : resp.config_map_volumes ≡ req.config_map_volumes
  pub image_pull_secrets : resp.image_pull_secrets ≡ req.image_pull_secrets

mounts_from-config_maps :
    (cvs : List ConfigMapVolume)
    → map volume_mount_from_k8s (map config_map_mount cvs) ≡ map config_map_mount_shown cvs
mounts_from-config_maps [] = refl
mounts_from-config_maps (cv ∷ cvs) = rw (mounts_from-config_maps cvs)

mounts_from-secrets :
    (svs : List SecretVolume) (cvs : List ConfigMapVolume)
    → map volume_mount_from_k8s (map secret_mount svs ++ map config_map_mount cvs)
      ≡ map secret_mount_shown svs ++ map config_map_mount_shown cvs
mounts_from-secrets [] cvs = mounts_from-config_maps cvs
mounts_from-secrets (sv ∷ svs) cvs = rw (mounts_from-secrets svs cvs)

mounts_from-all :
    (vms : List VolumeMount) (svs : List SecretVolume) (cvs : List ConfigMapVolume)
    → map volume_mount_from_k8s
        (map plain_mount vms ++ (map secret_mount svs ++ map config_map_mount cvs))
      ≡ vms ++ (map secret_mount_shown svs ++ map config_map_mount_shown cvs)
mounts_from-all [] svs cvs = mounts_from-secrets svs cvs
mounts_from-all (vm ∷ vms) svs cvs = rw (mounts_from-all vms svs cvs)

base_meta_named :
    (k : Kit) (req : CappRequest) (existing : Option (Capp k)) (namespace : String)
    → ((base_meta k req existing namespace).name ≡ req.name)
      × ((base_meta k req existing namespace).namespace ≡ namespace)
base_meta_named k req none namespace = (refl, refl)
base_meta_named k req (some e) namespace = (refl, refl)

module _ (k : Kit) (req : CappRequest) (existing : Option (Capp k)) (namespace : String)
    (sizes : CappSizes) where
  Parts-Shows :
      {capp : Capp k}
      → Parts k req existing namespace sizes capp
      → Shows req namespace (bare_from_k8s k capp.metadata capp.spec sizes)
  unfolding bare_from_k8s volume_mounts_from_k8s
  Parts-Shows p =
      let (mounts, _) =
        collect_volumes-IsCollected req.volume_mounts req.secret_volumes req.config_map_volumes
          p.collected p.volumes_made in
      let (secrets, config_maps) =
        volumes_back req.volume_mounts req.secret_volumes req.config_map_volumes p.collected
          p.volumes_made in
      let (same_name, same_namespace) = base_meta_named k req existing namespace in
      rw p.made (record {
        name = same_name;
        in_namespace = same_namespace;
        state = refl;
        image = refl;
        container_name = refl;
        scale_spec = refl;
        env = env_vars_back req.env p.env p.env_made;
        volume_mounts =
            rw mounts (mounts_from-all req.volume_mounts req.secret_volumes req.config_map_volumes);
        secret_volumes = secrets;
        config_map_volumes = config_maps;
        image_pull_secrets =
            ((image_pull_secrets_iff k req.image_pull_secrets p.pull_secrets).0 p.secrets_made).0;
      })

  -- Whenever `ToK8s` accepts a request, on create or on update, the response made of the result has
  -- the request's name, state, image, container, scaling, image pull secrets, secret volumes and
  -- ConfigMap volumes, the namespace of the URL, and the environment with a value only where there
  -- is no reference; its volume mounts are those of the request followed by one for each secret
  -- volume and each ConfigMap volume.
  pub bare_from_k8s-to_k8s :
      (capp : Capp k)
      → to_k8s k req existing namespace sizes ≡ ok capp
      → Shows req namespace (bare_from_k8s k capp.metadata capp.spec sizes)
  bare_from_k8s-to_k8s capp h = Parts-Shows (to_k8s-Parts k req existing namespace sizes capp h)

-- What an update leaves of the object that it replaces: all metadata but the name, which is the
-- request's, and the namespace, and whatever of the spec, of the pod spec and of its first container
-- the program does not manage.
pub record Keeps (k : Kit) (old new : Capp k) (req : CappRequest) (namespace : String)
    : Type 0 where
  pub metadata : new.metadata ≡ record old.metadata { name = req.name; namespace = namespace }
  pub spec : new.spec.other ≡ old.spec.other
  pub pod_spec : new.spec.pod_spec.other ≡ old.spec.pod_spec.other
  pub container :
      (c : Container k) × (new.spec.pod_spec.containers ≡ c ∷ [])
      × (c.other ≡ (first_container k old.spec.pod_spec.containers).other)

-- An accepted update keeps the metadata of the old object but for the name, which becomes the
-- request's, and the namespace, and keeps what the program does not manage of the spec, of the pod
-- spec and of the first container, which is the only container of the result; the status is empty.
pub to_k8s-Keeps :
    (k : Kit) (req : CappRequest) (old capp : Capp k) (namespace : String) (sizes : CappSizes)
    → to_k8s k req (some old) namespace sizes ≡ ok capp
    → Keeps k old capp req namespace × (capp.status ≡ empty_status)
to_k8s-Keeps k req old capp namespace sizes h =
    let p = to_k8s-Parts k req (some old) namespace sizes capp h in
    rw p.made
      (record { metadata = refl; spec = refl; pod_spec = refl; container = (_, refl, refl) }, refl)
