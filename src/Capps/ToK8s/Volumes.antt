-- ===== src/Capps/ToK8s/Volumes.antt =====
-- internal/resources/namespaced/capps/convert.go, `ToK8s`: volumes and their mounts.
use capp_backend.Prelude.{
  String, none, some, List, [], ◌∷◌, ◌++◌, Result, ok, err, ◌>>=◌, if◌then◌else◌, contains,
}
use capp_backend.ApiErrors.{GoError, errorf, sprintf}
use capp_backend.Kubernetes
use capp_backend.Capps.Types.{VolumeMount, SecretVolume, ConfigMapVolume}

-- The local variables `volumeNames`, `container.VolumeMounts` and `extraVolumes`.
pub record Collected : Type 0 where
  pub names : List String
  pub mounts : List Kubernetes.VolumeMount
  pub volumes : List Kubernetes.Volume

abbrev pub nothing_collected : Collected
nothing_collected = record { names = []; mounts = []; volumes = [] }

abbrev pub mount : String → String → Kubernetes.VolumeMount
mount name path = record { name = name; mount_path = path; other = "" }

abbrev pub secret_volume : SecretVolume → Kubernetes.Volume
secret_volume sv = record {
  name = sv.name;
  secret = some (record { name = sv.secret_name; other = "" });
  config_map = none;
  other = "";
}

abbrev pub config_map_volume : ConfigMapVolume → Kubernetes.Volume
config_map_volume cv = record {
  name = cv.name;
  secret = none;
  config_map = some (record { name = cv.config_map_name; other = "" });
  other = "";
}

-- What one round of each loop adds.
abbrev pub with_plain : VolumeMount → Collected → Collected
with_plain vm c = record {
  names = vm.name ∷ c.names;
  mounts = c.mounts ++ mount vm.name vm.mount_path ∷ [];
  volumes = c.volumes;
}

abbrev pub with_secret : SecretVolume → Collected → Collected
with_secret sv c = record {
  names = sv.name ∷ c.names;
  mounts = c.mounts ++ mount sv.name sv.mount_path ∷ [];
  volumes = c.volumes ++ secret_volume sv ∷ [];
}

abbrev pub with_config_map : ConfigMapVolume → Collected → Collected
with_config_map cv c = record {
  names = cv.name ∷ c.names;
  mounts = c.mounts ++ mount cv.name cv.mount_path ∷ [];
  volumes = c.volumes ++ config_map_volume cv ∷ [];
}

unfoldable pub add_mounts : List VolumeMount → Collected → Result GoError Collected
add_mounts [] c = ok c
add_mounts (vm ∷ vms) c =
    let rest = add_mounts vms (with_plain vm c) in
    if contains c.names vm.name
    then err (errorf (sprintf "duplicate volume mount name %q in volumeMounts" (vm.name ∷ [])))
    else rest

unfoldable pub add_secret_volumes : List SecretVolume → Collected → Result GoError Collected
add_secret_volumes [] c = ok c
add_secret_volumes (sv ∷ svs) c =
    let rest = add_secret_volumes svs (with_secret sv c) in
    if contains c.names sv.name
    then err (errorf (sprintf "duplicate volume name %q in secretVolumes" (sv.name ∷ [])))
    else rest

unfoldable pub add_config_map_volumes : List ConfigMapVolume → Collected → Result GoError Collected
add_config_map_volumes [] c = ok c
add_config_map_volumes (cv ∷ cvs) c =
    let rest = add_config_map_volumes cvs (with_config_map cv c) in
    if contains c.names cv.name
    then err (errorf (sprintf "duplicate volume name %q in configMapVolumes" (cv.name ∷ [])))
    else rest

-- The three loops in their order.
unfoldable pub collect_volumes :
    List VolumeMount → List SecretVolume → List ConfigMapVolume → Result GoError Collected
collect_volumes vms svs cvs = do
  plain ← add_mounts vms nothing_collected
  secrets ← add_secret_volumes svs plain
  add_config_map_volumes cvs secrets
