-- ===== src/Capps/RoundTrip/Resubmit.antt =====
-- internal/resources/namespaced/capps/convert.go: a response sent back as a request.
use capp_backend.Prelude.{
  String, ◌≡◌, ◌≢◌, ◌∙◌, refl, true, false, Option, List, [], ◌∷◌, ◌++◌, map, ok, contains, IsNodup,
}
use capp_backend.Prelude.Distinct.{IsNodup-middle, contains-middle}
use capp_backend.Kubernetes.{Kit, Capp}
use capp_backend.Capps.Types.{CappRequest, CappSizes, VolumeMount, SecretVolume, ConfigMapVolume}
use capp_backend.Capps.ToK8s.{to_k8s}
use capp_backend.Capps.FromK8s.{bare_from_k8s}
use capp_backend.Capps.RoundTrip.{to_k8s-Parts, bare_from_k8s-to_k8s}
use capp_backend.Capps.RoundTrip.Volumes.{volume_names, collect_volumes-Nodup}

abbrev names_of : List VolumeMount → List String
names_of vms = map (λ (v : VolumeMount). v.name) vms

names_of-append : (xs ys : List VolumeMount) → names_of (xs ++ ys) ≡ names_of xs ++ names_of ys
names_of-append [] ys = refl
names_of-append (x ∷ xs) ys = rw (names_of-append xs ys)

-- A mount and a secret volume of one name.
clash :
    (before after : List VolumeMount) (m : VolumeMount) (sv : SecretVolume)
    (svs : List SecretVolume) (cvs : List ConfigMapVolume)
    → m.name ≡ sv.name
    → ¬ IsNodup (volume_names (before ++ m ∷ after) (sv ∷ svs) cvs)
clash before after m sv svs cvs same h =
    let all = names_of (before ++ m ∷ after) in
    let absent : contains all sv.name ≡ false = IsNodup-middle all _ sv.name h in
    let present : contains all sv.name ≡ true =
      rw names_of-append (rw same (contains-middle (names_of before) (names_of after) sv.name)) in
    cc (absent, present)

module _ (k : Kit) (first second : CappRequest) (existing later : Option (Capp k))
    (namespace : String) (sizes : CappSizes) (capp : Capp k) where
  -- The volumes of a response cannot be sent back as they are: if the accepted request had a secret
  -- volume, a request with the volume mounts and the secret volumes of the response is refused.
  pub resubmit_refused :
      (sv : SecretVolume) (svs : List SecretVolume)
      → to_k8s k first existing namespace sizes ≡ ok capp
      → first.secret_volumes ≡ sv ∷ svs
      → second.volume_mounts ≡ (bare_from_k8s k capp.metadata capp.spec sizes).volume_mounts
      → second.secret_volumes ≡ (bare_from_k8s k capp.metadata capp.spec sizes).secret_volumes
      → (again : Capp k) → to_k8s k second later namespace sizes ≢ ok again
  resubmit_refused sv svs h has mounts secrets again e =
      let shows = bare_from_k8s-to_k8s k first existing namespace sizes capp h in
      let p = to_k8s-Parts k second later namespace sizes again e in
      let distinct =
        collect_volumes-Nodup second.volume_mounts second.secret_volumes second.config_map_volumes
          p.collected p.volumes_made in
      let sent : second.secret_volumes ≡ sv ∷ svs = secrets ∙ shows.secret_volumes ∙ has in
      clash first.volume_mounts _ (record { name = sv.name; mount_path = sv.mount_path }) sv svs
        second.config_map_volumes refl (rw (mounts ∙ shows.volume_mounts, sent, has) at distinct)
