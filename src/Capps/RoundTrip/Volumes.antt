-- ===== src/Capps/RoundTrip/Volumes.antt =====
-- internal/resources/namespaced/capps/convert.go: which volumes `ToK8s` accepts, what it makes of
-- them, and that `BareFromK8s` gives them back.
use capp_backend.Prelude.{
  String, ◌≡◌, refl, ◌∙◌, ◌↔◌, false, some, List, [], ◌∷◌, ◌++◌, map, ok, >>=-eq-ok, >>=-ok, arith,
  contains, IsNodup, All, All-split, eq_refl,
}
use mathlib.Core.List.{append_assoc, append-nil}
use capp_backend.Prelude.Assoc.{Assoc, lookup, insert, lookup-insert}
use capp_backend.Prelude.Distinct.{
  Fresh, seen_after, Fresh-append, Fresh-split, IsNodup-Fresh, Fresh-IsNodup,
}
use capp_backend.Kubernetes
use capp_backend.Capps.Types.{VolumeMount, SecretVolume, ConfigMapVolume}
use capp_backend.Capps.ToK8s.Volumes.{
  Collected, nothing_collected, mount, secret_volume, config_map_volume, with_plain, with_secret,
  with_config_map, add_mounts, add_secret_volumes, add_config_map_volumes, collect_volumes,
}
use capp_backend.Capps.FromK8s.{mount_by_name, secret_volumes_from_k8s, config_map_volumes_from_k8s}

abbrev pub plain_mount : VolumeMount → Kubernetes.VolumeMount
plain_mount vm = mount vm.name vm.mount_path

abbrev pub secret_mount : SecretVolume → Kubernetes.VolumeMount
secret_mount sv = mount sv.name sv.mount_path

abbrev pub config_map_mount : ConfigMapVolume → Kubernetes.VolumeMount
config_map_mount cv = mount cv.name cv.mount_path

abbrev mount_names : List Kubernetes.VolumeMount → List String
mount_names ms = map (λ (m : Kubernetes.VolumeMount). m.name) ms

abbrev plain_names : List VolumeMount → List String
plain_names vms = map (λ (v : VolumeMount). v.name) vms

abbrev secret_names : List SecretVolume → List String
secret_names svs = map (λ (v : SecretVolume). v.name) svs

abbrev config_map_names : List ConfigMapVolume → List String
config_map_names cvs = map (λ (v : ConfigMapVolume). v.name) cvs

-- The names of all volumes and mounts of a request, in the order of the loops.
abbrev pub volume_names : List VolumeMount → List SecretVolume → List ConfigMapVolume → List String
volume_names vms svs cvs = plain_names vms ++ (secret_names svs ++ config_map_names cvs)

add_mounts-ok :
    (vms : List VolumeMount) (c : Collected)
    → Fresh c.names (plain_names vms)
    → add_mounts vms c
      ≡ ok (record {
        names = seen_after c.names (plain_names vms);
        mounts = c.mounts ++ map plain_mount vms;
        volumes = c.volumes;
      })
unfolding add_mounts
add_mounts-ok [] c h = rw append-nil
add_mounts-ok (vm ∷ vms) c (p, h) = rw p (add_mounts-ok vms _ h ∙ simp append_assoc)

add_mounts-Fresh :
    (vms : List VolumeMount) (c c' : Collected)
    → add_mounts vms c ≡ ok c'
    → Fresh c.names (plain_names vms)
unfolding add_mounts
add_mounts-Fresh [] c c' e = tt
add_mounts-Fresh (vm ∷ vms) c c' e =
    (ground arith, add_mounts-Fresh vms (with_plain vm c) c' (ground arith))

add_secret_volumes-ok :
    (svs : List SecretVolume) (c : Collected)
    → Fresh c.names (secret_names svs)
    → add_secret_volumes svs c
      ≡ ok (record {
        names = seen_after c.names (secret_names svs);
        mounts = c.mounts ++ map secret_mount svs;
        volumes = c.volumes ++ map secret_volume svs;
      })
unfolding add_secret_volumes
add_secret_volumes-ok [] c h = simp append-nil
add_secret_volumes-ok (sv ∷ svs) c (p, h) = rw p (add_secret_volumes-ok svs _ h ∙ simp append_assoc)

add_secret_volumes-Fresh :
    (svs : List SecretVolume) (c c' : Collected)
    → add_secret_volumes svs c ≡ ok c'
    → Fresh c.names (secret_names svs)
unfolding add_secret_volumes
add_secret_volumes-Fresh [] c c' e = tt
add_secret_volumes-Fresh (sv ∷ svs) c c' e =
    (ground arith, add_secret_volumes-Fresh svs (with_secret sv c) c' (ground arith))

add_config_map_volumes-ok :
    (cvs : List ConfigMapVolume) (c : Collected)
    → Fresh c.names (config_map_names cvs)
    → add_config_map_volumes cvs c
      ≡ ok (record {
        names = seen_after c.names (config_map_names cvs);
        mounts = c.mounts ++ map config_map_mount cvs;
        volumes = c.volumes ++ map config_map_volume cvs;
      })
unfolding add_config_map_volumes
add_config_map_volumes-ok [] c h = simp append-nil
add_config_map_volumes-ok (cv ∷ cvs) c (p, h) =
    rw p (add_config_map_volumes-ok cvs _ h ∙ simp append_assoc)

add_config_map_volumes-Fresh :
    (cvs : List ConfigMapVolume) (c c' : Collected)
    → add_config_map_volumes cvs c ≡ ok c'
    → Fresh c.names (config_map_names cvs)
unfolding add_config_map_volumes
add_config_map_volumes-Fresh [] c c' e = tt
add_config_map_volumes-Fresh (cv ∷ cvs) c c' e =
    (ground arith, add_config_map_volumes-Fresh cvs (with_config_map cv c) c' (ground arith))

module _ (vms : List VolumeMount) (svs : List SecretVolume) (cvs : List ConfigMapVolume) where
  -- What the three loops leave: the mounts of all three lists in their order, and a volume for each
  -- secret and each ConfigMap.
  abbrev pub IsCollected : Collected → Type 0
  IsCollected c =
      (c.mounts ≡ map plain_mount vms ++ (map secret_mount svs ++ map config_map_mount cvs))
      × (c.volumes ≡ map secret_volume svs ++ map config_map_volume cvs)

  abbrev collected : Collected
  collected = record {
    names =
        seen_after (seen_after (seen_after [] (plain_names vms)) (secret_names svs))
          (config_map_names cvs);
    mounts = map plain_mount vms ++ (map secret_mount svs ++ map config_map_mount cvs);
    volumes = map secret_volume svs ++ map config_map_volume cvs;
  }

  collect_volumes-ok :
      IsNodup (volume_names vms svs cvs)
      → (c : Collected) × (collect_volumes vms svs cvs ≡ ok c) × IsCollected c
  unfolding collect_volumes
  collect_volumes-ok h =
      let (p, r) = Fresh-split [] (plain_names vms) _ (IsNodup-Fresh _ h) in
      let (s, t) = Fresh-split _ (secret_names svs) _ r in
      (
        collected,
        >>=-ok _ (add_mounts-ok vms nothing_collected p) (
            >>=-ok _ (add_secret_volumes-ok svs _ s)
              (add_config_map_volumes-ok cvs _ t ∙ simp append_assoc)),
        (refl, refl),
      )

  pub collect_volumes-Nodup :
      (c : Collected) → collect_volumes vms svs cvs ≡ ok c → IsNodup (volume_names vms svs cvs)
  unfolding collect_volumes
  collect_volumes-Nodup c e =
      let (a, ea, e₁) = >>=-eq-ok (add_mounts vms nothing_collected) _ e in
      let (b, eb, ec) = >>=-eq-ok (add_secret_volumes svs a) _ e₁ in
      let p = add_mounts-Fresh vms nothing_collected a ea in
      let s = add_secret_volumes-Fresh svs a b eb in
      let t = add_config_map_volumes-Fresh cvs b c ec in
      let a-names : a.names ≡ seen_after [] (plain_names vms) =
        cc (ea, add_mounts-ok vms nothing_collected p) in
      let b-names : b.names ≡ seen_after a.names (secret_names svs) =
        cc (eb, add_secret_volumes-ok svs a s) in
      Fresh-IsNodup _ (
        Fresh-append [] (plain_names vms) _ p
          (rw (← a-names) (Fresh-append a.names (secret_names svs) _ s (rw (← b-names) t))))

  -- `ToK8s` accepts the volumes of a request exactly when no name occurs twice among the volume
  -- mounts, the secret volumes and the ConfigMap volumes taken together; the container then gets the
  -- mounts of all three lists in their order, and the pod a volume for each secret and ConfigMap.
  pub collect_volumes_iff :
      IsNodup (volume_names vms svs cvs)
      ↔ ((c : Collected) × (collect_volumes vms svs cvs ≡ ok c) × IsCollected c)
  collect_volumes_iff = (collect_volumes-ok, λ r. collect_volumes-Nodup r.0 r.1)

  pub collect_volumes-IsCollected :
      (c : Collected) → collect_volumes vms svs cvs ≡ ok c → IsCollected c
  collect_volumes-IsCollected c e =
      let (c', e', parts) = collect_volumes-ok (collect_volumes-Nodup c e) in
      let same : c ≡ c' = cc (e, e') in rw same parts

-- A name that no later mount has keeps its path.
lookup-mount_by_name_other :
    (ms : List Kubernetes.VolumeMount) (n : String) (m : Assoc String)
    → contains (mount_names ms) n ≡ false
    → lookup n (mount_by_name ms m) ≡ lookup n m
unfolding mount_by_name
lookup-mount_by_name_other [] n m h = refl
lookup-mount_by_name_other (vm ∷ ms) n m h =
    lookup-mount_by_name_other ms n (insert vm.name vm.mount_path m) (ground arith)
    ∙ lookup-insert vm.name n vm.mount_path m
    ∙ ground arith

-- Every mount of a list without repeated names is found under its name.
lookup-mount_by_name :
    (ms : List Kubernetes.VolumeMount) (m : Assoc String)
    → IsNodup (mount_names ms)
    → All
        (λ (v : Kubernetes.VolumeMount). lookup v.name (mount_by_name ms m) ≡ some v.mount_path)
        ms
unfolding mount_by_name
lookup-mount_by_name [] m h = tt
lookup-mount_by_name (vm ∷ ms) m (p, h) = (
  lookup-mount_by_name_other ms vm.name (insert vm.name vm.mount_path m) p
      ∙ lookup-insert vm.name vm.name vm.mount_path m
      ∙ simp eq_refl,
  lookup-mount_by_name ms (insert vm.name vm.mount_path m) h,
)

secret_volumes-config_maps :
    (m : Assoc String) (cvs : List ConfigMapVolume)
    → secret_volumes_from_k8s m (map config_map_volume cvs) ≡ []
unfolding secret_volumes_from_k8s
secret_volumes-config_maps m [] = refl
secret_volumes-config_maps m (cv ∷ cvs) = ground (arith, secret_volumes-config_maps m cvs)

secret_volumes-back :
    (m : Assoc String) (svs : List SecretVolume) (cvs : List ConfigMapVolume)
    → All
        (λ (v : Kubernetes.VolumeMount). lookup v.name m ≡ some v.mount_path)
        (map secret_mount svs)
    → secret_volumes_from_k8s m (map secret_volume svs ++ map config_map_volume cvs) ≡ svs
unfolding secret_volumes_from_k8s
secret_volumes-back m [] cvs h = secret_volumes-config_maps m cvs
secret_volumes-back m (sv ∷ svs) cvs (p, h) = ground (arith, secret_volumes-back m svs cvs h)

config_map_volumes-only :
    (m : Assoc String) (cvs : List ConfigMapVolume)
    → All
        (λ (v : Kubernetes.VolumeMount). lookup v.name m ≡ some v.mount_path)
        (map config_map_mount cvs)
    → config_map_volumes_from_k8s m (map config_map_volume cvs) ≡ cvs
unfolding config_map_volumes_from_k8s
config_map_volumes-only m [] h = refl
config_map_volumes-only m (cv ∷ cvs) (p, h) = ground (arith, config_map_volumes-only m cvs h)

config_map_volumes-back :
    (m : Assoc String) (svs : List SecretVolume) (cvs : List ConfigMapVolume)
    → All
        (λ (v : Kubernetes.VolumeMount). lookup v.name m ≡ some v.mount_path)
        (map config_map_mount cvs)
    → config_map_volumes_from_k8s m (map secret_volume svs ++ map config_map_volume cvs) ≡ cvs
unfolding config_map_volumes_from_k8s
config_map_volumes-back m [] cvs h = config_map_volumes-only m cvs h
config_map_volumes-back m (sv ∷ svs) cvs h = ground (arith, config_map_volumes-back m svs cvs h)

abbrev IsMounted : Assoc String → Kubernetes.VolumeMount → Type 0
IsMounted m v = lookup v.name m ≡ some v.mount_path

mount_names-config_maps :
    (cvs : List ConfigMapVolume) → mount_names (map config_map_mount cvs) ≡ config_map_names cvs
mount_names-config_maps [] = refl
mount_names-config_maps (cv ∷ cvs) = rw (mount_names-config_maps cvs)

mount_names-secrets :
    (svs : List SecretVolume) (cvs : List ConfigMapVolume)
    → mount_names (map secret_mount svs ++ map config_map_mount cvs)
      ≡ secret_names svs ++ config_map_names cvs
mount_names-secrets [] cvs = mount_names-config_maps cvs
mount_names-secrets (sv ∷ svs) cvs = rw (mount_names-secrets svs cvs)

mount_names-all :
    (vms : List VolumeMount) (svs : List SecretVolume) (cvs : List ConfigMapVolume)
    → mount_names (map plain_mount vms ++ (map secret_mount svs ++ map config_map_mount cvs))
      ≡ volume_names vms svs cvs
mount_names-all [] svs cvs = mount_names-secrets svs cvs
mount_names-all (vm ∷ vms) svs cvs = rw (mount_names-all vms svs cvs)

-- The volumes of an accepted request come back from the pod spec that was made of them.
pub volumes_back :
    (vms : List VolumeMount) (svs : List SecretVolume) (cvs : List ConfigMapVolume) (c : Collected)
    → collect_volumes vms svs cvs ≡ ok c
    → (secret_volumes_from_k8s (mount_by_name c.mounts []) c.volumes ≡ svs)
      × (config_map_volumes_from_k8s (mount_by_name c.mounts []) c.volumes ≡ cvs)
volumes_back vms svs cvs c e =
    let (m, v) = collect_volumes-IsCollected vms svs cvs c e in
    let distinct = collect_volumes-Nodup vms svs cvs c e in
    let ms = map plain_mount vms ++ (map secret_mount svs ++ map config_map_mount cvs) in
    let all = lookup-mount_by_name ms [] (rw (mount_names-all vms svs cvs) distinct) in
    let P = IsMounted (mount_by_name ms []) in
    let rest = (All-split P (map plain_mount vms) _ all).1 in
    let (secrets, config_maps) = All-split P (map secret_mount svs) _ rest in
    rw (m, v) (secret_volumes-back _ svs cvs secrets, config_map_volumes-back _ svs cvs config_maps)
