-- ===== src/Capps/FromK8s.antt =====
-- internal/resources/namespaced/capps/convert.go, from a Capp to a response.
use Prim.Native.Nat.{Ordering}
use Prim.Native.String.{len, slice}
use mathlib.Core.Option
use capp_backend.Prelude.{
  String, Bool, true, false, Option, none, some, List, [], ◌∷◌, map, ok, err, ◌==◌, ◌&&◌, ◌||◌, not,
  if◌then◌else◌, is_some, is_empty, ltb, get_or,
}
use capp_backend.Prelude.Assoc.{Assoc, lookup, insert}
use capp_backend.Kubernetes
use capp_backend.Kubernetes.{Kit, ObjectMeta, Container, CappSpec, Capp, ResourceRequirements}
use capp_backend.Capps.Types.{
  ResourceQuantities, CappSizes, ResourceSpec, KeySelector, EnvVarSource, EnvVar, VolumeMount,
  RouteSpec, LogSpec, NfsVolume, SecretVolume, ConfigMapVolume, ScaleSpec, PingSourceConfig,
  KafkaSourceConfig, SourceConfig, ConditionResponse, EventSourceStatusResponse, CappStatusResponse,
  BareCappResponse, CappResponse, capp_size_small, capp_size_medium, capp_size_large,
}

abbrev pub selector_from_k8s : Kubernetes.KeySelector → KeySelector
selector_from_k8s s = record { name = s.name; key = s.key }

unfoldable pub env_var_source_from_k8s : Kubernetes.EnvVarSource → EnvVarSource
env_var_source_from_k8s src = record {
  secret_key_ref = Option.map selector_from_k8s src.secret_key_ref;
  config_map_key_ref = Option.map selector_from_k8s src.config_map_key_ref;
}

unfoldable pub env_var_from_k8s : Kubernetes.EnvVar → EnvVar
unfolding env_var_source_from_k8s
env_var_from_k8s e = elim e.value_from [
  | some src ↦ record { name = e.name; value = ""; value_from = some (env_var_source_from_k8s src) }
  | none ↦ record { name = e.name; value = e.value; value_from = none }
]

unfoldable pub env_vars_from_k8s : List Kubernetes.EnvVar → List EnvVar
env_vars_from_k8s envs = map env_var_from_k8s envs

abbrev pub volume_mount_from_k8s : Kubernetes.VolumeMount → VolumeMount
volume_mount_from_k8s vm = record { name = vm.name; mount_path = vm.mount_path }

unfoldable pub volume_mounts_from_k8s : List Kubernetes.VolumeMount → List VolumeMount
volume_mounts_from_k8s mounts = map volume_mount_from_k8s mounts

-- The test of one annotation: Go's `k[:20]` is the first 20 bytes.
abbrev pub is_shown : String → Bool
is_shown k = ltb (len k) 20 || not (slice k 0 20 == "kubectl.kubernetes.i")

unfoldable pub filter_annotations : Assoc String → Assoc String
filter_annotations [] = []
filter_annotations ((k, v) ∷ rest) =
    let out = filter_annotations rest in if is_shown k then (k, v) ∷ out else out

-- `mountByName`: a later mount of a name replaces an earlier one.
unfoldable pub mount_by_name : List Kubernetes.VolumeMount → Assoc String → Assoc String
mount_by_name [] m = m
mount_by_name (vm ∷ vms) m = mount_by_name vms (insert vm.name vm.mount_path m)

-- The loop over `podSpec.Volumes`, for the secret volumes and for the ConfigMap volumes.
unfoldable pub secret_volumes_from_k8s : Assoc String → List Kubernetes.Volume → List SecretVolume
secret_volumes_from_k8s m [] = []
secret_volumes_from_k8s m (vol ∷ vols) =
    let rest = secret_volumes_from_k8s m vols in
    elim (lookup vol.name m) [
      | none ↦ rest
      | some path ↦ elim vol.secret [
        | some s ↦ record { name = vol.name; secret_name = s.name; mount_path = path } ∷ rest
        | none ↦ rest
      ]
    ]

unfoldable pub config_map_volumes_from_k8s :
    Assoc String → List Kubernetes.Volume → List ConfigMapVolume
config_map_volumes_from_k8s m [] = []
config_map_volumes_from_k8s m (vol ∷ vols) =
    let rest = config_map_volumes_from_k8s m vols in
    elim (lookup vol.name m) [
      | none ↦ rest
      | some path ↦ elim vol.secret [
        | some s ↦ rest
        | none ↦ elim vol.config_map [
          | some c ↦ record { name = vol.name; config_map_name = c.name; mount_path = path } ∷ rest
          | none ↦ rest
        ]
      ]
    ]

unfoldable pub route_spec_from_k8s : Kubernetes.RouteSpec → Option RouteSpec
route_spec_from_k8s rs =
    if not (rs.hostname == "") || (rs.tls_enabled || is_some rs.route_timeout_seconds)
    then some (record {
      hostname = rs.hostname;
      tls_enabled = rs.tls_enabled;
      route_timeout_seconds = rs.route_timeout_seconds;
    })
    else none

unfoldable pub log_spec_from_k8s : Kubernetes.LogSpec → Option LogSpec
log_spec_from_k8s ls =
    if not (ls.type == "")
    then some (record {
      type = ls.type;
      host = ls.host;
      target = ls.target;
      user = ls.user;
      password_secret = ls.password_secret;
      password_key = ls.password_key;
    })
    else none

abbrev pub scale_spec_from_k8s : Kubernetes.ScaleSpec → ScaleSpec
scale_spec_from_k8s s = record {
  metric = s.metric;
  min_replicas = s.min_replicas;
  max_replicas = s.max_replicas;
  scale_delay_seconds = s.scale_delay_seconds;
}

abbrev pub ping_from_k8s : Kubernetes.PingSourceConfiguration → PingSourceConfig
ping_from_k8s p = record { schedule = p.schedule; payload = p.payload }

abbrev pub kafka_from_k8s : Kubernetes.KafkaSourceConfiguration → KafkaSourceConfig
kafka_from_k8s c = record {
  bootstrap_servers = c.bootstrap_servers;
  topics = c.topics;
  consumer_group = c.consumer_group;
  consumers = c.consumers;
  secret_ref = c.secret_ref;
}

abbrev pub condition_from_k8s : Kubernetes.Condition → ConditionResponse
condition_from_k8s c = record {
  type = c.type;
  status = c.status;
  last_transition_time = c.last_transition_time;
  reason = c.reason;
  message = c.message;
}

abbrev pub event_source_status_from_k8s : Kubernetes.EventSourceStatus → EventSourceStatusResponse
event_source_status_from_k8s es = record {
  name = es.name;
  type = es.condition.type;
  status = es.condition.status;
  reason = es.condition.reason;
  message = es.condition.message;
}

module _ (k : Kit) where
  open k use {Quantity, quantity_string, url_string, parse_quantity, cmp, zero_quantity}

  -- `quantity.Cmp(map[key]) == 0`; a missing key reads as the zero quantity.
  same_quantity : Quantity → Option Quantity → Bool
  same_quantity q got = elim (cmp q (get_or got zero_quantity)) [ Ordering.eq ↦ true | _ ↦ false ]

  -- One round of the loop over the candidate sizes: do these limits match?
  unfoldable pub limits_match : ResourceQuantities → ResourceRequirements k → Bool
  unfolding same_quantity lookup
  limits_match limits res = elim (parse_quantity limits.cpu) [
    | err e ↦ false
    | ok cpu ↦ elim (parse_quantity limits.memory) [
      | err e ↦ false
      | ok mem ↦
          same_quantity cpu (lookup "cpu" res.limits)
          && same_quantity mem (lookup "memory" res.limits)
    ]
  ]

  unfoldable pub size_from_resources : ResourceRequirements k → CappSizes → String
  size_from_resources res sizes =
      if limits_match sizes.small.limits res
      then capp_size_small
      else if limits_match sizes.medium.limits res
      then capp_size_medium
      else if limits_match sizes.large.limits res
      then capp_size_large
      else ""

  text_of : Option Quantity → String
  text_of none = ""
  text_of (some q) = quantity_string q

  unfoldable pub quantities_from_k8s : Assoc Quantity → Option ResourceQuantities
  unfolding text_of lookup
  quantities_from_k8s [] = none
  quantities_from_k8s (q ∷ qs) = some (record {
    cpu = text_of (lookup "cpu" (q ∷ qs));
    memory = text_of (lookup "memory" (q ∷ qs));
  })

  unfoldable pub resource_spec_from_k8s : ResourceRequirements k → Option ResourceSpec
  unfolding quantities_from_k8s
  resource_spec_from_k8s res =
      if is_empty res.requests && is_empty res.limits
      then none
      else some (record {
        requests = quantities_from_k8s res.requests;
        limits = quantities_from_k8s res.limits;
      })

  unfoldable pub nfs_volume_from_k8s : Kubernetes.NfsVolume k → NfsVolume
  unfolding text_of lookup
  nfs_volume_from_k8s v = record {
    name = v.name;
    server = v.server;
    path = v.path;
    capacity = text_of (lookup "storage" v.capacity);
  }

  uri_from_k8s : Option k.Url → String
  uri_from_k8s none = ""
  uri_from_k8s (some u) = url_string u

  unfoldable pub source_from_k8s : Kubernetes.SourceConfiguration k → SourceConfig
  unfolding uri_from_k8s
  source_from_k8s s = record {
    name = s.name;
    uri = uri_from_k8s s.uri;
    ping_source_config = Option.map ping_from_k8s s.ping;
    kafka_source_config = Option.map kafka_from_k8s s.kafka;
  }

  unfoldable pub sources_from_k8s :
      List (Kubernetes.SourceConfiguration k) → Option (List SourceConfig)
  sources_from_k8s [] = none
  sources_from_k8s (s ∷ ss) = some (map source_from_k8s (s ∷ ss))

  -- The fields of the first container, zero where there is none.
  unfoldable pub with_container :
      List (Container k) → CappSizes → BareCappResponse → BareCappResponse
  with_container [] sizes resp = resp
  with_container (c ∷ cs) sizes resp = record resp {
    image = c.image;
    container_name = c.name;
    size = size_from_resources c.resources sizes;
    resources = resource_spec_from_k8s c.resources;
    env = env_vars_from_k8s c.env;
    volume_mounts = volume_mounts_from_k8s c.volume_mounts;
  }

  abbrev pub mounts_of : List (Container k) → List Kubernetes.VolumeMount
  mounts_of [] = []
  mounts_of (c ∷ cs) = c.volume_mounts

  unfoldable pub bare_from_k8s : ObjectMeta → CappSpec k → CappSizes → BareCappResponse
  unfolding with_container
  bare_from_k8s meta spec sizes =
      let containers = spec.pod_spec.containers in
      let mounts = mount_by_name (mounts_of containers) [] in
      with_container containers sizes (record {
        name = meta.name;
        namespace = meta.namespace;
        created_at = meta.creation_timestamp;
        uid = meta.uid;
        resource_version = meta.resource_version;
        labels = meta.labels;
        annotations = filter_annotations meta.annotations;
        scale_spec = scale_spec_from_k8s spec.scale_spec;
        state = spec.state;
        image = "";
        container_name = "";
        size = "";
        resources = none;
        env = [];
        volume_mounts = [];
        route_spec = route_spec_from_k8s spec.route_spec;
        log_spec = log_spec_from_k8s spec.log_spec;
        nfs_volumes = map nfs_volume_from_k8s spec.nfs_volumes;
        secret_volumes = secret_volumes_from_k8s mounts spec.pod_spec.volumes;
        config_map_volumes = config_map_volumes_from_k8s mounts spec.pod_spec.volumes;
        image_pull_secrets = spec.pod_spec.image_pull_secrets;
        event_sources_spec = sources_from_k8s spec.event_sources;
      })

  unfoldable pub build_status : Capp k → CappStatusResponse
  build_status capp = record {
    conditions = map condition_from_k8s capp.status.conditions;
    event_sources = map event_source_status_from_k8s capp.status.event_sources;
    state_status = record { state = capp.status.state; last_change = capp.status.last_change };
  }

  unfoldable pub from_k8s : Capp k → CappSizes → CappResponse
  unfolding bare_from_k8s build_status
  from_k8s capp sizes = record {
    bare = bare_from_k8s capp.metadata capp.spec sizes;
    status = build_status capp;
    warnings = [];
  }
