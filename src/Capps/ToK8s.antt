-- ===== src/Capps/ToK8s.antt =====
-- internal/resources/namespaced/capps/convert.go, `ToK8s`: from a request to a Capp. Deep copies are
-- the values themselves, since nothing here is shared.
pub mod Env
pub mod Volumes
pub mod Resources
use capp_backend.Prelude.{
  String, Bool, false, Option, none, some, List, [], ◌∷◌, Result, ok, ◌>>=◌, get_or,
}
use capp_backend.ApiErrors.{GoError}
use capp_backend.Kubernetes
use capp_backend.Kubernetes.{Kit, ObjectMeta, Container, PodSpec, CappSpec, CappStatus, Capp}
use capp_backend.Capps.Types.{ScaleSpec, RouteSpec, LogSpec, CappRequest, CappSizes}
use Env.{env_vars_to_k8s, image_pull_secrets_to_k8s}
use Volumes.{collect_volumes, Collected}
use Resources.{nfs_volumes_to_k8s, event_sources_spec_to_k8s, resources_to_k8s, no_resources}

abbrev pub empty_meta : String → String → ObjectMeta
empty_meta name namespace = record {
  name = name;
  namespace = namespace;
  labels = [];
  annotations = [];
  uid = "";
  resource_version = "";
  creation_timestamp = none;
  managed_fields = [];
  owner_references = [];
  generation = 0;
  generate_name = "";
  other = "";
}

abbrev pub scale_spec_to_k8s : ScaleSpec → Kubernetes.ScaleSpec
scale_spec_to_k8s s = record {
  metric = s.metric;
  min_replicas = s.min_replicas;
  max_replicas = s.max_replicas;
  scale_delay_seconds = s.scale_delay_seconds;
  other = "";
}

abbrev pub route_spec_to_k8s : Option RouteSpec → Kubernetes.RouteSpec
route_spec_to_k8s none = record {
  hostname = "";
  tls_enabled = false;
  route_timeout_seconds = none;
  other = "";
}
route_spec_to_k8s (some r) = record {
  hostname = r.hostname;
  tls_enabled = r.tls_enabled;
  route_timeout_seconds = r.route_timeout_seconds;
  other = "";
}

abbrev pub log_spec_to_k8s : Option LogSpec → Kubernetes.LogSpec
log_spec_to_k8s none = record {
  type = "";
  host = "";
  target = "";
  user = "";
  password_secret = "";
  password_key = "";
  other = "";
}
log_spec_to_k8s (some l) = record {
  type = l.type;
  host = l.host;
  target = l.target;
  user = l.user;
  password_secret = l.password_secret;
  password_key = l.password_key;
  other = "";
}

abbrev pub empty_status : CappStatus
empty_status = record {
  conditions = [];
  state = "";
  last_change = none;
  event_sources = [];
  other = "";
}

module _ (k : Kit) where
  abbrev pub empty_container : Container k
  empty_container = record {
    name = "";
    image = "";
    env = [];
    volume_mounts = [];
    resources = no_resources k;
    other = "";
  }

  -- The spec before the request is written into it: that of the existing object, or a new one with
  -- one empty container.
  abbrev pub base_spec : Option (Capp k) → CappSpec k
  base_spec (some existing) = existing.spec
  base_spec none = record {
    state = "";
    scale_spec = record {
      metric = "";
      min_replicas = none;
      max_replicas = none;
      scale_delay_seconds = none;
      other = "";
    };
    pod_spec = record {
      containers = empty_container ∷ [];
      volumes = [];
      image_pull_secrets = [];
      other = "";
    };
    route_spec = route_spec_to_k8s none;
    log_spec = log_spec_to_k8s none;
    nfs_volumes = [];
    event_sources = [];
    other = "";
  }

  abbrev pub base_meta : CappRequest → Option (Capp k) → String → ObjectMeta
  base_meta req none namespace = empty_meta req.name namespace
  base_meta req (some existing) namespace = record existing.metadata {
    name = req.name;
    namespace = namespace;
  }

  abbrev pub first_container : List (Container k) → Container k
  first_container [] = empty_container
  first_container (c ∷ cs) = c

  -- The first container as the request writes it.
  abbrev pub written_container :
      CappRequest
      → Container k
      → List Kubernetes.EnvVar
      → Collected
      → Option (Kubernetes.ResourceRequirements k)
      → Container k
  written_container req container env collected resources = record {
    name = req.container_name;
    image = req.image;
    env = env;
    volume_mounts = collected.mounts;
    resources = get_or resources container.resources;
    other = container.other;
  }

  -- The Capp that is returned, from the parts that the fallible steps computed.
  abbrev pub written_capp :
      CappRequest
      → Option (Capp k)
      → String
      → List Kubernetes.EnvVar
      → Collected
      → List String
      → List (Kubernetes.NfsVolume k)
      → List (Kubernetes.SourceConfiguration k)
      → Option (Kubernetes.ResourceRequirements k)
      → Capp k
  written_capp req existing namespace env collected pull_secrets nfs_vols sources resources =
      let base = base_spec existing in
      let container = first_container base.pod_spec.containers in
      record {
        metadata = base_meta req existing namespace;
        spec = record {
          state = req.state;
          scale_spec = scale_spec_to_k8s req.scale_spec;
          pod_spec = record {
            containers = written_container req container env collected resources ∷ [];
            volumes = collected.volumes;
            image_pull_secrets = pull_secrets;
            other = base.pod_spec.other;
          };
          route_spec = route_spec_to_k8s req.route_spec;
          log_spec = log_spec_to_k8s req.log_spec;
          nfs_volumes = nfs_vols;
          event_sources = sources;
          other = base.other;
        };
        status = empty_status;
      }

  unfoldable pub to_k8s :
      CappRequest → Option (Capp k) → String → CappSizes → Result GoError (Capp k)
  to_k8s req existing namespace sizes = do
    env ← env_vars_to_k8s req.env
    collected ← collect_volumes req.volume_mounts req.secret_volumes req.config_map_volumes
    pull_secrets ← image_pull_secrets_to_k8s k req.image_pull_secrets
    nfs_vols ← nfs_volumes_to_k8s k req.nfs_volumes
    sources ← event_sources_spec_to_k8s k req.event_sources_spec
    resources ← resources_to_k8s k req.size req.custom_resources sizes
    ok (written_capp req existing namespace env collected pull_secrets nfs_vols sources resources)
