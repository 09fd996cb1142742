-- ===== src/Capps/ToK8s/Resources.antt =====
-- internal/resources/namespaced/capps/convert.go: container resources, NFS volumes and event sources.
use capp_backend.Prelude.{
  String, Option, none, some, List, [], ◌∷◌, ◌++◌, Result, ok, err, ◌>>=◌, map_err, ◌==◌, ◌&&◌,
  ◌||◌, not, if◌then◌else◌, is_some,
}
use mathlib.Core.Option
use capp_backend.Prelude.Assoc.{Assoc}
use capp_backend.ApiErrors.{GoError, Message, errorf, wrapped, literal, sprintf}
use capp_backend.Kubernetes
use capp_backend.Kubernetes.{Kit}
use capp_backend.Capps.Types.{
  ResourceQuantities, ResourceSize, CappSizes, ResourceSpec, NfsVolume, SourceConfig,
  PingSourceConfig, KafkaSourceConfig, capp_size_small, capp_size_medium, capp_size_large,
}

module _ (k : Kit) where
  open k use {Quantity, parse_quantity, parse_url}

  abbrev pub no_resources : Kubernetes.ResourceRequirements k
  no_resources = record { requests = []; limits = []; other = "" }

  -- `resource.ParseQuantity` with the error wrapped by `fmt.Errorf`.
  parse_as : String → String → Result GoError Quantity
  parse_as format s = map_err (wrapped (sprintf format (s ∷ []))) (parse_quantity s)

  unfoldable pub parse_resource_quantities :
      ResourceQuantities → ResourceQuantities → Result GoError (Kubernetes.ResourceRequirements k)
  unfolding parse_as
  parse_resource_quantities requests limits = do
    req_cpu ← parse_as "invalid requests.cpu %q: %w" requests.cpu
    req_mem ← parse_as "invalid requests.memory %q: %w" requests.memory
    lim_cpu ← parse_as "invalid limits.cpu %q: %w" limits.cpu
    lim_mem ← parse_as "invalid limits.memory %q: %w" limits.memory
    ok (record {
      requests = ("cpu", req_cpu) ∷ ("memory", req_mem) ∷ [];
      limits = ("cpu", lim_cpu) ∷ ("memory", lim_mem) ∷ [];
      other = "";
    })

  -- One optional entry of a resource list.
  parse_entry : String → String → Message → Result GoError (Assoc Quantity)
  parse_entry key s m =
      if s == "" then ok [] else do q ← map_err (wrapped m) (parse_quantity s); ok ((key, q) ∷ [])

  unfoldable pub parse_resource_list : String → String → String → Result GoError (Assoc Quantity)
  unfolding parse_entry
  parse_resource_list cpu memory label = do
    c ← parse_entry "cpu" cpu (sprintf "invalid %s.cpu %q: %w" (label ∷ cpu ∷ []))
    m ← parse_entry "memory" memory (sprintf "invalid %s.memory %q: %w" (label ∷ memory ∷ []))
    ok (c ++ m)

  parse_section : Option ResourceQuantities → String → Result GoError (Assoc Quantity)
  parse_section none label = ok []
  parse_section (some q) label = parse_resource_list q.cpu q.memory label

  unfoldable pub parse_custom_resources :
      ResourceSpec → Result GoError (Kubernetes.ResourceRequirements k)
  unfolding parse_section parse_resource_list
  parse_custom_resources spec = do
    requests ← parse_section spec.requests "requests"
    limits ← parse_section spec.limits "limits"
    ok (record { requests = requests; limits = limits; other = "" })

  -- The `switch` on the size.
  unfoldable pub size_named : String → CappSizes → Result GoError ResourceSize
  size_named size sizes =
      if size == capp_size_small
      then ok sizes.small
      else if size == capp_size_large
      then ok sizes.large
      else if size == capp_size_medium
      then ok sizes.medium
      else err
          (errorf (sprintf "invalid size %q: must be one of small, medium, or large" (size ∷ [])))

  unfoldable pub size_to_k8s :
      String → CappSizes → Result GoError (Option (Kubernetes.ResourceRequirements k))
  unfolding size_named
  size_to_k8s size sizes = do
    s ← size_named size sizes
    resources ←
        map_err (wrapped (sprintf "size %q: %w" (size ∷ [])))
          (parse_resource_quantities s.requests s.limits)
    ok (some resources)

  unfoldable pub custom_to_k8s :
      Option ResourceSpec → Result GoError (Option (Kubernetes.ResourceRequirements k))
  custom_to_k8s none = ok none
  custom_to_k8s (some spec) = do
    resources ← map_err (wrapped (literal "customResources: %w")) (parse_custom_resources spec)
    ok (some resources)

  -- The end of `ToK8s`: the resources of the container, `none` where they are left as they are.
  unfoldable pub resources_to_k8s :
      String
      → Option ResourceSpec
      → CappSizes
      → Result GoError (Option (Kubernetes.ResourceRequirements k))
  resources_to_k8s size custom sizes =
      if not (size == "") && is_some custom
      then err (
          errorf (
            literal
              "size and customResources are mutually exclusive: set one or the other, not both"))
      else if not (size == "")
      then size_to_k8s size sizes
      else custom_to_k8s custom

  unfoldable pub nfs_volumes_to_k8s :
      List NfsVolume → Result GoError (List (Kubernetes.NfsVolume k))
  unfolding parse_as
  nfs_volumes_to_k8s [] = ok []
  nfs_volumes_to_k8s (v ∷ vs) = do
    qty ← parse_as "invalid NFS volume capacity %q: %w" v.capacity
    rest ← nfs_volumes_to_k8s vs
    ok (
        record { name = v.name; server = v.server; path = v.path; capacity = ("storage", qty) ∷ [] }
        ∷ rest)

  abbrev pub ping_to_k8s : PingSourceConfig → Kubernetes.PingSourceConfiguration
  ping_to_k8s p = record { schedule = p.schedule; payload = p.payload; other = "" }

  abbrev pub kafka_to_k8s : KafkaSourceConfig → Kubernetes.KafkaSourceConfiguration
  kafka_to_k8s c = record {
    bootstrap_servers = c.bootstrap_servers;
    topics = c.topics;
    consumer_group = c.consumer_group;
    consumers = c.consumers;
    secret_ref = c.secret_ref;
    other = "";
  }

  uri_to_k8s : String → String → Result GoError (Option k.Url)
  uri_to_k8s name uri =
      let parsed =
        map_err (wrapped (sprintf "event source %q: invalid URI %q: %w" (name ∷ uri ∷ [])))
          (parse_url uri) in
      if uri == "" then ok none else (do u ← parsed; ok (some u))

  unfoldable pub source_to_k8s : SourceConfig → Result GoError (Kubernetes.SourceConfiguration k)
  unfolding uri_to_k8s
  source_to_k8s s =
      let both_set = is_some s.ping_source_config && is_some s.kafka_source_config in
      let neither_set = not (is_some s.ping_source_config) && not (is_some s.kafka_source_config) in
      if both_set || neither_set
      then err (
          errorf (
            sprintf
              "event source %q: exactly one of pingSourceConfiguration or kafkaSourceConfiguration must be set"
              (s.name ∷ [])))
      else do
        uri ← uri_to_k8s s.name s.uri
        ok (record {
          name = s.name;
          uri = uri;
          ping = Option.map ping_to_k8s s.ping_source_config;
          kafka = Option.map kafka_to_k8s s.kafka_source_config;
          other = "";
        })

  sources_to_k8s : List SourceConfig → Result GoError (List (Kubernetes.SourceConfiguration k))
  sources_to_k8s [] = ok []
  sources_to_k8s (s ∷ ss) = do sc ← source_to_k8s s; rest ← sources_to_k8s ss; ok (sc ∷ rest)

  unfoldable pub event_sources_spec_to_k8s :
      Option (List SourceConfig) → Result GoError (List (Kubernetes.SourceConfiguration k))
  unfolding sources_to_k8s
  event_sources_spec_to_k8s none = ok []
  event_sources_spec_to_k8s (some sources) = sources_to_k8s sources
