-- ===== src/Capps/Types.antt =====
-- internal/resources/namespaced/capps/types.go and the Capp sizes of internal/config/config.go: the
-- bodies of requests and responses. A nil pointer is `none`.
use capp_backend.Prelude.{ℕ, ℤ, String, Bool, Option, List}
use capp_backend.Prelude.Assoc.{Assoc}

abbrev pub capp_size_small : String
capp_size_small = "small"

abbrev pub capp_size_large : String
capp_size_large = "large"

abbrev pub capp_size_medium : String
capp_size_medium = "medium"

pub record ResourceQuantities : Type 0 where
  pub cpu : String
  pub memory : String

pub record ResourceSize : Type 0 where
  pub requests : ResourceQuantities
  pub limits : ResourceQuantities

pub record CappSizes : Type 0 where
  pub small : ResourceSize
  pub medium : ResourceSize
  pub large : ResourceSize

pub record ResourceSpec : Type 0 where
  pub requests : Option ResourceQuantities
  pub limits : Option ResourceQuantities

pub record KeySelector : Type 0 where
  pub name : String
  pub key : String

pub record EnvVarSource : Type 0 where
  pub secret_key_ref : Option KeySelector
  pub config_map_key_ref : Option KeySelector

pub record EnvVar : Type 0 where
  pub name : String
  pub value : String
  pub value_from : Option EnvVarSource

pub record VolumeMount : Type 0 where
  pub name : String
  pub mount_path : String

pub record RouteSpec : Type 0 where
  pub hostname : String
  pub tls_enabled : Bool
  pub route_timeout_seconds : Option ℤ

pub record LogSpec : Type 0 where
  pub type : String
  pub host : String
  pub target : String
  pub user : String
  pub password_secret : String
  pub password_key : String

pub record NfsVolume : Type 0 where
  pub name : String
  pub server : String
  pub path : String
  pub capacity : String

pub record SecretVolume : Type 0 where
  pub name : String
  pub secret_name : String
  pub mount_path : String

pub record ConfigMapVolume : Type 0 where
  pub name : String
  pub config_map_name : String
  pub mount_path : String

pub record ScaleSpec : Type 0 where
  pub metric : String
  pub min_replicas : Option ℤ
  pub max_replicas : Option ℤ
  pub scale_delay_seconds : Option ℤ

pub record PingSourceConfig : Type 0 where
  pub schedule : String
  pub payload : String

pub record KafkaSourceConfig : Type 0 where
  pub bootstrap_servers : List String
  pub topics : List String
  pub consumer_group : String
  pub consumers : Option ℤ
  pub secret_ref : String

pub record SourceConfig : Type 0 where
  pub name : String
  pub uri : String
  pub ping_source_config : Option PingSourceConfig
  pub kafka_source_config : Option KafkaSourceConfig

pub record CappRequest : Type 0 where
  pub name : String
  pub scale_spec : ScaleSpec
  pub state : String
  pub image : String
  pub container_name : String
  pub size : String
  pub custom_resources : Option ResourceSpec
  pub env : List EnvVar
  pub volume_mounts : List VolumeMount
  pub route_spec : Option RouteSpec
  pub log_spec : Option LogSpec
  pub nfs_volumes : List NfsVolume
  pub secret_volumes : List SecretVolume
  pub config_map_volumes : List ConfigMapVolume
  pub image_pull_secrets : List String
  -- `EventSourcesSpec`, a pointer to a list of sources
  pub event_sources_spec : Option (List SourceConfig)

pub record ConditionResponse : Type 0 where
  pub type : String
  pub status : String
  pub last_transition_time : Option ℕ
  pub reason : String
  pub message : String

pub record EventSourceStatusResponse : Type 0 where
  pub name : String
  pub type : String
  pub status : String
  pub reason : String
  pub message : String

pub record StateStatusResponse : Type 0 where
  pub state : String
  pub last_change : Option ℕ

pub record CappStatusResponse : Type 0 where
  pub conditions : List ConditionResponse
  -- `EventingStatus.EventSources`
  pub event_sources : List EventSourceStatusResponse
  pub state_status : StateStatusResponse

pub record BareCappResponse : Type 0 where
  pub name : String
  pub namespace : String
  pub created_at : Option ℕ
  pub uid : String
  pub resource_version : String
  pub labels : Assoc String
  pub annotations : Assoc String
  pub scale_spec : ScaleSpec
  pub state : String
  pub image : String
  pub container_name : String
  pub size : String
  pub resources : Option ResourceSpec
  pub env : List EnvVar
  pub volume_mounts : List VolumeMount
  pub route_spec : Option RouteSpec
  pub log_spec : Option LogSpec
  pub nfs_volumes : List NfsVolume
  pub secret_volumes : List SecretVolume
  pub config_map_volumes : List ConfigMapVolume
  pub image_pull_secrets : List String
  pub event_sources_spec : Option (List SourceConfig)

pub record Warning : Type 0 where
  pub code : String
  pub message : String

pub record CappResponse : Type 0 where
  pub bare : BareCappResponse
  pub status : CappStatusResponse
  pub warnings : List Warning

pub record MigrateRequest : Type 0 where
  pub target_cluster : String
  pub target_namespace : String
  pub delete_source : Bool
  pub target_hostname : String

pub record MigrateResponse : Type 0 where
  pub name : String
  pub source_cluster : String
  pub source_namespace : String
  pub target_cluster : String
  pub target_namespace : String
  pub source_deleted : Bool
  pub copied_secrets : List String
  pub copied_config_maps : List String
