-- ===== src/Kubernetes.antt =====
-- The Kubernetes objects that the program reads and writes. Their types are declared in libraries
-- (k8s.io/api, the container-app-operator API); what stands here is the part of each that the
-- program names. `other` stands for all fields of an object that the program never names, "" where
-- they are all zero. A nil map or slice is an empty list. A `metav1.Time` is its instant, with `none`
-- for the zero time; the text that a response prints for it is not modelled. The fields
-- `Spec.ConfigurationSpec.Template.Spec` down to the pod spec are one field, `pod_spec`.
pub mod Client
pub mod Exec
use Prim.Native.Nat.{Ordering}
use capp_backend.Prelude.{ℕ, ℤ, String, Bool, Option, List, Result}
use capp_backend.Prelude.Assoc.{Assoc}
use capp_backend.ApiErrors.{GoError}

-- Library functions on values: `resource.ParseQuantity`, `Quantity.String`, `Quantity.Cmp`,
-- `resource.MustParse("0")`, `Quantity.Value`, `kapis.ParseURL`, `URL.String`, and the first error
-- of `validation.IsDNS1123Subdomain`.
pub record Kit : Type 1 where
  pub Quantity : Type 0
  pub Url : Type 0
  pub parse_quantity : String → Result GoError Quantity
  pub quantity_string : Quantity → String
  pub cmp : Quantity → Quantity → Ordering
  pub zero_quantity : Quantity
  pub quantity_value : Quantity → ℤ
  pub parse_url : String → Result GoError Url
  pub url_string : Url → String
  pub name_error : String → Option String

pub record ObjectMeta : Type 0 where
  pub name : String
  pub namespace : String
  pub labels : Assoc String
  pub annotations : Assoc String
  pub uid : String
  pub resource_version : String
  pub creation_timestamp : Option ℕ
  pub managed_fields : List String
  pub owner_references : List String
  pub generation : ℕ
  pub generate_name : String
  pub other : String

-- `SecretKeySelector` and `ConfigMapKeySelector`
pub record KeySelector : Type 0 where
  pub name : String
  pub key : String
  pub other : String

pub record EnvVarSource : Type 0 where
  pub secret_key_ref : Option KeySelector
  pub config_map_key_ref : Option KeySelector
  pub other : String

pub record EnvVar : Type 0 where
  pub name : String
  pub value : String
  pub value_from : Option EnvVarSource

pub record VolumeMount : Type 0 where
  pub name : String
  pub mount_path : String
  pub other : String

-- `SecretVolumeSource` and `ConfigMapVolumeSource`, each with the name of its object.
pub record VolumeSource : Type 0 where
  pub name : String
  pub other : String

pub record Volume : Type 0 where
  pub name : String
  pub secret : Option VolumeSource
  pub config_map : Option VolumeSource
  pub other : String

pub record ResourceRequirements (k : Kit) : Type 0 where
  pub requests : Assoc k.Quantity
  pub limits : Assoc k.Quantity
  pub other : String

pub record Container (k : Kit) : Type 0 where
  pub name : String
  pub image : String
  pub env : List EnvVar
  pub volume_mounts : List VolumeMount
  pub resources : ResourceRequirements k
  pub other : String

pub record PodSpec (k : Kit) : Type 0 where
  pub containers : List (Container k)
  pub volumes : List Volume
  pub image_pull_secrets : List String
  pub other : String

pub record ScaleSpec : Type 0 where
  pub metric : String
  pub min_replicas : Option ℤ
  pub max_replicas : Option ℤ
  pub scale_delay_seconds : Option ℤ
  pub other : String

pub record RouteSpec : Type 0 where
  pub hostname : String
  pub tls_enabled : Bool
  pub route_timeout_seconds : Option ℤ
  pub other : String

pub record LogSpec : Type 0 where
  pub type : String
  pub host : String
  pub target : String
  pub user : String
  pub password_secret : String
  pub password_key : String
  pub other : String

pub record NfsVolume (k : Kit) : Type 0 where
  pub name : String
  pub server : String
  pub path : String
  pub capacity : Assoc k.Quantity

pub record PingSourceConfiguration : Type 0 where
  pub schedule : String
  pub payload : String
  pub other : String

pub record KafkaSourceConfiguration : Type 0 where
  pub bootstrap_servers : List String
  pub topics : List String
  pub consumer_group : String
  pub consumers : Option ℤ
  pub secret_ref : String
  pub other : String

pub record SourceConfiguration (k : Kit) : Type 0 where
  pub name : String
  pub uri : Option k.Url
  pub ping : Option PingSourceConfiguration
  pub kafka : Option KafkaSourceConfiguration
  pub other : String

pub record CappSpec (k : Kit) : Type 0 where
  pub state : String
  pub scale_spec : ScaleSpec
  pub pod_spec : PodSpec k
  pub route_spec : RouteSpec
  pub log_spec : LogSpec
  pub nfs_volumes : List (NfsVolume k)
  pub event_sources : List (SourceConfiguration k)
  pub other : String

pub record Condition : Type 0 where
  pub type : String
  pub status : String
  pub last_transition_time : Option ℕ
  pub reason : String
  pub message : String

pub record EventSourceStatus : Type 0 where
  pub name : String
  pub condition : Condition

pub record CappStatus : Type 0 where
  pub conditions : List Condition
  pub state : String
  pub last_change : Option ℕ
  pub event_sources : List EventSourceStatus
  pub other : String

pub record Capp (k : Kit) : Type 0 where
  pub metadata : ObjectMeta
  pub spec : CappSpec k
  pub status : CappStatus

-- A Secret or a ConfigMap: its metadata, and all else.
pub record Dependent : Type 0 where
  pub metadata : ObjectMeta
  pub contents : String
