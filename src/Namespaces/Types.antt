-- ===== src/Namespaces/Types.antt =====
-- internal/resources/cluster/namespaces/types.go, and the Kubernetes objects that the namespace
-- routes read and write; `other` stands for the fields that the program never names.
use capp_backend.Prelude.{ℕ, ℤ, String, Bool, Option, List, Result}
use capp_backend.Prelude.Assoc.{Assoc}
use capp_backend.ApiErrors.{GoError, K8sErrors}
use capp_backend.Kubernetes.{Kit, Capp, ObjectMeta}
use capp_backend.Kubernetes.Exec.{Exec}

pub record UsedQuotaInfo : Type 0 where
  pub cpu : String
  pub memory : String
  pub pods : Option ℤ

pub record QuotaInfo : Type 0 where
  pub cpu : String
  pub memory : String
  pub pods : Option ℤ
  pub used : Option UsedQuotaInfo

pub record NamespaceItem : Type 0 where
  pub name : String
  pub status : String
  pub quota : Option QuotaInfo
  pub users : Option (List String)
  pub can_edit : Bool

pub record NamespaceListResponse : Type 0 where
  pub items : List NamespaceItem
  pub total : ℕ
  pub can_create : Bool

pub record RequestedQuota : Type 0 where
  pub cpu : String
  pub memory : String
  pub pods : ℤ

pub record CreateNamespaceRequest : Type 0 where
  pub name : String
  pub users : Option (List String)
  pub quota : Option RequestedQuota

pub record UpdateNamespaceRequest : Type 0 where
  pub users : Option (List String)
  pub quota : Option RequestedQuota

pub record PatchNamespaceRequest : Type 0 where
  pub users : Option (List String)

pub data Body : Type 0 where
  item_body : NamespaceItem → Body
  list_body : NamespaceListResponse → Body
  no_body : Body

pub record Reply : Type 0 where
  pub status : ℕ
  pub body : Body

abbrev pub reply : ℕ → Body → Reply
reply status body = record { status = status; body = body }

-- The objects.
pub record Namespace : Type 0 where
  pub metadata : ObjectMeta
  pub phase : String
  pub other : String

pub record Project : Type 0 where
  pub name : String
  pub phase : String

pub record Subject : Type 0 where
  pub kind : String
  pub name : String
  pub other : String

pub record RoleRef : Type 0 where
  pub api_group : String
  pub kind : String
  pub name : String

pub record RoleBinding : Type 0 where
  pub metadata : ObjectMeta
  pub subjects : List Subject
  pub role_ref : RoleRef

-- `Spec.Hard`, `Spec.Scopes` and `Status.Used`.
pub record ResourceQuota (k : Kit) : Type 0 where
  pub metadata : ObjectMeta
  pub hard : Assoc k.Quantity
  pub scopes : List String
  pub used : Assoc k.Quantity
  pub other : String

-- The attributes of a `SelfSubjectAccessReview`.
pub record Attributes : Type 0 where
  pub namespace : String
  pub verb : String
  pub group : String
  pub resource : String

-- The Kubernetes client, as the namespace routes use it: `review` creates an access review and
-- returns its `Status.Allowed`; the lists of namespaces and of projects take a label selector, and
-- the other lists but that of the Capps are over the whole cluster; a creation of a Namespace
-- returns the object as the server stored it. Objects are found by namespace and name.
pub record Client (k : Kit) (W : Type 0) : Type 0 where
  pub review : Attributes → Exec W Bool
  pub get_namespace : String → W → Result GoError Namespace
  pub list_namespaces : Assoc String → W → Result GoError (List Namespace)
  pub list_projects : Assoc String → W → Result GoError (List Project)
  pub create_namespace : Namespace → Exec W Namespace
  pub delete_namespace : Namespace → Exec W (Unit {0})
  pub get_quota : String → String → W → Result GoError (ResourceQuota k)
  pub list_quotas : W → Result GoError (List (ResourceQuota k))
  pub create_quota : ResourceQuota k → Exec W (Unit {0})
  pub update_quota : ResourceQuota k → Exec W (Unit {0})
  pub get_role_binding : String → String → W → Result GoError RoleBinding
  pub list_role_bindings : W → Result GoError (List RoleBinding)
  pub create_role_binding : RoleBinding → Exec W (Unit {0})
  pub update_role_binding : RoleBinding → Exec W (Unit {0})
  pub list_capps : String → W → Result GoError (List (Capp k))

-- What the handlers ask of libraries: the predicates on Kubernetes errors, and `Error()` of an error.
pub record Libraries : Type 0 where
  pub errors : K8sErrors
  pub error_text : GoError → String

-- What the middlewares have put into the Gin context, `none` for a value of another type. They run
-- before every route of a cluster, so `MustGet` finds its key.
pub record RequestContext (k : Kit) (W : Type 0) : Type 0 where
  pub client : Option (Client k W)
  pub admin_client : Option (Client k W)
  pub is_open_shift : Option Bool
