-- ===== src/Namespaces/Reading.antt =====
-- internal/resources/cluster/namespaces/handler.go: what the handlers read, and the two routes that
-- only read. A handler is an action on the world that gives a reply, or the error that it passes to
-- `Respond`.
use capp_backend.Prelude.{
  String, Bool, false, Option, none, some, List, [], ◌∷◌, Result, ok, err, map, ◌==◌, if◌then◌else◌,
  length, is_some,
}
use capp_backend.Prelude.Assoc.{Assoc, lookup, insert}
use capp_backend.ApiErrors.{GoError, api, errorf, sprintf, new_internal, new_forbidden, Message}
use capp_backend.Kubernetes.{Kit}
use capp_backend.Kubernetes.Exec.{Exec, pure, raise, lift, read, attempt, ◌>>=◌}
use capp_backend.Capps.ToK8s.{empty_meta}
use capp_backend.Namespaces.Types.{
  QuotaInfo, NamespaceItem, Namespace, Project, RoleBinding, ResourceQuota, Attributes, Client,
  Libraries, RequestContext, Reply, reply, list_body,
}
use capp_backend.Namespaces.Quota.{quota_name, role_binding_name, quota_info_from_k8s, user_names}

-- `MustGet` and the type assertion.
unfoldable pub must_get {ℓ} : {A : Type ℓ} → String → Option A → Result GoError A
must_get key none = err (
    new_internal
      (errorf (sprintf "required context value %s not set — check middleware order" (key ∷ []))))
must_get key (some a) = ok a

abbrev pub capps_in : String → Attributes
capps_in namespace = record {
  namespace = namespace;
  verb = "create";
  group = "rcs.dana.io";
  resource = "capps";
}

abbrev pub all_namespaces : String → Attributes
all_namespaces verb = record { namespace = ""; verb = verb; group = ""; resource = "namespaces" }

abbrev managed_namespaces : Assoc String
managed_namespaces = ("dana.io/capp-ns", "true") ∷ []

abbrev pub item_of : String → String → Option QuotaInfo → Option (List String) → NamespaceItem
item_of name status quota users = record {
  name = name;
  status = status;
  quota = quota;
  users = users;
  can_edit = false;
}

abbrev pub with_can_edit : Bool → NamespaceItem → NamespaceItem
with_can_edit b item = record item { can_edit = b }

abbrev pub empty_quota : {k : Kit} → ResourceQuota k
empty_quota = record { metadata = empty_meta "" ""; hard = []; scopes = []; used = []; other = "" }

-- `if err != nil || !allowed`
unfoldable pub require : {W : Type 0} → Exec W Bool → Message → Exec W (Unit {0})
require check message =
    attempt check (λ allowed. if allowed then pure tt else raise (api (new_forbidden message)))
      (λ e. raise (api (new_forbidden message)))

-- `allowed, _ :=`
unfoldable pub allowed_or_false : {W : Type 0} → Exec W Bool → Exec W Bool
allowed_or_false check = attempt check pure (λ e. pure false)

unfoldable pub users_map : List RoleBinding → Assoc (List String) → Assoc (List String)
unfolding user_names insert
users_map [] found = found
users_map (rb ∷ rest) found = users_map rest (
    if rb.metadata.name == role_binding_name rb.metadata.namespace
    then insert rb.metadata.namespace (user_names rb.subjects) found
    else found)

unfoldable pub quota_info_map :
    {k : Kit} → List (ResourceQuota k) → Assoc QuotaInfo → Assoc QuotaInfo
unfolding quota_info_from_k8s insert lookup
quota_info_map [] found = found
quota_info_map (q ∷ rest) found = quota_info_map rest (
    if is_some (lookup q.metadata.namespace found)
    then found
    else insert q.metadata.namespace (quota_info_from_k8s _ q) found)

unfoldable pub project_items :
    Assoc QuotaInfo → Assoc (List String) → List Project → List NamespaceItem
unfolding lookup
project_items quotas users [] = []
project_items quotas users (p ∷ rest) =
    item_of p.name p.phase (lookup p.name quotas) (lookup p.name users)
    ∷ project_items quotas users rest

-- What `Get` has left in the object: nothing where it was not found.
unfoldable pub found_or {ℓ} : {A : Type ℓ} → Libraries → A → Result GoError A → Result GoError A
found_or l empty (ok a) = ok a
found_or l empty (err e) = if l.errors.is_not_found e then ok empty else err e

-- Quota and users are shown where they can be read.
unfoldable pub quota_of : {k : Kit} → Result GoError (ResourceQuota k) → Option QuotaInfo
unfolding quota_info_from_k8s
quota_of (ok q) = some (quota_info_from_k8s _ q)
quota_of (err e) = none

unfoldable pub users_of : Result GoError RoleBinding → Option (List String)
unfolding user_names
users_of (ok rb) = some (user_names rb.subjects)
users_of (err e) = none

module _ {k : Kit} {W : Type 0} where
  unfoldable pub can_create_capps : Client k W → String → Exec W Bool
  can_create_capps user namespace = user.review (capps_in namespace)

  unfoldable pub can_access_namespaces : Client k W → String → Exec W Bool
  can_access_namespaces user verb = user.review (all_namespaces verb)

  unfoldable pub list_users_map : Client k W → W → Assoc (List String)
  unfolding users_map
  list_users_map admin w = elim (admin.list_role_bindings w) [
    | err e ↦ []
    | ok items ↦ users_map items []
  ]

  unfoldable pub list_quota_info_map : Client k W → W → Assoc QuotaInfo
  unfolding quota_info_map
  list_quota_info_map admin w = elim (admin.list_quotas w) [
    | err e ↦ []
    | ok items ↦ quota_info_map items []
  ]

  unfoldable pub list_open_shift_projects :
      Client k W → Assoc QuotaInfo → Assoc (List String) → Exec W (List NamespaceItem)
  unfolding project_items
  list_open_shift_projects user quotas users = do
    projects ← read (user.list_projects managed_namespaces)
    pure (project_items quotas users projects)

  -- The loop of `listK8sNamespaces`.
  unfoldable pub allowed_items :
      Client k W
      → Assoc QuotaInfo
      → Assoc (List String)
      → List Namespace
      → Exec W (List NamespaceItem)
  unfolding lookup can_create_capps allowed_or_false
  allowed_items user quotas users [] = pure []
  allowed_items user quotas users (ns ∷ rest) = do
    allowed ← allowed_or_false (can_create_capps user ns.metadata.name)
    items ← allowed_items user quotas users rest
    pure (
        if allowed
        then item_of ns.metadata.name ns.phase (lookup ns.metadata.name quotas)
            (lookup ns.metadata.name users)
          ∷ items
        else items)

  unfoldable pub list_k8s_namespaces :
      Client k W → Client k W → Assoc QuotaInfo → Assoc (List String) → Exec W (List NamespaceItem)
  unfolding allowed_items
  list_k8s_namespaces user admin quotas users = do
    namespaces ← read (admin.list_namespaces managed_namespaces)
    allowed_items user quotas users namespaces

  unfoldable pub list : RequestContext k W → Exec W Reply
  unfolding must_get list_quota_info_map list_users_map list_open_shift_projects list_k8s_namespaces
      can_access_namespaces allowed_or_false
  list rc = do
    user ← lift (must_get "K8sClientKey" rc.client)
    admin ← lift (must_get "AdminK8sClientKey" rc.admin_client)
    is_open_shift ← lift (must_get "ClusterMetaKey" rc.is_open_shift)
    quotas ← read (λ w. ok (list_quota_info_map admin w))
    users ← read (λ w. ok (list_users_map admin w))
    items ←
        (if is_open_shift
          then list_open_shift_projects user quotas users
          else list_k8s_namespaces user admin quotas users)
    can_create ← allowed_or_false (can_access_namespaces user "create")
    pure (
        reply 200 (
          list_body (record {
            items = map (with_can_edit can_create) items;
            total = length items;
            can_create = can_create;
          })))

  unfoldable pub build_namespace_item : Client k W → String → String → W → NamespaceItem
  unfolding quota_of users_of
  build_namespace_item admin name phase w =
      item_of name phase (quota_of (admin.get_quota name (quota_name name) w))
        (users_of (admin.get_role_binding name (role_binding_name name) w))
