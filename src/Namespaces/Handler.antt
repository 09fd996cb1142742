-- ===== src/Namespaces/Handler.antt =====
-- internal/resources/cluster/namespaces/handler.go: the routes of one namespace, and the creation of
-- a namespace. Request bodies are what Gin's `ShouldBindJSON` made of them.
use capp_backend.Prelude.{
  String, Bool, true, false, ◌||◌, ◌&&◌, Option, none, some, List, [], ◌∷◌, ◌++◌, Result, ok, err,
  map_err, ◌==◌, if◌then◌else◌, length, is_empty, get_or, ℕ, pos,
}
use capp_backend.Prelude.Decimal.{format_int}
use capp_backend.ApiErrors.{GoError, api, new_bad_request, new_conflict, literal, sprintf}
use capp_backend.Kubernetes.{Kit, ObjectMeta}
use capp_backend.Kubernetes.Exec.{Exec, pure, raise, lift, read, fail_with, ◌>>=◌}
use capp_backend.Capps.ToK8s.{empty_meta}
use capp_backend.Namespaces.Types.{
  RequestedQuota, CreateNamespaceRequest, UpdateNamespaceRequest, PatchNamespaceRequest, Namespace,
  RoleBinding, Subject, ResourceQuota, Client, Libraries, RequestContext, Reply, reply, item_body,
  no_body,
}
use capp_backend.Namespaces.Quota.{
  quota_name, role_binding_name, quota_info_from_k8s, user_names, user_subject,
  generate_role_binding, generate_resource_quota, asks_quota, can_update_quota,
}
use capp_backend.Namespaces.Reading.{
  must_get, require, allowed_or_false, can_create_capps, can_access_namespaces,
  build_namespace_item, item_of, with_can_edit, found_or, empty_quota,
}

abbrev empty_role_binding : RoleBinding
empty_role_binding = record {
  metadata = empty_meta "" "";
  subjects = [];
  role_ref = record { api_group = ""; kind = ""; name = "" };
}

abbrev pub new_namespace : String → Namespace
new_namespace name = record {
  metadata = record (empty_meta name "") { labels = ("dana.io/capp-ns", "true") ∷ [] };
  phase = "";
  other = "";
}

-- The quota of a request that has none.
abbrev pub no_quota : RequestedQuota
no_quota = record { cpu = ""; memory = ""; pods = pos 0 }

-- Whether a subject is the user.
abbrev pub names_user : String → Subject → Bool
names_user user s = s.kind == "User" && s.name == user

abbrev pub has_user : List Subject → String → Bool
has_user [] user = false
has_user (s ∷ subjects) user = names_user user s || has_user subjects user

-- The loop of `patch`: the users that `existing` lacks come behind `subjects`.
unfoldable pub add_users : List Subject → List Subject → List String → List Subject
add_users existing subjects [] = subjects
add_users existing subjects (user ∷ users) =
    add_users existing
      (if has_user existing user then subjects else subjects ++ user_subject user ∷ []) users

abbrev pub with_version : String → ObjectMeta → ObjectMeta
with_version version m = record m { resource_version = version }

abbrev pub forbidden_to : String → String → capp_backend.ApiErrors.Message
forbidden_to format namespace = sprintf format (namespace ∷ [])

abbrev pub bad_request_of : Libraries → GoError → GoError
bad_request_of l e = api (new_bad_request (literal (l.error_text e)))

-- `fmt.Sprintf("namespace %q contains %d Capp(s)", ...)`
abbrev not_empty : Libraries → String → ℕ → GoError
not_empty l namespace count = api (
    new_conflict
      (sprintf "namespace %q contains %d Capp(s)" (namespace ∷ format_int (pos count) ∷ [])))

-- What becomes of the object that `adminClient.Create` was refused.
abbrev pub creation_error : Libraries → String → GoError → GoError
creation_error l name e =
    if l.errors.is_already_exists e
    then api (new_conflict (sprintf "namespace %q already exists" (name ∷ [])))
    else e

-- A part of a request that may be left out.
abbrev pub where_given {ℓ} :
    {W : Type ℓ} {A : Type ℓ} → Option A → (A → Exec W (Unit {ℓ})) → Exec W (Unit {ℓ})
where_given none f = pure tt
where_given (some a) f = f a

-- The part of `patch` for a request with users.
unfoldable pub patch_users :
    {k : Kit} {W : Type 0} → Client k W → String → List String → Exec W (Unit {0})
unfolding add_users
patch_users admin name users = do
  rb ← read (admin.get_role_binding name (role_binding_name name))
  admin.update_role_binding (record rb { subjects = add_users rb.subjects rb.subjects users })

module _ {k : Kit} {W : Type 0} (l : Libraries) where
  unfoldable pub create_requested_quota :
      RequestedQuota → Namespace → Client k W → Exec W (Unit {0})
  unfolding generate_resource_quota
  create_requested_quota quota ns admin =
      if asks_quota quota
      then (do object ← lift (generate_resource_quota k l quota ns); admin.create_quota object)
      else pure tt

  unfoldable pub create_ns_resources :
      List String → RequestedQuota → Namespace → Client k W → Exec W (Unit {0})
  unfolding create_requested_quota generate_role_binding
  create_ns_resources users quota ns admin = do
    limited ← create_requested_quota quota ns admin
    if is_empty users then pure tt else admin.create_role_binding (generate_role_binding users ns)

  unfoldable pub create_namespace : Client k W → CreateNamespaceRequest → Exec W (Unit {0})
  unfolding create_ns_resources
  create_namespace admin req = do
    ns ← fail_with (creation_error l req.name) (admin.create_namespace (new_namespace req.name))
    create_ns_resources (get_or req.users []) (get_or req.quota no_quota) ns admin

  -- The write of the new quota, by what the read of the existing one gave.
  unfoldable pub put_quota :
      Client k W → ResourceQuota k → Result GoError (ResourceQuota k) → Exec W (Unit {0})
  unfolding can_update_quota
  put_quota admin new (err e) = if l.errors.is_not_found e then admin.create_quota new else raise e
  put_quota admin new (ok existing) = do
    allowed ← lift (can_update_quota k existing new)
    admin.update_quota
        (record new { metadata = with_version existing.metadata.resource_version new.metadata })

  unfoldable pub update_namespace_quota :
      Client k W → Namespace → RequestedQuota → Exec W (Unit {0})
  unfolding generate_resource_quota put_quota
  update_namespace_quota admin ns quota = do
    new ← lift (map_err (bad_request_of l) (generate_resource_quota k l quota ns))
    found ← read (λ w. ok (admin.get_quota ns.metadata.name (quota_name ns.metadata.name) w))
    put_quota admin new found

  unfoldable pub put_role_binding :
      Client k W → RoleBinding → Result GoError RoleBinding → Exec W (Unit {0})
  put_role_binding admin new (err e) =
      if l.errors.is_not_found e then admin.create_role_binding new else raise e
  put_role_binding admin new (ok existing) =
      admin.update_role_binding
        (record new { metadata = with_version existing.metadata.resource_version new.metadata })

  unfoldable pub update_namespace_role_binding :
      Client k W → Namespace → List String → Exec W (Unit {0})
  unfolding put_role_binding generate_role_binding
  update_namespace_role_binding admin ns users = do
    found ←
        read
          (λ w. ok (admin.get_role_binding ns.metadata.name (role_binding_name ns.metadata.name) w))
    put_role_binding admin (generate_role_binding users ns) found

module _ {k : Kit} {W : Type 0} (l : Libraries) (rc : RequestContext k W) where
  unfoldable pub get : String → Exec W Reply
  unfolding must_get can_create_capps require found_or quota_info_from_k8s user_names
      can_access_namespaces allowed_or_false
  get name = do
    user ← lift (must_get "K8sClientKey" rc.client)
    admin ← lift (must_get "AdminK8sClientKey" rc.admin_client)
    ns ← read (admin.get_namespace name)
    allowed ←
        require (can_create_capps user name) (forbidden_to "not allowed to view namespace %s" name)
    rq ← read (λ w. found_or l empty_quota (admin.get_quota name (quota_name name) w))
    rb ← read (λ w.
        found_or l empty_role_binding (admin.get_role_binding name (role_binding_name name) w))
    can_edit ← allowed_or_false (can_access_namespaces user "create")
    pure (
        reply 200 (
          item_body (
            with_can_edit can_edit (
              item_of ns.metadata.name ns.phase (some (quota_info_from_k8s k rq))
                (some (user_names rb.subjects))))))

  unfoldable pub create : Result GoError CreateNamespaceRequest → Exec W Reply
  unfolding must_get can_access_namespaces require create_namespace build_namespace_item
  create body = do
    user ← lift (must_get "K8sClientKey" rc.client)
    allowed ←
        require (can_access_namespaces user "create") (literal "not allowed to create namespaces")
    admin ← lift (must_get "AdminK8sClientKey" rc.admin_client)
    req ← lift (map_err (bad_request_of l) body)
    created ← create_namespace l admin req
    item ← read (λ w. ok (build_namespace_item admin req.name "Active" w))
    pure (reply 201 (item_body (with_can_edit true item)))

  unfoldable pub update : String → Result GoError UpdateNamespaceRequest → Exec W Reply
  unfolding must_get can_access_namespaces require update_namespace_quota
      update_namespace_role_binding build_namespace_item
  update name body = do
    user ← lift (must_get "K8sClientKey" rc.client)
    allowed ←
        require (can_access_namespaces user "create") (literal "not allowed to update namespaces")
    admin ← lift (must_get "AdminK8sClientKey" rc.admin_client)
    req ← lift (map_err (bad_request_of l) body)
    ns ← read (admin.get_namespace name)
    limited ← where_given req.quota (update_namespace_quota l admin ns)
    bound ← where_given req.users (update_namespace_role_binding l admin ns)
    item ← read (λ w. ok (build_namespace_item admin name ns.phase w))
    pure (reply 200 (item_body (with_can_edit true item)))

  unfoldable pub patch : String → Result GoError PatchNamespaceRequest → Exec W Reply
  unfolding must_get can_create_capps can_access_namespaces require allowed_or_false patch_users
      build_namespace_item
  patch name body = do
    user ← lift (must_get "K8sClientKey" rc.client)
    allowed ←
        require (can_create_capps user name) (forbidden_to "not allowed to patch namespace %s" name)
    admin ← lift (must_get "AdminK8sClientKey" rc.admin_client)
    req ← lift (map_err (bad_request_of l) body)
    ns ← read (admin.get_namespace name)
    bound ← where_given req.users (patch_users admin name)
    item ← read (λ w. ok (build_namespace_item admin name ns.phase w))
    can_edit ← allowed_or_false (can_access_namespaces user "create")
    pure (reply 200 (item_body (with_can_edit can_edit item)))

  unfoldable pub delete : String → Exec W Reply
  unfolding must_get can_access_namespaces require
  delete name = do
    user ← lift (must_get "K8sClientKey" rc.client)
    allowed ←
        require (can_access_namespaces user "delete") (literal "not allowed to delete namespaces")
    admin ← lift (must_get "AdminK8sClientKey" rc.admin_client)
    ns ← read (admin.get_namespace name)
    capps ← read (admin.list_capps name)
    empty ← lift (if is_empty capps then ok tt else err (not_empty l name (length capps)))
    gone ← admin.delete_namespace ns
    pure (reply 204 no_body)
