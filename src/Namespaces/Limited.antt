-- ===== src/Namespaces/Limited.antt =====
-- internal/resources/cluster/namespaces/handler.go: `createNamespace` gives nobody access to a
-- namespace whose requested quota is missing.
use capp_backend.Prelude.{
  String, ◌≡◌, refl, sym, ◌∙◌, ap, subst, Bool, true, false, List, [], ◌∷◌, Result, ok, get_or,
  ok-injective, >>=-eq-ok, if◌then◌else◌, is_empty, map_err, Result-cases, inl, inr, Bool-cases,
}
use capp_backend.ApiErrors.{GoError}
use capp_backend.Kubernetes.{Kit}
use capp_backend.Kubernetes.Exec.{pure, lift-eq-ok, continue_cases, fail_with_cases}
use capp_backend.Namespaces.Types.{
  Client, Libraries, Namespace, ResourceQuota, RoleBinding, RequestedQuota, CreateNamespaceRequest,
}
use capp_backend.Namespaces.Quota.{
  generate_resource_list, generate_resource_quota, generate_role_binding, asks_quota,
}
use capp_backend.Namespaces.Handler.{
  create_requested_quota, create_ns_resources, create_namespace, creation_error, new_namespace,
  no_quota,
}

-- What the API server makes visible: whether a namespace has a RoleBinding of the program, and
-- whether it has a ResourceQuota. A creation touches one kind of object only, one that succeeds has
-- created the object, and a Namespace is stored under the name it was sent with.
pub record IsVisible {k : Kit} {W : Type 0} (admin : Client k W) : Type 0 where
  pub bound : W → String → Bool
  pub limited : W → String → Bool
  pub namespace-bound :
      (ns : Namespace) (w : W) (name : String)
      → bound (admin.create_namespace ns w).1 name ≡ bound w name
  pub namespace-named :
      (ns stored : Namespace) (w w' : W)
      → admin.create_namespace ns w ≡ (ok stored, w')
      → stored.metadata.name ≡ ns.metadata.name
  pub quota-bound :
      (q : ResourceQuota k) (w : W) (name : String)
      → bound (admin.create_quota q w).1 name ≡ bound w name
  pub quota-limited :
      (q : ResourceQuota k) (w w' : W)
      → admin.create_quota q w ≡ (ok tt, w')
      → limited w' q.metadata.namespace ≡ true
  pub binding-limited :
      (rb : RoleBinding) (w : W) (name : String)
      → limited (admin.create_role_binding rb w).1 name ≡ limited w name

true≢false : true ≡ false → ⊥
true≢false h = absurd cc

module _ {k : Kit} {W : Type 0} (l : Libraries) (admin : Client k W) (v : IsVisible admin) where
  open v use {bound, limited}

  -- Nobody has access, or the quota is there.
  abbrev pub Safe : String → {A : Type 0} → Result GoError A × W → Type 0
  Safe name x = bound x.1 name ≡ true → limited x.1 name ≡ true

  quota_namespace :
      (quota : RequestedQuota) (ns : Namespace) (q : ResourceQuota k)
      → generate_resource_quota k l quota ns ≡ ok q
      → q.metadata.namespace ≡ ns.metadata.name
  unfolding generate_resource_quota
  quota_namespace quota ns q made =
      let (resources, _, same) = >>=-eq-ok (map_err _ (generate_resource_list k l quota)) _ made in
      ap (λ x. x.metadata.namespace) (sym (ok-injective same))

  requested_quota :
      (quota : RequestedQuota) (ns : Namespace) (w w' : W)
      → asks_quota quota ≡ true
      → create_requested_quota l quota ns admin w ≡ (ok tt, w')
      → limited w' ns.metadata.name ≡ true
  unfolding create_requested_quota
  requested_quota quota ns w w' asks done =
      let (q, made, sent) =
        lift-eq-ok (generate_resource_quota k l quota ns) w _ (rw asks at done) in
      ap (limited w') (sym (quota_namespace quota ns q made)) ∙ v.quota-limited q w w' sent

  requested_quota-bound :
      (quota : RequestedQuota) (ns : Namespace) (w : W) (name : String)
      → bound (create_requested_quota l quota ns admin w).1 name ≡ bound w name
  unfolding create_requested_quota
  requested_quota-bound quota ns w name = elim (Bool-cases (asks_quota quota)) [
    | inr rest ↦ rw rest refl
    | inl asks ↦ elim (Result-cases (generate_resource_quota k l quota ns)) [
      | inl (q, made) ↦ rw (asks, made) (v.quota-bound q w name)
      | inr (e, refused) ↦ rw (asks, refused) refl
    ]
  ]

  bind_users :
      (users : List String) (ns : Namespace) (w : W)
      → limited w ns.metadata.name ≡ true
      → Safe ns.metadata.name (
          (if is_empty users
              then pure tt
              else admin.create_role_binding (generate_role_binding users ns))
            w)
  bind_users [] ns w limit bound = limit
  bind_users (u ∷ users) ns w limit bound =
      v.binding-limited (generate_role_binding (u ∷ users) ns) w ns.metadata.name ∙ limit

  create_ns_resources-Safe :
      (users : List String) (quota : RequestedQuota) (ns : Namespace) (w : W)
      → asks_quota quota ≡ true
      → bound w ns.metadata.name ≡ false
      → Safe ns.metadata.name (create_ns_resources l users quota ns admin w)
  unfolding create_ns_resources
  create_ns_resources-Safe users quota ns w asks unbound =
      continue_cases (Safe ns.metadata.name) (create_requested_quota l quota ns admin w) _
        (λ u v' made. bind_users users ns v' (requested_quota quota ns w v' asks made))
        (λ e v' failed has. absurd (
          true≢false (
            sym has
            ∙ ap (λ x. bound x.1 ns.metadata.name) (sym failed)
            ∙ requested_quota-bound quota ns w ns.metadata.name
            ∙ unbound)))

  -- A POST that asks for a quota, for a namespace in which nobody had been given access: if somebody
  -- has access after it, whether it succeeded or which of its steps failed, then the namespace has a
  -- quota. The API server creates and shows objects as `IsVisible` says.
  pub create_namespace-limited :
      (req : CreateNamespaceRequest) (w : W)
      → asks_quota (get_or req.quota no_quota) ≡ true
      → bound w req.name ≡ false
      → bound (create_namespace l admin req w).1 req.name ≡ true
      → limited (create_namespace l admin req w).1 req.name ≡ true
  unfolding create_namespace
  create_namespace-limited req w asks unbound =
      fail_with_cases (Safe req.name) (creation_error l req.name)
        (admin.create_namespace (new_namespace req.name) w) _
        (λ ns v' made.
          let name = v.namespace-named (new_namespace req.name) ns w v' made in
          let unbound' : bound v' req.name ≡ false =
            ap (λ x. bound x.1 req.name) (sym made)
            ∙ v.namespace-bound (new_namespace req.name) w req.name
            ∙ unbound in
          subst
            (λ n.
              Safe n (
                create_ns_resources l (get_or req.users []) (get_or req.quota no_quota) ns admin
                  v'))
            name
            (create_ns_resources-Safe (get_or req.users []) (get_or req.quota no_quota) ns v' asks
              (ap (bound v') name ∙ unbound')))
        (λ e v' failed has. absurd (
          true≢false (
            sym has
            ∙ ap (λ x. bound x.1 req.name) (sym failed)
            ∙ v.namespace-bound (new_namespace req.name) w req.name
            ∙ unbound)))
