-- ===== src/Tests/Namespaces.antt =====
-- Runs of the namespace routes on a small cluster.
use Prim.Native.Nat.{compare}
use capp_backend.Prelude.{
  ℕ, ℤ, pos, String, ◌≡◌, refl, sym, ap, subst, Bool, true, false, ◌||◌, Option, none, some, List,
  [], ◌∷◌, Result, ok, err, ◌==◌, if◌then◌else◌, inr, eq_refl, ok-injective, All,
}
use capp_backend.Prelude.Assoc.{lookup, insert}
use capp_backend.Prelude.Decimal.{parse_int, format_int}
use capp_backend.ApiErrors.{GoError, foreign, api, new_forbidden, literal}
use capp_backend.Kubernetes.{Kit}
use capp_backend.Capps.ToK8s.{empty_meta}
use capp_backend.Namespaces.Types.{
  RequestedQuota, CreateNamespaceRequest, PatchNamespaceRequest, Namespace, RoleBinding,
  ResourceQuota, Client, Libraries, RequestContext, Reply, Body,
}
use capp_backend.Namespaces.Quota.{user_subject, generate_resource_quota}
use capp_backend.Namespaces.Handler.{
  create, patch, create_namespace, update_namespace_quota, with_version,
}
use capp_backend.Namespaces.Access.{routes-Forbidden}
use capp_backend.Namespaces.Limits.{update_namespace_quota-existing, Fits}
use capp_backend.Namespaces.Limited.{create_namespace-limited, IsVisible}
use capp_backend.Tests.Fixtures.{errors}

abbrev number : Option ℤ → Result GoError ℕ
number (some (pos n)) = ok n
number _ = err (foreign "not a number")

-- Quantities that are numbers.
abbrev numbers : Kit
numbers = record {
  Quantity = ℕ;
  Url = String;
  parse_quantity = λ s. number (parse_int s);
  quantity_string = λ q. format_int (pos q);
  cmp = compare;
  zero_quantity = 0;
  quantity_value = pos;
  parse_url = λ s. ok s;
  url_string = λ u. u;
  name_error = λ s. none;
}

record Cluster : Type 0 where
  may : Bool
  quotas : List (ResourceQuota numbers)
  bindings : List RoleBinding

abbrev find_quota : String → List (ResourceQuota numbers) → Result GoError (ResourceQuota numbers)
find_quota namespace [] = err (foreign "not found")
find_quota namespace (q ∷ qs) =
    if q.metadata.namespace == namespace then ok q else find_quota namespace qs

abbrev find_binding : String → List RoleBinding → Result GoError RoleBinding
find_binding namespace [] = err (foreign "not found")
find_binding namespace (b ∷ bs) =
    if b.metadata.namespace == namespace then ok b else find_binding namespace bs

abbrev shop : Namespace
shop = record { metadata = empty_meta "shop" ""; phase = "Active"; other = "" }

abbrev client : Client numbers Cluster
client = record {
  review = λ a w. (ok w.may, w);
  get_namespace = λ name w. ok shop;
  list_namespaces = λ labels w. ok (shop ∷ []);
  list_projects = λ labels w. ok [];
  create_namespace = λ ns w. (ok ns, w);
  delete_namespace = λ ns w. (ok tt, w);
  get_quota = λ namespace name w. find_quota namespace w.quotas;
  list_quotas = λ w. ok w.quotas;
  create_quota = λ q w. (ok tt, record w { quotas = q ∷ w.quotas });
  update_quota = λ q w. (ok tt, record w { quotas = q ∷ [] });
  get_role_binding = λ namespace name w. find_binding namespace w.bindings;
  list_role_bindings = λ w. ok w.bindings;
  create_role_binding = λ b w. (ok tt, record w { bindings = b ∷ w.bindings });
  update_role_binding = λ b w. (ok tt, record w { bindings = b ∷ [] });
  list_capps = λ namespace w. ok [];
}

abbrev libraries : Libraries
libraries = record { errors = errors; error_text = λ e. "error" }

abbrev context : RequestContext numbers Cluster
context = record { client = some client; admin_client = some client; is_open_shift = some false }

abbrev asked : String → String → RequestedQuota
asked cpu memory = record { cpu = cpu; memory = memory; pods = pos 0 }

-- A quota of 4 CPUs, of which 2 are used.
abbrev four : ResourceQuota numbers
four = record {
  metadata = record (empty_meta "shop-quota" "shop") { resource_version = "7" };
  hard = ("limits.cpu", 4) ∷ [];
  scopes = [];
  used = ("limits.cpu", 2) ∷ [];
  other = "";
}

abbrev ann_bound : RoleBinding
ann_bound = record {
  metadata = empty_meta "shop-capp-access" "shop";
  subjects = user_subject "ann" ∷ [];
  role_ref = record { api_group = ""; kind = ""; name = "" };
}

abbrev cluster : Bool → Cluster
cluster may = record { may = may; quotas = four ∷ []; bindings = ann_bound ∷ [] }

abbrev new_quota : ResourceQuota numbers
new_quota = record {
  metadata = empty_meta "shop-quota" "shop";
  hard = ("limits.cpu", 3) ∷ [];
  scopes = "NotTerminating" ∷ [];
  used = [];
  other = "";
}

made : generate_resource_quota numbers libraries (asked "3" "") shop ≡ ok new_quota
unfolding generate_resource_quota parse_int insert
made = refl

fits : All (Fits numbers new_quota.hard four.used) four.hard
unfolding lookup
fits = (inr refl, tt)

update_namespace_quota-existing_example :
    update_namespace_quota libraries client shop (asked "3" "") (cluster true)
    ≡ client.update_quota
        (record new_quota { metadata = with_version "7" new_quota.metadata })
        (cluster true)
update_namespace_quota-existing_example =
    (update_namespace_quota-existing libraries client shop (asked "3" "") new_quota four
        (cluster true) made refl).0
      fits

abbrev adding : PatchNamespaceRequest
adding = record { users = some ("ann" ∷ "bob" ∷ []) }

abbrev patched : Result GoError Reply × Cluster
patched = patch libraries context "shop" (ok adding) (cluster true)

abbrev answer : Reply
answer = elim patched.0 [ ok r ↦ r | err e ↦ record { status = 500; body = Body.no_body } ]

abbrev asked_shop : CreateNamespaceRequest
asked_shop = record { name = "shop"; users = some ("ann" ∷ []); quota = some (asked "4" "") }

routes-Forbidden_example :
    create libraries context (ok asked_shop) (cluster false)
    ≡ (err (api (new_forbidden (literal "not allowed to create namespaces"))), cluster false)
routes-Forbidden_example =
    ((routes-Forbidden libraries context client refl (cluster false) "shop" (ok asked_shop)
        (ok (record { users = none; quota = none })) (ok adding)).0
      refl).0

abbrev limited : List (ResourceQuota numbers) → String → Bool
limited [] name = false
limited (q ∷ qs) name = q.metadata.namespace == name || limited qs name

abbrev bound : List RoleBinding → String → Bool
bound [] name = false
bound (b ∷ bs) name = b.metadata.namespace == name || bound bs name

limits :
    (q : ResourceQuota numbers) (b : Bool)
    → (q.metadata.namespace == q.metadata.namespace || b) ≡ true
limits q b = rw (eq_refl q.metadata.namespace) refl

abbrev visibility : IsVisible client
visibility = record {
  bound = λ w name. bound w.bindings name;
  limited = λ w name. limited w.quotas name;
  namespace-bound = λ ns w name. refl;
  namespace-named =
      λ ns stored w w' h. ap (λ n. n.metadata.name) (sym (ok-injective (ap (λ x. x.0) h)));
  quota-bound = λ q w name. refl;
  quota-limited = λ q w w' h.
      subst (λ v. limited v.quotas q.metadata.namespace ≡ true) (ap (λ x. x.1) h)
        (limits q (limited w.quotas q.metadata.namespace));
  binding-limited = λ b w name. refl;
}

abbrev bare : Cluster
bare = record { may = true; quotas = []; bindings = [] }

-- The world after the creation.
abbrev created : Cluster
created = (create_namespace libraries client asked_shop bare).1

ann_has_access : visibility.bound created "shop" ≡ true
unfolding create_namespace parse_int
ann_has_access = refl

create_namespace-limited_example : visibility.limited created "shop" ≡ true
create_namespace-limited_example =
    create_namespace-limited libraries client visibility asked_shop bare refl refl ann_has_access
