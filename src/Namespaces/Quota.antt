-- ===== src/Namespaces/Quota.antt =====
-- internal/resources/cluster/namespaces/handler.go: the ResourceQuota and the RoleBinding of a
-- namespace, as the requests give them and as the answers show them.
use Prim.Native.Nat.{Ordering}
use capp_backend.Prelude.{
  ℤ, pos, zero, String, Bool, true, false, not, ◌||◌, Option, none, some, List, [], ◌∷◌, Result, ok,
  err, ◌>>=◌, map_err, map, ◌==◌, if◌then◌else◌,
}
use capp_backend.Prelude.Assoc.{Assoc, lookup, insert}
use capp_backend.Prelude.Texts.{◌⧺◌}
use capp_backend.Prelude.Decimal.{format_int}
use capp_backend.ApiErrors.{GoError, errorf, wrapped, literal, sprintf}
use capp_backend.Kubernetes.{Kit}
use capp_backend.Capps.ToK8s.{empty_meta}
use capp_backend.Namespaces.Types.{
  QuotaInfo, RequestedQuota, Subject, RoleBinding, ResourceQuota, Namespace, Libraries,
}

abbrev pub quota_name : String → String
quota_name namespace = namespace ⧺ "-quota"

abbrev pub role_binding_name : String → String
role_binding_name namespace = namespace ⧺ "-capp-access"

abbrev pub user_subject : String → Subject
user_subject user = record { kind = "User"; name = user; other = "" }

unfoldable pub generate_role_binding : List String → Namespace → RoleBinding
generate_role_binding users ns = record {
  metadata = empty_meta (role_binding_name ns.metadata.name) ns.metadata.name;
  subjects = map user_subject users;
  role_ref = record {
    api_group = "rbac.authorization.k8s.io";
    kind = "ClusterRole";
    name = "capp-user";
  };
}

abbrev is_zero : ℤ → Bool
is_zero (pos zero) = true
is_zero _ = false

-- One entry of a resource list, where the request sets it.
unfoldable pub add_resource :
    {Q : Type 0}
    → (String → Result GoError Q)
    → String
    → String
    → Bool
    → String
    → Assoc Q
    → Result GoError (Assoc Q)
add_resource parse failure key false text list = ok list
add_resource parse failure key true text list =
    map_err (wrapped (literal failure)) (parse text) >>= λ q. ok (insert key q list)

module _ (k : Kit) (l : Libraries) where
  unfoldable pub generate_resource_list : RequestedQuota → Result GoError (Assoc k.Quantity)
  unfolding add_resource
  generate_resource_list quota =
      add_resource k.parse_quantity "invalid CPU quota" "limits.cpu" (not (quota.cpu == ""))
        quota.cpu []
      >>= λ cpu.
          add_resource k.parse_quantity "invalid memory quota" "limits.memory"
            (not (quota.memory == "")) quota.memory cpu
          >>= λ memory.
              add_resource k.parse_quantity "invalid pods quota" "pods" (not (is_zero quota.pods))
                (format_int quota.pods) memory

  unfoldable pub generate_resource_quota :
      RequestedQuota → Namespace → Result GoError (ResourceQuota k)
  unfolding generate_resource_list
  generate_resource_quota quota ns =
      map_err (wrapped (literal "failed to generate resource list")) (generate_resource_list quota)
      >>= λ resources. ok (record {
        metadata = empty_meta (quota_name ns.metadata.name) ns.metadata.name;
        hard = resources;
        scopes = "NotTerminating" ∷ [];
        used = [];
        other = "";
      })

-- The condition under which a POST creates a quota.
abbrev pub asks_quota : RequestedQuota → Bool
asks_quota quota = not (quota.cpu == "") || (not (quota.memory == "") || not (is_zero quota.pods))

module _ (k : Kit) where
  abbrev text_of : Option k.Quantity → String
  text_of none = ""
  text_of (some q) = k.quantity_string q

  -- `int` of an `int64`, on the 64-bit platforms that the program is built for.
  abbrev count_of : Option k.Quantity → Option ℤ
  count_of none = none
  count_of (some q) = some (k.quantity_value q)

  abbrev any_of : Option k.Quantity → Option k.Quantity → Option k.Quantity → Bool
  any_of none none none = false
  any_of _ _ _ = true

  unfoldable pub quota_info_from_k8s : ResourceQuota k → QuotaInfo
  quota_info_from_k8s quota =
      let cpu = lookup "limits.cpu" quota.used in
      let memory = lookup "limits.memory" quota.used in
      let pods = lookup "pods" quota.used in
      record {
        cpu = text_of (lookup "limits.cpu" quota.hard);
        memory = text_of (lookup "limits.memory" quota.hard);
        pods = count_of (lookup "pods" quota.hard);
        used =
            if any_of cpu memory pods
            then some (record { cpu = text_of cpu; memory = text_of memory; pods = count_of pods })
            else none;
      }

  -- `Cmp(...) >= 0` and `Cmp(...) > 0`.
  abbrev pub at_least : k.Quantity → k.Quantity → Bool
  at_least a b = elim (k.cmp a b) [ Ordering.lt ↦ false | _ ↦ true ]

  abbrev pub exceeds : k.Quantity → k.Quantity → Bool
  exceeds a b = elim (k.cmp a b) [ Ordering.gt ↦ true | _ ↦ false ]

  abbrev refused_decrease : String → k.Quantity → k.Quantity → GoError
  refused_decrease name used new = errorf (
      sprintf "cannot decrease %s quota because current usage (%s) exceeds the new quota (%s)"
        (name ∷ k.quantity_string used ∷ k.quantity_string new ∷ []))

  -- Whether the usage allows a value below the existing one.
  unfoldable pub check_usage : String → Option k.Quantity → k.Quantity → Result GoError (Unit {0})
  check_usage name none new = ok tt
  check_usage name (some used) new =
      if exceeds used new then err (refused_decrease name used new) else ok tt

  -- One round of the loop.
  unfoldable pub check_resource :
      String → k.Quantity → Option k.Quantity → Option k.Quantity → Result GoError (Unit {0})
  unfolding check_usage
  check_resource name existing none used = check_usage name used k.zero_quantity
  check_resource name existing (some new) used =
      if at_least new existing then ok tt else check_usage name used new

  -- The loop over the map of the existing limits. Go visits them in an order of its own, here the
  -- order of the list, which decides only which refusal is returned.
  unfoldable pub check_resources :
      Assoc k.Quantity → Assoc k.Quantity → Assoc k.Quantity → Result GoError (Unit {0})
  unfolding check_resource
  check_resources [] new used = ok tt
  check_resources ((name, existing) ∷ rest) new used =
      check_resource name existing (lookup name new) (lookup name used) >>= λ _.
      check_resources rest new used

  unfoldable pub can_update_quota : ResourceQuota k → ResourceQuota k → Result GoError (Unit {0})
  unfolding check_resources
  can_update_quota existing new = check_resources existing.hard new.hard existing.used

-- The names of the subjects that are users.
unfoldable pub user_names : List Subject → List String
user_names [] = []
user_names (s ∷ subjects) =
    let rest = user_names subjects in if s.kind == "User" then s.name ∷ rest else rest
