-- ===== src/Namespaces/Limits.antt =====
-- internal/resources/cluster/namespaces/handler.go: when a PUT may lower a quota.
use capp_backend.Prelude.{
  String, ◌≡◌, refl, ◌↔◌, ◌⊎◌, inl, inr, Bool, true, false, Option, none, some, [], ◌∷◌, ok, err,
  All, arith, >>=-eq-ok, >>=-ok, Result-cases, get_or,
}
use capp_backend.Prelude.Assoc.{Assoc, lookup}
use capp_backend.ApiErrors.{GoError}
use capp_backend.Kubernetes.{Kit}
use capp_backend.Namespaces.Types.{Namespace, ResourceQuota, RequestedQuota, Client, Libraries}
use capp_backend.Namespaces.Quota.{
  quota_name, generate_resource_quota, at_least, exceeds, check_usage, check_resource,
  check_resources, can_update_quota,
}
use capp_backend.Namespaces.Handler.{with_version, put_quota, update_namespace_quota}

module _ (k : Kit) where
  -- A limit that is raised or kept, or whose usage, where one is recorded, is within the new limit;
  -- a limit that is left out is a limit of zero, and counts as lowered.
  abbrev pub Raised : Option k.Quantity → k.Quantity → Type 0
  Raised none old = ⊥
  Raised (some new) old = at_least k new old ≡ true

  abbrev pub Within : Option k.Quantity → Option k.Quantity → Type 0
  Within new none = Unit
  Within new (some used) = exceeds k used (get_or new k.zero_quantity) ≡ false

  abbrev pub Fits : Assoc k.Quantity → Assoc k.Quantity → String × k.Quantity → Type 0
  Fits new used entry =
      Raised (lookup entry.0 new) entry.1 ⊎ Within (lookup entry.0 new) (lookup entry.0 used)

  check_usage_iff :
      (name : String) (used : Option k.Quantity) (new : k.Quantity)
      → (check_usage k name used new ≡ ok tt) ↔ Within (some new) used
  unfolding check_usage
  check_usage_iff name none new = (λ h. tt, λ h. refl)
  check_usage_iff name (some used) new = (λ h. ground arith, λ h. ground arith)

  check_lowered :
      (name : String) (old new : k.Quantity) (used : Option k.Quantity) (b : Bool)
      → at_least k new old ≡ b
      → (check_resource k name old (some new) used ≡ ok tt)
        ↔ ((at_least k new old ≡ true) ⊎ Within (some new) used)
  unfolding check_resource
  check_lowered name old new used true e = rw e (λ h. inl refl, λ h. refl)
  check_lowered name old new used false e =
      let (there, back) = check_usage_iff name used new in
      rw e (λ h. inr (there h), λ h. elim h [ inl raised ↦ absurd (cc) | inr within ↦ back within ])

  check_resource_iff :
      (name : String) (old : k.Quantity) (new used : Option k.Quantity)
      → (check_resource k name old new used ≡ ok tt) ↔ (Raised new old ⊎ Within new used)
  unfolding check_resource check_usage
  check_resource_iff name old none none = (λ h. inr tt, λ h. refl)
  check_resource_iff name old none (some used) = (
    λ h. inr (ground arith),
    λ h. elim h [ inl never ↦ absurd never | inr within ↦ ground arith ],
  )
  check_resource_iff name old (some new) used =
      check_lowered name old new used (at_least k new old) refl

  check_resources_iff :
      (old new used : Assoc k.Quantity)
      → (check_resources k old new used ≡ ok tt) ↔ All (Fits new used) old
  unfolding check_resources
  check_resources_iff [] new used = (λ h. tt, λ h. refl)
  check_resources_iff ((name, existing) ∷ rest) new used =
      let (there, back) = check_resource_iff name existing (lookup name new) (lookup name used) in
      let (thereafter, before) = check_resources_iff rest new used in
      (
        λ h.
            let (u, first, others) =
              >>=-eq-ok (check_resource k name existing (lookup name new) (lookup name used)) _ h in
            (there first, thereafter others),
        λ h. >>=-ok _ (back h.0) (before h.1),
      )

module _ {k : Kit} {W : Type 0} (l : Libraries) (admin : Client k W) (ns : Namespace)
    (quota : RequestedQuota) (new existing : ResourceQuota k) (w : W)
    (made : generate_resource_quota k l quota ns ≡ ok new)
    (found : admin.get_quota ns.metadata.name (quota_name ns.metadata.name) w ≡ ok existing) where
  -- A PUT of a quota whose quantities are valid, where the namespace already has one: if each
  -- existing limit is kept or raised, or its recorded usage is within the new limit (zero for a
  -- limit that the request leaves out), the new quota replaces the old one, under the resource
  -- version that was read; if not, the PUT is refused and nothing is written.
  pub update_namespace_quota-existing :
      (All (Fits k new.hard existing.used) existing.hard
        → update_namespace_quota l admin ns quota w
          ≡ admin.update_quota
              (record new {
                metadata = with_version existing.metadata.resource_version new.metadata;
              })
              w)
      × ((All (Fits k new.hard existing.used) existing.hard → ⊥)
          → (e : GoError) × (update_namespace_quota l admin ns quota w ≡ (err e, w)))
  unfolding update_namespace_quota put_quota can_update_quota
  update_namespace_quota-existing =
      let (there, back) = check_resources_iff k existing.hard new.hard existing.used in
      (
        λ fits. rw (made, found, back fits) refl,
        λ unfit. elim (Result-cases (check_resources k existing.hard new.hard existing.used)) [
          | inl (u, passed) ↦ absurd (unfit (there passed))
          | inr (e, refused) ↦ (e, rw (made, found, refused) refl)
        ],
      )
