-- ===== src/Capps/RoundTrip/Sizes.antt =====
-- internal/resources/namespaced/capps/convert.go: size and custom resources of a whole request.
use Prim.Native.Nat.{Ordering}
use capp_backend.Prelude.{
  String, ◌≡◌, ◌≢◌, Option, some, none, ◌∷◌, [], ok, >>=-eq-ok, arith, eq_iff, map_err,
}
use capp_backend.ApiErrors.{wrapped, sprintf}
use capp_backend.Kubernetes.{Kit, Capp, ResourceRequirements}
use capp_backend.Capps.Types.{CappRequest, CappSizes, ResourceSpec}
use capp_backend.Capps.ToK8s.{to_k8s, first_container}
use capp_backend.Capps.ToK8s.Resources.{
  size_named, parse_resource_quantities, size_to_k8s, custom_to_k8s, resources_to_k8s,
}
use capp_backend.Capps.FromK8s.{bare_from_k8s}
use capp_backend.Capps.RoundTrip.{to_k8s-Parts}
use capp_backend.Capps.RoundTrip.Resources.{SizesApart, size_back}

module _ (k : Kit) (sizes : CappSizes) where
  resources-size :
      (size : String) (custom : Option ResourceSpec) (r : Option (ResourceRequirements k))
      → size ≢ ""
      → resources_to_k8s k size custom sizes ≡ ok r
      → (size_to_k8s k size sizes ≡ ok r) × (custom ≡ none)
  unfolding resources_to_k8s
  resources-size size custom r n h = ground (arith, eq_iff size "")

  resources-none :
      (r : Option (ResourceRequirements k)) → resources_to_k8s k "" none sizes ≡ ok r → r ≡ none
  unfolding resources_to_k8s custom_to_k8s
  resources-none r h = ground arith

  size_to_k8s-some :
      (size : String) (r : Option (ResourceRequirements k))
      → size_to_k8s k size sizes ≡ ok r
      → (res : ResourceRequirements k) × (r ≡ some res)
  unfolding size_to_k8s
  size_to_k8s-some size r h =
      let (s, _, h') = >>=-eq-ok (size_named k size sizes) _ h in
      let (res, _, h″) =
        >>=-eq-ok
          (map_err (wrapped (sprintf "size %q: %w" (size ∷ [])))
            (parse_resource_quantities k s.requests s.limits))
          (λ (x : ResourceRequirements k). ok (some x)) h' in
      (res, cc h″)

module _ (k : Kit) (req : CappRequest) (existing : Option (Capp k)) (namespace : String)
    (sizes : CappSizes) where
  -- Where the configured sizes are told apart by their limits and a quantity equals itself, a
  -- response shows the size that the accepted request asked for.
  pub size-bare_from_k8s :
      (capp : Capp k)
      → ((q : k.Quantity) → k.cmp q q ≡ Ordering.eq)
      → SizesApart k sizes
      → req.size ≢ ""
      → to_k8s k req existing namespace sizes ≡ ok capp
      → (bare_from_k8s k capp.metadata capp.spec sizes).size ≡ req.size
  unfolding bare_from_k8s
  size-bare_from_k8s capp same apart n h =
      let p = to_k8s-Parts k req existing namespace sizes capp h in
      let (made, _) =
        resources-size k sizes req.size req.custom_resources p.resources n p.resources_made in
      let (res, found) = size_to_k8s-some k sizes req.size p.resources made in
      rw p.made (rw found (size_back k same req.size sizes res apart (rw found at made)))

-- An update that asks for neither a size nor custom resources leaves the resources of the first
-- container as they were.
pub to_k8s-keeps_resources :
    (k : Kit) (req : CappRequest) (old capp : Capp k) (namespace : String) (sizes : CappSizes)
    → req.size ≡ ""
    → req.custom_resources ≡ none
    → to_k8s k req (some old) namespace sizes ≡ ok capp
    → (first_container k capp.spec.pod_spec.containers).resources
      ≡ (first_container k old.spec.pod_spec.containers).resources
to_k8s-keeps_resources k req old capp namespace sizes s c h =
    let p = to_k8s-Parts k req (some old) namespace sizes capp h in
    let same : p.resources ≡ none =
      resources-none k sizes p.resources (rw (← s, ← c) p.resources_made) in
    rw p.made (rw same)
