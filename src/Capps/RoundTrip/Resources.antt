-- ===== src/Capps/RoundTrip/Resources.antt =====
-- internal/resources/namespaced/capps/convert.go: the size of a Capp, there and back.
use Prim.Native.Nat.{Ordering}
use capp_backend.Prelude.{
  String, ◌≡◌, true, false, some, ok, >>=-eq-ok, Result-cases, inl, inr, arith, eq_iff,
}
use capp_backend.Kubernetes.{Kit, ResourceRequirements}
use capp_backend.Capps.Types.{
  ResourceQuantities, ResourceSize, CappSizes, capp_size_small, capp_size_medium, capp_size_large,
}
use capp_backend.Capps.ToK8s.Resources.{parse_resource_quantities, size_named, size_to_k8s}
use capp_backend.Capps.FromK8s.{limits_match, size_from_resources}

module _ (k : Kit) where
  open k use {Quantity, cmp, parse_quantity}

  -- No container has limits that match both sizes.
  abbrev pub TellsApart : ResourceSize → ResourceSize → Type 0
  TellsApart a b =
      (res : ResourceRequirements k)
      → limits_match k a.limits res ≡ true
      → limits_match k b.limits res ≡ false

  pub record SizesApart (sizes : CappSizes) : Type 0 where
    pub medium_small : TellsApart sizes.medium sizes.small
    pub large_small : TellsApart sizes.large sizes.small
    pub large_medium : TellsApart sizes.large sizes.medium

  module _ (cmp_refl : (q : Quantity) → cmp q q ≡ Ordering.eq) where
    limits_match_self :
        (requests limits : ResourceQuantities) (res : ResourceRequirements k)
        → parse_resource_quantities k requests limits ≡ ok res
        → limits_match k limits res ≡ true
    unfolding parse_resource_quantities limits_match
    limits_match_self requests limits res h = elim (Result-cases (parse_quantity limits.cpu)) [
      | inl (c, ec) ↦ elim (Result-cases (parse_quantity limits.memory)) [
        | inl (m, em) ↦ ground (arith, cmp_refl c, cmp_refl m)
        | inr (x, em) ↦ absurd (ground arith)
      ]
      | inr (x, ec) ↦ absurd (ground arith)
    ]

    pub size_back :
        (size : String) (sizes : CappSizes) (res : ResourceRequirements k)
        → SizesApart sizes
        → size_to_k8s k size sizes ≡ ok (some res)
        → size_from_resources k res sizes ≡ size
    unfolding size_to_k8s size_from_resources
    size_back size sizes res apart h =
        let (s, named, h') = >>=-eq-ok (size_named k size sizes) _ h in
        let parsed : parse_resource_quantities k s.requests s.limits ≡ ok res = ground arith in
        let matches = limits_match_self s.requests s.limits res parsed in
        ground (
          arith,
          apart.medium_small res,
          apart.large_small res,
          apart.large_medium res,
          eq_iff size capp_size_small,
          eq_iff size capp_size_large,
          eq_iff size capp_size_medium,
        )
