-- ===== src/Capps/Migrate/Copying.antt =====
-- internal/resources/namespaced/capps/migrate.go: the copy of Secrets and ConfigMaps is all or
-- nothing.
use capp_backend.Prelude.{
  String, ◌≡◌, ◌∙◌, refl, Bool, true, false, ◌&&◌, ◌||◌, not, Option, none, List, [], ◌∷◌, ◌++◌,
  Result, ok, err, arith, Bool-cases, Result-cases, inl, inr,
}
use mathlib.Core.List.{append_assoc, append-nil}
use capp_backend.ApiErrors.{GoError, K8sErrors}
use capp_backend.Kubernetes.{Kit, Dependent}
use capp_backend.Kubernetes.Client.{
  Client, Kind, secret, config_map, Key, same_key, eq_of_same_key, IsReliable,
}
use capp_backend.Kubernetes.Exec.{settle_cases}
use capp_backend.Capps.Migrate.{
  prepare_dependent_resource, cleanup_from, cleanup_resources, check_absent, create_config_maps,
  create_secrets, copy_dependent_resources,
}

-- One of the objects, copied to the namespace, has the key.
abbrev pub is_copy_of : Kind → String → List Dependent → Key → Bool
is_copy_of kind namespace [] j = false
is_copy_of kind namespace (d ∷ ds) j =
    same_key (record { kind = kind; namespace = namespace; name = d.metadata.name }) j
    || is_copy_of kind namespace ds j

is_copy_of-append :
    (kind : Kind) (namespace : String) (xs ys : List Dependent) (j : Key)
    → is_copy_of kind namespace (xs ++ ys) j
      ≡ (is_copy_of kind namespace xs j || is_copy_of kind namespace ys j)
is_copy_of-append kind namespace [] ys j = refl
is_copy_of-append kind namespace (x ∷ xs) ys j =
    ground (arith, is_copy_of-append kind namespace xs ys j)

module _ {k : Kit} {W : Type 0} (errors : K8sErrors) (c : Client k W) (r : IsReliable c)
    (namespace : String) where
  open r use {holds}

  cleanup_from-holds :
      (kind : Kind) (ds : List Dependent) (found : Option GoError) (w : W) (j : Key)
      → holds (cleanup_from errors c kind namespace ds found w).1 j
        ≡ (not (is_copy_of kind namespace ds j) && holds w j)
  unfolding cleanup_from
  cleanup_from-holds kind [] found w j = refl
  cleanup_from-holds kind (d ∷ ds) found w j =
      let i : Key = record { kind = kind; namespace = namespace; name = d.metadata.name } in
      cleanup_from-holds kind ds _ (c.delete_dependent i w).1 j
      ∙ ground (arith, r.delete-holds i w j)

  cleanup_resources-holds :
      (ss cs : List Dependent) (w : W) (j : Key)
      → holds (cleanup_resources errors c namespace ss cs w).1 j ≡ (
          not (is_copy_of secret namespace ss j || is_copy_of config_map namespace cs j)
          && holds w j)
  unfolding cleanup_resources
  cleanup_resources-holds ss cs w j =
      cleanup_from-holds config_map cs _ _ j ∙ ground (arith, cleanup_from-holds secret ss none w j)

  module _ (start : W) where
    -- The objects are the copies, which were not there at the start, and those of the start.
    pub record Added (ss cs : List Dependent) (w : W) : Type 0 where
      pub added :
          (j : Key)
          → holds w j ≡ (
              is_copy_of secret namespace ss j
              || (is_copy_of config_map namespace cs j || holds start j))
      pub fresh :
          (j : Key)
          → (is_copy_of secret namespace ss j || is_copy_of config_map namespace cs j) ≡ true
          → holds start j ≡ false

    -- All the copies are there, or none.
    abbrev pub AllOrNothing :
        List Dependent → List Dependent → Result GoError (Unit {0}) × W → Type 0
    AllOrNothing ss cs (ok u, w) = Added ss cs w
    AllOrNothing ss cs (err e, w) = (j : Key) → holds w j ≡ holds start j

    pub rollback :
        (ss cs : List Dependent) (w w' : W) (j : Key)
        → Added ss cs w
        → ((i : Key) → holds w' i ≡ holds w i)
        → holds (cleanup_resources errors c namespace ss cs w').1 j ≡ holds start j
    rollback ss cs w w' j a same =
        ground (arith, cleanup_resources-holds ss cs w' j, same j, a.added j, a.fresh j)

    -- A key that is a copy's, or that of an object created last, was free at the start.
    fresh_at :
        (ss cs : List Dependent) (w : W) (i j : Key)
        → Added ss cs w
        → holds w i ≡ false
        → (same_key i j
            || (is_copy_of secret namespace ss j || is_copy_of config_map namespace cs j))
          ≡ true
        → holds start j ≡ false
    fresh_at ss cs w i j a free m = elim (Bool-cases (same_key i j)) [
      | inl same ↦
          let there : holds w j ≡ false = rw (← eq_of_same_key i j same) free in
          ground (arith, a.added j)
      | inr other ↦ a.fresh j (rw other at m)
    ]

    Added-config_map :
        (ss made : List Dependent) (d : Dependent) (w w' : W)
        → Added ss made w
        → c.create_dependent config_map (prepare_dependent_resource d namespace) w ≡ (ok tt, w')
        → Added ss (made ++ d ∷ []) w'
    unfolding prepare_dependent_resource
    Added-config_map ss made d w w' a e =
        let (absent, new) = r.create-ok config_map _ w w' e in
        let more = is_copy_of-append config_map namespace made (d ∷ []) in
        record {
          added = λ j. ground (arith, new j, a.added j, more j);
          fresh = λ j m. fresh_at ss made w _ j a absent (ground (arith, more j));
        }

    Added-secret :
        (made : List Dependent) (d : Dependent) (w w' : W)
        → Added made [] w
        → c.create_dependent secret (prepare_dependent_resource d namespace) w ≡ (ok tt, w')
        → Added (made ++ d ∷ []) [] w'
    unfolding prepare_dependent_resource
    Added-secret made d w w' a e =
        let (absent, new) = r.create-ok secret _ w w' e in
        let more = is_copy_of-append secret namespace made (d ∷ []) in
        record {
          added = λ j. ground (arith, new j, a.added j, more j);
          fresh = λ j m. fresh_at made [] w _ j a absent (ground (arith, more j));
        }

    create_config_maps-AllOrNothing :
        (ss made ds : List Dependent) (w : W)
        → Added ss made w
        → AllOrNothing ss (made ++ ds) (create_config_maps errors c namespace ss made ds w)
    unfolding create_config_maps
    create_config_maps-AllOrNothing ss made [] w a = rw append-nil a
    create_config_maps-AllOrNothing ss made (d ∷ ds) w a =
        settle_cases (AllOrNothing ss (made ++ d ∷ ds))
          (c.create_dependent config_map (prepare_dependent_resource d namespace) w)
          (λ _. create_config_maps errors c namespace ss (made ++ d ∷ []) ds)
          (λ x w'. (err x, (cleanup_resources errors c namespace ss made w').1))
          (λ u w' e.
            let after = Added-config_map ss made d w w' a e in
            rw append_assoc at (create_config_maps-AllOrNothing ss (made ++ d ∷ []) ds w' after))
          (λ x w' e j. rollback ss made w w' j a (r.create-err config_map _ w w' x e))

    create_secrets-AllOrNothing :
        (cs made ds : List Dependent) (w : W)
        → Added made [] w
        → AllOrNothing (made ++ ds) cs (create_secrets errors c namespace cs made ds w)
    unfolding create_secrets
    create_secrets-AllOrNothing cs made [] w a =
        rw append-nil (create_config_maps-AllOrNothing made [] cs w a)
    create_secrets-AllOrNothing cs made (d ∷ ds) w a =
        settle_cases (AllOrNothing (made ++ d ∷ ds) cs)
          (c.create_dependent secret (prepare_dependent_resource d namespace) w)
          (λ _. create_secrets errors c namespace cs (made ++ d ∷ []) ds)
          (λ x w'. (err x, (cleanup_resources errors c namespace made [] w').1))
          (λ u w' e.
            let after = Added-secret made d w w' a e in
            rw append_assoc at (create_secrets-AllOrNothing cs (made ++ d ∷ []) ds w' after))
          (λ x w' e j. rollback made [] w w' j a (r.create-err secret _ w w' x e))

    -- The copy of Secrets and ConfigMaps is all or nothing, wherever a check or a creation fails: if
    -- it succeeds, all copies are on the target, none of them was there before, and nothing else has
    -- changed; if it fails, the target has exactly the objects that it had. The client is one that
    -- creates nothing when it fails and refuses no deletion.
    pub copy_dependent_resources-AllOrNothing :
        (secrets config_maps : List Dependent)
        → AllOrNothing secrets config_maps
            (copy_dependent_resources errors c namespace secrets config_maps start)
    unfolding copy_dependent_resources
    copy_dependent_resources-AllOrNothing secrets config_maps =
        elim (Result-cases (check_absent errors c secret namespace secrets start)) [
          | inr (x, e) ↦ rw e (λ j. refl)
          | inl (_, e) ↦
              rw e
                (elim (Result-cases
                  (check_absent errors c config_map namespace config_maps start)) [
                    | inr (x, e') ↦ rw e' (λ j. refl)
                    | inl (_, e') ↦ rw e' (
                        create_secrets-AllOrNothing config_maps [] secrets start
                          (record { added = λ j. refl; fresh = λ j m. cc }))
                  ])
        ]
