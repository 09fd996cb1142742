-- ===== src/Capps/Handler/Rollback.antt =====
-- internal/resources/namespaced/capps/handler.go: what `migrate` leaves behind when it fails, and in
-- which order it deletes the source.
use capp_backend.Prelude.{
  subst, sym, ap, inl, inr, true, false, Bool-cases, String, ◌≡◌, refl, ◌∙◌, Bool, Result, ok, err,
}
use capp_backend.ApiErrors.{GoError}
use capp_backend.Kubernetes.{Kit, Capp}
use capp_backend.Kubernetes.Client.{Key, IsReliable}
use capp_backend.Kubernetes.Exec.{continue_cases, settle_cases, undo_cases, continue}
use capp_backend.Capps.Migrate.{prepare_capp, copy_dependent_resources}
use capp_backend.Capps.Migrate.Copying.{
  Added, AllOrNothing, rollback, copy_dependent_resources-AllOrNothing,
}
use capp_backend.Capps.Handler.{Libraries, Reply, reply, migrate_body}
use capp_backend.Capps.Handler.Planning.{Plan}
use capp_backend.Capps.Handler.Migration.{create_target, delete_source, run_migration, migrated}

module _ {k : Kit} {W : Type 0} (l : Libraries k) (namespace name : String) (p : Plan k W)
    (start : W) (r : IsReliable p.target)
    (quiet : (capp : Capp k) (w : W) (j : Key)
      → r.holds (p.target.create_capp capp w).1 j ≡ r.holds w j) where
  open r use {holds}

  -- A migration that has succeeded: there was a world with all copies on the target, none of which
  -- had been there before; in it the Capp was created on the target; and only then the source was
  -- deleted, or not, as the response tells.
  pub record Migrated (response : Reply) (w : W) : Type 0 where
    pub copied : W
    pub created : W
    pub capp : Capp k
    pub deleted : Bool
    pub copies :
        Added l.errors p.target r p.req.target_namespace start p.secrets p.config_maps copied
    pub creation :
        p.target.create_capp (prepare_capp k p.source_capp p.req.target_namespace p.hostname) copied
        ≡ (ok capp, created)
    pub deletion : delete_source l p capp created ≡ (ok deleted, w)
    pub told : response ≡ reply 200 (migrate_body (migrated l namespace name p deleted))

  abbrev pub Outcome : Result GoError Reply × W → Type 0
  Outcome (ok response, w) = Migrated response w
  Outcome (err e, w) = (j : Key) → holds w j ≡ holds start j

  delete_source-ok :
      (capp : Capp k) (w : W) → (b : Bool) × (v : W) × (delete_source l p capp w ≡ (ok b, v))
  unfolding delete_source
  delete_source-ok capp w = elim (Bool-cases p.req.delete_source) [
    | inr stay ↦ rw (stay, delete_source) (false, w, refl)
    | inl go ↦
        rw (go, delete_source)
          (settle_cases (λ x. (b : Bool) × (v : W) × (x ≡ (ok b, v)))
            (p.source.delete_capp p.source_capp w) _ _ (λ u v e. (true, _, refl))
            (λ x v e. (false, v, refl)))
  ]

  -- The rest of a migration, after the copy.
  after_copy :
      (w : W)
      → Added l.errors p.target r p.req.target_namespace start p.secrets p.config_maps w
      → Outcome (
          continue (create_target l p w) (λ capp v.
            continue (delete_source l p capp v) (λ deleted u.
              (ok (reply 200 (migrate_body (migrated l namespace name p deleted))), u))))
  unfolding create_target
  after_copy w a =
      undo_cases Outcome
        (p.target.create_capp (prepare_capp k p.source_capp p.req.target_namespace p.hostname) w) _
        _
        (λ capp v e.
          let (deleted, u, d) = delete_source-ok capp v in
          rw d (record {
            copied = w;
            created = v;
            capp = capp;
            deleted = deleted;
            copies = a;
            creation = e;
            deletion = d;
            told = refl;
          }))
        (λ x v e j.
          rollback l.errors p.target r p.req.target_namespace start p.secrets p.config_maps w v j a
            (λ i. sym (ap (λ o. holds o.1 i) e) ∙ quiet _ w i))

  -- Once its checks have passed, a migration either succeeds, with all copies and the Capp created on
  -- the target before the source is touched, or it fails and leaves the Secrets and ConfigMaps of the
  -- target exactly as they were, wherever it failed. The target's client creates nothing when a
  -- creation fails and refuses no deletion, and the creation of a Capp creates and removes no Secret
  -- and no ConfigMap.
  pub run_migration-Outcome : Outcome (run_migration l namespace name p start)
  unfolding run_migration
  run_migration-Outcome =
      let copy =
        copy_dependent_resources-AllOrNothing l.errors p.target r p.req.target_namespace start
          p.secrets p.config_maps in
      continue_cases Outcome
        (copy_dependent_resources l.errors p.target p.req.target_namespace p.secrets p.config_maps
          start)
        _
        (λ u w e. after_copy w (
          subst
            (AllOrNothing l.errors p.target r p.req.target_namespace start p.secrets p.config_maps)
            e copy))
        (λ x w e.
          subst
            (AllOrNothing l.errors p.target r p.req.target_namespace start p.secrets p.config_maps)
            e copy)
