-- ===== src/Capps/Migrate/Hostnames.antt =====
-- internal/resources/namespaced/capps/migrate.go: the host name of a migrated Capp.
use capp_backend.Prelude.{
  String, ◌≡◌, ◌≢◌, true, false, ok, arith, eq_iff, ◌==◌, some, none, ◌↔◌, ◌⊎◌, ◌&&◌, not, eq_refl,
  if◌then◌else◌,
}
use capp_backend.Prelude.Assoc.{lookup, lookup-insert}
use capp_backend.Kubernetes.{Kit, Capp}
use capp_backend.Capps.Migrate.{
  prepare_capp, resolve_target_hostname, strip_metadata, migration_bypass_annotation,
}

module _ (k : Kit) (source : Capp k) (namespace target host : String) where
  abbrev source_host : String
  source_host = source.spec.route_spec.hostname

  abbrev migrated_host : String
  migrated_host = (prepare_capp k source namespace host).spec.route_spec.hostname

  -- A Capp that is copied, so that the source stays, never gets the source's host name: where the
  -- combination of host names is accepted, the copy's is the requested one and differs from the
  -- source's, or neither has one.
  pub copy_host :
      resolve_target_hostname source_host target false ≡ ok host
      → (migrated_host ≡ target)
        × (((source_host ≡ "") × (target ≡ "")) ⊎ (migrated_host ≢ source_host))
  unfolding resolve_target_hostname prepare_capp
  copy_host h =
      ground
        (arith, eq_iff target "", eq_iff source_host "", eq_iff target source_host, eq_iff host "")

  prepare_capp-host : migrated_host ≡ (if host == "" then source_host else host)
  unfolding prepare_capp
  prepare_capp-host = ground (arith, eq_iff host "", eq_iff source_host "")

  prepare_capp-bypass :
      lookup migration_bypass_annotation source.metadata.annotations ≡ none
      → lookup migration_bypass_annotation
          (prepare_capp k source namespace host).metadata.annotations
        ≡ (if host == "" && not (source_host == "") then some "true" else none)
  unfolding prepare_capp strip_metadata
  prepare_capp-bypass n = ground (
    arith,
    lookup-insert migration_bypass_annotation migration_bypass_annotation "true"
        source.metadata.annotations,
    eq_refl migration_bypass_annotation,
  )

  resolve-move :
      resolve_target_hostname source_host target true ≡ ok host
      → ((host ≡ "") × ((target ≡ "") ⊎ (target ≡ source_host)))
        ⊎ ((host ≡ target) × (target ≢ "") × (target ≢ source_host) × (source_host ≢ ""))
  unfolding resolve_target_hostname
  resolve-move h =
      ground (arith, eq_iff target "", eq_iff source_host "", eq_iff target source_host)

  -- A Capp that is moved, so that the source is deleted, has the requested host name, or the source's
  -- where none is requested; and the annotation that has the operator skip its check of host names is
  -- set on it exactly where it keeps a host name of the source. The source does not have the
  -- annotation itself.
  pub move_host :
      lookup migration_bypass_annotation source.metadata.annotations ≡ none
      → resolve_target_hostname source_host target true ≡ ok host
      → (migrated_host ≡ (if target == "" then source_host else target))
        × ((lookup migration_bypass_annotation
                (prepare_capp k source namespace host).metadata.annotations
              ≡ some "true")
            ↔ ((source_host ≢ "") × (migrated_host ≡ source_host)))
  move_host n h =
      rw (prepare_capp-host, prepare_capp-bypass n)
        (ground (arith, resolve-move h, eq_iff target "", eq_iff source_host "", eq_iff host ""))
