-- ===== src/Capps/Migrate.antt =====
-- internal/resources/namespaced/capps/migrate.go: what is copied to the target cluster, and the
-- all-or-nothing copy of Secrets and ConfigMaps. Deep copies are the values themselves.
pub mod Copying
pub mod Hostnames
use capp_backend.Prelude.{
  String, Bool, true, false, Option, none, some, List, [], ◌∷◌, ◌++◌, Result, ok, err, ◌==◌, ◌&&◌,
  not, if◌then◌else◌,
}
use capp_backend.Prelude.Assoc.{insert, lookup}
use capp_backend.ApiErrors.{
  GoError, K8sErrors, api, new_bad_request, new_conflict, literal, sprintf,
}
use capp_backend.Kubernetes.{Kit, Capp, CappSpec, RouteSpec, Dependent, ObjectMeta}
use capp_backend.Kubernetes.Client.{Client, Kind, secret, config_map, Key}
use capp_backend.Kubernetes.Exec.{Exec, read, attempt, ◌>>=◌, ◌>>◌}
use capp_backend.Capps.ToK8s.{empty_status}

abbrev pub migration_bypass_annotation : String
migration_bypass_annotation = "rcs.dana.io/skip-dns-check"

unfoldable pub strip_metadata : ObjectMeta → String → ObjectMeta
strip_metadata m target_namespace = record m {
  uid = "";
  resource_version = "";
  creation_timestamp = none;
  managed_fields = [];
  owner_references = [];
  namespace = target_namespace;
  generation = 0;
  generate_name = "";
}

unfoldable pub prepare_dependent_resource : Dependent → String → Dependent
unfolding strip_metadata
prepare_dependent_resource source target_namespace = record source {
  metadata = strip_metadata source.metadata target_namespace;
}

unfoldable pub prepare_capp : (k : Kit) → Capp k → String → String → Capp k
unfolding strip_metadata
prepare_capp k source target_namespace target_hostname =
    let meta = strip_metadata source.metadata target_namespace in
    if not (target_hostname == "")
    then record {
      metadata = meta;
      spec = record source.spec {
        route_spec = record source.spec.route_spec { hostname = target_hostname };
      };
      status = empty_status;
    }
    else if not (source.spec.route_spec.hostname == "")
    then record {
      metadata = record meta {
        annotations = insert migration_bypass_annotation "true" meta.annotations;
      };
      spec = source.spec;
      status = empty_status;
    }
    else record { metadata = meta; spec = source.spec; status = empty_status }

unfoldable pub resolve_target_hostname : String → String → Bool → Result GoError String
resolve_target_hostname source target delete_source =
    if not (target == "") && source == ""
    then err (
        api (
          new_bad_request
            (literal "targetHostname cannot be set when the source Capp has no hostname")))
    else if (not (source == "") && not delete_source) && target == ""
    then err (
        api (
          new_bad_request
            (literal "targetHostname is required when copying a Capp with a custom hostname")))
    else if (not (source == "") && not delete_source) && target == source
    then err (api (new_bad_request (literal "targetHostname must differ from the source hostname")))
    else if delete_source && target == source
    then ok ""
    else ok target

-- The word for a kind in the conflict messages.
abbrev pub kind_word : Kind → String
kind_word secret = "Secret"
kind_word config_map = "ConfigMap"

module _ {k : Kit} {W : Type 0} (errors : K8sErrors) (c : Client k W) where
  unfoldable pub list_managed_resources :
      String → W → Result GoError (List Dependent × List Dependent)
  list_managed_resources namespace w = elim (c.list_managed secret namespace w) [
    | err e ↦ err e
    | ok secrets ↦ elim (c.list_managed config_map namespace w) [
      | err e ↦ err e
      | ok config_maps ↦ ok (secrets, config_maps)
    ]
  ]

  -- The first real error of the clean-up; `found` is the one so far.
  first_error : Option GoError → Result GoError (Unit {0}) → Option GoError
  first_error (some e) r = some e
  first_error none (ok u) = none
  first_error none (err e) = if errors.is_not_found e then none else some e

  -- One loop of `cleanupResources`, for the objects of one kind.
  unfoldable pub cleanup_from :
      Kind → String → List Dependent → Option GoError → W → Option GoError × W
  unfolding first_error
  cleanup_from kind namespace [] found w = (found, w)
  cleanup_from kind namespace (d ∷ ds) found w =
      let r =
        c.delete_dependent (record { kind = kind; namespace = namespace; name = d.metadata.name })
          w in
      cleanup_from kind namespace ds (first_error found r.0) r.1

  unfoldable pub cleanup_resources :
      String → List Dependent → List Dependent → W → Option GoError × W
  unfolding cleanup_from
  cleanup_resources namespace secrets config_maps w =
      let r = cleanup_from secret namespace secrets none w in
      cleanup_from config_map namespace config_maps r.0 r.1

  -- One of the first two loops of `copyDependentResources`: no object of the name is on the target.
  unfoldable pub check_absent : Kind → String → List Dependent → W → Result GoError (Unit {0})
  check_absent kind namespace [] w = ok tt
  check_absent kind namespace (d ∷ ds) w =
      let rest = check_absent kind namespace ds w in
      elim (c.get_dependent (record { kind = kind; namespace = namespace; name = d.metadata.name })
        w) [
          | ok found ↦ err (
              api (
                new_conflict
                  (sprintf "%s %q already exists" (kind_word kind ∷ d.metadata.name ∷ []))))
          | err e ↦ if errors.is_not_found e then rest else err e
        ]

  -- The creation loops. `made_secrets` and `made_maps` are the objects created so far, which are
  -- deleted again when a creation fails.
  unfoldable pub create_config_maps :
      String → List Dependent → List Dependent → List Dependent → Exec W (Unit {0})
  unfolding prepare_dependent_resource
  create_config_maps namespace made_secrets made_maps [] w = (ok tt, w)
  create_config_maps namespace made_secrets made_maps (d ∷ ds) w =
      attempt (c.create_dependent config_map (prepare_dependent_resource d namespace))
        (λ _. create_config_maps namespace made_secrets (made_maps ++ d ∷ []) ds)
        (λ e w'. (err e, (cleanup_resources namespace made_secrets made_maps w').1)) w

  unfoldable pub create_secrets :
      String → List Dependent → List Dependent → List Dependent → Exec W (Unit {0})
  unfolding create_config_maps
  create_secrets namespace config_maps made_secrets [] w =
      create_config_maps namespace made_secrets [] config_maps w
  create_secrets namespace config_maps made_secrets (d ∷ ds) w =
      attempt (c.create_dependent secret (prepare_dependent_resource d namespace))
        (λ _. create_secrets namespace config_maps (made_secrets ++ d ∷ []) ds)
        (λ e w'. (err e, (cleanup_resources namespace made_secrets [] w').1)) w

  unfoldable pub copy_dependent_resources :
      String → List Dependent → List Dependent → Exec W (Unit {0})
  copy_dependent_resources namespace secrets config_maps = do
    read (check_absent secret namespace secrets)
    read (check_absent config_map namespace config_maps)
    create_secrets namespace config_maps [] secrets
