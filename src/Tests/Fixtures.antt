-- ===== src/Tests/Fixtures.antt =====
-- Concrete values for the parameters of the model: library functions, a world with one Capp slot, a
-- list of Secrets and ConfigMaps and one values file, and a client for it.
use Prim.Native.Nat.{Ordering}
use capp_backend.Prelude.{
  String, ◌≡◌, refl, sym, ap, subst, Bool, true, false, ◌&&◌, ◌||◌, not, Option, none, some, List,
  [], ◌∷◌, Result, ok, err, ◌==◌, if◌then◌else◌, arith, pos, Bool-cases, inl, inr,
}
use capp_backend.ApiErrors.{GoError, K8sErrors, foreign}
use capp_backend.Kubernetes.{Kit, Capp, Dependent, ObjectMeta}
use capp_backend.Kubernetes.Client.{Client, Key, same_key, eq_of_same_key, key_of, IsReliable}
use capp_backend.Clusters.{ClusterMeta, ClusterClient, ClusterCredential, RestConfig, Manager}
use capp_backend.Clusters.Middleware.{holding}
use capp_backend.Capps.Handler.{Libraries, Handler, GitOpsSyncer, RequestContext}
use capp_backend.Capps.Types.{CappRequest, CappSizes, ResourceSize, ResourceQuantities}
use capp_backend.Capps.ToK8s.{to_k8s, empty_meta, base_spec, empty_status}

abbrev pub kit : Kit
kit = record {
  Quantity = String;
  Url = String;
  parse_quantity = λ s. if s == "" then err (foreign "empty quantity") else ok s;
  quantity_string = λ q. q;
  cmp = λ a b. if a == b then Ordering.eq else Ordering.lt;
  zero_quantity = "0";
  quantity_value = λ q. pos 0;
  parse_url = λ s. ok s;
  url_string = λ u. u;
  name_error = λ s. if s == "" then some "empty name" else none;
}

abbrev missing : GoError → Bool
missing (foreign s) = s == "not found"
missing _ = false

abbrev forbids : GoError → Bool
forbids (foreign s) = s == "forbidden"
forbids _ = false

abbrev pub errors : K8sErrors
errors = record {
  is_not_found = missing;
  is_already_exists = λ e. false;
  is_forbidden = forbids;
  is_unauthorized = λ e. false;
  is_invalid = λ e. false;
  is_service_unavailable = λ e. false;
  is_timeout = λ e. false;
  is_server_timeout = λ e. false;
  is_internal_error = λ e. false;
  status_message = λ e. some "no: User \"bob\" cannot get capps";
  details_name = λ e. none;
}

abbrev quantities : String → String → ResourceQuantities
quantities cpu memory = record { cpu = cpu; memory = memory }

abbrev size : String → ResourceSize
size limit = record { requests = quantities "100m" "64Mi"; limits = quantities limit "1Gi" }

abbrev pub sizes : CappSizes
sizes = record { small = size "1"; medium = size "2"; large = size "4" }

abbrev pub request : CappRequest
request = record {
  name = "web";
  scale_spec = record {
    metric = "cpu";
    min_replicas = none;
    max_replicas = none;
    scale_delay_seconds = none;
  };
  state = "enabled";
  image = "web:1";
  container_name = "main";
  size = "medium";
  custom_resources = none;
  env = record { name = "MODE"; value = "fast"; value_from = none } ∷ [];
  volume_mounts = record { name = "tmp"; mount_path = "/tmp" } ∷ [];
  route_spec = none;
  log_spec = none;
  nfs_volumes = [];
  secret_volumes = record { name = "tls"; secret_name = "cert"; mount_path = "/tls" } ∷ [];
  config_map_volumes = [];
  image_pull_secrets = "registry" ∷ [];
  event_sources_spec = none;
}

abbrev pub named : String → String → ObjectMeta
named namespace name = empty_meta name namespace

abbrev pub old_capp : Capp kit
old_capp = record {
  metadata = record (named "shop" "web") {
    labels = ("rcs.dana.io/backup-to-git", "true") ∷ [];
    resource_version = "7";
  };
  spec = base_spec kit none;
  status = empty_status;
}

abbrev pub dependent : String → Dependent
dependent name = record { metadata = named "shop" name; contents = "" }

pub record World : Type 0 where
  pub capp : Option (Capp kit)
  pub keys : List Key
  pub file : Bool

abbrev pub has : List Key → Key → Bool
has [] j = false
has (i ∷ is) j = same_key i j || has is j

abbrev pub remove : Key → List Key → List Key
remove i [] = []
remove i (j ∷ js) = let rest = remove i js in if same_key i j then rest else j ∷ rest

abbrev pub named_as : String → String → Option (Capp kit) → Result GoError (Capp kit)
named_as namespace name none = err (foreign "not found")
named_as namespace name (some c) =
    if c.metadata.namespace == namespace && c.metadata.name == name
    then ok c
    else err (foreign "not found")

-- A creation, which is refused where the key is taken.
abbrev pub create_key : World → Key → Bool → Result GoError (Unit {0}) × World
create_key w i true = (err (foreign "exists"), w)
create_key w i false = (ok tt, record w { keys = i ∷ w.keys })

abbrev pub client : Client kit World
client = record {
  get_namespace = λ namespace w. ok tt;
  get_capp = λ namespace name w. named_as namespace name w.capp;
  list_capps = λ namespace w. ok [];
  create_capp = λ c w. (ok c, w);
  update_capp = λ c w. (ok c, record w { capp = some c });
  patch_capp = λ old new w. (ok new, record w { capp = some new });
  delete_capp = λ c w. (ok tt, record w { capp = none });
  get_dependent = λ i w. if has w.keys i then ok (dependent i.name) else err (foreign "not found");
  list_managed = λ kind namespace w. ok (dependent "s1" ∷ []);
  create_dependent = λ kind d w. create_key w (key_of kind d) (has w.keys (key_of kind d));
  delete_dependent = λ i w. (ok tt, record w { keys = remove i w.keys });
}

false_right : (b : Bool) → false ≡ (not b && false)
false_right b = ground arith

drop_same : (s s' h r : Bool) → s ≡ s' → r ≡ (not s && h) → r ≡ (not s && (s' || h))
drop_same s s' h r e q = ground arith

keep_other :
    (s t h r : Bool) → (t ≡ true → s ≡ false) → r ≡ (not s && h) → (t || r) ≡ (not s && (t || h))
keep_other s t h r e q = ground arith

apart : (i k j : Key) → same_key i k ≡ false → same_key k j ≡ true → same_key i j ≡ false
apart i k j other same = subst (λ x. same_key i x ≡ false) (eq_of_same_key k j same) other

has-remove :
    (i : Key) (ks : List Key) (j : Key) → has (remove i ks) j ≡ (not (same_key i j) && has ks j)
has-remove i [] j = false_right (same_key i j)
has-remove i (k ∷ ks) j = elim (Bool-cases (same_key i k)) [
  | inl same ↦ rw same (
      drop_same (same_key i j) (same_key k j) (has ks j) (has (remove i ks) j)
        (ap (λ x. same_key x j) (eq_of_same_key i k same)) (has-remove i ks j))
  | inr other ↦ rw other (
      keep_other (same_key i j) (same_key k j) (has ks j) (has (remove i ks) j) (apart i k j other)
        (has-remove i ks j))
]

created :
    (w w' : World) (i : Key) (h : Bool)
    → has w.keys i ≡ h
    → create_key w i h ≡ (ok tt, w')
    → (has w.keys i ≡ false) × ((j : Key) → has w'.keys j ≡ (same_key i j || has w.keys j))
created w w' i true e q = absurd cc
created w w' i false e q = (e, λ j. ap (λ r. has r.1.keys j) (sym q))

refused :
    (w w' : World) (i : Key) (h : Bool) (x : GoError)
    → create_key w i h ≡ (err x, w')
    → (j : Key) → has w'.keys j ≡ has w.keys j
refused w w' i true x q j = ap (λ r. has r.1.keys j) (sym q)
refused w w' i false x q j = absurd cc

pub client-IsReliable : IsReliable client
client-IsReliable = record {
  holds = λ w j. has w.keys j;
  create-ok = λ kind d w w' e. created w w' (key_of kind d) (has w.keys (key_of kind d)) refl e;
  create-err = λ kind d w w' x e. refused w w' (key_of kind d) (has w.keys (key_of kind d)) x e;
  delete-holds = λ i w j. has-remove i w.keys j;
}

-- The Capp that a request gives, or `other` where it is refused.
abbrev pub converted : CappRequest → Option (Capp kit) → Capp kit
converted req existing = elim (to_k8s kit req existing "shop" sizes) [ ok c ↦ c | err e ↦ old_capp ]

abbrev pub libraries : Libraries kit
libraries = record { errors = errors; error_text = λ e. "error"; marshal = λ v. ok "yaml" }

abbrev pub world : World
world = record { capp = some old_capp; keys = []; file = false }

abbrev pub meta_of : String → List String → ClusterMeta
meta_of name namespaces = record {
  name = name;
  display_name = name;
  healthy = false;
  is_open_shift = false;
  git_ops_path = "site";
  allowed_namespaces = namespaces;
}

abbrev pub base_config : RestConfig
base_config = record {
  host = "https://west";
  bearer_token = "own";
  bearer_token_file = "/token";
  impersonate = record { user_name = ""; groups = [] };
  other = "";
}

abbrev pub west : ClusterClient
west = record { meta = meta_of "west" ("mall" ∷ []); healthy = true; rest_config = base_config }

abbrev pub manager : Manager
manager = ("west", west) ∷ []

abbrev pub caller : ClusterCredential
caller = record { bearer_token = "theirs"; impersonate_user = ""; impersonate_groups = [] }

abbrev pub syncer : GitOpsSyncer World
syncer = record {
  sync_values = λ path namespace name yaml w. (ok "sha", record w { file = true });
  delete_values = λ path namespace name w. (ok "sha", record w { file = false });
  build_rel_path = λ path namespace name. path;
}

abbrev pub handler : Handler World
handler = record {
  gitops_enabled = true;
  gitops = some syncer;
  cluster_mgr = manager;
  sizes = sizes;
}

abbrev pub context : RequestContext kit World
context = record {
  client = holding client;
  meta = holding (meta_of "east" []);
  credential = holding caller;
}
