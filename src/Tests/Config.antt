-- ===== src/Tests/Config.antt =====
-- internal/config/validation.go at one cluster, at the LDAP login, and at GitOps with a token.
use capp_backend.Prelude.{
  ◌≡◌, refl, ◌==◌, String, ◌≢◌, ◌↔◌, true, false, some, List, [], ◌∷◌, pos, IsNodup, All,
}
use capp_backend.Config.{ClusterConfig, GitOpsConfig, validate_clusters}
use capp_backend.Config.Clusters.{IsSound, validate_clusters_iff, names_of}
use capp_backend.ApiErrors.{literal, sprintf}
use capp_backend.Prelude.Decimal.{parse_int}
use capp_backend.Config.Patterns.{has_hash, is_attribute}
use capp_backend.Config.Ldap.{Formats, LdapSettings}
use capp_backend.Config.Validate.{Config, validate}
use capp_backend.Config.Accepted.{IsLogin, IsBackup, IsLimit, IsBenchmark, validate-IsServable}

abbrev clusters : List ClusterConfig
clusters =
    record {
      name = "west";
      credential = record {
        kubeconfig_path = "";
        inline = some (record { api_server = "https://west"; token = "" });
      };
      git_ops_path = "";
    }
    ∷ []

validate_clusters_iff_example :
    (validate_clusters clusters ≡ [])
    ↔ ((clusters ≢ []) × All IsSound clusters × IsNodup (names_of clusters))
validate_clusters_iff_example = validate_clusters_iff clusters

abbrev git_ops : GitOpsConfig
git_ops = record {
  enabled = true;
  repo_url = "https://git/repo";
  auth_method = "token";
  token = "secret";
  branch = "main";
  ssh_key_path = "";
  insecure_host_key = false;
  path_prefix = "";
  timeout_seconds = pos 20;
}

-- Keys are the texts that encode them, and every text is a certificate, a DN and a filter.
abbrev formats : Formats
formats = record {
  PrivateKey = String;
  PublicKey = String;
  trim_space = λ s. s;
  parse_url = λ s. some (record {
    scheme = "ldaps";
    hostname = "directory";
    port = "636";
    has_user = false;
    path = "";
    raw_query = "";
    force_query = false;
  });
  decode_base64 = λ s. some s;
  has_certificates = λ s. true;
  is_dn = λ s. true;
  is_filter = λ s. true;
  private_key = λ s. some s;
  public_key = λ s. some s;
  public_part = λ s. s;
  is_same_key = λ s t. s == t;
}

abbrev settings : LdapSettings
settings = record {
  directory = record {
    bind_dn = "cn=capp";
    bind_password = "bind";
    user_base_dn = "ou=people";
    user_filter = "(uid={username})";
    username_attribute = "uid";
    group_base_dn = "ou=groups";
    group_filter = "(member={userDN})";
    group_name_attribute = "2.5.4.3;lang-en";
  };
  url = "ldaps://directory:636";
  ca_cert = "";
  timeout_seconds = pos 10;
  token_ttl_seconds = pos 900;
  issuer = "capp";
  audience = "console";
  signing_key_id = "new";
  signing_private_key = "n";
  verification_keys = ("old", "o") ∷ ("new", "n") ∷ [];
}

abbrev config : Config
config = record {
  auth = record {
    mode = "ldap";
    openshift = record {
      api_server = "";
      client = record { client_id = ""; client_secret = ""; redirect_uri = ""; scopes = [] };
    };
    ldap = settings;
    rate_limit = record { enabled = true; max_ip_tracked = pos 100 };
  };
  clusters =
      record {
        name = "west";
        credential = record {
          kubeconfig_path = "";
          inline = some (record { api_server = "https://west"; token = "t" });
        };
        git_ops_path = "";
      }
      ∷ [];
  benchmarks = record {
    enabled = true;
    image = "runner";
    vm_urls = "http://vm" ∷ [];
    api_key = "k";
  };
  git_ops = git_ops;
}

accepted : validate formats config ≡ []
unfolding validate has_hash parse_int is_attribute
accepted = refl

validate-IsServable_example :
    ((config.clusters ≢ []) × All IsSound config.clusters × IsNodup (names_of config.clusters))
    × IsLogin formats config.auth config.clusters
    × IsBackup config.git_ops config.clusters
    × IsLimit config.auth.rate_limit
    × IsBenchmark formats config.benchmarks
validate-IsServable_example = validate-IsServable formats config accepted

-- Another key under the active identifier is refused.
refused_conflict :
    validate formats (record config {
      auth = record config.auth {
        ldap = record settings { verification_keys = ("new", "o") ∷ [] };
      };
    })
    ≡ literal "config: auth.ldap.verificationKeys conflicts with the active signing key ID" ∷ []
unfolding validate has_hash parse_int is_attribute
refused_conflict = refl

refused_pattern : is_attribute "2.05" ≡ false
unfolding is_attribute
refused_pattern = refl

-- A token for each cluster is needed in the modes that impersonate.
refused_token :
    validate formats (record config { clusters = clusters })
    ≡ sprintf
        "(%q): credential.inline.token is required when auth.mode is '%s' (used as the service-account token for K8s impersonation)"
        ("west" ∷ "ldap" ∷ [])
      ∷ []
unfolding validate has_hash parse_int is_attribute
refused_token = refl
