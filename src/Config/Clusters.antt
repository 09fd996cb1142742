-- ===== src/Config/Clusters.antt =====
-- internal/config/validation.go: which configurations are accepted.
use capp_backend.Prelude.{
  String, ◌≡◌, ◌≢◌, ◌↔◌, inl, inr, refl, Bool, false, Option, none, some, List, [], ◌∷◌, ◌++◌, ◌==◌,
  arith, eq_iff, All, map, IsNodup, Bool-cases,
}
use capp_backend.Prelude.Distinct.{Fresh, Fresh-IsNodup, IsNodup-Fresh}
use capp_backend.ApiErrors.{Message}
use capp_backend.Config.{
  InlineCredential, CredentialConfig, ClusterConfig, error_if, validate_credential,
  validate_clusters, validate_clusters_from,
}

-- Inline credentials name a server; without inline credentials there is the path of a kubeconfig.
abbrev pub HasServer : Option InlineCredential → String → Type 0
HasServer none path = path ≢ ""
HasServer (some inline) path = inline.api_server ≢ ""

abbrev pub HasCredential : CredentialConfig → Type 0
HasCredential cred = HasServer cred.inline cred.kubeconfig_path

-- A cluster with a name and a credential.
abbrev pub IsSound : ClusterConfig → Type 0
IsSound c = (c.name ≢ "") × HasCredential c.credential

pub error_if-eq-nil : (b : Bool) (e : Message) → (error_if b e ≡ []) ↔ (b ≡ false)
error_if-eq-nil b e = ground arith

pub append-eq-nil : (xs ys : List Message) → (xs ++ ys ≡ []) ↔ ((xs ≡ []) × (ys ≡ []))
append-eq-nil [] ys = ground arith
append-eq-nil (x ∷ xs) ys = ground arith

pub differs : (s t : String) → ((s == t) ≡ false) ↔ (s ≢ t)
differs s t = ground (arith, eq_iff s t)

validate_credential-HasServer :
    (o : Option InlineCredential) (path : String)
    → (validate_credential (record { kubeconfig_path = path; inline = o }) ≡ []) ↔ HasServer o path
unfolding validate_credential
validate_credential-HasServer none path = ground (arith, eq_iff path "")
validate_credential-HasServer (some inline) path = ground (arith, eq_iff inline.api_server "")

validate_credential_iff :
    (cred : CredentialConfig) → (validate_credential cred ≡ []) ↔ HasCredential cred
validate_credential_iff cred = validate_credential-HasServer cred.inline cred.kubeconfig_path

abbrev pub names_of : List ClusterConfig → List String
names_of cs = map (λ (c : ClusterConfig). c.name) cs

validate_clusters_from_iff :
    (seen : List String) (cs : List ClusterConfig)
    → (validate_clusters_from seen cs ≡ []) ↔ (All IsSound cs × Fresh seen (names_of cs))
unfolding validate_clusters_from
validate_clusters_from_iff seen [] = (λ h. (tt, tt), λ h. refl)
validate_clusters_from_iff seen (c ∷ cs) = elim (Bool-cases (c.name == "")) [
  | inl unnamed ↦ (
    λ h. let no = rw unnamed at h in absurd cc,
    λ a. absurd (a.0.0.0 ((eq_iff c.name "").0 unnamed)),
  )
  | inr named ↦ (
    λ h.
        let (new, rest) = (append-eq-nil _ _).0 (rw named at h) in
        let (usable, others) = (append-eq-nil (validate_credential c.credential) _).0 rest in
        let (sound, fresh) = (validate_clusters_from_iff (c.name ∷ seen) cs).0 others in
        (
          (((differs c.name "").0 named, (validate_credential_iff c.credential).0 usable), sound),
          ((error_if-eq-nil _ _).0 new, fresh),
        ),
    λ a. rw named (
        (append-eq-nil _ _).1 (
          (error_if-eq-nil _ _).1 a.1.0,
          (append-eq-nil _ _).1 (
            (validate_credential_iff c.credential).1 a.0.0.1,
            (validate_clusters_from_iff (c.name ∷ seen) cs).1 (a.0.1, a.1.1),
          ),
        )),
  )
]

-- The clusters of a configuration are accepted exactly if there is at least one, no name occurs
-- twice, and each has a name and a credential, whether of one kind or of both: inline credentials
-- with a server, beside which a path may be set, or, without inline credentials, a path.
pub validate_clusters_iff :
    (cs : List ClusterConfig)
    → (validate_clusters cs ≡ []) ↔ ((cs ≢ []) × All IsSound cs × IsNodup (names_of cs))
unfolding validate_clusters
validate_clusters_iff [] = (λ h. absurd cc, λ a. absurd (a.0 refl))
validate_clusters_iff (c ∷ cs) =
    let (forward, backward) = validate_clusters_from_iff [] (c ∷ cs) in
    (
      λ h.
          let (sound, fresh) = forward h in
          (λ e. cc, sound, Fresh-IsNodup (names_of (c ∷ cs)) fresh),
      λ (ne, sound, distinct). backward (sound, IsNodup-Fresh (names_of (c ∷ cs)) distinct),
    )
