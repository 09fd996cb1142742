-- ===== src/Capps/RoundTrip/Env.antt =====
-- internal/resources/namespaced/capps/convert.go: environment variables and image pull secrets, there
-- and back.
use mathlib.Core.Option
use capp_backend.Prelude.{
  String, ◌≡◌, refl, ◌↔◌, not, Option, some, none, List, [], ◌∷◌, map, ok, >>=-eq-ok, >>=-ok,
  Result-cases, inl, inr, arith, IsNodup, All, is_some, if◌then◌else◌,
}
use capp_backend.Prelude.Distinct.{Fresh, IsNodup-Fresh, Fresh-IsNodup}
use capp_backend.Kubernetes
use capp_backend.Kubernetes.{Kit}
use capp_backend.Capps.Types.{KeySelector, EnvVar, EnvVarSource}
use capp_backend.Capps.ToK8s.Env.{
  selector_to_k8s, value_from_to_k8s, env_var_to_k8s, env_vars_to_k8s, pull_secrets_from,
  image_pull_secrets_to_k8s,
}
use capp_backend.Capps.FromK8s.{selector_from_k8s, env_var_from_k8s, env_vars_from_k8s}

-- There is no `valueFrom`, or it sets exactly one reference.
abbrev pub OneReference : Option EnvVarSource → Type 0
OneReference none = Unit
OneReference (some src) = is_some src.secret_key_ref ≡ not (is_some src.config_map_key_ref)

-- What a response shows of a variable: its value only where there is no `valueFrom`.
abbrev pub shown : EnvVar → EnvVar
shown e = record e { value = if is_some e.value_from then "" else e.value }

selector_back :
    (o : Option KeySelector) → Option.map selector_from_k8s (Option.map selector_to_k8s o) ≡ o
selector_back none = refl
selector_back (some s) = refl

module _ (name : String) (src : EnvVarSource) where
  value_from-ok :
      OneReference (some src)
      → value_from_to_k8s name src
        ≡ ok (record {
          secret_key_ref = Option.map selector_to_k8s src.secret_key_ref;
          config_map_key_ref = Option.map selector_to_k8s src.config_map_key_ref;
          other = "";
        })
  unfolding value_from_to_k8s
  value_from-ok h = ground arith

  value_from-OneReference :
      (v : Kubernetes.EnvVarSource) → value_from_to_k8s name src ≡ ok v → OneReference (some src)
  unfolding value_from_to_k8s
  value_from-OneReference v h = ground arith

env_var-OneReference :
    (name value : String) (o : Option EnvVarSource) (ev : Kubernetes.EnvVar)
    → env_var_to_k8s (record { name = name; value = value; value_from = o }) ≡ ok ev
    → OneReference o
unfolding env_var_to_k8s
env_var-OneReference name value none ev h = tt
env_var-OneReference name value (some src) ev h =
    let (v, e, _) = >>=-eq-ok (value_from_to_k8s name src) _ h in
    value_from-OneReference name src v e

env_var-back :
    (name value : String) (o : Option EnvVarSource)
    → OneReference o
    → (ev : Kubernetes.EnvVar) × (env_var_to_k8s
          (record { name = name; value = value; value_from = o })
        ≡ ok ev)
      × (env_var_from_k8s ev ≡ shown (record { name = name; value = value; value_from = o }))
unfolding env_var_to_k8s env_var_from_k8s
env_var-back name value none h = (_, refl, refl)
env_var-back name value (some src) h =
    (_, >>=-ok _ (value_from-ok name src h) refl, simp selector_back)

abbrev AllOneReference : List EnvVar → Type 0
AllOneReference vars = All (λ (e : EnvVar). OneReference e.value_from) vars

env_vars-ok :
    (vars : List EnvVar)
    → AllOneReference vars
    → (out : List Kubernetes.EnvVar) × (env_vars_to_k8s vars ≡ ok out)
      × (env_vars_from_k8s out ≡ map shown vars)
unfolding env_vars_to_k8s env_vars_from_k8s
env_vars-ok [] h = ([], refl, refl)
env_vars-ok (e ∷ vars) (p, h) =
    let (ev, made, back) = env_var-back e.name e.value e.value_from p in
    let (out, all_made, all_back) = env_vars-ok vars h in
    (
      ev ∷ out,
      >>=-ok _ made (>>=-ok (λ (o : List Kubernetes.EnvVar). ok (ev ∷ o)) all_made refl),
      cc (back, all_back),
    )

env_vars-OneReference :
    (vars : List EnvVar) (out : List Kubernetes.EnvVar)
    → env_vars_to_k8s vars ≡ ok out
    → AllOneReference vars
unfolding env_vars_to_k8s
env_vars-OneReference [] out h = tt
env_vars-OneReference (e ∷ vars) out h =
    let (ev, made, rest) = >>=-eq-ok (env_var_to_k8s e) _ h in
    let (evs, all_made, _) = >>=-eq-ok (env_vars_to_k8s vars) _ rest in
    (
      env_var-OneReference e.name e.value e.value_from ev made,
      env_vars-OneReference vars evs all_made,
    )

-- `ToK8s` accepts the environment of a request exactly when each `valueFrom` sets exactly one
-- reference, and a response made of the result shows the variables in their order, each with its
-- reference, or with its value where it has none.
pub env_vars_iff :
    (vars : List EnvVar)
    → AllOneReference vars ↔ (
        (out : List Kubernetes.EnvVar) × (env_vars_to_k8s vars ≡ ok out)
        × (env_vars_from_k8s out ≡ map shown vars))
env_vars_iff vars = (env_vars-ok vars, λ r. env_vars-OneReference vars r.0 r.1)

pub env_vars_back :
    (vars : List EnvVar) (out : List Kubernetes.EnvVar)
    → env_vars_to_k8s vars ≡ ok out
    → env_vars_from_k8s out ≡ map shown vars
env_vars_back vars out h =
    let (out', made, back) = env_vars-ok vars (env_vars-OneReference vars out h) in
    let same : out ≡ out' = cc (h, made) in rw same back

module _ (k : Kit) where
  abbrev IsValidName : String → Type 0
  IsValidName name = k.name_error name ≡ none

  pull_secrets-ok :
      (seen names : List String)
      → All IsValidName names
      → Fresh seen names
      → pull_secrets_from k seen names ≡ ok names
  unfolding pull_secrets_from
  pull_secrets-ok seen [] v f = refl
  pull_secrets-ok seen (n ∷ names) (p, v) (q, f) =
      ground (arith, pull_secrets-ok (n ∷ seen) names v f)

  pull_secrets-eq :
      (seen names refs : List String)
      → pull_secrets_from k seen names ≡ ok refs
      → (refs ≡ names) × All IsValidName names × Fresh seen names
  unfolding pull_secrets_from
  pull_secrets-eq seen [] refs h = (ground arith, tt, tt)
  pull_secrets-eq seen (n ∷ names) refs h =
      elim (Result-cases (pull_secrets_from k (n ∷ seen) names)) [
        | inl (rest, e) ↦
            let (a, b, c) = pull_secrets-eq (n ∷ seen) names rest e in
            (ground arith, (ground arith, b), (ground arith, c))
        | inr (x, e) ↦ absurd (ground arith)
      ]

  -- The image pull secrets are accepted exactly when each is a valid name and none occurs twice, and
  -- the pod then refers to them in their order.
  pub image_pull_secrets_iff :
      (names refs : List String)
      → (image_pull_secrets_to_k8s k names ≡ ok refs)
        ↔ ((refs ≡ names) × All IsValidName names × IsNodup names)
  unfolding image_pull_secrets_to_k8s
  image_pull_secrets_iff [] refs = (λ h. (ground arith, tt, tt), λ h. ground arith)
  image_pull_secrets_iff (n ∷ names) refs = (
    λ h.
        let (a, b, c) = pull_secrets-eq [] (n ∷ names) refs h in
        (a, b, Fresh-IsNodup (n ∷ names) c),
    λ (e, v, d). rw e (pull_secrets-ok [] (n ∷ names) v (IsNodup-Fresh (n ∷ names) d)),
  )
