-- ===== src/Capps/ToK8s/Env.antt =====
-- internal/resources/namespaced/capps/convert.go: environment variables and image pull secrets.
use capp_backend.Prelude.{
  String, none, some, List, [], ◌∷◌, Result, ok, err, ◌>>=◌, ◌&&◌, ◌||◌, not, if◌then◌else◌,
  is_some, contains,
}
use capp_backend.ApiErrors.{GoError, errorf, sprintf}
use capp_backend.Kubernetes
use capp_backend.Kubernetes.{Kit}
use capp_backend.Capps.Types.{KeySelector, EnvVarSource, EnvVar}

abbrev pub selector_to_k8s : KeySelector → Kubernetes.KeySelector
selector_to_k8s s = record { name = s.name; key = s.key; other = "" }

-- The branch of the loop on `e.ValueFrom`: exactly one of the two references is set.
unfoldable pub value_from_to_k8s : String → EnvVarSource → Result GoError Kubernetes.EnvVarSource
value_from_to_k8s name src =
    let both_set = is_some src.secret_key_ref && is_some src.config_map_key_ref in
    let neither_set = not (is_some src.secret_key_ref) && not (is_some src.config_map_key_ref) in
    if both_set || neither_set
    then err (
        errorf (
          sprintf "env var %q: valueFrom must set exactly one of secretKeyRef or configMapKeyRef"
            (name ∷ [])))
    else elim src.secret_key_ref [
      | some s ↦ ok (record {
        secret_key_ref = some (selector_to_k8s s);
        config_map_key_ref = none;
        other = "";
      })
      | none ↦ elim src.config_map_key_ref [
        | some c ↦ ok (record {
          secret_key_ref = none;
          config_map_key_ref = some (selector_to_k8s c);
          other = "";
        })
        -- unreachable: one of the two is set
        | none ↦ ok (record { secret_key_ref = none; config_map_key_ref = none; other = "" })
      ]
    ]

unfoldable pub env_var_to_k8s : EnvVar → Result GoError Kubernetes.EnvVar
unfolding value_from_to_k8s
env_var_to_k8s e = elim e.value_from [
  | none ↦ ok (record { name = e.name; value = e.value; value_from = none })
  | some src ↦ do
    source ← value_from_to_k8s e.name src
    ok (record { name = e.name; value = ""; value_from = some source })
]

unfoldable pub env_vars_to_k8s : List EnvVar → Result GoError (List Kubernetes.EnvVar)
env_vars_to_k8s [] = ok []
env_vars_to_k8s (e ∷ vars) = do ev ← env_var_to_k8s e; out ← env_vars_to_k8s vars; ok (ev ∷ out)

-- The loop of `imagePullSecretsToK8s`; a reference is its name.
unfoldable pub pull_secrets_from : Kit → List String → List String → Result GoError (List String)
pull_secrets_from k seen [] = ok []
pull_secrets_from k seen (name ∷ names) =
    let rest = pull_secrets_from k (name ∷ seen) names in
    elim (k.name_error name) [
      | some e ↦
          err (errorf (sprintf "imagePullSecrets: invalid secret name %q: %s" (name ∷ e ∷ [])))
      | none ↦
          if contains seen name
          then err (errorf (sprintf "imagePullSecrets: duplicate secret name %q" (name ∷ [])))
          else do refs ← rest; ok (name ∷ refs)
    ]

unfoldable pub image_pull_secrets_to_k8s : Kit → List String → Result GoError (List String)
unfolding pull_secrets_from
image_pull_secrets_to_k8s k [] = ok []
image_pull_secrets_to_k8s k (n ∷ names) = pull_secrets_from k [] (n ∷ names)
