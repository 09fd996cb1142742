-- ===== src/Config/GitOps.antt =====
-- internal/config/validation.go: which GitOps configurations are accepted.
use capp_backend.Prelude.{
  ℕ, zero, suc, ℤ, pos, negsuc, String, ◌≡◌, ◌≢◌, ◌↔◌, ◌⊎◌, inl, inr, refl, true, false, [], ◌==◌,
  arith, eq_iff,
}
use capp_backend.Config.{GitOpsConfig, not_positive, validate_git_ops}

abbrev pub IsPositive : ℤ → Type 0
IsPositive z = (n : ℕ) × (z ≡ pos (suc n))

pub not_positive_iff : (z : ℤ) → (not_positive z ≡ false) ↔ IsPositive z
not_positive_iff (pos zero) = (λ h. absurd cc, λ (n, e). absurd cc)
not_positive_iff (pos (suc n)) = (λ h. (n, refl), λ h. refl)
not_positive_iff (negsuc n) = (λ h. absurd cc, λ (m, e). absurd cc)

-- What an enabled configuration needs: a repository, time, and the credential of its method.
abbrev pub IsComplete : GitOpsConfig → Type 0
IsComplete g =
    (g.repo_url ≢ "")
    × IsPositive g.timeout_seconds
    × (((g.auth_method ≡ "token") × (g.token ≢ ""))
        ⊎ ((g.auth_method ≡ "ssh") × (g.ssh_key_path ≢ "")))

abbrev IsSettled : GitOpsConfig → Type 0
IsSettled g =
    (g.repo_url ≢ "")
    × (not_positive g.timeout_seconds ≡ false)
    × (((g.auth_method ≡ "token") × (g.token ≢ ""))
        ⊎ ((g.auth_method ≡ "ssh") × (g.ssh_key_path ≢ "")))

one_method : (method : String) → (method == "token") ≡ true → (method == "ssh") ≡ false
one_method method h = rw ((eq_iff method "token").0 h) refl

validate_git_ops-IsSettled :
    (g : GitOpsConfig) → (validate_git_ops g ≡ []) ↔ ((g.enabled ≡ false) ⊎ IsSettled g)
unfolding validate_git_ops
validate_git_ops-IsSettled g = ground (
  arith,
  eq_iff g.repo_url "",
  eq_iff g.token "",
  eq_iff g.ssh_key_path "",
  eq_iff g.auth_method "token",
  eq_iff g.auth_method "ssh",
  one_method g.auth_method,
)

-- A GitOps configuration is accepted exactly if it is disabled, or has a repository, a positive
-- timeout, and a method, `token` or `ssh`, with the credential that it uses.
pub validate_git_ops_iff :
    (g : GitOpsConfig) → (validate_git_ops g ≡ []) ↔ ((g.enabled ≡ false) ⊎ IsComplete g)
validate_git_ops_iff g =
    let (f, b) = validate_git_ops-IsSettled g in
    let (p, q) = not_positive_iff g.timeout_seconds in
    (
      λ h. elim (f h) [ inl off ↦ inl off | inr s ↦ inr (s.0, p s.1, s.2) ],
      λ h. elim h [ inl off ↦ b (inl off) | inr s ↦ b (inr (s.0, q s.1, s.2)) ],
    )
