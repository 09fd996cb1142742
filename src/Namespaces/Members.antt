-- ===== src/Namespaces/Members.antt =====
-- internal/resources/cluster/namespaces/handler.go: what `patch` does to the subjects of the
-- RoleBinding.
use capp_backend.Prelude.{
  String, ◌≡◌, true, ◌||◌, some, List, [], ◌∷◌, ◌++◌, Result, ok, inl, inr, Bool-cases, sym, ◌∙◌,
  map, contains, if◌then◌else◌,
}
use mathlib.Core.List.{append-nil, append_assoc}
use capp_backend.ApiErrors.{GoError}
use capp_backend.Kubernetes.{Kit}
use capp_backend.Kubernetes.Exec.{Exec}
use capp_backend.Namespaces.Types.{
  Subject, RoleBinding, Client, Libraries, RequestContext, PatchNamespaceRequest,
}
use capp_backend.Namespaces.Quota.{role_binding_name, user_subject}
use capp_backend.Namespaces.Handler.{has_user, add_users}
use capp_backend.Namespaces.Reading.{capps_in}

-- The requested users that have no subject yet.
abbrev pub missing : List Subject → List String → List String
missing existing [] = []
missing existing (user ∷ users) =
    let rest = missing existing users in if has_user existing user then rest else user ∷ rest

pub add_users_lem :
    (existing subjects : List Subject) (users : List String)
    → add_users existing subjects users ≡ subjects ++ map user_subject (missing existing users)
unfolding add_users
add_users_lem existing subjects [] = sym (append-nil subjects)
add_users_lem existing subjects (user ∷ users) = elim (Bool-cases (has_user existing user)) [
  | inl there ↦ rw there (add_users_lem existing subjects users)
  | inr lacks ↦ rw lacks (
      add_users_lem existing (subjects ++ user_subject user ∷ []) users
      ∙ append_assoc subjects (user_subject user ∷ []) (map user_subject (missing existing users)))
]

module _ {k : Kit} {W : Type 0} (l : Libraries) (rc : RequestContext k W) (name : String)
    (body : Result GoError PatchNamespaceRequest) where
  -- What a patch with users has written.
  pub record Patched (users : List String) (start w : W) : Type 0 where
    pub user : Client k W
    pub admin : Client k W
    pub reviewed : W
    pub bound : W
    pub binding : RoleBinding
    pub added : List String
    pub sent : RoleBinding
    pub client : rc.client ≡ some user
    pub admin_client : rc.admin_client ≡ some admin
    pub may : user.review (capps_in name) start ≡ (ok true, reviewed)
    pub read_first : admin.get_role_binding name (role_binding_name name) reviewed ≡ ok binding
    pub sent_once : admin.update_role_binding sent reviewed ≡ (ok tt, bound)
    pub kept : sent ≡ record binding { subjects = binding.subjects ++ map user_subject added }
    pub members :
        (u : String) → has_user sent.subjects u ≡ (has_user binding.subjects u || contains users u)
