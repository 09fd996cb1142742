-- ===== src/GitOps/Client.antt =====
-- internal/gitops/client.go: the client of the GitOps repository. The mutex admits one operation at
-- a time, so an operation is an action on the world; the deadline of its context is a reason for
-- which a git call may fail.
use capp_backend.Prelude.{
  String, List, [], ◌∷◌, Bool, true, false, Result, ok, err, ◌==◌, if◌then◌else◌,
}
use capp_backend.Prelude.Texts.{◌⧺◌}
use capp_backend.ApiErrors.{GoError, errorf, wrapped, literal, sprintf}
use capp_backend.Kubernetes.Exec.{Exec, pure, read, attempt, fail_with, ◌>>=◌}
use capp_backend.Config.{GitOpsConfig}
use capp_backend.GitOps.HostKey.{hint, tells_of_host_key}

pub data AuthMethod : Type 0 where
  basic_auth : String → String → AuthMethod
  public_keys : String → Bool → AuthMethod

-- What the client asks of libraries: go-git on the repository and its worktree, files, paths, and
-- the texts and kinds of errors. `worktree` gives the root directory; `pull` and `push` take the
-- branch; `reset_hard` takes the hash of a commit.
pub record Git (W : Type 0) : Type 0 where
  pub pull : String → AuthMethod → Exec W (Unit {0})
  pub worktree : W → Result GoError String
  pub head : W → Result GoError String
  pub add : String → Exec W (Unit {0})
  pub remove : String → Exec W (Unit {0})
  pub commit : String → Exec W String
  pub push : String → AuthMethod → Exec W (Unit {0})
  pub remote_reference : String → W → Result GoError String
  pub reset_hard : String → Exec W (Unit {0})
  pub clone : String → String → String → AuthMethod → Exec W (Unit {0})
  pub load_keys : String → W → Result GoError (Unit {0})
  pub read_file : String → W → Result GoError String
  pub stat : String → W → Result GoError (Unit {0})
  pub mkdir_all : String → Exec W (Unit {0})
  pub mkdir_temp : Exec W String
  pub write_file : String → String → Exec W (Unit {0})
  pub remove_file : String → Exec W (Unit {0})
  pub remove_all : String → Exec W (Unit {0})
  pub join : List String → String
  pub dir : String → String
  pub error_text : GoError → String
  pub is_up_to_date : GoError → Bool
  pub is_not_exist : GoError → Bool

-- The repository and the lock are part of the world.
pub record Client : Type 0 where
  pub auth : AuthMethod
  pub branch : String
  pub path_prefix : String
  pub clone_dir : String

module _ {W : Type 0} (g : Git W) where
  unfoldable pub wrap_ssh_error : GoError → GoError
  wrap_ssh_error e = if tells_of_host_key (g.error_text e) then wrapped (literal hint) e else e

  unfoldable pub build_auth : GitOpsConfig → W → Result GoError AuthMethod
  build_auth cfg w =
      if cfg.auth_method == "token"
      then (if cfg.token == ""
          then err (errorf (literal "gitops token is required when authMethod is \"token\""))
          else ok (basic_auth "git" cfg.token))
      else if cfg.auth_method == "ssh"
      then (if cfg.ssh_key_path == ""
          then err (errorf (literal "sshKeyPath is required when authMethod is \"ssh\""))
          else elim (g.load_keys cfg.ssh_key_path w) [
            | err e ↦ err (wrapped (sprintf "load SSH key %s" (cfg.ssh_key_path ∷ [])) e)
            | ok keys ↦ ok (public_keys cfg.ssh_key_path cfg.insecure_host_key)
          ])
      else err (errorf (sprintf "unsupported authMethod: %q" (cfg.auth_method ∷ [])))

-- Whether the file was read, and holds the values.
abbrev pub same_text : Result GoError String → String → Bool
same_text (ok current) values = current == values
same_text (err e) values = false

module _ {W : Type 0} (g : Git W) (c : Client) where
  unfoldable pub build_rel_path : String → String → String → String
  build_rel_path git_ops_path namespace capp_name =
      g.join (c.path_prefix ∷ git_ops_path ∷ namespace ∷ (capp_name ⧺ ".yaml") ∷ [])

  -- What is left of the answer of `PullContext`.
  unfoldable pub pulled : Result GoError (Unit {0}) → Result GoError (Unit {0})
  unfolding wrap_ssh_error
  pulled (ok u) = ok tt
  pulled (err e) = if g.is_up_to_date e then ok tt else err (wrap_ssh_error g e)

  unfoldable pub pull_ctx : Exec W (Unit {0})
  unfolding pulled
  pull_ctx = do root ← read g.worktree; λ w. let r = g.pull c.branch c.auth w in (pulled r.0, r.1)

  unfoldable pub push_ctx : Exec W (Unit {0})
  unfolding wrap_ssh_error
  push_ctx = fail_with (wrap_ssh_error g) (g.push c.branch c.auth)

  unfoldable pub reset_with : Result GoError String → Result GoError String → W → W
  reset_with (ok hash) (ok root) w = (g.reset_hard hash w).1
  reset_with _ _ w = w

  unfoldable pub reset_to_remote : W → W
  unfolding reset_with
  reset_to_remote w = reset_with (g.remote_reference c.branch w) (g.worktree w) w

  -- The push of a commit, and what happens where it fails.
  unfoldable pub publish : String → Exec W String
  unfolding push_ctx reset_to_remote
  publish hash =
      attempt push_ctx (λ u. pure hash)
        (λ e w. (err (wrapped (literal "push") e), reset_to_remote w))

  -- The part of `SyncValues` for values that differ from the file.
  unfoldable pub write_values : String → String → String → String → Exec W String
  unfolding publish
  write_values root rel values message = do
    made ←
        fail_with (wrapped (sprintf "mkdir %s" (g.dir rel ∷ [])))
          (g.mkdir_all (g.dir (g.join (root ∷ rel ∷ []))))
    written ←
        fail_with (wrapped (sprintf "write %s" (rel ∷ [])))
          (g.write_file (g.join (root ∷ rel ∷ [])) values)
    staged ← fail_with (wrapped (sprintf "stage %s" (rel ∷ []))) (g.add rel)
    hash ← fail_with (wrapped (literal "commit")) (g.commit message)
    publish hash

  unfoldable pub sync_at : String → String → String → String → Exec W String
  unfolding write_values
  sync_at root rel values message w =
      if same_text (g.read_file (g.join (root ∷ rel ∷ [])) w) values
      then fail_with (wrapped (literal "resolve HEAD")) (read g.head) w
      else write_values root rel values message w

  abbrev file_text : String → String → String → String
  file_text git_ops_path namespace capp_name =
      git_ops_path ⧺ "/" ⧺ namespace ⧺ "/" ⧺ capp_name ⧺ ".yaml"

  unfoldable pub sync_values : String → String → String → String → Exec W String
  unfolding pull_ctx build_rel_path sync_at
  sync_values git_ops_path namespace capp_name values = do
    current ← fail_with (wrapped (literal "pull")) pull_ctx
    root ← fail_with (wrapped (literal "worktree")) (read g.worktree)
    sync_at root (build_rel_path git_ops_path namespace capp_name) values
        ("sync " ⧺ file_text git_ops_path namespace capp_name)

  unfoldable pub drop_file : String → String → String → Exec W String
  unfolding publish
  drop_file root rel message = do
    removed ←
        fail_with (wrapped (sprintf "remove %s" (rel ∷ [])))
          (g.remove_file (g.join (root ∷ rel ∷ [])))
    staged ← fail_with (wrapped (sprintf "stage removal %s" (rel ∷ []))) (g.remove rel)
    hash ← fail_with (wrapped (literal "commit")) (g.commit message)
    publish hash

  abbrev pub is_missing : Result GoError (Unit {0}) → Bool
  is_missing (ok u) = false
  is_missing (err e) = g.is_not_exist e

  unfoldable pub delete_at : String → String → String → Exec W String
  unfolding drop_file
  delete_at root rel message w =
      if is_missing (g.stat (g.join (root ∷ rel ∷ [])) w)
      then (ok "", w)
      else drop_file root rel message w

  unfoldable pub delete_values : String → String → String → Exec W String
  unfolding pull_ctx build_rel_path delete_at
  delete_values git_ops_path namespace capp_name = do
    current ← fail_with (wrapped (literal "pull")) pull_ctx
    root ← fail_with (wrapped (literal "worktree")) (read g.worktree)
    delete_at root (build_rel_path git_ops_path namespace capp_name)
        ("remove " ⧺ file_text git_ops_path namespace capp_name)

  unfoldable pub close : Exec W (Unit {0})
  close = if c.clone_dir == "" then pure tt else g.remove_all c.clone_dir

-- `NewClient`: a directory that was made for the clone goes again where the clone fails.
module _ {W : Type 0} (g : Git W) where
  abbrev drop_temp : Bool → String → W → W
  drop_temp true dir w = (g.remove_all dir w).1
  drop_temp false dir w = w

  unfoldable pub new_client : GitOpsConfig → String → Exec W Client
  unfolding build_auth wrap_ssh_error
  new_client cfg clone_dir = do
    auth ← fail_with (wrapped (literal "gitops auth")) (read (build_auth g cfg))
    dir ←
        (if clone_dir == ""
          then fail_with (wrapped (literal "create temp dir")) g.mkdir_temp
          else pure clone_dir)
    attempt (g.clone dir cfg.repo_url cfg.branch auth)
        (λ u. pure (record {
          auth = auth;
          branch = cfg.branch;
          path_prefix = cfg.path_prefix;
          clone_dir = dir;
        }))
        (λ e w. (
          err (wrapped (sprintf "clone %s" (cfg.repo_url ∷ [])) (wrap_ssh_error g e)),
          drop_temp (clone_dir == "") dir w,
        ))
