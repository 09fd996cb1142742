-- ===== src/GitOps/Repository.antt =====
-- What internal/gitops/client.go relies on in go-git and in the file system: how each call changes
-- the files that the clone and the remote hold.
use Prim.Native.Char.{Char, code}
use Prim.Native.String.{[], ◌∷◌}
use capp_backend.Prelude.{
  String, ◌≡◌, nat_eq, ◌&&◌, Bool, false, true, Option, none, some, [], ◌∷◌, Result, ok, err, ◌==◌,
  if◌then◌else◌,
}
use capp_backend.ApiErrors.{GoError}
use capp_backend.GitOps.Client.{Git, AuthMethod}

-- Where in a segment of a path a reader stands; the dots that began it are kept.
pub data Segment : Type 0 where
  begin : Segment
  one_dot : Char → Segment
  two_dots : Char → Char → Segment
  inside : Segment

abbrev pub is_inside : Segment → Bool
is_inside inside = true
is_inside _ = false

unfoldable pub next : Segment → Char → Segment
next begin c = if nat_eq (code c) b'.' then one_dot c else inside
next (one_dot a) c = if nat_eq (code c) b'.' then two_dots a c else inside
next (two_dots a b) c = inside
next inside c = inside

unfoldable pub is_local_from : Segment → String → Bool
unfolding next
is_local_from q [] = is_inside q
is_local_from q (c ∷ s) =
    let there = is_local_from begin s in
    let on = is_local_from (next q c) s in if nat_eq (code c) b'/' then is_inside q && there else on

-- A path that `filepath.Join` leaves as it is, and that stays in the directory: no segment of it is
-- empty, `.` or `..`.
abbrev pub IsLocal : String → Type 0
IsLocal path = is_local_from begin path ≡ true

-- The contents of files, by their paths in the repository.
abbrev pub Files : Type 0
Files = String → Option String

abbrev pub put : String → Option String → Files → Files
put path content files = λ other. if path == other then content else files other

-- The files of the worktree, of the index, of the local branch, and of the branch on the remote.
pub record View : Type 0 where
  pub working : Files
  pub staged : Files
  pub committed : Files
  pub remote : Files

-- All four hold the same files.
abbrev pub level : Files → View
level files = record { working = files; staged = files; committed = files; remote = files }

abbrev pub IsCurrent : {W : Type 0} → Git W → Result GoError (Unit {0}) → Type 0
IsCurrent g (ok u) = Unit
IsCurrent g (err e) = g.is_up_to_date e ≡ true

-- The laws are for paths that `IsLocal` admits, of which no two name the same file in a repository
-- without symbolic links. `Clean` says that the clone has no changes and no commits of its own. A
-- pull into such a clone makes it level with the remote. Only a push changes the remote, and a push
-- that fails does not.
pub record IsRepository {W : Type 0} (g : Git W) : Type 1 where
  pub view : W → View
  pub Clean : W → Type 0
  pub pull-level :
      (branch : String) (auth : AuthMethod) (w w' : W) (r : Result GoError (Unit {0}))
      → Clean w
      → g.pull branch auth w ≡ (r, w')
      → IsCurrent g r
      → (view w' ≡ level (view w).remote) × Clean w'
  pub pull-remote :
      (branch : String) (auth : AuthMethod) (w : W)
      → (view (g.pull branch auth w).1).remote ≡ (view w).remote
  pub read_file-ok :
      (root path content : String) (w : W)
      → IsLocal path
      → g.worktree w ≡ ok root
      → g.read_file (g.join (root ∷ path ∷ [])) w ≡ ok content
      → (view w).working path ≡ some content
  pub stat-missing :
      (root path : String) (w : W) (e : GoError)
      → IsLocal path
      → g.worktree w ≡ ok root
      → g.stat (g.join (root ∷ path ∷ [])) w ≡ err e
      → g.is_not_exist e ≡ true
      → (view w).working path ≡ none
  pub mkdir_all-view : (path : String) (w : W) → view (g.mkdir_all path w).1 ≡ view w
  pub mkdir_all-root : (path : String) (w : W) → g.worktree (g.mkdir_all path w).1 ≡ g.worktree w
  pub write_file-ok :
      (root path content : String) (w w' : W)
      → IsLocal path
      → g.worktree w ≡ ok root
      → g.write_file (g.join (root ∷ path ∷ [])) content w ≡ (ok tt, w')
      → view w' ≡ record (view w) { working = put path (some content) (view w).working }
  pub write_file-remote :
      (path content : String) (w : W)
      → (view (g.write_file path content w).1).remote ≡ (view w).remote
  pub remove_file-ok :
      (root path : String) (w w' : W)
      → IsLocal path
      → g.worktree w ≡ ok root
      → g.remove_file (g.join (root ∷ path ∷ [])) w ≡ (ok tt, w')
      → view w' ≡ record (view w) { working = put path none (view w).working }
  pub remove_file-remote :
      (path : String) (w : W) → (view (g.remove_file path w).1).remote ≡ (view w).remote
  pub add-ok :
      (path : String) (w w' : W)
      → IsLocal path
      → g.add path w ≡ (ok tt, w')
      → view w' ≡ record (view w) { staged = put path ((view w).working path) (view w).staged }
  pub add-remote : (path : String) (w : W) → (view (g.add path w).1).remote ≡ (view w).remote
  pub remove-ok :
      (path : String) (w w' : W)
      → IsLocal path
      → g.remove path w ≡ (ok tt, w')
      → view w' ≡ record (view w) {
        working = put path none (view w).working;
        staged = put path none (view w).staged;
      }
  pub remove-remote : (path : String) (w : W) → (view (g.remove path w).1).remote ≡ (view w).remote
  pub commit-ok :
      (message hash : String) (w w' : W)
      → g.commit message w ≡ (ok hash, w')
      → view w' ≡ record (view w) { committed = (view w).staged }
  pub commit-remote :
      (message : String) (w : W) → (view (g.commit message w).1).remote ≡ (view w).remote
  pub push-ok :
      (branch : String) (auth : AuthMethod) (w w' : W)
      → g.push branch auth w ≡ (ok tt, w')
      → view w' ≡ record (view w) { remote = (view w).committed }
  pub push-Clean :
      (branch : String) (auth : AuthMethod) (w w' : W)
      → g.push branch auth w ≡ (ok tt, w')
      → (view w).working ≡ (view w).committed
      → (view w).staged ≡ (view w).committed
      → Clean w'
  pub push-err :
      (branch : String) (auth : AuthMethod) (w w' : W) (e : GoError)
      → g.push branch auth w ≡ (err e, w')
      → (view w').remote ≡ (view w).remote
  pub reset_hard-remote :
      (hash : String) (w : W) → (view (g.reset_hard hash w).1).remote ≡ (view w).remote
