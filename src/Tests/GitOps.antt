-- ===== src/Tests/GitOps.antt =====
-- The GitOps client on a repository that is its four views.
use capp_backend.Prelude.{
  String, ◌≡◌, refl, sym, ap, ◌∙◌, subst, true, false, Option, none, some, List, [], ◌∷◌, Result,
  ok, err,
}
use capp_backend.ApiErrors.{GoError, foreign}
use capp_backend.GitOps.Client.{Git, Client, basic_auth, build_rel_path, sync_values}
use capp_backend.Prelude.Texts.{◌⧺◌}
use capp_backend.ApiErrors.Messages.{after}
use capp_backend.Tests.Paths.{tidy, tidy_local}
use capp_backend.GitOps.Repository.{
  begin, next, is_local_from, IsLocal, Files, put, View, level, IsRepository,
}
use capp_backend.GitOps.Publishing.{Published}
use capp_backend.GitOps.Refinement.{
  IsWithin, Operation, sync, removal, perform, meaning, perform_all, Ran, perform-Published,
  perform_all-Ran,
}

abbrev pub slashed : List String → String
slashed [] = ""
slashed (s ∷ []) = s
slashed (s ∷ t ∷ rest) = s ⧺ "/" ⧺ slashed (t ∷ rest)

abbrev pub join : List String → String
join parts = tidy begin (slashed parts)

-- Below the directory of the clone, a path that stays in it names itself.
join-local : (path : String) → IsLocal path → join ("clone" ∷ path ∷ []) ≡ "clone/" ⧺ path
unfolding tidy next
join-local path h = ap (λ t. "clone/" ⧺ t) (tidy_local begin path h)

abbrev pub at : Files → Option String → Option String
at files none = none
at files (some path) = files path

abbrev pub put_at : Option String → Option String → View → Result GoError (Unit {0}) × View
put_at none content w = (err (foreign "outside"), w)
put_at (some path) content w = (ok tt, record w { working = put path content w.working })

-- The path in the clone of a file.
abbrev pub in_clone : String → Option String
in_clone path = after "clone/" path

abbrev pub read_of : Option String → Result GoError String
read_of none = err (foreign "missing")
read_of (some s) = ok s

abbrev pub stat_of : Option String → Result GoError (Unit {0})
stat_of none = err (foreign "missing")
stat_of (some s) = ok tt

-- A file system that knows the files below the directory of the clone.
abbrev pub git : Git View
git = record {
  pull = λ branch auth w. (ok tt, level w.remote);
  worktree = λ w. ok "clone";
  head = λ w. ok "head";
  add = λ path w. (ok tt, record w { staged = put path (w.working path) w.staged });
  remove = λ path w.
      (ok tt, record w { working = put path none w.working; staged = put path none w.staged });
  commit = λ message w. (ok "hash", record w { committed = w.staged });
  push = λ branch auth w. (ok tt, record w { remote = w.committed });
  remote_reference = λ branch w. ok "head";
  reset_hard = λ hash w. (ok tt, level w.remote);
  clone = λ dir url branch auth w. (ok tt, level w.remote);
  load_keys = λ path w. ok tt;
  read_file = λ path w. read_of (at w.working (in_clone path));
  stat = λ path w. stat_of (at w.working (in_clone path));
  mkdir_all = λ path w. (ok tt, w);
  mkdir_temp = λ w. (ok "tmp", w);
  write_file = λ path content w. put_at (in_clone path) (some content) w;
  remove_file = λ path w. put_at (in_clone path) none w;
  remove_all = λ path w. (ok tt, w);
  join = join;
  dir = λ path. "";
  error_text = λ e. "";
  is_up_to_date = λ e. false;
  is_not_exist = λ e. true;
}

pub read_of-ok : (o : Option String) (s : String) → read_of o ≡ ok s → o ≡ some s
read_of-ok none s h = absurd cc
read_of-ok (some t) s h = cc

pub stat_of-err : (o : Option String) (e : GoError) → stat_of o ≡ err e → o ≡ none
stat_of-err none e h = refl
stat_of-err (some t) e h = absurd cc

pub no_failure :
    (v : View) {e : GoError} {w : View}
    → ◌≡◌ {A = Result GoError (Unit {0}) × View}
        (ok tt, record v { remote = v.committed })
        (err e, w)
    → w.remote ≡ v.remote
no_failure v h = absurd cc

pub put_at-remote :
    (o content : Option String) (w : View) → (put_at o content w).1.remote ≡ w.remote
put_at-remote none content w = refl
put_at-remote (some path) content w = refl

ok-of : {r s : String} → ◌≡◌ {A = Result GoError String} (ok r) (ok s) → r ≡ s
ok-of h = cc

-- A path in the root of the clone is found there.
pub joined :
    (root path : String)
    → IsLocal path
    → ◌≡◌ {A = Result GoError String} (ok "clone") (ok root)
    → in_clone (join (root ∷ path ∷ [])) ≡ some path
unfolding after
joined root path local here =
    ap (λ r. in_clone (join (r ∷ path ∷ []))) (sym (ok-of here))
    ∙ ap in_clone (join-local path local)

-- The clone is level with the remote.
abbrev pub Even : View → Type 0
Even w = w ≡ level w.remote

abbrev pub laws : IsRepository git
laws = record {
  view = λ w. w;
  Clean = Even;
  pull-level = λ branch auth w w' r clean h current.
      (sym (ap (λ x. x.1) h), subst Even (ap (λ x. x.1) h) refl);
  pull-remote = λ branch auth w. refl;
  read_file-ok = λ root path content w local here h.
      read_of-ok (w.working path) content
        (sym (ap (λ o. read_of (at w.working o)) (joined root path local here)) ∙ h);
  stat-missing = λ root path w e local here h missing.
      stat_of-err (w.working path) e
        (sym (ap (λ o. stat_of (at w.working o)) (joined root path local here)) ∙ h);
  mkdir_all-view = λ path w. refl;
  mkdir_all-root = λ path w. refl;
  write_file-ok = λ root path content w w' local here h.
      sym (
        ap (λ x. x.1)
          (sym (ap (λ o. put_at o (some content) w) (joined root path local here)) ∙ h));
  write_file-remote = λ path content w. put_at-remote (in_clone path) (some content) w;
  remove_file-ok = λ root path w w' local here h.
      sym (ap (λ x. x.1) (sym (ap (λ o. put_at o none w) (joined root path local here)) ∙ h));
  remove_file-remote = λ path w. put_at-remote (in_clone path) none w;
  add-ok = λ path w w' local h. sym (ap (λ x. x.1) h);
  add-remote = λ path w. refl;
  remove-ok = λ path w w' local h. sym (ap (λ x. x.1) h);
  remove-remote = λ path w. refl;
  commit-ok = λ message hash w w' h. sym (ap (λ x. x.1) h);
  commit-remote = λ message w. refl;
  push-ok = λ branch auth w w' h. sym (ap (λ x. x.1) h);
  push-Clean = λ branch auth w w' h working staged. subst Even (ap (λ x. x.1) h) (
      ap (λ f. record (level w.committed) { working = f; staged = w.staged }) working
      ∙ ap (λ f. record (level w.committed) { staged = f }) staged);
  push-err = λ branch auth w w' e h. no_failure w h;
  reset_hard-remote = λ hash w. refl;
}

abbrev pub gitops_client : Client
gitops_client = record {
  auth = basic_auth "git" "secret";
  branch = "main";
  path_prefix = "";
  clone_dir = "clone";
}

abbrev pub empty_repository : View
empty_repository = level (λ path. none)

abbrev backup : Operation
backup = sync "site" "shop" "web" "replicas: 2"

backup-IsWithin : IsWithin git gitops_client backup
unfolding build_rel_path is_local_from tidy
backup-IsWithin = refl

perform-Published_example :
    Published git gitops_client laws
      (λ path. none)
      (meaning git gitops_client backup (λ path. none))
      (perform git gitops_client backup empty_repository)
perform-Published_example =
    perform-Published git gitops_client laws backup empty_repository backup-IsWithin refl

perform_all-Ran_example :
    Ran git gitops_client laws
      (backup ∷ removal "site" "shop" "web" ∷ [])
      (λ path. none)
      (perform_all git gitops_client (backup ∷ removal "site" "shop" "web" ∷ []) empty_repository)
perform_all-Ran_example =
    perform_all-Ran git gitops_client laws (backup ∷ removal "site" "shop" "web" ∷ [])
      empty_repository (backup-IsWithin, (backup-IsWithin, tt)) refl

-- A remote to which nobody else writes, and a commit that fails.
abbrev failing : Git View
failing = record git {
  pull = λ branch auth w. (err (foreign "already up-to-date"), w);
  is_up_to_date = λ e. true;
  commit = λ message w. (err (foreign "disk full"), w);
}

abbrev recovered : Git View
recovered = record failing { commit = git.commit }

abbrev after_failure : View
after_failure =
    (sync_values failing gitops_client "site" "shop" "web" "replicas: 2" empty_repository).1

-- The next sync of the same values finds the file that the failed one has left, and answers with
-- success, while the remote lacks it.
stale_answer :
    (sync_values recovered gitops_client "site" "shop" "web" "replicas: 2" after_failure).0
    ≡ ok "head"
unfolding sync_values after tidy
stale_answer = refl

stale_remote :
    (sync_values recovered gitops_client "site" "shop" "web" "replicas: 2" after_failure).1.remote
      "site/shop/web.yaml"
    ≡ none
unfolding sync_values after tidy
stale_remote = refl
