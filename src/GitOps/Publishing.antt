-- ===== src/GitOps/Publishing.antt =====
-- internal/gitops/client.go: what `SyncValues` and `DeleteValues` do to the repository, as a change
-- of the files on the remote.
use mathlib.Core.Path.{fun_ext}
use capp_backend.Prelude.{
  String, ◌≡◌, refl, sym, ap, ◌∙◌, Option, none, some, [], ◌∷◌, Result, ok, err, ◌==◌, eq_refl,
  eq_iff, inl, inr, Bool-cases, map_err,
}
use capp_backend.ApiErrors.{GoError, wrapped, literal, sprintf}
use capp_backend.Kubernetes.Exec.{Exec, fail_with, ◌>>=◌, pure, settle, fail_with_cases}
use capp_backend.GitOps.Client.{
  Git, Client, wrap_ssh_error, push_ctx, reset_with, reset_to_remote, publish, write_values,
  drop_file,
}
use capp_backend.GitOps.Repository.{Files, put, View, level, IsLocal, IsRepository}

-- To put what is there changes nothing.
pub put_present : (path : String) (o : Option String) (f : Files) → f path ≡ o → put path o f ≡ f
put_present path o f h = fun_ext (λ other. elim (Bool-cases (path == other)) [
  | inl same ↦ rw same (sym h ∙ ap f ((eq_iff path other).0 same))
  | inr apart ↦ rw apart refl
])

put_there : (path : String) (o : Option String) (f : Files) → put path o f path ≡ o
put_there path o f = rw (eq_refl path) refl

module _ {W : Type 0} (g : Git W) (c : Client) (law : IsRepository g) where
  open law use {view, Clean}

  -- The remote holds the files of `target`, and the clone is level with it; or there is an error, and
  -- the remote holds the files of `before`.
  abbrev pub Published : Files → Files → Result GoError String × W → Type 0
  Published before target (ok hash, w) = (view w ≡ level target) × Clean w
  Published before target (err e, w) = (view w).remote ≡ before

  reset_with-remote :
      (r s : Result GoError String) (w : W) → (view (reset_with g c r s w)).remote ≡ (view w).remote
  unfolding reset_with
  reset_with-remote (ok hash) (ok root) w = law.reset_hard-remote hash w
  reset_with-remote (ok hash) (err e) w = refl
  reset_with-remote (err e) s w = refl

  reset-remote : (w : W) → (view (reset_to_remote g c w)).remote ≡ (view w).remote
  unfolding reset_to_remote
  reset-remote w = reset_with-remote (g.remote_reference c.branch w) (g.worktree w) w

  pushed :
      (hash : String) (before target : Files) (w : W) (x : Result GoError (Unit {0}) × W)
      → view w ≡ record (level target) { remote = before }
      → g.push c.branch c.auth w ≡ x
      → Published before target (
          settle
            (map_err (wrap_ssh_error g) x.0, x.1)
            (λ u. pure hash)
            (λ e v. (err (wrapped (literal "push") e), reset_to_remote g c v)))
  pushed hash before target w (ok u, v) e push = (
    law.push-ok c.branch c.auth w v push ∙ ap (λ (t : View). record t { remote = t.committed }) e,
    law.push-Clean c.branch c.auth w v push (ap (λ t. t.working) e ∙ sym (ap (λ t. t.committed) e))
        (ap (λ t. t.staged) e ∙ sym (ap (λ t. t.committed) e)),
  )
  pushed hash before target w (err x, v) e push =
      reset-remote v ∙ law.push-err c.branch c.auth w v x push ∙ ap (λ t. t.remote) e

  -- The push of a commit of all files.
  publish-Published :
      (hash : String) (before target : Files) (w : W)
      → view w ≡ record (level target) { remote = before }
      → Published before target (publish g c hash w)
  unfolding publish push_ctx
  publish-Published hash before target w e =
      pushed hash before target w (g.push c.branch c.auth w) e refl

  -- A step that failed, and left the remote alone.
  pub lost :
      {A : Type 0} (m : Exec W A) (before : Files) (w v : W) (x : GoError)
      → (view (m w).1).remote ≡ (view w).remote
      → m w ≡ (err x, v)
      → (view w).remote ≡ before
      → (view v).remote ≡ before
  lost m before w v x kept failed e = sym (ap (λ o. (view o.1).remote) failed) ∙ kept ∙ e

  -- A commit of files that are staged, and its push.
  commit-Published :
      (message : String) (before target : Files) (w : W)
      → view w ≡ record { working = target; staged = target; committed = before; remote = before }
      → Published before target
          ((fail_with (wrapped (literal "commit")) (g.commit message) >>= publish g c) w)
  commit-Published message before target w e =
      fail_with_cases (Published before target) (wrapped (literal "commit")) (g.commit message w) _
        (λ hash v done. publish-Published hash before target v (
          law.commit-ok message hash w v done
          ∙ ap (λ (t : View). record t { committed = t.staged }) e))
        (λ x v failed.
          lost (g.commit message) before w v x (law.commit-remote message w) failed
            (ap (λ t. t.remote) e))

  -- The addition of a file that has been written, its commit, and its push.
  add-Published :
      (path values message : String) (files : Files) (w : W)
      → IsLocal path
      → view w ≡ record (level files) { working = put path (some values) files }
      → Published files (put path (some values) files) (
          (fail_with (wrapped (sprintf "stage %s" (path ∷ []))) (g.add path) >>= λ staged.
          fail_with (wrapped (literal "commit")) (g.commit message) >>= publish g c)
            w)
  add-Published path values message files w local e =
      fail_with_cases (Published files (put path (some values) files)) _ (g.add path w) _
        (λ u v done. commit-Published message files (put path (some values) files) v (
          law.add-ok path w v local done
          ∙ ap (λ (t : View). record t { staged = put path (t.working path) t.staged }) e
          ∙ ap
              (λ o. record (level files) {
                working = put path (some values) files;
                staged = put path o files;
              })
              (put_there path (some values) files)))
        (λ x v failed.
          lost (g.add path) files w v x (law.add-remote path w) failed (ap (λ t. t.remote) e))

  pub write_values-Published :
      (root path values message : String) (files : Files) (w : W)
      → IsLocal path
      → g.worktree w ≡ ok root
      → view w ≡ level files
      → Published files (put path (some values) files) (write_values g c root path values message w)
  unfolding write_values
  write_values-Published root path values message files w local here e =
      let abs = g.join (root ∷ path ∷ []) in
      fail_with_cases (Published files (put path (some values) files)) _ (g.mkdir_all (g.dir abs) w)
        _
        (λ u v made.
          let level_still : view v ≡ level files =
            ap (λ o. view o.1) (sym made) ∙ law.mkdir_all-view (g.dir abs) w ∙ e in
          let here_still : g.worktree v ≡ ok root =
            ap (λ o. g.worktree o.1) (sym made) ∙ law.mkdir_all-root (g.dir abs) w ∙ here in
          fail_with_cases (Published files (put path (some values) files)) _
            (g.write_file abs values v) _
            (λ u' v' written. add-Published path values message files v' local (
              law.write_file-ok root path values v v' local here_still written
              ∙ ap (λ (t : View). record t { working = put path (some values) t.working })
                  level_still))
            (λ x v' failed.
              lost (g.write_file abs values) files v v' x (law.write_file-remote abs values v)
                failed (ap (λ t. t.remote) level_still)))
        (λ x v failed.
          lost (g.mkdir_all (g.dir abs)) files w v x
            (ap (λ t. t.remote) (law.mkdir_all-view (g.dir abs) w)) failed (ap (λ t. t.remote) e))

  pub drop_file-Published :
      (root path message : String) (files : Files) (w : W)
      → IsLocal path
      → g.worktree w ≡ ok root
      → view w ≡ level files
      → Published files (put path none files) (drop_file g c root path message w)
  unfolding drop_file
  drop_file-Published root path message files w local here e =
      let abs = g.join (root ∷ path ∷ []) in
      fail_with_cases (Published files (put path none files)) _ (g.remove_file abs w) _
        (λ u v removed.
          let gone : view v ≡ record (level files) { working = put path none files } =
            law.remove_file-ok root path w v local here removed
            ∙ ap (λ (t : View). record t { working = put path none t.working }) e in
          fail_with_cases (Published files (put path none files)) _ (g.remove path v) _
            (λ u' v' staged. commit-Published message files (put path none files) v' (
              law.remove-ok path v v' local staged
              ∙ ap
                  (λ (t : View). record t {
                    working = put path none t.working;
                    staged = put path none t.staged;
                  })
                  gone
              ∙ ap
                  (λ (f : Files). record (level files) {
                    working = f;
                    staged = put path none files;
                  })
                  (put_present path none (put path none files) (put_there path none files))))
            (λ x v' failed.
              lost (g.remove path) files v v' x (law.remove-remote path v) failed
                (ap (λ t. t.remote) gone)))
        (λ x v failed.
          lost (g.remove_file abs) files w v x (law.remove_file-remote abs w) failed
            (ap (λ t. t.remote) e))
