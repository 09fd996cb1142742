-- ===== src/GitOps/Refinement.antt =====
-- internal/gitops/client.go: `SyncValues` and `DeleteValues` as changes of the files on the remote.
use capp_backend.Prelude.{
  String, ◌≡◌, refl, sym, ap, ◌∙◌, subst, true, none, some, List, [], ◌∷◌, ◌++◌, Result, ok, err,
  All, eq_iff, inl, inr, Bool-cases, Result-cases,
}
use capp_backend.ApiErrors.{GoError, wrapped, literal}
use capp_backend.Kubernetes.Exec.{
  Exec, read, lift-eq-ok, fail_with, ◌>>=◌, pure, continue_cases, fail_with_cases,
}
use capp_backend.GitOps.Client.{
  same_text, is_missing, Git, Client, pulled, pull_ctx, sync_at, sync_values, delete_at,
  delete_values, build_rel_path,
}
use capp_backend.GitOps.Repository.{Files, put, level, IsLocal, IsCurrent, IsRepository}
use capp_backend.GitOps.Publishing.{
  Published, lost, put_present, write_values-Published, drop_file-Published,
}

err≢ok : {e : GoError} → ◌≡◌ {A = Result GoError (Unit {0})} (err e) (ok tt) → ⊥
err≢ok h = absurd cc

-- A call of the client: the path, the namespace and the name of the Capp, and for a sync its values.
pub data Operation : Type 0 where
  sync : String → String → String → String → Operation
  removal : String → String → String → Operation

module _ {W : Type 0} (g : Git W) (c : Client) where
  abbrev pub perform : Operation → Exec W String
  perform (sync path namespace name values) = sync_values g c path namespace name values
  perform (removal path namespace name) = delete_values g c path namespace name

  -- The values file of a call has a path that stays in the repository, as it has for a cluster name
  -- without slashes and for the names that Kubernetes admits.
  abbrev pub IsWithin : Operation → Type 0
  IsWithin (sync path namespace name values) = IsLocal (build_rel_path g c path namespace name)
  IsWithin (removal path namespace name) = IsLocal (build_rel_path g c path namespace name)

  -- What a call means for the files on the remote.
  abbrev pub meaning : Operation → Files → Files
  meaning (sync path namespace name values) =
      put (build_rel_path g c path namespace name) (some values)
  meaning (removal path namespace name) = put (build_rel_path g c path namespace name) none

  -- Calls one after the other, up to the first error.
  abbrev pub perform_all : List Operation → Exec W (Unit {0})
  perform_all [] = pure tt
  perform_all (o ∷ rest) = perform o >>= λ hash. perform_all rest

  abbrev pub meanings : List Operation → Files → Files
  meanings [] files = files
  meanings (o ∷ rest) files = meanings rest (meaning o files)

module _ {W : Type 0} (g : Git W) (c : Client) (law : IsRepository g) where
  open law use {view, Clean}

  pulled-IsCurrent : (r : Result GoError (Unit {0})) → pulled g c r ≡ ok tt → IsCurrent g r
  unfolding pulled
  pulled-IsCurrent (ok u) h = tt
  pulled-IsCurrent (err e) h = elim (Bool-cases (g.is_up_to_date e)) [
    | inl current ↦ current
    | inr other ↦ absurd (err≢ok (rw other at h))
  ]

  pull_ctx-level :
      (w v : W) → Clean w → pull_ctx g c w ≡ (ok tt, v) → (view v ≡ level (view w).remote) × Clean v
  unfolding pull_ctx
  pull_ctx-level w v clean done =
      let (root, here, rest) = lift-eq-ok (g.worktree w) w _ done in
      law.pull-level c.branch c.auth w v (g.pull c.branch c.auth w).0 clean
        (ap (λ x. ((g.pull c.branch c.auth w).0, x.1)) rest)
        (pulled-IsCurrent (g.pull c.branch c.auth w).0 (ap (λ x. x.0) rest))

  pull_ctx-remote : (w : W) → (view (pull_ctx g c w).1).remote ≡ (view w).remote
  unfolding pull_ctx
  pull_ctx-remote w = elim (Result-cases (g.worktree w)) [
    | inl (root, here) ↦ rw here (law.pull-remote c.branch c.auth w)
    | inr (e, nowhere) ↦ rw nowhere refl
  ]

  -- An operation that starts from a clone level with the remote, after the pull and the reading of
  -- the root.
  after_pull :
      (target : Files) (rest : String → Exec W String) (w : W)
      → Clean w
      → ((root : String) (v : W)
          → g.worktree v ≡ ok root
          → view v ≡ level (view w).remote
          → Clean v
          → Published g c law (view w).remote target (rest root v))
      → Published g c law (view w).remote target (
          (fail_with (wrapped (literal "pull")) (pull_ctx g c) >>= λ u.
          fail_with (wrapped (literal "worktree")) (read g.worktree) >>= rest)
            w)
  after_pull target rest w clean next =
      fail_with_cases (Published g c law (view w).remote target) _ (pull_ctx g c w) _
        (λ u v done.
          let (even, still) = pull_ctx-level w v clean done in
          fail_with_cases (Published g c law (view w).remote target) _ (g.worktree v, v) _
            (λ root v' here.
              subst (λ t. Published g c law (view w).remote target (rest root t))
                (ap (λ o. o.1) here) (next root v (ap (λ o. o.0) here) even still))
            (λ x v' failed. ap (λ o. (view o.1).remote) (sym failed) ∙ ap (λ t. t.remote) even))
        (λ x v failed.
          lost g c law (pull_ctx g c) (view w).remote w v x (pull_ctx-remote w) failed refl)

  unchanged :
      (path values : String) (files : Files) (w : W)
      → view w ≡ level files
      → Clean w
      → files path ≡ some values
      → Published g c law files
          (put path (some values) files)
          (fail_with (wrapped (literal "resolve HEAD")) (read g.head) w)
  unchanged path values files w e clean there = elim (Result-cases (g.head w)) [
    | inl (hash, known) ↦
        rw known (e ∙ ap level (sym (put_present path (some values) files there)), clean)
    | inr (x, failed) ↦ rw failed (ap (λ t. t.remote) e)
  ]

  read_same :
      (root path values : String) (w : W) (r : Result GoError String)
      → IsLocal path
      → g.worktree w ≡ ok root
      → g.read_file (g.join (root ∷ path ∷ [])) w ≡ r
      → same_text r values ≡ true
      → (view w).working path ≡ some values
  read_same root path values w (ok current) local here read_as same =
      law.read_file-ok root path current w local here read_as
      ∙ ap some ((eq_iff current values).0 same)
  read_same root path values w (err e) local here read_as same = absurd cc

  sync_at-Published :
      (root path values message : String) (files : Files) (w : W)
      → IsLocal path
      → g.worktree w ≡ ok root
      → view w ≡ level files
      → Clean w
      → Published g c law files
          (put path (some values) files)
          (sync_at g c root path values message w)
  unfolding sync_at
  sync_at-Published root path values message files w local here e clean =
      elim (Bool-cases (same_text (g.read_file (g.join (root ∷ path ∷ [])) w) values)) [
        | inl same ↦ rw same (
            unchanged path values files w e clean (
              sym (ap (λ t. t.working path) e)
              ∙ read_same root path values w (g.read_file (g.join (root ∷ path ∷ [])) w) local here
                  refl same))
        | inr other ↦
            rw other (write_values-Published g c law root path values message files w local here e)
      ]

  stat_missing :
      (root path : String) (w : W) (r : Result GoError (Unit {0}))
      → IsLocal path
      → g.worktree w ≡ ok root
      → g.stat (g.join (root ∷ path ∷ [])) w ≡ r
      → is_missing g c r ≡ true
      → (view w).working path ≡ none
  stat_missing root path w (ok u) local here found missing = absurd cc
  stat_missing root path w (err e) local here found missing =
      law.stat-missing root path w e local here found missing

  delete_at-Published :
      (root path message : String) (files : Files) (w : W)
      → IsLocal path
      → g.worktree w ≡ ok root
      → view w ≡ level files
      → Clean w
      → Published g c law files (put path none files) (delete_at g c root path message w)
  unfolding delete_at
  delete_at-Published root path message files w local here e clean =
      elim (Bool-cases (is_missing g c (g.stat (g.join (root ∷ path ∷ [])) w))) [
        | inl missing ↦
            let nothing : files path ≡ none =
              sym (ap (λ t. t.working path) e)
              ∙ stat_missing root path w (g.stat (g.join (root ∷ path ∷ [])) w) local here refl
                  missing in
            rw missing (e ∙ ap level (sym (put_present path none files nothing)), clean)
        | inr there ↦ rw there (drop_file-Published g c law root path message files w local here e)
      ]

  -- A call of `SyncValues` or `DeleteValues` on a clean clone, for a path that stays in the
  -- repository, with git calls that change the files as `IsRepository` says: if it succeeds, the
  -- remote holds the same files but for the Capp's values file, which holds the given values or is
  -- gone, and the clone is level with the remote and clean; if it fails, wherever it fails, the
  -- remote is as it was.
  pub perform-Published :
      (o : Operation) (w : W)
      → IsWithin g c o
      → Clean w
      → Published g c law (view w).remote (meaning g c o (view w).remote) (perform g c o w)
  unfolding sync_values delete_values
  perform-Published (sync path namespace name values) w within clean =
      after_pull (put (build_rel_path g c path namespace name) (some values) (view w).remote) _ w
        clean
        (λ root v here even still.
          sync_at-Published root (build_rel_path g c path namespace name) values _ (view w).remote v
            within here even still)
  perform-Published (removal path namespace name) w within clean =
      after_pull (put (build_rel_path g c path namespace name) none (view w).remote) _ w clean
        (λ root v here even still.
          delete_at-Published root (build_rel_path g c path namespace name) _ (view w).remote v
            within here even still)

  -- How far a run has come.
  abbrev pub Ran : List Operation → Files → Result GoError (Unit {0}) × W → Type 0
  Ran all before (ok u, w) = ((view w).remote ≡ meanings g c all before) × Clean w
  Ran all before (err e, w) =
      (done : List Operation) × (rest : List Operation) × (all ≡ done ++ rest)
      × ((view w).remote ≡ meanings g c done before)

  Ran-cons :
      (o : Operation) (rest : List Operation) (before : Files) (x : Result GoError (Unit {0}) × W)
      → Ran rest (meaning g c o before) x
      → Ran (o ∷ rest) before x
  Ran-cons o rest before (ok u, w) h = h
  Ran-cons o rest before (err e, w) (done, left, whole, h) =
      (o ∷ done, left, ap (λ t. o ∷ t) whole, h)

  -- Calls one after the other, up to the first error, on a clone that is clean at first, for paths
  -- that stay in the repository, and with git calls that change the files as `IsRepository` says:
  -- the remote holds the files that the meanings of the calls that have succeeded give, in their
  -- order; without an error these are all calls.
  pub perform_all-Ran :
      (all : List Operation) (w : W)
      → All (IsWithin g c) all
      → Clean w
      → Ran all (view w).remote (perform_all g c all w)
  perform_all-Ran [] w within clean = (refl, clean)
  perform_all-Ran (o ∷ rest) w (local, within) clean =
      let files = (view w).remote in
      continue_cases (Ran (o ∷ rest) files) (perform g c o w) _
        (λ hash v done.
          let (even, still) =
            subst (Published g c law files (meaning g c o files)) done
              (perform-Published o w local clean) in
          Ran-cons o rest files (perform_all g c rest v) (
            subst (λ f. Ran rest f (perform_all g c rest v)) (ap (λ t. t.remote) even)
              (perform_all-Ran rest v within still)))
        (λ e v failed. (
          [],
          o ∷ rest,
          refl,
          subst (Published g c law files (meaning g c o files)) failed
              (perform-Published o w local clean),
        ))
