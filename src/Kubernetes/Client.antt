-- ===== src/Kubernetes/Client.antt =====
-- The Kubernetes client of sigs.k8s.io/controller-runtime, as the handlers use it: each operation is
-- an action on the world. Its reads leave the world as it is. A cluster is only changed by the calls
-- of one handler while it runs.
use capp_backend.Prelude.{
  String, ◌≡◌, Bool, true, false, ◌&&◌, ◌||◌, not, Option, List, Result, ok, err, ◌==◌, arith,
  eq_iff,
}
use capp_backend.ApiErrors.{GoError}
use capp_backend.Kubernetes.{Kit, Capp, Dependent}
use capp_backend.Kubernetes.Exec.{Exec}

-- Secrets and ConfigMaps.
pub data Kind : Type 0 where
  secret config_map : Kind

pub record Key : Type 0 where
  pub kind : Kind
  pub namespace : String
  pub name : String

abbrev same_kind : Kind → Kind → Bool
same_kind secret secret = true
same_kind config_map config_map = true
same_kind _ _ = false

abbrev pub same_key : Key → Key → Bool
same_key a b = same_kind a.kind b.kind && (a.namespace == b.namespace && a.name == b.name)

pub eq_of_same_key : (a b : Key) → same_key a b ≡ true → a ≡ b
eq_of_same_key a b h = ground (arith, eq_iff a.namespace b.namespace, eq_iff a.name b.name)

-- `get_namespace` reads a Namespace; `list_capps` lists the Capps of one namespace or of all;
-- `list_managed` lists the objects of a kind in a namespace that carry the label of this program;
-- `create_capp` and `update_capp` return the object as the server stored it; `patch_capp old new`
-- sends the merge patch from `old` to `new`.
pub record Client (k : Kit) (W : Type 0) : Type 0 where
  pub get_namespace : String → W → Result GoError (Unit {0})
  pub get_capp : String → String → W → Result GoError (Capp k)
  pub list_capps : Option String → W → Result GoError (List (Capp k))
  pub create_capp : Capp k → Exec W (Capp k)
  pub update_capp : Capp k → Exec W (Capp k)
  pub patch_capp : Capp k → Capp k → Exec W (Capp k)
  pub delete_capp : Capp k → Exec W (Unit {0})
  pub get_dependent : Key → W → Result GoError Dependent
  pub list_managed : Kind → String → W → Result GoError (List Dependent)
  pub create_dependent : Kind → Dependent → Exec W (Unit {0})
  pub delete_dependent : Key → Exec W (Unit {0})

abbrev pub key_of : Kind → Dependent → Key
key_of kind d = record { kind = kind; namespace = d.metadata.namespace; name = d.metadata.name }

-- What the rollback relies on: which objects exist in a world; a creation that succeeds adds one
-- object that was not there, one that fails adds nothing, and a deletion takes one object away. The
-- last says that the server refuses no deletion.
pub record IsReliable {k : Kit} {W : Type 0} (c : Client k W) : Type 0 where
  pub holds : W → Key → Bool
  pub create-ok :
      (kind : Kind) (d : Dependent) (w w' : W)
      → c.create_dependent kind d w ≡ (ok tt, w')
      → (holds w (key_of kind d) ≡ false)
        × ((j : Key) → holds w' j ≡ (same_key (key_of kind d) j || holds w j))
  pub create-err :
      (kind : Kind) (d : Dependent) (w w' : W) (e : GoError)
      → c.create_dependent kind d w ≡ (err e, w')
      → (j : Key) → holds w' j ≡ holds w j
  pub delete-holds :
      (i : Key) (w : W) (j : Key)
      → holds (c.delete_dependent i w).1 j ≡ (not (same_key i j) && holds w j)
