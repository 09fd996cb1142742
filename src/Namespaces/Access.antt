-- ===== src/Namespaces/Access.antt =====
-- internal/resources/cluster/namespaces/handler.go: no route changes anything for a caller who may
-- not.
use capp_backend.Prelude.{
  String, [], ◌∷◌, ◌≡◌, refl, Bool, true, false, Option, none, some, Result, ok, err,
}
use capp_backend.ApiErrors.{GoError, Message, api, new_forbidden, literal, sprintf}
use capp_backend.Kubernetes.{Kit}
use capp_backend.Kubernetes.Exec.{Exec}
use capp_backend.Namespaces.Types.{
  Client, Libraries, RequestContext, Attributes, Reply, CreateNamespaceRequest,
  UpdateNamespaceRequest, PatchNamespaceRequest,
}
use capp_backend.Namespaces.Reading.{
  must_get, require, capps_in, all_namespaces, can_create_capps, can_access_namespaces,
}
use capp_backend.Namespaces.Handler.{create, update, patch, delete}

pub must_get-eq-ok {ℓ} :
    {A : Type ℓ} (key : String) (o : Option A) {a : A} → must_get key o ≡ ok a → o ≡ some a
unfolding must_get
must_get-eq-ok key none h = absurd cc
must_get-eq-ok key (some b) h = cc

module _ {W : Type 0} where
  -- A check that does not say yes ends in the refusal.
  abbrev pub SaysNo : Result GoError Bool × W → Type 0
  SaysNo (ok b, w) = b ≡ false
  SaysNo (err e, w) = Unit

  require-no :
      (x : Result GoError Bool × W) (m : Message)
      → SaysNo x
      → require (λ w. x) m x.1 ≡ (err (api (new_forbidden m)), x.1)
  unfolding require
  require-no (ok b, w) m denied = rw denied refl
  require-no (err e, w) m denied = refl

  require-yes :
      (x : Result GoError Bool × W) (m : Message) {u : Unit {0}} {w : W}
      → require (λ v. x) m x.1 ≡ (ok u, w)
      → x ≡ (ok true, w)
  unfolding require
  require-yes (ok true, v) m h = cc
  require-yes (ok false, v) m h = absurd cc
  require-yes (err e, v) m h = absurd cc

  -- A check that was passed said yes.
  pub require-eq-ok :
      (check : Exec W Bool) (m : Message) (w : W) {u : Unit {0}} {v : W}
      → require check m w ≡ (ok u, v)
      → check w ≡ (ok true, v)
  unfolding require
  require-eq-ok check m w h = require-yes (check w) m h

  pub require-refuses :
      (check : Exec W Bool) (m : Message) (w : W)
      → SaysNo (check w)
      → require check m w ≡ (err (api (new_forbidden m)), (check w).1)
  unfolding require
  require-refuses check m w denied = require-no (check w) m denied

module _ {k : Kit} {W : Type 0} (l : Libraries) (rc : RequestContext k W) (user : Client k W)
    (held : rc.client ≡ some user) (w : W) where
  -- The answer forbidden, with this message, in the world that the review has left.
  abbrev pub Forbidden : Result GoError Reply × W → Attributes → Message → Type 0
  Forbidden x a m = x ≡ (err (api (new_forbidden m)), (user.review a w).1)

  -- Where the request has a client and the review of its caller does not say yes, whether it says
  -- no or fails, POST, PUT, PATCH and DELETE answer forbidden, and do nothing after the review,
  -- whatever the request asks: POST and PUT where the caller may not create namespaces, PATCH where
  -- the caller may not create Capps in the namespace, DELETE where the caller may not delete
  -- namespaces.
  pub routes-Forbidden :
      (name : String) (created : Result GoError CreateNamespaceRequest)
      (updated : Result GoError UpdateNamespaceRequest)
      (patched : Result GoError PatchNamespaceRequest)
      → (SaysNo (user.review (all_namespaces "create") w)
          → Forbidden
              (create l rc created w)
              (all_namespaces "create")
              (literal "not allowed to create namespaces")
            × Forbidden
                (update l rc name updated w)
                (all_namespaces "create")
                (literal "not allowed to update namespaces"))
        × (SaysNo (user.review (capps_in name) w)
            → Forbidden
                (patch l rc name patched w)
                (capps_in name)
                (sprintf "not allowed to patch namespace %s" (name ∷ [])))
        × (SaysNo (user.review (all_namespaces "delete") w)
            → Forbidden
                (delete l rc name w)
                (all_namespaces "delete")
                (literal "not allowed to delete namespaces"))
  unfolding create update patch delete must_get can_create_capps can_access_namespaces
  routes-Forbidden name created updated patched = (
    λ denied. (
      rw
          (
            held,
            require-refuses (user.review (all_namespaces "create"))
                (literal "not allowed to create namespaces") w denied,
          )
          refl,
      rw
          (
            held,
            require-refuses (user.review (all_namespaces "create"))
                (literal "not allowed to update namespaces") w denied,
          )
          refl,
    ),
    λ denied.
        rw
          (
            held,
            require-refuses (user.review (capps_in name))
                (sprintf "not allowed to patch namespace %s" (name ∷ [])) w denied,
          )
          refl,
    λ denied.
        rw
          (
            held,
            require-refuses (user.review (all_namespaces "delete"))
                (literal "not allowed to delete namespaces") w denied,
          )
          refl,
  )
