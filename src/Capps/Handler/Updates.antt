-- ===== src/Capps/Handler/Updates.antt =====
-- internal/resources/namespaced/capps/handler.go: what `update` writes and answers.
use capp_backend.Prelude.{
  String, subst, ◌≡◌, refl, Option, some, List, ap, ok-injective, Result, ok, map_err,
  map_err-eq-ok,
}
use capp_backend.ApiErrors.{GoError}
use capp_backend.Kubernetes.{Kit, Capp}
use capp_backend.Kubernetes.Client.{Client}
use capp_backend.Kubernetes.Exec.{continue-eq-ok, lift-eq-ok, pure-eq-ok}
use capp_backend.Clusters.{ClusterMeta}
use capp_backend.Clusters.Middleware.{Slot, absent, mistyped, holding}
use capp_backend.Capps.Types.{CappRequest, Warning}
use capp_backend.Capps.ToK8s.{to_k8s}
use capp_backend.Capps.FromK8s.{from_k8s}
use capp_backend.Capps.RoundTrip.{to_k8s-Keeps}
use capp_backend.Capps.Handler.{
  Libraries, GitOpsSyncer, Handler, RequestContext, Reply, reply, capp_body, extract_client,
  bind_json, find_capp, bad_request_of, backup_of, back_up, with_name, update,
}

-- The client of a request is the one in its slot.
pub extract_client-ok :
    {k : Kit} {W : Type 0} (slot : Slot (Client k W)) (c : Client k W)
    → extract_client slot ≡ ok c
    → slot ≡ holding c
unfolding extract_client
extract_client-ok absent c e = absurd cc
extract_client-ok mistyped c e = absurd cc
extract_client-ok (holding d) c e = ap holding (ok-injective e)

module _ {k : Kit} {W : Type 0} (l : Libraries k) (h : Handler W) (rc : RequestContext k W)
    (namespace name : String) (body : Result GoError CappRequest) where
  -- What a successful update has done, with the client of the request: it read the Capp of the URL,
  -- converted the request onto it and sent one object with the metadata of the one read, under the
  -- name and the namespace of the URL; then, and only then, it backed up what the server had
  -- stored, and it answers with that, with the warnings of the backup.
  pub record Updated (start : W) (response : Reply) (w : W) : Type 0 where
    pub client : Client k W
    pub req : CappRequest
    pub existing : Capp k
    pub sent : Capp k
    pub stored : Capp k
    pub written : W
    pub backup : Option (GitOpsSyncer W × ClusterMeta)
    pub warnings : List Warning
    pub from_request : rc.client ≡ holding client
    pub decoded : body ≡ ok req
    pub read_first : client.get_capp namespace name start ≡ ok existing
    pub metadata : sent.metadata ≡ record existing.metadata { name = name; namespace = namespace }
    pub sent_once : client.update_capp sent start ≡ (ok stored, written)
    pub backup_known : backup_of l h rc existing ≡ ok backup
    pub backed_up : back_up l backup stored written ≡ (ok warnings, w)
    pub told :
        response
        ≡ reply 200 (capp_body (record (from_k8s k stored h.sizes) { warnings = warnings }))

  -- An update that answers with success has, with the client of the request, read the Capp of the
  -- URL, sent the API server one object, with the metadata just read (so with its resource version,
  -- its labels and its UID) and the name and namespace of the URL, whatever name the body gives,
  -- and only then made the Git backup, whose warnings the answer carries.
  pub update-Updated :
      (start w : W) (response : Reply)
      → update l h rc namespace name body start ≡ (ok response, w)
      → Updated start response w
  unfolding update bind_json find_capp
  update-Updated start w response done =
      let (client, given, done1) = lift-eq-ok (extract_client rc.client) start _ done in
      let (req, bound, done2) = lift-eq-ok (bind_json l body) start _ done1 in
      let (existing, found, done3) =
        lift-eq-ok (find_capp l client namespace name start) start _ done2 in
      let (updated, made, done4) =
        lift-eq-ok (map_err (bad_request_of l) (to_k8s k req (some existing) namespace h.sizes))
          start _ done3 in
      let (backup, known, done5) = lift-eq-ok (backup_of l h rc existing) start _ done4 in
      let (stored, w1, sent, done6) =
        continue-eq-ok (client.update_capp (with_name name updated) start) _ done5 in
      let (warnings, w2, backed, done7) = continue-eq-ok (back_up l backup stored w1) _ done6 in
      let (same, told) = pure-eq-ok done7 in
      let (kept, _) =
        to_k8s-Keeps k req existing updated namespace h.sizes (map_err-eq-ok _ _ made) in
      record {
        client = client;
        req = req;
        existing = existing;
        sent = with_name name updated;
        stored = stored;
        written = w1;
        backup = backup;
        warnings = warnings;
        from_request = extract_client-ok rc.client client given;
        decoded = map_err-eq-ok _ body bound;
        read_first = map_err-eq-ok _ _ found;
        metadata = rw (kept.metadata) refl;
        sent_once = sent;
        backup_known = known;
        backed_up = subst (λ v. back_up l backup stored w1 ≡ (ok warnings, v)) same backed;
        told = told;
      }
