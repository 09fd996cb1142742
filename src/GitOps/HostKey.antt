-- ===== src/GitOps/HostKey.antt =====
-- internal/gitops/client.go: the errors for which `wrapSSHError` gives a hint.
use Prim.Native.String.{[], ◌∷◌}
use capp_backend.Prelude.{String, Bool, ◌||◌, is_some}
use capp_backend.ApiErrors.Messages.{after}

-- `strings.Contains`
unfoldable pub contains_text : String → String → Bool
unfolding after
contains_text part [] = is_some (after part [])
contains_text part (c ∷ s) = is_some (after part (c ∷ s)) || contains_text part s

abbrev pub hint : String
hint =
    "(hint: set gitops.insecureHostKey=true or mount a known_hosts file; this typically happens in containers that lack an SSH known_hosts file)"

unfoldable pub tells_of_host_key : String → Bool
unfolding contains_text
tells_of_host_key msg =
    contains_text "known_hosts" msg
    || (contains_text "knownhosts" msg
        || (contains_text "host key" msg || contains_text "key is unknown" msg))
