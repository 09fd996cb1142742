-- ===== src/Auth/Cache.antt =====
-- internal/auth/openshift.go: the token cache under concurrent requests. Requests and the cleanup
-- act on the cache in steps of their own, in any order: between the lookup of a request, its deletion
-- of an old entry, and the store of its review, others may act.
use mathlib.Core.List.{Mem, mem-cons_of_mem, mem-cons_self}
use capp_backend.Prelude.{
  ℕ, ◌+◌, ◌<◌, ◌≡◌, refl, sym, ap, ◌∙◌, ◌⊎◌, inl, inr, String, Bool, true, false, Option, none,
  some, List, [], ◌∷◌, subst, Result, ok, err, All, ltb, arith, Bool-cases, Result-cases,
  if◌then◌else◌,
}
use capp_backend.Prelude.Assoc.{lookup, delete, All-insert, All-delete, All-lookup}
use capp_backend.ApiErrors.{GoError}
use capp_backend.Clusters.{ClusterCredential}
use capp_backend.Auth.Types.{CachedIdentity, TokenCache}
use capp_backend.Auth.Bearer.{bearer_token}
use capp_backend.Auth.OpenShift.{
  Reviewer, ReviewStatus, Cached, hit, corrupt, miss, use_entry, check_cache, accept, evict_expired,
  impersonating, after_review, answer_from, authenticate,
}

-- A TokenReview that was answered, and when its answer was dealt with.
pub record Review : Type 0 where
  pub token : String
  pub status : ReviewStatus
  pub at : ℕ

-- The cache, the reviews so far, and the time.
pub record Session : Type 0 where
  pub cache : TokenCache
  pub reviews : List Review
  pub now : ℕ

abbrev pub identity_of : ℕ → Review → CachedIdentity
identity_of ttl v = record {
  username = v.status.username;
  groups = v.status.groups;
  expires_at = v.at + ttl;
}

err≢ok :
    {S : Type 0} {e : GoError} {cred : ClusterCredential} {x y : S}
    → ◌≡◌ {A = Result GoError ClusterCredential × S} (err e, x) (ok cred, y)
    → ⊥
err≢ok h = absurd cc

ok_cred :
    {a cred : ClusterCredential} {x y : TokenCache}
    → ◌≡◌ {A = Result GoError ClusterCredential × TokenCache} (ok a, x) (ok cred, y)
    → cred ≡ a
ok_cred h = cc

hit_of_test :
    (b : Bool) (cred cred' : ClusterCredential) (cache rest after : TokenCache)
    → ◌≡◌ {A = Cached × TokenCache}
        (if b then (hit cred, cache) else (miss, rest))
        (hit cred', after)
    → (b ≡ true) × (cred' ≡ cred)
hit_of_test true cred cred' cache rest after h = (refl, cc)
hit_of_test false cred cred' cache rest after h = absurd cc

module _ (sha : String → String) (ttl : ℕ) where
  -- Time passes; a request looks its token up, and deletes what it has found at once or later; a
  -- request deals with the answer to its review, whatever it says; the cleanup makes a round.
  pub data Step : Session → Session → Type 0 where
    waits : (s : Session) (later : ℕ) → Step s (record s { now = s.now + later })
    looks_up :
        (s : Session) (token : String)
        → Step s (record s { cache = (check_cache (sha token) s.now s.cache).1 })
    deletes :
        (s : Session) (token : String) → Step s (record s { cache = delete (sha token) s.cache })
    deals :
        (s : Session) (v : Review)
        → v.at ≡ s.now
        → Step s (record s {
          cache = (accept (sha v.token) ttl s.now v.status s.cache).1;
          reviews = v ∷ s.reviews;
        })
    cleans : (s : Session) → Step s (record s { cache = evict_expired s.now s.cache })

  pub data Steps : Session → Session → Type 0 where
    stays : (s : Session) → Steps s s
    steps : {s t u : Session} → Steps s t → Step t u → Steps s u

  -- An entry that a review stands behind.
  abbrev pub Backed : List Review → String × Option CachedIdentity → Type 0
  Backed reviews (key, o) =
      (v : Review) × Mem v reviews
      × (v.status.authenticated ≡ true)
      × (sha v.token ≡ key)
      × (o ≡ some (identity_of ttl v))

  -- Reviews are only added.
  Backed-cons :
      (v : Review) (reviews : List Review) (entries : TokenCache)
      → All (Backed reviews) entries
      → All (Backed (v ∷ reviews)) entries
  Backed-cons v reviews [] h = tt
  Backed-cons v reviews ((key, o) ∷ entries) ((u, m, said_yes, same, held), h) =
      ((u, mem-cons_of_mem v m, said_yes, same, held), Backed-cons v reviews entries h)

  evict_expired-Backed :
      (reviews : List Review) (now : ℕ) (entries : TokenCache)
      → All (Backed reviews) entries
      → All (Backed reviews) (evict_expired now entries)
  unfolding evict_expired
  evict_expired-Backed reviews now [] h = tt
  evict_expired-Backed reviews now ((key, none) ∷ entries) (p, h) =
      (p, evict_expired-Backed reviews now entries h)
  evict_expired-Backed reviews now ((key, some c) ∷ entries) (p, h) =
      elim (Bool-cases (ltb c.expires_at now)) [
        | inl past ↦ rw past (evict_expired-Backed reviews now entries h)
        | inr live ↦ rw live (p, evict_expired-Backed reviews now entries h)
      ]

  use_entry-Backed :
      (reviews : List Review) (key : String) (o : Option (Option CachedIdentity)) (now : ℕ)
      (cache : TokenCache)
      → All (Backed reviews) cache
      → All (Backed reviews) (use_entry key o now cache).1
  unfolding use_entry
  use_entry-Backed reviews key none now cache h = h
  use_entry-Backed reviews key (some none) now cache h = All-delete (Backed reviews) key cache h
  use_entry-Backed reviews key (some (some c)) now cache h =
      elim (Bool-cases (ltb now c.expires_at)) [
        | inl live ↦ rw live h
        | inr past ↦ rw past (All-delete (Backed reviews) key cache h)
      ]

  -- What a review adds to the cache is an entry for an answer that says yes.
  accept-All :
      (P : String × Option CachedIdentity → Type 0) (key : String) (now : ℕ) (status : ReviewStatus)
      (cache : TokenCache)
      → (status.authenticated ≡ true
          → P (
            key,
            some (record {
              username = status.username;
              groups = status.groups;
              expires_at = now + ttl;
            }),
          ))
      → All P cache
      → All P (accept key ttl now status cache).1
  unfolding accept
  accept-All P key now status cache stored h = elim (Bool-cases status.authenticated) [
    | inl said_yes ↦ rw said_yes (All-insert P key _ cache (stored said_yes) h)
    | inr said_no ↦ rw said_no h
  ]

  Step-Backed :
      {s t : Session} → Step s t → All (Backed s.reviews) s.cache → All (Backed t.reviews) t.cache
  unfolding check_cache
  Step-Backed (waits s later) h = h
  Step-Backed (looks_up s token) h =
      use_entry-Backed s.reviews (sha token) (lookup (sha token) s.cache) s.now s.cache h
  Step-Backed (deletes s token) h = All-delete (Backed s.reviews) (sha token) s.cache h
  Step-Backed (deals s v same) h =
      accept-All (Backed (v ∷ s.reviews)) (sha v.token) s.now v.status s.cache
        (λ said_yes. (
          v,
          mem-cons_self,
          said_yes,
          refl,
          ap (λ t. some (record (identity_of ttl v) { expires_at = t + ttl })) (sym same),
        ))
        (Backed-cons v s.reviews s.cache h)
  Step-Backed (cleans s) h = evict_expired-Backed s.reviews s.now s.cache h

  Steps-Backed :
      {s t : Session} → Steps s t → All (Backed s.reviews) s.cache → All (Backed t.reviews) t.cache
  Steps-Backed (stays s) h = h
  Steps-Backed (steps before last) h = Step-Backed last (Steps-Backed before h)

  -- What a hit tells: a review of a token with this hash, which is not older than the lifetime.
  abbrev pub Vouched : List Review → String → ℕ → ClusterCredential → Type 0
  Vouched reviews token now cred =
      (v : Review) × Mem v reviews
      × (v.status.authenticated ≡ true)
      × (sha v.token ≡ sha token)
      × (cred ≡ impersonating v.status.username v.status.groups)
      × (now < v.at + ttl)

  entry-Vouched :
      (reviews : List Review) (token : String) (now : ℕ) (cache after : TokenCache)
      (cred : ClusterCredential) (o : Option (Option CachedIdentity))
      → ((e : Option CachedIdentity) → o ≡ some e → Backed reviews (sha token, e))
      → use_entry (sha token) o now cache ≡ (hit cred, after)
      → Vouched reviews token now cred
  unfolding use_entry
  entry-Vouched reviews token now cache after cred none b h = absurd (ground arith)
  entry-Vouched reviews token now cache after cred (some none) b h = absurd (ground arith)
  entry-Vouched reviews token now cache after cred (some (some c)) b h =
      let (v, m, said_yes, same, held) = b (some c) refl in
      let whole : c ≡ identity_of ttl v = cc in
      let (live, told) = hit_of_test (ltb now c.expires_at) _ _ _ _ _ h in
      (
        v,
        m,
        said_yes,
        same,
        told ∙ ap (λ i. impersonating i.username i.groups) whole,
        subst (λ i. now < i.expires_at) whole (ground arith),
      )

module _ {W : Type 0} (r : Reviewer W) (ttl : ℕ) where
  -- A credential that comes from a review of this request.
  abbrev pub Reviewed : String → W → ClusterCredential → W → Type 0
  Reviewed token w cred w' =
      (status : ReviewStatus) × (r.review token w ≡ (ok status, w'))
      × (status.authenticated ≡ true)
      × (cred ≡ impersonating status.username status.groups)

  accept-ok :
      (key : String) (now : ℕ) (status : ReviewStatus) (k cache : TokenCache)
      (cred : ClusterCredential)
      → accept key ttl now status k ≡ (ok cred, cache)
      → (status.authenticated ≡ true) × (cred ≡ impersonating status.username status.groups)
  unfolding accept
  accept-ok key now status k cache cred h = elim (Bool-cases status.authenticated) [
    | inl said_yes ↦ (said_yes, ok_cred (rw said_yes at h))
    | inr said_no ↦ absurd (err≢ok (rw said_no at h))
  ]

  after_review-ok :
      (token : String) (k cache : TokenCache) (x : Result GoError ReviewStatus × W)
      (cred : ClusterCredential) (w' : W)
      → after_review r ttl token k x ≡ (ok cred, (cache, w'))
      → (status : ReviewStatus) × (x ≡ (ok status, w'))
        × (status.authenticated ≡ true)
        × (cred ≡ impersonating status.username status.groups)
  unfolding after_review
  after_review-ok token k cache (err e, w) cred w' h = absurd cc
  after_review-ok token k cache (ok status, w) cred w' h =
      let (said_yes, told) =
        accept-ok (r.sha256_sum token) (r.now w) status k cache cred (ap (λ t. (t.0, t.1.0)) h) in
      (status, ap (λ t. (ok status, t.1.1)) h, said_yes, told)

  answer_from-ok :
      (token : String) (x : Cached × TokenCache) (w w' : W) (cache : TokenCache)
      (cred : ClusterCredential)
      → answer_from r ttl token x w ≡ (ok cred, (cache, w'))
      → (x ≡ (hit cred, cache)) ⊎ Reviewed token w cred w'
  unfolding answer_from
  answer_from-ok token (hit c, k) w w' cache cred h = inl cc
  answer_from-ok token (corrupt, k) w w' cache cred h = absurd cc
  answer_from-ok token (miss, k) w w' cache cred h =
      inr (after_review-ok token k cache (r.review token w) cred w' h)

  hit-Vouched :
      (s : Session) (token : String) (cache : TokenCache) (cred : ClusterCredential)
      → All (Backed r.sha256_sum ttl s.reviews) s.cache
      → check_cache (r.sha256_sum token) s.now s.cache ≡ (hit cred, cache)
      → Vouched r.sha256_sum ttl s.reviews token s.now cred
  unfolding check_cache
  hit-Vouched s token cache cred backed h =
      entry-Vouched r.sha256_sum ttl s.reviews token s.now s.cache cache cred
        (lookup (r.sha256_sum token) s.cache)
        (λ e found.
          All-lookup (Backed r.sha256_sum ttl s.reviews) (r.sha256_sum token) s.cache backed found)
        h

  -- Whatever requests and cleanups have run, in whatever order their steps on the cache came, and
  -- whatever the reviews have answered, since the program started with an empty cache: a credential
  -- with which `Authenticate` answers is the identity of a TokenReview that said yes, either the
  -- one that this request has just made for its token, or an earlier one of a token with the same
  -- SHA-256, whose answer came less than the lifetime ago.
  pub authenticate-Vouched :
      (header : String) (w w' : W) (from s : Session) (cache : TokenCache)
      (cred : ClusterCredential)
      → from.cache ≡ []
      → Steps r.sha256_sum ttl from s
      → r.now w ≡ s.now
      → authenticate r ttl header (s.cache, w) ≡ (ok cred, (cache, w'))
      → (token : String) × (bearer_token header ≡ ok token)
        × (Vouched r.sha256_sum ttl s.reviews token s.now cred ⊎ Reviewed token w cred w')
  unfolding authenticate
  authenticate-Vouched header w w' from s cache cred empty before clock done =
      elim (Result-cases (bearer_token header)) [
        | inr (e, refused) ↦ absurd (err≢ok (rw (refused, authenticate) at done))
        | inl (token, given) ↦
            let answered : answer_from r ttl token (check_cache (r.sha256_sum token) s.now s.cache)
                  w
                ≡ (ok cred, (cache, w')) =
              rw (given, clock, authenticate) at done in
            let backed =
              Steps-Backed r.sha256_sum ttl before
                (subst (λ c. All (Backed r.sha256_sum ttl from.reviews) c) (sym empty) tt) in
            elim (answer_from-ok token _ w w' cache cred answered) [
              | inl found ↦ (token, given, inl (hit-Vouched s token cache cred backed found))
              | inr fresh ↦ (token, given, inr fresh)
            ]
      ]
