-- ===== src/RateLimit/Buckets.antt =====
-- internal/middleware/ratelimit.go: the clients' buckets are independent.
use capp_backend.Prelude.{
  ◌∙◌, ℕ, String, ◌≡◌, Bool, false, ◌&&◌, not, Option, none, some, ◌==◌, eq_refl, leb,
  if◌then◌else◌, length, arith, is_some, Option-cases, Bool-cases, inl, inr, refl,
}
use capp_backend.Prelude.Assoc.{Assoc, lookup, insert, delete, lookup-insert, lookup-delete}
use capp_backend.RateLimit.{
  Bucket, IpEntry, IpLimiterStore, next, too_many_requests, oldest, evict_oldest, get, spend,
  rate_limit,
}

-- The address whose bucket a request makes room with, or none.
unfoldable pub evicted : {b : Bucket} → String → IpLimiterStore b → Option String
evicted ip s =
    if not (is_some (lookup ip s.limiters)) && leb s.max_entries (length s.limiters)
    then (if oldest s.limiters "" 0 == "" then none else some (oldest s.limiters "" 0))
    else none

-- The bucket that a request draws from: the client's own, or a new one.
unfoldable pub bucket_of : {b : Bucket} → String → IpLimiterStore b → b.Limiter
bucket_of {b} ip s = elim (lookup ip s.limiters) [ some e ↦ e.limiter | none ↦ b.new_limiter ]

abbrev pub gone : Option String → String → Bool
gone none j = false
gone (some i) j = i == j

module _ {b : Bucket} (ip : String) (now : ℕ) (s : IpLimiterStore b) where
  -- The bucket that `get` has just stored is the one that is spent from.
  spend-insert :
      (l : b.Limiter) (e : IpEntry b) (t : IpLimiterStore b) (m : Assoc (IpEntry b))
      → ((spend ip now l (record t { limiters = insert ip e m })).0 ≡ (b.allow now l).0)
        × ((j : String)
            → lookup j (spend ip now l (record t { limiters = insert ip e m })).1.limiters
              ≡ (if ip == j then some (record e { limiter = (b.allow now l).1 }) else lookup j m))
  unfolding spend
  spend-insert l e t m =
      let there = lookup-insert ip ip e m in
      rw (there, spend, eq_refl ip)
        (
          refl,
          λ j.
              lookup-insert ip j (record e { limiter = (b.allow now l).1 }) (insert ip e m)
              ∙ ground (arith, lookup-insert ip j e m),
        )

  -- A request is answered by the client's own bucket and leaves the bucket so drawn from, with this
  -- instant as the last; every other client's entry is the one that it had, but for the one that is
  -- evicted, and one is evicted only for a client that is new to a full store.
  pub rate_limit-lookup :
      ((rate_limit ip now s).0
        ≡ (if (b.allow now (bucket_of ip s)).0 then next else too_many_requests))
      × ((j : String)
          → lookup j (rate_limit ip now s).1.limiters ≡ (
              if ip == j
              then some (record { limiter = (b.allow now (bucket_of ip s)).1; last_seen = now })
              else if gone (evicted ip s) j
              then none
              else lookup j s.limiters))
  unfolding rate_limit get spend evict_oldest evicted bucket_of
  rate_limit-lookup = elim (Option-cases (lookup ip s.limiters)) [
    | inr (e, known) ↦
        let (a, c) = spend-insert e.limiter (record e { last_seen = now }) s s.limiters in
        rw (known, get, bucket_of, evicted) (rw a refl, λ j. c j)
    | inl unknown ↦ elim (Bool-cases (leb s.max_entries (length s.limiters))) [
      | inr room ↦
          let (a, c) =
            spend-insert b.new_limiter (record { limiter = b.new_limiter; last_seen = now }) s
              s.limiters in
          rw (unknown, room, get, bucket_of, evicted) (rw a refl, λ j. c j)
      | inl full ↦ elim (Bool-cases (oldest s.limiters "" 0 == "")) [
        | inl nobody ↦
            let (a, c) =
              spend-insert b.new_limiter (record { limiter = b.new_limiter; last_seen = now }) s
                s.limiters in
            rw (unknown, full, nobody, get, bucket_of, evicted, evict_oldest) (rw a refl, λ j. c j)
        | inr named ↦
            let (a, c) =
              spend-insert b.new_limiter (record { limiter = b.new_limiter; last_seen = now }) s
                (delete (oldest s.limiters "" 0) s.limiters) in
            rw (unknown, full, named, get, bucket_of, evicted, evict_oldest)
              (rw a refl, λ j. c j ∙ rw (lookup-delete (oldest s.limiters "" 0) j s.limiters) refl)
      ]
    ]
  ]
