-- ===== src/RateLimit.antt =====
-- internal/middleware/ratelimit.go: a token bucket for each client address, in a bounded store.
-- The bucket is golang.org/x/time/rate's and a parameter: `new_limiter` is `rate.NewLimiter` at the
-- configured rate and burst, and `allow` is `Allow` at an instant, with the bucket after it. The
-- store keeps each bucket by value, since nothing else holds it once a request is answered. Instants
-- are natural numbers. `max_entries` is positive in every configuration that validation accepts. The
-- order in which Go's `range` visits a map is that of the association list, which the theorems leave
-- open.
pub mod Bounds
pub mod Buckets
use capp_backend.Prelude.{
  ℕ, String, Bool, true, false, Option, none, some, [], ◌∷◌, ◌==◌, ◌||◌, not, ltb, leb,
  if◌then◌else◌, length,
}
use capp_backend.Prelude.Assoc.{Assoc, lookup, insert, delete}

pub record Bucket : Type 1 where
  pub Limiter : Type 0
  pub new_limiter : Limiter
  pub allow : ℕ → Limiter → Bool × Limiter

pub record IpEntry (b : Bucket) : Type 0 where
  pub limiter : b.Limiter
  pub last_seen : ℕ

pub record IpLimiterStore (b : Bucket) : Type 0 where
  pub limiters : Assoc (IpEntry b)
  pub max_entries : ℕ

-- What the middleware does with a request.
pub data Answer : Type 0 where
  next too_many_requests : Answer

module _ {b : Bucket} where
  unfoldable pub new_ip_limiter_store : ℕ → IpLimiterStore b
  new_ip_limiter_store max_entries = record { limiters = []; max_entries = max_entries }

  -- The loop of `evictOldest`, with `oldestIP` and `oldestTime`.
  unfoldable pub oldest : Assoc (IpEntry b) → String → ℕ → String
  oldest [] oldest_ip oldest_time = oldest_ip
  oldest ((ip, entry) ∷ rest) oldest_ip oldest_time =
      let earlier = oldest_ip == "" || ltb entry.last_seen oldest_time in
      oldest rest (if earlier then ip else oldest_ip)
        (if earlier then entry.last_seen else oldest_time)

  unfoldable pub evict_oldest : IpLimiterStore b → IpLimiterStore b
  unfolding oldest delete
  evict_oldest s =
      let oldest_ip = oldest s.limiters "" 0 in
      if not (oldest_ip == "") then record s { limiters = delete oldest_ip s.limiters } else s

  -- The bucket for an address, at the instant `now`.
  unfoldable pub get : String → ℕ → IpLimiterStore b → b.Limiter × IpLimiterStore b
  unfolding evict_oldest lookup insert
  get ip now s = elim (lookup ip s.limiters) [
    | some entry ↦ (
      entry.limiter,
      record s { limiters = insert ip (record entry { last_seen = now }) s.limiters },
    )
    | none ↦
        let roomy = if leb s.max_entries (length s.limiters) then evict_oldest s else s in
        (
          b.new_limiter,
          record roomy {
            limiters =
                insert ip (record { limiter = b.new_limiter; last_seen = now }) roomy.limiters;
          },
        )
  ]

  -- `limiter.Allow()` on the bucket that the store holds for the address.
  unfoldable pub spend : String → ℕ → b.Limiter → IpLimiterStore b → Bool × IpLimiterStore b
  unfolding insert lookup
  spend ip now l s =
      let r = b.allow now l in
      elim (lookup ip s.limiters) [
        | none ↦ (r.0, s)
        | some entry ↦
            (r.0, record s { limiters = insert ip (record entry { limiter = r.1 }) s.limiters })
      ]

  unfoldable pub rate_limit : String → ℕ → IpLimiterStore b → Answer × IpLimiterStore b
  unfolding get spend
  rate_limit ip now s =
      let got = get ip now s in
      let spent = spend ip now got.0 got.1 in (if spent.0 then next else too_many_requests, spent.1)
