-- ===== src/Tests/RateLimit.antt =====
-- internal/middleware/ratelimit.go at a full store.
use capp_backend.Prelude.{
  ℕ, suc, zero, String, ◌≡◌, refl, true, false, none, some, [], ◌∷◌, ◌==◌, if◌then◌else◌, arith,
}
use capp_backend.Prelude.Assoc.{lookup}
use capp_backend.RateLimit.{Bucket, IpLimiterStore, next, too_many_requests, rate_limit}
use capp_backend.RateLimit.Bounds.{IsBounded, rate_limit-IsBounded}
use capp_backend.RateLimit.Buckets.{rate_limit-lookup, evicted, bucket_of, gone}

-- A bucket of tokens that are never refilled.
abbrev bucket : Bucket
bucket = record {
  Limiter = ℕ;
  new_limiter = 2;
  allow = λ now tokens. elim tokens [ zero ↦ (false, zero) | suc n ↦ (true, n) ];
}

abbrev full : IpLimiterStore bucket
full = record {
  limiters =
      ("10.0.0.1", record { limiter = 0; last_seen = 5 })
      ∷ ("10.0.0.2", record { limiter = 1; last_seen = 3 })
      ∷ [];
  max_entries = 2;
}

full-IsBounded : IsBounded full
unfolding lookup
full-IsBounded = record { within = omega arith; bare = refl; positive = omega arith }

rate_limit-IsBounded_example : IsBounded (rate_limit "10.0.0.3" 9 full).1
rate_limit-IsBounded_example = rate_limit-IsBounded "10.0.0.3" 9 full refl full-IsBounded

rate_limit-lookup_example :
    ((rate_limit "10.0.0.3" 9 full).0
      ≡ (if (bucket.allow 9 (bucket_of "10.0.0.3" full)).0 then next else too_many_requests))
    × ((j : String)
        → lookup j (rate_limit "10.0.0.3" 9 full).1.limiters ≡ (
            if "10.0.0.3" == j
            then some
                (record { limiter = (bucket.allow 9 (bucket_of "10.0.0.3" full)).1; last_seen = 9 })
            else if gone (evicted "10.0.0.3" full) j
            then none
            else lookup j full.limiters))
rate_limit-lookup_example = rate_limit-lookup "10.0.0.3" 9 full
