-- ===== src/RateLimit/Bounds.antt =====
-- internal/middleware/ratelimit.go: the store stays within its bound.
use capp_backend.Prelude.{
  ℕ, suc, ◌≤◌, inl, inr, String, ◌≡◌, refl, true, false, ◌||◌, none, [], ◌∷◌, ◌==◌, eq_iff, eq_refl,
  ltb, leb, if◌then◌else◌, length, arith, is_some, Option-cases, Bool-cases,
}
use capp_backend.Prelude.Assoc.{Assoc, lookup, insert, delete, lookup-insert, lookup-delete}
use capp_backend.RateLimit.{
  Bucket, IpEntry, IpLimiterStore, new_ip_limiter_store, oldest, evict_oldest, get, spend,
  rate_limit,
}

module _ {V : Type 0} where
  length-insert :
      (k : String) (v : V) (m : Assoc V)
      → length (insert k v m) ≡ (if is_some (lookup k m) then length m else suc (length m))
  unfolding insert lookup
  length-insert k v [] = refl
  length-insert k v ((j, w) ∷ m) = ground (arith, length-insert k v m)

  length-delete-le : (k : String) (m : Assoc V) → length (delete k m) ≤ length m
  unfolding delete
  length-delete-le k [] = omega arith
  length-delete-le k ((j, w) ∷ m) = ground (arith, length-delete-le k m)

  length-delete :
      (k : String) (m : Assoc V)
      → is_some (lookup k m) ≡ true
      → suc (length (delete k m)) ≤ length m
  unfolding delete lookup
  length-delete k [] h = cc
  length-delete k ((j, w) ∷ m) h = ground (arith, length-delete k m, length-delete-le k m)

module _ {b : Bucket} where
  -- The loop ends with the address that it has, or with one of the map.
  oldest-lookup :
      (m : Assoc (IpEntry b)) (ip : String) (time : ℕ)
      → (ip == "") ≡ false
      → lookup "" m ≡ none
      → (oldest m ip time == ip || is_some (lookup (oldest m ip time) m)) ≡ true
  unfolding oldest lookup
  oldest-lookup [] ip time named bare = ground (arith, eq_refl ip)
  oldest-lookup ((j, e) ∷ m) ip time named bare = elim (Bool-cases (ltb e.last_seen time)) [
    | inl h ↦ ground (
      arith,
      oldest-lookup m j e.last_seen,
      eq_iff j (oldest m j e.last_seen),
      eq_iff (oldest m j e.last_seen) j,
    )
    | inr h ↦ ground (arith, oldest-lookup m ip time)
  ]

  oldest-is_some :
      (m : Assoc (IpEntry b))
      → 1 ≤ length m
      → lookup "" m ≡ none
      → (is_some (lookup (oldest m "" 0) m) ≡ true) × ((oldest m "" 0 == "") ≡ false)
  unfolding oldest lookup
  oldest-is_some [] h bare = absurd (omega (arith, h))
  oldest-is_some ((j, e) ∷ m) h bare = ground (
    arith,
    oldest-lookup m j e.last_seen,
    eq_iff (oldest m j e.last_seen) j,
    eq_iff j (oldest m j e.last_seen),
    eq_iff (oldest m j e.last_seen) "",
    eq_iff j "",
  )

  -- The store has no more entries than it may have, and none for the empty address, which the loop
  -- of the eviction takes for "nothing found yet".
  pub record IsBounded (s : IpLimiterStore b) : Type 0 where
    pub within : length s.limiters ≤ s.max_entries
    pub bare : lookup "" s.limiters ≡ none
    pub positive : 1 ≤ s.max_entries

  IsBounded-new : (n : ℕ) → 1 ≤ n → IsBounded (new_ip_limiter_store {b = b} n)
  unfolding new_ip_limiter_store lookup
  IsBounded-new n h = record { within = omega arith; bare = refl; positive = h }

  with_entry :
      (ip : String) (e : IpEntry b) (s : IpLimiterStore b)
      → (ip == "") ≡ false
      → (if is_some (lookup ip s.limiters) then length s.limiters else suc (length s.limiters))
        ≤ s.max_entries
      → lookup "" s.limiters ≡ none
      → 1 ≤ s.max_entries
      → IsBounded (record s { limiters = insert ip e s.limiters })
  with_entry ip e s named room bare positive = record {
    within = ground (arith, length-insert ip e s.limiters);
    bare = ground (arith, lookup-insert ip "" e s.limiters);
    positive = positive;
  }

  IsBounded-get :
      (ip : String) (now : ℕ) (s : IpLimiterStore b)
      → (ip == "") ≡ false
      → IsBounded s
      → IsBounded (get ip now s).1
  unfolding get evict_oldest
  IsBounded-get ip now s named h =
      elim (Option-cases (lookup ip s.limiters)) as (λ _. IsBounded (get ip now s).1) [
        | inr (e, known) ↦
            rw (known, get) (with_entry ip _ s named (rw known h.within) h.bare h.positive)
        | inl unknown ↦
            rw (unknown, get)
              (elim (Bool-cases (leb s.max_entries (length s.limiters))) [
                | inr room ↦
                    rw (room, get)
                      (with_entry ip _ s named (rw unknown (ground (arith, h.within))) h.bare
                        h.positive)
                | inl full ↦
                    let (found, other) =
                      oldest-is_some s.limiters (ground (arith, h.positive)) h.bare in
                    rw (full, other, get, evict_oldest)
                      (with_entry ip _
                        (record s { limiters = delete (oldest s.limiters "" 0) s.limiters }) named
                        (ground
                          (arith, length-delete (oldest s.limiters "" 0) s.limiters, h.within))
                        (ground
                          (arith, lookup-delete (oldest s.limiters "" 0) "" s.limiters, h.bare))
                        h.positive)
              ])
      ]

  IsBounded-spend :
      (ip : String) (now : ℕ) (l : b.Limiter) (s : IpLimiterStore b)
      → (ip == "") ≡ false
      → IsBounded s
      → IsBounded (spend ip now l s).1
  unfolding spend
  IsBounded-spend ip now l s named h = elim (Option-cases (lookup ip s.limiters)) [
    | inr (e, known) ↦
        rw (known, spend) (with_entry ip _ s named (rw known h.within) h.bare h.positive)
    | inl unknown ↦ rw (unknown, spend) h
  ]

  -- A request of a client that has an address leaves the store within its bound: there are at most
  -- `max_entries` buckets, and none for the empty address, whatever clients come and in whatever
  -- order the map is visited, provided that the bound is positive.
  pub rate_limit-IsBounded :
      (ip : String) (now : ℕ) (s : IpLimiterStore b)
      → (ip == "") ≡ false
      → IsBounded s
      → IsBounded (rate_limit ip now s).1
  unfolding rate_limit
  rate_limit-IsBounded ip now s named h =
      IsBounded-spend ip now (get ip now s).0 (get ip now s).1 named
        (IsBounded-get ip now s named h)
