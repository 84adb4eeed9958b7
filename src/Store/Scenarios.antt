-- ===== src/Store/Scenarios.antt =====
-- The limiters' theorems at concrete inputs.
use nina.Prelude.Map.{lookup}
use nina.Prelude.{ℕ, ◌*◌, ◌≡◌, refl, false, arith, none, some, [], lit}
use nina.Lru.Listed.{listed}
use nina.Store.{Window, decide, meter, allow, RedisData, sliding_window, read_reply}
use nina.Store.Metering.{IsBounded, meter-IsBounded, bucket_window, sliding_window-decide}
use nina.Store.Sharing.{Limits, Metered, allow-Metered}

abbrev full : Window
full = record { start = 1000; count = 5; prev = 2 }

meter-IsBounded_example : IsBounded 5 (meter 1500 5 100 full).0
meter-IsBounded_example = meter-IsBounded 1500 5 100 full (omega arith)

-- At the very instant that Retry-After names, the request is still refused.
refused_at_the_boundary : (meter 1100 5 100 (meter 1010 5 100 full).0).1.allowed ≡ false
unfolding meter
refused_at_the_boundary = refl

abbrev two_buckets : RedisData
two_buckets b = some (record { value = 4; expires = none })

sliding_window-decide_example :
    let d = (decide 1030 8 100 (bucket_window (lit "k") 100 1030 two_buckets)).1 in
    let (reply, err) =
      read_reply false 8 (some (sliding_window (lit "k") 8 100 1030 two_buckets).1) in
    (err ≡ false)
    × (reply.allowed ≡ d.allowed)
    × (reply.limit ≡ d.limit)
    × (reply.remaining ≡ d.remaining)
    × (reply.retry_after ≡ d.retry_after * 1000000)
sliding_window-decide_example =
    sliding_window-decide (lit "k") 8 100 1030 two_buckets false (omega arith)

abbrev empty_limiter : Limits (listed ℕ)
empty_limiter = record { cache = []; heap = λ p. full; next = 0 }

allow-Metered_example :
    let (m', d) = allow (listed ℕ) 7 (lit "k") 5 100 empty_limiter in
    Metered (listed ℕ) 7 (lit "k") 5 100 empty_limiter m' d
unfolding lookup
allow-Metered_example =
    allow-Metered (listed ℕ) 7 5 100 (lit "k") empty_limiter
      (record { apart = λ j k p e f. cc; taken = λ j p e. cc })
