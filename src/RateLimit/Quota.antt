-- ===== src/RateLimit/Quota.antt =====
-- The quota of `window_quota`, for the limiter itself.
use h3_protocol.Prelude.Int.{ℤ}
use h3_protocol.Prelude.Lists.{length}
use h3_protocol.Prelude.Map
use h3_protocol.Prelude.Texts.{Text}
use h3_protocol.Prelude.{
  arith, ◌≤◌, ◌<◌, ◌≡◌, ◌≢◌, refl, ap, ◌∙◌, List, [], ◌∷◌, ◌++◌, if◌then◌else◌,
}
use h3_protocol.RateLimit.{RateLimiter, RateLimitPolicy, times_of, recent, consume}
use h3_protocol.RateLimit.Window.{run, IsSorted, last_time, window_quota}
use h3_protocol.RateLimit.Eviction.{consume_remembers, consume_isolates}

-- A call of `consume`: on the key in question, at a time, or on another key, with any policy.
pub data Call : Type 0 where
  own : ℤ → Call
  beside : Text → RateLimitPolicy → ℤ → Call

unfoldable pub own_times : List Call → List ℤ
own_times [] = []
own_times (own now ∷ calls) = now ∷ own_times calls
own_times (beside other policy now ∷ calls) = own_times calls

-- The times at which `consume` allows a call on the key, in order.
unfoldable pub accepted : RateLimiter → Text → RateLimitPolicy → List ℤ → List Call → List ℤ
accepted limiter key policy log [] = log
accepted limiter key policy log (own now ∷ calls) =
    let (limiter', result) = consume limiter key policy now in
    accepted limiter' key policy (if result.allowed then log ++ now ∷ [] else log) calls
accepted limiter key policy log (beside other its_policy now ∷ calls) =
    accepted (consume limiter other its_policy now).0 key policy log calls

-- A call on another key meets a limiter that tracks fewer keys than its limit.
abbrev pub HasRoom : RateLimiter → Text → RateLimitPolicy → List Call → Type 0
HasRoom limiter key policy [] = Unit
HasRoom limiter key policy (own now ∷ calls) =
    HasRoom (consume limiter key policy now).0 key policy calls
HasRoom limiter key policy (beside other its_policy now ∷ calls) =
    (other ≢ key)
    × (Map.size limiter.windows < limiter.max_keys)
    × HasRoom (consume limiter other its_policy now).0 key policy calls

beside_keeps :
    (limiter : RateLimiter) (key other : Text) (policy : RateLimitPolicy) (now : ℤ)
    → Map.size limiter.windows < limiter.max_keys
    → other ≢ key
    → times_of key (consume limiter other policy now).0.windows ≡ times_of key limiter.windows
unfolding times_of
beside_keeps limiter key other policy now room ne =
    ground (arith, consume_isolates limiter other key policy now room ne)

accepted-run :
    (limiter : RateLimiter) (key : Text) (policy : RateLimitPolicy) (log : List ℤ)
    (calls : List Call)
    → 1 ≤ limiter.max_keys
    → HasRoom limiter key policy calls
    → accepted limiter key policy log calls
      ≡ (run policy (times_of key limiter.windows) log (own_times calls)).1
unfolding accepted run consume own_times
accepted-run limiter key policy log [] positive room = refl
accepted-run limiter key policy log (own now ∷ calls) positive room =
    let next = consume limiter key policy now in
    let log' = if next.1.allowed then log ++ now ∷ [] else log in
    accepted-run next.0 key policy log' calls positive room
    ∙ ap (λ ts. (run policy ts log' (own_times calls)).1)
        (consume_remembers limiter key policy now positive)
accepted-run limiter key policy log (beside other its_policy now ∷ calls) positive
      (ne, free, room) =
    accepted-run (consume limiter other its_policy now).0 key policy log calls positive room
    ∙ ap (λ ts. (run policy ts log (own_times calls)).1)
        (beside_keeps limiter key other its_policy now free ne)

-- From a limiter that holds nothing for the key, after calls on that key with one policy, at times that
-- do not run back, and on other keys with any policy in between, at most `requests` of the calls on the
-- key that `consume` has allowed lie in the window that ends at the last one. The window is not empty,
-- the limiter may hold a key, and a call on another key comes while the limiter tracks fewer keys than
-- its limit, so that no key is evicted.
pub consume_quota :
    (limiter : RateLimiter) (key : Text) (policy : RateLimitPolicy) (start : ℤ) (calls : List Call)
    → 1 ≤ limiter.max_keys
    → 1 ≤ policy.window_ms
    → times_of key limiter.windows ≡ []
    → HasRoom limiter key policy calls
    → IsSorted start (own_times calls)
    → length
        (recent policy (last_time start (own_times calls)) (accepted limiter key policy [] calls))
      ≤ policy.requests
consume_quota limiter key policy start calls some_key positive fresh room sorted =
    rw (accepted-run limiter key policy [] calls some_key room, fresh)
      (window_quota policy positive start (own_times calls) sorted)
