-- ===== src/RateLimit.antt =====
-- `SlidingWindowRateLimiter` of src/rateLimiter.ts. `windows` is the map of the accepted times of
-- each key, least recently used key first.
pub mod Window
pub mod Eviction
pub mod Quota
mod Tests
use h3_protocol.Prelude.Arrays.{last}
use h3_protocol.Prelude.Int.{ℤ, pos, ◌+ℤ◌, ◌-ℤ◌, pos_part, ltb_ℤ, leb_ℤ}
use h3_protocol.Prelude.Lists.{length, filter}
use h3_protocol.Prelude.Map
use h3_protocol.Prelude.Map.{Map}
use h3_protocol.Prelude.Texts.{Text, text_eq}
use h3_protocol.Prelude.{
  ℕ, zero, suc, ◌-◌, Bool, true, false, Option, none, some, List, [], ◌∷◌, ◌++◌, leb, ltb,
  if◌then◌else◌,
}

pub record RateLimitPolicy : Type 0 where
  pub requests : ℕ
  pub window_ms : ℕ

pub record RateLimitResult : Type 0 where
  pub allowed : Bool
  pub remaining : ℕ
  pub reset_ms : ℕ

pub record RateLimiter : Type 0 where
  pub windows : Map (List ℤ)
  pub max_keys : ℕ

-- `m.get(key) ?? []`
unfoldable pub times_of : Text → Map (List ℤ) → List ℤ
times_of key windows = elim (Map.get key windows) [ none ↦ [] | some ts ↦ ts ]

-- `.filter(t => t > cutoff)`
unfoldable pub recent : RateLimitPolicy → ℤ → List ℤ → List ℤ
recent policy now ts = filter (λ t. ltb_ℤ (now -ℤ pos policy.window_ms) t) ts

-- `Math.max(0, timestamps[0] + windowMs - nowMs)`, 0 for no timestamps.
unfoldable pub reset_after : RateLimitPolicy → ℤ → List ℤ → ℕ
reset_after policy now [] = 0
reset_after policy now (t ∷ ts) = pos_part (t +ℤ pos policy.window_ms -ℤ now)

unfoldable pub check : RateLimiter → Text → RateLimitPolicy → ℤ → RateLimitResult
check limiter key policy now =
    let timestamps = recent policy now (times_of key limiter.windows) in
    let allowed = ltb (length timestamps) policy.requests in
    record {
      allowed = allowed;
      remaining = policy.requests - length timestamps - (if allowed then 1 else 0);
      reset_ms = reset_after policy now timestamps;
    }

-- One loop of the eviction over the map's entries. It stops once `size` fits, never drops `key`, and
-- drops the others that `spare` names.
unfoldable pub evict_pass : (List ℤ → Bool) → Text → ℕ → ℕ → Map (List ℤ) → Map (List ℤ)
evict_pass spare key max_keys size [] = []
evict_pass spare key max_keys size ((k, ts) ∷ m) =
    let without = evict_pass spare key max_keys (size - 1) m in
    let beside = (k, ts) ∷ evict_pass spare key max_keys size m in
    if leb size max_keys
    then (k, ts) ∷ m
    else if text_eq k key
    then beside
    else if spare ts
    then without
    else beside

-- `ts.length === 0 || ts[ts.length - 1] <= cutoffNow`
unfoldable pub is_expired : RateLimitPolicy → ℤ → List ℤ → Bool
is_expired policy now [] = true
is_expired policy now (t ∷ ts) = leb_ℤ (last t ts) (now -ℤ pos policy.window_ms)

-- `ts.length < policy.requests`
unfoldable pub is_under_quota : RateLimitPolicy → List ℤ → Bool
is_under_quota policy ts = ltb (length ts) policy.requests

-- The last `while`: the oldest keys go until the rest fits.
unfoldable pub drop_oldest : ℕ → Map (List ℤ) → Map (List ℤ)
drop_oldest max_keys [] = []
drop_oldest max_keys ((k, ts) ∷ m) =
    let fewer = drop_oldest max_keys m in
    if leb (suc (length m)) max_keys then (k, ts) ∷ m else fewer

unfoldable pub make_room : Text → RateLimitPolicy → ℤ → ℕ → Map (List ℤ) → Map (List ℤ)
make_room key policy now max_keys windows =
    let live = evict_pass (is_expired policy now) key max_keys (Map.size windows) windows in
    let limited = evict_pass (is_under_quota policy) key max_keys (Map.size live) live in
    drop_oldest max_keys limited

-- `timestamps` after the `push`.
unfoldable pub window_step : RateLimitPolicy → ℤ → List ℤ → List ℤ × Bool
window_step policy now stored =
    let timestamps = recent policy now stored in
    let allowed = ltb (length timestamps) policy.requests in
    ((if allowed then timestamps ++ now ∷ [] else timestamps), allowed)

-- The map after the timestamps of `key` have been put at its end, or `key` dropped.
unfoldable pub store : Text → RateLimitPolicy → ℤ → ℕ → List ℤ → Map (List ℤ) → Map (List ℤ)
store key policy now max_keys [] windows = Map.delete key windows
store key policy now max_keys (t ∷ ts) windows =
    let moved = Map.set key (t ∷ ts) (Map.delete key windows) in
    if ltb max_keys (Map.size moved) then make_room key policy now max_keys moved else moved

unfoldable pub consume : RateLimiter → Text → RateLimitPolicy → ℤ → RateLimiter × RateLimitResult
consume limiter key policy now =
    let (timestamps, allowed) = window_step policy now (times_of key limiter.windows) in
    (
      record limiter { windows = store key policy now limiter.max_keys timestamps limiter.windows },
      record {
        allowed = allowed;
        remaining = policy.requests - length timestamps;
        reset_ms = reset_after policy now timestamps;
      },
    )

unfoldable pub reset : RateLimiter → Text → RateLimiter
reset limiter key = record limiter { windows = Map.delete key limiter.windows }

unfoldable pub clear : RateLimiter → RateLimiter
clear limiter = record limiter { windows = [] }
