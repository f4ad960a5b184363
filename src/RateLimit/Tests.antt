-- ===== src/RateLimit/Tests.antt =====
-- Runs of `SlidingWindowRateLimiter`, and its theorems at concrete inputs.
use h3_protocol.Prelude.Arrays.{last}
use h3_protocol.Prelude.Int.{pos, ◌-ℤ◌}
use h3_protocol.Prelude.Lists.{length, filter}
use h3_protocol.Prelude.Map
use h3_protocol.Prelude.Map.{Map}
use h3_protocol.Prelude.Texts.{codes, text_eq}
use h3_protocol.Prelude.{◌≡◌, ◌≤◌, ◌≢◌, refl, List, [], ◌∷◌, arith}
use h3_protocol.RateLimit.{
  RateLimiter, RateLimitPolicy, times_of, recent, evict_pass, is_expired, is_under_quota,
  drop_oldest, make_room, window_step, store, consume, check,
}
use h3_protocol.RateLimit.Window.{last_time}
use h3_protocol.RateLimit.Eviction.{check_predicts}
use h3_protocol.RateLimit.Quota.{Call, own, beside, own_times, accepted, consume_quota}

-- Two calls in any 10 ms.
abbrev two : RateLimitPolicy
two = record { requests = 2; window_ms = 10 }

abbrev bare : RateLimiter
bare = record { windows = []; max_keys = 2 }

-- `a` is at its quota, `b` is not.
abbrev busy : RateLimiter
busy = record {
  windows = (codes "a", pos 1 ∷ pos 2 ∷ []) ∷ (codes "b", pos 3 ∷ []) ∷ [];
  max_keys = 2;
}

abbrev half : RateLimiter
half = record { windows = (codes "a", pos 1 ∷ pos 2 ∷ []) ∷ []; max_keys = 2 }

-- Four calls on `a`, and one on `b` while one key is tracked.
abbrev calls : List Call
calls = own (pos 1) ∷ own (pos 2) ∷ beside (codes "b") two (pos 3) ∷ own (pos 3) ∷ own (pos 12) ∷ []

-- The third call is refused, and the fourth comes when the first two have left the window.
third_refused : accepted bare (codes "a") two [] calls ≡ pos 1 ∷ pos 2 ∷ pos 12 ∷ []
unfolding own_times accepted consume window_step store times_of recent filter Map.get Map.set
    Map.delete text_eq ◌-ℤ◌ make_room evict_pass drop_oldest is_expired is_under_quota
third_refused = refl

-- Under pressure the key that is under its quota goes, not the oldest one.
limited_stays :
    (consume busy (codes "c") two (pos 4)).0.windows
    ≡ (codes "a", pos 1 ∷ pos 2 ∷ []) ∷ (codes "c", pos 4 ∷ []) ∷ []
unfolding consume window_step store times_of recent filter Map.get Map.set Map.delete text_eq ◌-ℤ◌
    make_room evict_pass drop_oldest is_expired is_under_quota last
limited_stays = refl

b_is_not_a : codes "b" ≢ codes "a"
b_is_not_a = ground arith

a_is_not_c : codes "a" ≢ codes "c"
a_is_not_c = ground arith

check_predicts_example :
    ((check busy (codes "a") two (pos 4)).allowed
      ≡ (consume busy (codes "a") two (pos 4)).1.allowed)
    × ((check busy (codes "a") two (pos 4)).remaining
        ≡ (consume busy (codes "a") two (pos 4)).1.remaining)
check_predicts_example = check_predicts busy (codes "a") two (pos 4)

consume_quota_example :
    length
      (recent two (last_time (pos 0) (own_times calls)) (accepted bare (codes "a") two [] calls))
    ≤ 2
unfolding own_times times_of Map.get Map.set Map.delete text_eq consume window_step store recent
    filter ◌-ℤ◌
consume_quota_example =
    consume_quota bare (codes "a") two (pos 0) calls (omega arith) (omega arith) refl
      (b_is_not_a, omega arith, tt) (omega arith, (omega arith, (omega arith, (omega arith, tt))))
