-- ===== src/RateLimit/Eviction.antt =====
-- Memory pressure: the number of keys is bounded, and the key of the call is never evicted.
use h3_protocol.Prelude.Int.{ℤ}
use h3_protocol.Prelude.Lists.{length, length-append}
use h3_protocol.Prelude.Map
use h3_protocol.Prelude.Map.{Map}
use h3_protocol.Prelude.Texts.{Text, text_eq_iff, text_eq_refl}
use h3_protocol.Prelude.{
  ℕ, ◌-◌, ◌≤◌, ◌<◌, ◌≡◌, ◌≢◌, refl, Bool, none, some, List, [], ◌∷◌, ◌++◌, arith,
}
use h3_protocol.RateLimit.{
  RateLimiter, RateLimitPolicy, times_of, evict_pass, drop_oldest, make_room, is_expired,
  is_under_quota, window_step, store, consume, check, recent,
}

abbrev Windows : Type 0
Windows = Map (List ℤ)

set_absent :
    (key : Text) (ts : List ℤ) (m : Windows)
    → Map.get key m ≡ none
    → Map.set key ts m ≡ m ++ (key, ts) ∷ []
unfolding Map.get Map.set
set_absent key ts [] h = refl
set_absent key ts ((k, v) ∷ m) h = ground (arith, set_absent key ts m)

get_last :
    (key : Text) (ts : List ℤ) (m : Windows)
    → Map.get key m ≡ none
    → Map.get key (m ++ (key, ts) ∷ []) ≡ some ts
unfolding Map.get
get_last key ts [] h = ground (arith, text_eq_refl key)
get_last key ts ((k, v) ∷ m) h = ground (arith, get_last key ts m)

module _ (spare : List ℤ → Bool) (key : Text) (max_keys : ℕ) where
  pass_last :
      (size : ℕ) (ts : List ℤ) (m : Windows)
      → evict_pass spare key max_keys size (m ++ (key, ts) ∷ [])
        ≡ evict_pass spare key max_keys size m ++ (key, ts) ∷ []
  unfolding evict_pass
  pass_last size ts [] = ground (arith, text_eq_refl key)
  pass_last size ts ((k, v) ∷ m) = ground (arith, pass_last size ts m, pass_last (size - 1) ts m)

  pass_absent :
      (size : ℕ) (m : Windows)
      → Map.get key m ≡ none
      → Map.get key (evict_pass spare key max_keys size m) ≡ none
  unfolding evict_pass Map.get
  pass_absent size [] h = refl
  pass_absent size ((k, v) ∷ m) h = ground (arith, pass_absent size m, pass_absent (size - 1) m)

oldest_last :
    (key : Text) (max_keys : ℕ) (ts : List ℤ) (m : Windows)
    → 1 ≤ max_keys
    → Map.get key m ≡ none
    → Map.get key (drop_oldest max_keys (m ++ (key, ts) ∷ [])) ≡ some ts
unfolding drop_oldest Map.get
oldest_last key max_keys ts [] h none_there = ground (arith, text_eq_refl key)
oldest_last key max_keys ts ((k, v) ∷ m) h none_there =
    ground (arith, oldest_last key max_keys ts m h, get_last key ts m)

length-drop_oldest : (max_keys : ℕ) (m : Windows) → length (drop_oldest max_keys m) ≤ max_keys
unfolding drop_oldest
length-drop_oldest max_keys [] = omega arith
length-drop_oldest max_keys ((k, v) ∷ m) = ground (arith, length-drop_oldest max_keys m)

make_room_keeps :
    (key : Text) (policy : RateLimitPolicy) (now : ℤ) (max_keys : ℕ) (ts : List ℤ) (m : Windows)
    → 1 ≤ max_keys
    → Map.get key m ≡ none
    → Map.get key (make_room key policy now max_keys (m ++ (key, ts) ∷ [])) ≡ some ts
unfolding make_room
make_room_keeps key policy now max_keys ts m positive free =
    let whole = m ++ (key, ts) ∷ [] in
    let live = evict_pass (is_expired policy now) key max_keys (Map.size whole) m in
    let size = Map.size (live ++ (key, ts) ∷ []) in
    rw
      (
        pass_last (is_expired policy now) key max_keys (Map.size whole) ts m,
        pass_last (is_under_quota policy) key max_keys size ts live,
      )
      (oldest_last key max_keys ts (evict_pass (is_under_quota policy) key max_keys size live)
        positive
        (pass_absent (is_under_quota policy) key max_keys size live
          (pass_absent (is_expired policy now) key max_keys (Map.size whole) m free)))

deleted : (key : Text) (m : Windows) → Map.get key (Map.delete key m) ≡ none
deleted key m = ground (arith, Map.get-delete key key m, text_eq_refl key)

store_times :
    (key : Text) (policy : RateLimitPolicy) (now : ℤ) (max_keys : ℕ) (ts : List ℤ) (m : Windows)
    → 1 ≤ max_keys
    → times_of key (store key policy now max_keys ts m) ≡ ts
unfolding store times_of
store_times key policy now max_keys [] m positive = ground (arith, deleted key m)
store_times key policy now max_keys (t ∷ ts) m positive =
    let free = deleted key m in
    let put = set_absent key (t ∷ ts) (Map.delete key m) free in
    rw put (
      ground (
        arith,
        make_room_keeps key policy now max_keys (t ∷ ts) (Map.delete key m) positive free,
        get_last key (t ∷ ts) (Map.delete key m) free,
      ))

-- The call's own key is never evicted: what is stored for it afterwards is the call's window.
pub consume_remembers :
    (limiter : RateLimiter) (key : Text) (policy : RateLimitPolicy) (now : ℤ)
    → 1 ≤ limiter.max_keys
    → times_of key (consume limiter key policy now).0.windows
      ≡ (window_step policy now (times_of key limiter.windows)).0
unfolding consume
consume_remembers limiter key policy now positive =
    store_times key policy now limiter.max_keys _ limiter.windows positive

length-make_room :
    (key : Text) (policy : RateLimitPolicy) (now : ℤ) (max_keys : ℕ) (m : Windows)
    → length (make_room key policy now max_keys m) ≤ max_keys
unfolding make_room
length-make_room key policy now max_keys m = length-drop_oldest max_keys _

store_bounded :
    (key : Text) (policy : RateLimitPolicy) (now : ℤ) (max_keys : ℕ) (ts : List ℤ) (m : Windows)
    → Map.size m ≤ max_keys
    → Map.size (store key policy now max_keys ts m) ≤ max_keys
unfolding store
store_bounded key policy now max_keys [] m h = omega (arith, Map.size-delete-le key m)
store_bounded key policy now max_keys (t ∷ ts) m h =
    ground
      (arith, length-make_room key policy now max_keys (Map.set key (t ∷ ts) (Map.delete key m)))

-- The limiter never tracks more keys than its limit.
pub consume_bounded :
    (limiter : RateLimiter) (key : Text) (policy : RateLimitPolicy) (now : ℤ)
    → Map.size limiter.windows ≤ limiter.max_keys
    → Map.size (consume limiter key policy now).0.windows ≤ limiter.max_keys
unfolding consume
consume_bounded limiter key policy now =
    store_bounded key policy now limiter.max_keys
      (window_step policy now (times_of key limiter.windows)).0 limiter.windows

store_isolates :
    (key other : Text) (policy : RateLimitPolicy) (now : ℤ) (max_keys : ℕ) (ts : List ℤ)
    (m : Windows)
    → Map.size m < max_keys
    → key ≢ other
    → Map.get other (store key policy now max_keys ts m) ≡ Map.get other m
unfolding store
store_isolates key other policy now max_keys [] m room ne =
    ground (arith, Map.get-delete key other m, text_eq_iff key other)
store_isolates key other policy now max_keys (t ∷ ts) m room ne = ground (
  arith,
  Map.get-set key other (t ∷ ts) (Map.delete key m),
  Map.get-delete key other m,
  text_eq_iff key other,
  Map.size-set-le key (t ∷ ts) (Map.delete key m),
  Map.size-delete-le key m,
)

-- While there is room, a call changes nothing for any other key.
pub consume_isolates :
    (limiter : RateLimiter) (key other : Text) (policy : RateLimitPolicy) (now : ℤ)
    → Map.size limiter.windows < limiter.max_keys
    → key ≢ other
    → Map.get other (consume limiter key policy now).0.windows ≡ Map.get other limiter.windows
unfolding consume
consume_isolates limiter key other policy now =
    store_isolates key other policy now limiter.max_keys
      (window_step policy now (times_of key limiter.windows)).0 limiter.windows

-- `check` predicts the decision and the remaining quota of `consume`.
pub check_predicts :
    (limiter : RateLimiter) (key : Text) (policy : RateLimitPolicy) (now : ℤ)
    → ((check limiter key policy now).allowed ≡ (consume limiter key policy now).1.allowed)
      × ((check limiter key policy now).remaining ≡ (consume limiter key policy now).1.remaining)
unfolding check consume window_step
check_predicts limiter key policy now =
    let ts = recent policy now (times_of key limiter.windows) in
    (refl, ground (arith, length-append ts (now ∷ [])))
