-- ===== src/RateLimit/Window.antt =====
-- The quota: no more than `requests` calls on a key are allowed in any window.
use h3_protocol.Prelude.Int.{ℤ, pos, -ℤ_parts, ◌≤ℤ◌}
use h3_protocol.Prelude.Lists.{length, length-append, filter, length-filter-le}
use h3_protocol.Prelude.{
  ◌≤◌, ◌≡◌, refl, sym, ap, ◌∙◌, inl, inr, List, [], ◌∷◌, ◌++◌, arith, ltb, if◌then◌else◌,
  Bool-cases,
}
use h3_protocol.RateLimit.{RateLimitPolicy, recent, window_step}

-- Calls on one key at the given times: the stored timestamps, and the log of all accepted times.
unfoldable pub run : RateLimitPolicy → List ℤ → List ℤ → List ℤ → List ℤ × List ℤ
run policy stored log [] = (stored, log)
run policy stored log (now ∷ times) =
    let (stored', allowed) = window_step policy now stored in
    run policy stored' (if allowed then log ++ now ∷ [] else log) times

-- The clock never runs back.
abbrev pub IsSorted : ℤ → List ℤ → Type 0
IsSorted now [] = Unit
IsSorted now (t ∷ ts) = (now ≤ℤ t) × IsSorted t ts

abbrev pub last_time : ℤ → List ℤ → ℤ
last_time now [] = now
last_time now (t ∷ ts) = last_time t ts

module _ (policy : RateLimitPolicy) where
  recent-append :
      (now : ℤ) (xs ys : List ℤ)
      → recent policy now (xs ++ ys) ≡ recent policy now xs ++ recent policy now ys
  unfolding recent filter
  recent-append now [] ys = refl
  recent-append now (x ∷ xs) ys = ground (arith, recent-append now xs ys)

  -- What an earlier call has dropped, a later one drops too.
  recent-recent :
      (now later : ℤ) (xs : List ℤ)
      → now ≤ℤ later
      → recent policy later (recent policy now xs) ≡ recent policy later xs
  unfolding recent filter
  recent-recent now later [] h = refl
  recent-recent now later (x ∷ xs) h = ground (
    arith,
    recent-recent now later xs h,
    -ℤ_parts now (pos policy.window_ms),
    -ℤ_parts later (pos policy.window_ms),
  )

  -- The stored timestamps are the accepted times in the window, and within the quota.
  pub record InWindow (now : ℤ) (stored log : List ℤ) : Type 0 where
    pub same : stored ≡ recent policy now log
    pub within : length stored ≤ policy.requests

  module _ (positive : 1 ≤ policy.window_ms) where
    recent_now : (now : ℤ) → recent policy now (now ∷ []) ≡ now ∷ []
    unfolding recent filter
    recent_now now = ground (arith, -ℤ_parts now (pos policy.window_ms))

    step-InWindow :
        (before now : ℤ) (stored log : List ℤ)
        → InWindow before stored log
        → before ≤ℤ now
        → InWindow now
            (window_step policy now stored).0
            (if (window_step policy now stored).1 then log ++ now ∷ [] else log)
    unfolding window_step
    step-InWindow before now stored log v later =
        let kept : recent policy now stored ≡ recent policy now log =
          ap (recent policy now) v.same ∙ recent-recent before now log later in
        let shorter : length (recent policy now stored) ≤ length stored =
          unfold recent in length-filter-le _ stored in
        elim (Bool-cases (ltb (length (recent policy now stored)) policy.requests)) [
          | inl allowed ↦ rw allowed (record {
            same =
                ap (λ ts. ts ++ now ∷ []) kept
                ∙ (ap (λ ts. recent policy now log ++ ts) (sym (recent_now now))
                    ∙ sym (recent-append now log (now ∷ [])));
            within = ground (arith, length-append (recent policy now stored) (now ∷ []));
          })
          | inr refused ↦ rw refused (record { same = kept; within = omega (arith, v.within) })
        ]

    run-InWindow :
        (before : ℤ) (stored log times : List ℤ)
        → InWindow before stored log
        → IsSorted before times
        → InWindow
            (last_time before times)
            (run policy stored log times).0
            (run policy stored log times).1
    unfolding run
    run-InWindow before stored log [] v sorted = v
    run-InWindow before stored log (now ∷ times) v (later, sorted) =
        run-InWindow now (window_step policy now stored).0 _ times
          (step-InWindow before now stored log v later) sorted

    -- After any calls on one key at times that do not run back, at most `requests` accepted times lie
    -- in the window that ends at the last call.
    pub window_quota :
        (start : ℤ) (times : List ℤ)
        → IsSorted start times
        → length (recent policy (last_time start times) (run policy [] [] times).1)
          ≤ policy.requests
    window_quota start times sorted =
        let v =
          run-InWindow start [] [] times
            (record { same = unfold recent filter in refl; within = omega arith }) sorted in
        rw (← v.same) v.within
