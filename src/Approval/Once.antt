-- ===== src/Approval/Once.antt =====
-- A grant is used once: `verifyApproval` of src/approval.ts on `MemoryReplayStore`.
use h3_protocol.Approval.{
  ApprovalGrant, VerifyApprovalOptions, ok, approval_key, at_least_one, verify_approval,
}
use h3_protocol.Approval.Exact.{accepted_approval_binds, accepted_approval_uses}
use h3_protocol.Crypto.{WebCrypto}
use h3_protocol.Prelude.Int.{ℤ, pos, ◌+ℤ◌, ◌-ℤ◌, ◌≤ℤ◌, ◌<ℤ◌, +ℤ_parts, -ℤ_parts, finite}
use h3_protocol.Prelude.Lists.{All}
use h3_protocol.Prelude.{◌≡◌, ◌≢◌, sym, ap, ◌∙◌, true, false, some, List, [], ◌∷◌, arith}
use h3_protocol.Replay.Memory.{MemoryReplayStore, fresh, replay, check, CheckOutcome, bad_ttl}
use h3_protocol.Replay.Memory.Once.{Call, run, fresh_once}
use h3_protocol.Replay.Store.{memory_store, is_replay}

-- The lifetime that a use asks the store for.
abbrev lifetime : ApprovalGrant → ℤ → ℤ → ℤ
lifetime g now skew = at_least_one (g.expires_at -ℤ now) +ℤ skew

lifetime_covers :
    (g : ApprovalGrant) (now skew : ℤ)
    → pos 0 ≤ℤ skew
    → (pos 0 <ℤ lifetime g now skew) × (g.expires_at ≤ℤ now +ℤ lifetime g now skew)
unfolding at_least_one
lifetime_covers g now skew h = (
  ground (arith, +ℤ_parts (at_least_one (g.expires_at -ℤ now)) skew),
  ground (
    arith,
    +ℤ_parts (at_least_one (g.expires_at -ℤ now)) skew,
    -ℤ_parts g.expires_at now,
    +ℤ_parts now (lifetime g now skew),
  ),
)

fresh_of : (o : CheckOutcome) → is_replay o ≡ some false → o ≡ fresh
fresh_of fresh h = cc
fresh_of replay h = cc
fresh_of bad_ttl h = cc

calls_before :
    (later z : ℤ) (calls : List Call)
    → later <ℤ z
    → All (λ c. c.now ≤ℤ later) calls
    → All (λ c. c.now <ℤ z) calls
calls_before later z [] h before = tt
calls_before later z (c ∷ calls) h (now, before) =
    (omega arith, calls_before later z calls h before)

module _ (web : WebCrypto) (first : VerifyApprovalOptions) where
  accepted_used :
      (s : MemoryReplayStore) (g g' : ApprovalGrant) (now skew : ℤ)
      → (verify_approval web (memory_store now) s (some g) first now skew).1 ≡ ok g'
      → first.single_use ≡ true
      → (now <ℤ g.expires_at)
        × ((check s (approval_key g) (finite (lifetime g now skew)) now).1 ≡ fresh)
  accepted_used s g g' now skew accepted single =
      let store = memory_store now in
      let (same, _, _) = accepted_approval_binds web store first now skew s (some g) g' accepted in
      let own : g ≡ g' = cc in
      let (_, vetted, used) =
        accepted_approval_binds web store first now skew s (some g) g
          (accepted ∙ ap ok (sym own)) in
      (vetted.unexpired, fresh_of _ (used single))

module _ (web : WebCrypto) (first second : VerifyApprovalOptions) where
  -- Where both verifications are given the same replay store, a grant that was accepted once is not accepted again at a later
  -- time, whatever the second request is and whatever calls the store has seen in between; the clock skews are not negative.
  pub approval_used_once :
      (s : MemoryReplayStore) (g g' g'' : ApprovalGrant) (now skew later skew' : ℤ)
      (calls : List Call)
      → (verify_approval web (memory_store now) s (some g) first now skew).1 ≡ ok g'
      → first.single_use ≡ true
      → second.single_use ≡ true
      → pos 0 ≤ℤ skew
      → pos 0 ≤ℤ skew'
      → All (λ c. c.now ≤ℤ later) calls
      → (verify_approval web
          (memory_store later)
          (run (verify_approval web (memory_store now) s (some g) first now skew).0 calls)
          (some g)
          second
          later
          skew').1
        ≢ ok g''
  approval_used_once s g g' g'' now skew later skew' calls accepted single again forward forward'
        before h =
      let s' = run (check s (approval_key g) (finite (lifetime g now skew)) now).0 calls in
      let left =
        accepted_approval_uses web (memory_store now) first now skew s g g' accepted single in
      let (_, taken) = accepted_used web first s g g' now skew accepted single in
      let (live, untaken) = accepted_used web second s' g g'' later skew' (rw (← left) h) again in
      let (_, covers) = lifetime_covers g now skew forward in
      let (positive, _) = lifetime_covers g later skew' forward' in
      let early : later <ℤ now +ℤ lifetime g now skew = omega arith in
      let repeated =
        fresh_once s (approval_key g) (lifetime g now skew) (lifetime g later skew') now later calls
          taken (calls_before later (now +ℤ lifetime g now skew) calls early before) early
          positive in
      cc
