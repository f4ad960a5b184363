-- ===== src/Replay/Cache/Reject.antt =====
-- `consume` of `InMemoryReplayCache`: its invariant, its decision, and how long a key is remembered.
use mathlib.Core.List.{mem-cons_self, mem-cons_of_mem}
use mathlib.Core.List.Perm
use h3_protocol.Prelude.Int.{ℤ}
use h3_protocol.Prelude.Map
use h3_protocol.Prelude.Map.{Map}
use h3_protocol.Prelude.Texts.{Text, text_eq, text_eq_iff}
use h3_protocol.Prelude.{
  ℕ, ◌≤◌, ◌<◌, ◌≡◌, refl, inl, inr, true, Option, none, some, arith, leb, if◌then◌else◌, Bool-cases,
}
use h3_protocol.Replay.Heap.Laws.{push_correct}
use h3_protocol.Prelude.Int.{Number, finite, non_finite}
use h3_protocol.Envelope.{ProtocolEnvelope}
use h3_protocol.Replay.Cache.{
  ReplayCache, empty, ok, replay_detected, prune, evict_one, reserve, is_live, admit, expires_at,
  consume,
}
use h3_protocol.Replay.Cache.Key.{make_key}
use h3_protocol.Replay.Cache.Invariant.{entry, IsValid}
use h3_protocol.Replay.Cache.Prune.{kept, prune-Pruned}
use h3_protocol.Replay.Cache.Evict.{evict_one-Evicted}

-- A valid cache within its limit.
pub record IsSound (c : ReplayCache) : Type 0 where
  pub valid : IsValid c
  pub positive : 0 < c.max_entries
  pub bounded : Map.size c.entries ≤ c.max_entries

-- The constructor's cache is sound.
pub empty-IsSound : (max_entries : ℕ) → 0 < max_entries → IsSound (empty max_entries)
unfolding empty Map.get
empty-IsSound max_entries h = record {
  valid = record { heap = λ c p q. absurd (omega arith); tracked = λ k z e. cc };
  positive = h;
  bounded = omega arith;
}

reserve-IsValid : (c : ReplayCache) (key : Text) (z : ℤ) → IsValid c → IsValid (reserve c key z)
unfolding reserve
reserve-IsValid c key z v =
    let (heap, same) = push_correct c.expiries (entry key z) v.heap in
    record {
      heap = heap;
      tracked = λ k w e. (Perm.mem_iff same).1 (elim (Bool-cases (text_eq key k)) [
        | inl here ↦
            let there : entry k w ≡ entry key z =
              ground (arith, Map.get-set key k z c.entries, text_eq_iff key k) in
            rw there mem-cons_self
        | inr other ↦
            mem-cons_of_mem (entry key z)
              (v.tracked k w (ground (arith, Map.get-set key k z c.entries)))
      ]);
    }

-- `reserve` on a sound cache with room.
reserve-IsSound :
    (c : ReplayCache) (key : Text) (z : ℤ)
    → IsValid c
    → Map.size c.entries < c.max_entries
    → IsSound (reserve c key z)
unfolding reserve
reserve-IsSound c key z v room = record {
  valid = unfold reserve in reserve-IsValid c key z v;
  positive = omega arith;
  bounded = omega (arith, Map.size-set-le key z c.entries);
}

-- Whatever `admit` decides, the invariant holds after it.
admit-IsSound : (c : ReplayCache) (key : Text) (n : Number) → IsSound c → IsSound (admit c key n).0
unfolding admit
admit-IsSound c key non_finite s = s
admit-IsSound c key (finite z) s = elim (Bool-cases (leb c.max_entries (Map.size c.entries))) [
  | inl full ↦
      let gone = evict_one-Evicted c s.valid s.positive (ground arith) in
      rw full (
        reserve-IsSound (evict_one c) key z gone.valid
          (omega (arith, gone.room, gone.smaller, s.bounded)))
  | inr free ↦ rw free (reserve-IsSound c key z s.valid (ground arith))
]

prune-IsSound : (c : ReplayCache) (now : ℤ) → IsSound c → IsSound (prune c now)
prune-IsSound c now s =
    let p = (prune-Pruned c now s.valid).pruning in
    record {
      valid = p.valid;
      positive = omega (arith, p.room, s.positive);
      bounded = omega (arith, p.room, p.smaller, s.bounded);
    }

-- `consume` keeps the cache sound, whatever the envelope and the clock.
pub consume-IsSound :
    (c : ReplayCache) (envelope : ProtocolEnvelope) (now : ℤ)
    → IsSound c
    → IsSound (consume c envelope now).0
unfolding consume
consume-IsSound c envelope now s =
    let clean = prune-IsSound c now s in
    elim (Bool-cases (is_live (Map.get (make_key envelope) (prune c now).entries) now)) [
      | inl live ↦ rw live clean
      | inr free ↦
          rw free (admit-IsSound (prune c now) (make_key envelope) (expires_at envelope) clean)
    ]

live_kept : (now : ℤ) (o : Option ℤ) → is_live (kept now o) now ≡ is_live o now
unfolding is_live kept
live_kept now none = refl
live_kept now (some z) = ground arith

-- A live key is refused before the expiry of the envelope is looked at.
pub consume_refuses :
    (c : ReplayCache) (envelope : ProtocolEnvelope) (now : ℤ)
    → IsSound c
    → is_live (Map.get (make_key envelope) c.entries) now ≡ true
    → (consume c envelope now).1 ≡ replay_detected
unfolding consume
consume_refuses c envelope now s live =
    let exact = (prune-Pruned c now s.valid).exact (make_key envelope) in
    rw (exact, live_kept now (Map.get (make_key envelope) c.entries), live)

-- The decision: an envelope with a finite expiry is refused exactly when its key is held with an
-- expiry after `now`.
pub consume_decision :
    (c : ReplayCache) (envelope : ProtocolEnvelope) (now z : ℤ)
    → IsSound c
    → expires_at envelope ≡ finite z
    → (consume c envelope now).1
      ≡ (if is_live (Map.get (make_key envelope) c.entries) now then replay_detected else ok)
unfolding consume admit
consume_decision c envelope now z s e =
    let exact = (prune-Pruned c now s.valid).exact (make_key envelope) in
    rw (exact, live_kept now (Map.get (make_key envelope) c.entries), e) (ground arith)
