-- ===== src/Replay/Cache/Trace.antt =====
-- Sequences of `consume` calls: how long an accepted key is refused.
use h3_protocol.Prelude.Int.{ℤ, ◌<ℤ◌, Number, finite, non_finite}
use h3_protocol.Prelude.Lists.{length, All}
use h3_protocol.Prelude.Map
use h3_protocol.Prelude.Texts.{Text, text_eq_iff, text_eq_refl}
use h3_protocol.Prelude.{
  ◌+◌, ◌≤◌, ◌<◌, ◌≡◌, refl, ◌∙◌, inl, inr, false, some, List, [], ◌∷◌, arith, leb, Bool-cases,
}
use h3_protocol.Envelope.{ProtocolEnvelope}
use h3_protocol.Replay.Cache.{
  ReplayCache, ok, replay_detected, prune, reserve, is_live, admit, expires_at, consume,
}
use h3_protocol.Replay.Cache.Key.{make_key}
use h3_protocol.Replay.Cache.Prune.{kept, prune-Pruned}
use h3_protocol.Replay.Cache.Reject.{IsSound, consume-IsSound, consume_refuses}

-- Calls of `consume` with their clocks, one after the other.
unfoldable pub run : ReplayCache → List (ProtocolEnvelope × ℤ) → ReplayCache
run c [] = c
run c ((envelope, now) ∷ calls) = run (consume c envelope now).0 calls

-- What a call with room leaves of a live key.
record Remembers (c d : ReplayCache) (key : Text) (z : ℤ) : Type 0 where
  held : Map.get key d.entries ≡ some z
  grown : Map.size d.entries ≤ Map.size c.entries + 1
  room : d.max_entries ≡ c.max_entries

module _ (c : ReplayCache) (key : Text) (now z : ℤ) (held : Map.get key c.entries ≡ some z)
    (early : now <ℤ z) where
  reserve-Remembers :
      (other : Text) (w : ℤ)
      → is_live (Map.get other c.entries) now ≡ false
      → Remembers c (reserve c other w) key z
  unfolding reserve is_live
  reserve-Remembers other w free = record {
    held = ground (arith, Map.get-set other key w c.entries, text_eq_iff other key);
    grown = Map.size-set-le other w c.entries;
    room = refl;
  }

  admit-Remembers :
      (other : Text) (n : Number)
      → Map.size c.entries < c.max_entries
      → is_live (Map.get other c.entries) now ≡ false
      → Remembers c (admit c other n).0 key z
  unfolding admit
  admit-Remembers other non_finite room free = record {
    held = held;
    grown = omega arith;
    room = refl;
  }
  admit-Remembers other (finite w) room free =
      let open_slot : leb c.max_entries (Map.size c.entries) ≡ false = ground arith in
      rw open_slot (reserve-Remembers other w free)

  prune_holds : IsSound c → Map.get key (prune c now).entries ≡ some z
  unfolding kept
  prune_holds s = ground (arith, (prune-Pruned c now s.valid).exact key)

-- One call with room to spare keeps a live key.
consume-Remembers :
    (c : ReplayCache) (key : Text) (envelope : ProtocolEnvelope) (now z : ℤ)
    → IsSound c
    → Map.get key c.entries ≡ some z
    → now <ℤ z
    → Map.size c.entries < c.max_entries
    → Remembers c (consume c envelope now).0 key z
unfolding consume
consume-Remembers c key envelope now z s held early room =
    let d = prune c now in
    let p = (prune-Pruned c now s.valid).pruning in
    let held' = prune_holds c key now z held early s in
    let other = make_key envelope in
    elim (Bool-cases (is_live (Map.get other d.entries) now)) [
      | inl live ↦
          rw live (record { held = held'; grown = omega (arith, p.smaller); room = p.room })
      | inr free ↦
          let r =
            admit-Remembers d key now z held' early other (expires_at envelope)
              (omega (arith, p.smaller, p.room)) free in
          rw free (record {
            held = r.held;
            grown = omega (arith, r.grown, p.smaller);
            room = r.room ∙ p.room;
          })
    ]

-- A live key outlasts every sequence of calls that fits into the room left, each before its expiry.
run_remembers :
    (c : ReplayCache) (calls : List (ProtocolEnvelope × ℤ)) (key : Text) (z : ℤ)
    → IsSound c
    → Map.get key c.entries ≡ some z
    → All (λ call. call.1 <ℤ z) calls
    → Map.size c.entries + length calls ≤ c.max_entries
    → IsSound (run c calls) × (Map.get key (run c calls).entries ≡ some z)
unfolding run
run_remembers c [] key z s held early fits = (s, held)
run_remembers c ((envelope, now) ∷ calls) key z s held (before, early) fits =
    let r = consume-Remembers c key envelope now z s held before (omega arith) in
    run_remembers (consume c envelope now).0 calls key z (consume-IsSound c envelope now s) r.held
      early (omega (arith, r.grown, r.room))

-- An accepted envelope's key is stored with its expiry.
accepted_held :
    (c : ReplayCache) (envelope : ProtocolEnvelope) (now z : ℤ)
    → expires_at envelope ≡ finite z
    → (consume c envelope now).1 ≡ ok
    → Map.get (make_key envelope) (consume c envelope now).0.entries ≡ some z
unfolding consume admit reserve
accepted_held c envelope now z e accepted =
    elim (Bool-cases (is_live (Map.get (make_key envelope) (prune c now).entries) now)) [
      | inl live ↦ let wrong : replay_detected ≡ ok = rw (live, consume) at accepted in cc
      | inr free ↦ rw (free, e) (rw (Map.get-set, text_eq_refl))
    ]

-- After an envelope was accepted, every call with the same key that comes before its expiry is
-- refused, whatever calls lie between, as long as those fit into the room left in the cache.
pub accepted_once :
    (c : ReplayCache) (first again : ProtocolEnvelope) (now later z : ℤ)
    (calls : List (ProtocolEnvelope × ℤ))
    → IsSound c
    → expires_at first ≡ finite z
    → make_key again ≡ make_key first
    → (consume c first now).1 ≡ ok
    → All (λ call. call.1 <ℤ z) calls
    → Map.size (consume c first now).0.entries + length calls ≤ (consume c first now).0.max_entries
    → later <ℤ z
    → (consume (run (consume c first now).0 calls) again later).1 ≡ replay_detected
unfolding is_live
accepted_once c first again now later z calls s e same accepted early fits before =
    let held = accepted_held c first now z e accepted in
    let (sound, kept_held) =
      run_remembers (consume c first now).0 calls (make_key first) z (consume-IsSound c first now s)
        held early fits in
    consume_refuses (run (consume c first now).0 calls) again later sound
      (rw (same, kept_held) (ground arith))
