-- ===== src/Replay/Cache.antt =====
-- `InMemoryReplayCache` of src/protocolReplay.ts. A method returns the new cache; the clock is an
-- argument, as `nowMs` is.
pub mod Key
pub mod Invariant
pub mod Prune
pub mod Evict
pub mod Reject
pub mod Trace
mod Tests
use h3_protocol.Prelude.Int.{ℤ, Number, finite, non_finite, add_number, ltb_ℤ, leb_ℤ, eqb_ℤ}
use h3_protocol.Prelude.Lists.{length}
use h3_protocol.Prelude.Map
use h3_protocol.Prelude.Map.{Map}
use h3_protocol.Prelude.Texts.{Text}
use h3_protocol.Prelude.{
  ℕ, zero, suc, Bool, true, false, ◌&&◌, Option, none, some, List, [], ◌∷◌, leb, if◌then◌else◌,
}
use h3_protocol.Envelope.{ProtocolEnvelope}
use h3_protocol.Replay.Heap
use h3_protocol.Replay.Heap.{ExpiryEntry}
use Key.{make_key}

pub data ReplayCheckResult : Type 0 where
  ok : ReplayCheckResult
  -- 'Replay detected for sender/messageId/nonce'
  replay_detected : ReplayCheckResult
  -- 'Cannot track replay protection for a non-finite timestampMs/ttlMs'
  not_trackable : ReplayCheckResult

pub record ReplayCache : Type 0 where
  pub entries : Map ℤ
  pub max_entries : ℕ
  pub expiries : List ExpiryEntry

pub empty : ℕ → ReplayCache
empty max_entries = record { entries = []; max_entries = max_entries; expiries = [] }

-- `entries.get(next.key) === next.expiresAt`
unfoldable pub is_current : Map ℤ → ExpiryEntry → Bool
is_current entries next = elim (Map.get next.key entries) [
  | none ↦ false
  | some z ↦ eqb_ℤ z next.expires_at
]

-- `currentExpiry === next.expiresAt && currentExpiry <= nowMs`
unfoldable pub is_stale : Map ℤ → ExpiryEntry → ℤ → Bool
is_stale entries next now = elim (Map.get next.key entries) [
  | none ↦ false
  | some z ↦ eqb_ℤ z next.expires_at && leb_ℤ z now
]

abbrev pub popped : ReplayCache → ReplayCache
popped c = record c { expiries = (Heap.pop c.expiries).1 }

abbrev pub forget : Text → ReplayCache → ReplayCache
forget key c = record c { entries = Map.delete key c.entries }

-- One round of `prune` after its break test.
pub prune_round : ReplayCache → ExpiryEntry → ℤ → ReplayCache
prune_round c next now =
    if is_stale c.entries next now then forget next.key (popped c) else popped c

pub prune_loop : ℕ → ReplayCache → ℤ → ReplayCache
prune_loop zero c now = c
prune_loop (suc fuel) c now = elim (Heap.peek c.expiries) [
  | none ↦ c
  | some next ↦ elim (ltb_ℤ now next.expires_at) [
    | true ↦ c
    | false ↦ prune_loop fuel (prune_round c next now) now
  ]
]

-- Each round pops an entry, so the size of the heap is fuel enough.
pub prune : ReplayCache → ℤ → ReplayCache
prune c now = prune_loop (length c.expiries) c now

-- The loop of `evictOne`; `true` when it returned from inside, after a deletion.
pub evict_loop : ℕ → ReplayCache → ReplayCache × Bool
evict_loop zero c = (c, false)
evict_loop (suc fuel) c = elim (leb c.max_entries (Map.size c.entries)) [
  | false ↦ (c, false)
  | true ↦ elim (Heap.pop c.expiries).0 [
    | none ↦ (popped c, false)
    | some next ↦ elim (is_current c.entries next) [
      | true ↦ (forget next.key (popped c), true)
      | false ↦ evict_loop fuel (popped c)
    ]
  ]
]

-- The first key of the map, where it is not the empty text (`if (fallback)`).
pub fallback : Map ℤ → Option Text
fallback [] = none
fallback (([], z) ∷ m) = none
fallback ((a ∷ key, z) ∷ m) = some (a ∷ key)

pub evict_fallback : ReplayCache → ReplayCache
evict_fallback c =
    if leb c.max_entries (Map.size c.entries)
    then elim (fallback c.entries) [ none ↦ c | some key ↦ forget key c ]
    else c

pub evict_one : ReplayCache → ReplayCache
evict_one c =
    let (c', returned) = evict_loop (length c.expiries) c in
    if returned then c' else evict_fallback c'

-- `entries.set(key, expiresAt); expiries.push({ key, expiresAt })`
pub reserve : ReplayCache → Text → ℤ → ReplayCache
reserve c key expires_at = record c {
  entries = Map.set key expires_at c.entries;
  expiries = Heap.push c.expiries (record { key = key; expires_at = expires_at });
}

-- The stored expiry is finite: only `reserve` stores one.
pub is_live : Option ℤ → ℤ → Bool
is_live none now = false
is_live (some z) now = ltb_ℤ now z

pub admit : ReplayCache → Text → Number → ReplayCache × ReplayCheckResult
admit c key non_finite = (c, not_trackable)
admit c key (finite expires_at) =
    (reserve (if leb c.max_entries (Map.size c.entries) then evict_one c else c) key expires_at, ok)

unfoldable pub expires_at : ProtocolEnvelope → Number
expires_at envelope = add_number envelope.header.timestamp_ms envelope.header.ttl_ms

pub consume : ReplayCache → ProtocolEnvelope → ℤ → ReplayCache × ReplayCheckResult
consume c envelope now =
    let c' = prune c now in
    let key = make_key envelope in
    if is_live (Map.get key c'.entries) now
    then (c', replay_detected)
    else admit c' key (expires_at envelope)

-- `envelopes.map(e => this.consume(e, nowMs))`, in order on the one cache
pub consume_many : ReplayCache → List ProtocolEnvelope → ℤ → ReplayCache × List ReplayCheckResult
consume_many c [] now = (c, [])
consume_many c (envelope ∷ envelopes) now =
    let (c', first) = consume c envelope now in
    let (c'', rest) = consume_many c' envelopes now in (c'', first ∷ rest)
