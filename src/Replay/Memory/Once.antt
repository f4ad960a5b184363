-- ===== src/Replay/Memory/Once.antt =====
-- A key is reported fresh once in its lifetime, whatever other keys arrive.
use h3_protocol.Prelude.Int.{ℤ, pos, ◌+ℤ◌, ◌<ℤ◌, Number, finite, non_finite}
use h3_protocol.Prelude.Lists.{All}
use h3_protocol.Prelude.Map
use h3_protocol.Prelude.Map.{Map}
use h3_protocol.Prelude.Texts.{Text, text_eq_iff, text_eq_refl}
use h3_protocol.Prelude.{◌≤◌, ◌≡◌, refl, some, List, [], ◌∷◌, arith}
use h3_protocol.Replay.Memory.{
  MemoryReplayStore, fresh, replay, prune, is_live, check_positive, check,
}

-- Pruning keeps every entry that has not expired.
get-prune :
    (now : ℤ) (m : Map ℤ) (key : Text) (z : ℤ)
    → Map.get key m ≡ some z
    → now <ℤ z
    → Map.get key (prune now m) ≡ some z
unfolding prune Map.get
get-prune now [] key z h live = h
get-prune now ((k, w) ∷ m) key z h live = ground (arith, get-prune now m key z)

size-prune-le : (now : ℤ) (m : Map ℤ) → Map.size (prune now m) ≤ Map.size m
unfolding prune
size-prune-le now [] = omega arith
size-prune-le now ((k, w) ∷ m) = ground (arith, size-prune-le now m)

-- A live entry outlasts a call on any key.
check_positive-keeps :
    (s : MemoryReplayStore) (key other : Text) (ttl now z : ℤ)
    → Map.get key s.entries ≡ some z
    → now <ℤ z
    → Map.get key (check_positive s other ttl now).0.entries ≡ some z
unfolding check_positive is_live
check_positive-keeps s key other ttl now z held live = ground (
  arith,
  get-prune now s.entries key z held live,
  Map.get-set other key (now +ℤ ttl) s.entries,
  Map.get-set other key (now +ℤ ttl) (prune now s.entries),
  text_eq_iff other key,
)

check-keeps :
    (s : MemoryReplayStore) (key other : Text) (ttl : Number) (now z : ℤ)
    → Map.get key s.entries ≡ some z
    → now <ℤ z
    → Map.get key (check s other ttl now).0.entries ≡ some z
unfolding check
check-keeps s key other non_finite now z held live = held
check-keeps s key other (finite ttl) now z held live =
    ground (arith, check_positive-keeps s key other ttl now z held live)

pub record Call : Type 0 where
  pub key : Text
  pub ttl : Number
  pub now : ℤ

-- Calls of `check`, one after the other.
unfoldable pub run : MemoryReplayStore → List Call → MemoryReplayStore
run s [] = s
run s (c ∷ calls) = run (check s c.key c.ttl c.now).0 calls

run-keeps :
    (s : MemoryReplayStore) (calls : List Call) (key : Text) (z : ℤ)
    → Map.get key s.entries ≡ some z
    → All (λ c. c.now <ℤ z) calls
    → Map.get key (run s calls).entries ≡ some z
unfolding run
run-keeps s [] key z held before = held
run-keeps s (c ∷ calls) key z held (now, before) =
    run-keeps (check s c.key c.ttl c.now).0 calls key z
      (check-keeps s key c.key c.ttl c.now z held now) before

fresh_held :
    (s : MemoryReplayStore) (key : Text) (ttl now : ℤ)
    → (check s key (finite ttl) now).1 ≡ fresh
    → (Map.get key (check s key (finite ttl) now).0.entries ≡ some (now +ℤ ttl)) × (pos 0 <ℤ ttl)
unfolding check check_positive
fresh_held s key ttl now h = ground (
  arith,
  Map.get-set key key (now +ℤ ttl) s.entries,
  Map.get-set key key (now +ℤ ttl) (prune now s.entries),
  text_eq_refl key,
)

live_is_replay :
    (s : MemoryReplayStore) (key : Text) (ttl now z : ℤ)
    → Map.get key s.entries ≡ some z
    → now <ℤ z
    → pos 0 <ℤ ttl
    → (check s key (finite ttl) now).1 ≡ replay
unfolding check check_positive is_live
live_is_replay s key ttl now z held live positive = ground arith

-- After a key was reported fresh, each later call on it before its lifetime ends reports a replay,
-- whatever calls lie between.
pub fresh_once :
    (s : MemoryReplayStore) (key : Text) (ttl again now later : ℤ) (calls : List Call)
    → (check s key (finite ttl) now).1 ≡ fresh
    → All (λ c. c.now <ℤ now +ℤ ttl) calls
    → later <ℤ now +ℤ ttl
    → pos 0 <ℤ again
    → (check (run (check s key (finite ttl) now).0 calls) key (finite again) later).1 ≡ replay
fresh_once s key ttl again now later calls accepted before early positive =
    let (held, _) = fresh_held s key ttl now accepted in
    let s' = (check s key (finite ttl) now).0 in
    live_is_replay (run s' calls) key again later (now +ℤ ttl)
      (run-keeps s' calls key (now +ℤ ttl) held before) early positive

-- The store never holds more keys than its limit.
pub check_bounded :
    (s : MemoryReplayStore) (key : Text) (ttl : Number) (now : ℤ)
    → Map.size s.entries ≤ s.max_entries
    → Map.size (check s key ttl now).0.entries ≤ (check s key ttl now).0.max_entries
unfolding check check_positive
check_bounded s key non_finite now h = h
check_bounded s key (finite ttl) now h = ground (
  arith,
  size-prune-le now s.entries,
  Map.size-set-le key (now +ℤ ttl) s.entries,
  Map.size-set-le key (now +ℤ ttl) (prune now s.entries),
)

abbrev pub AllLive : ℤ → Map ℤ → Type 0
AllLive now = All (λ e. now <ℤ e.1)

prune_size : (now : ℤ) (m : Map ℤ) → AllLive now m → prune now m ≡ m
unfolding prune
prune_size now [] h = refl
prune_size now ((k, z) ∷ m) (live, h) = ground (arith, prune_size now m h)

-- A store full of live keys fails closed: every key is reported as a replay, and nothing changes.
pub full_fails_closed :
    (s : MemoryReplayStore) (key : Text) (ttl now : ℤ)
    → pos 0 <ℤ ttl
    → s.max_entries ≤ Map.size s.entries
    → AllLive now s.entries
    → check s key (finite ttl) now ≡ (s, replay)
unfolding check check_positive
full_fails_closed s key ttl now positive full live = ground (arith, prune_size now s.entries live)
