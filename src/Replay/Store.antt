-- ===== src/Replay/Store.antt =====
-- The interface `ReplayStore` of src/replayStores.ts, and `MemoryReplayStore` as one.
use h3_protocol.Prelude.Int.{ℤ, finite}
use h3_protocol.Prelude.Texts.{Text}
use h3_protocol.Prelude.{Bool, true, false, Option, none, some}
use h3_protocol.Replay.Memory.{MemoryReplayStore, CheckOutcome, fresh, replay, bad_ttl, check}

pub record ReplayStore : Type 1 where
  pub State : Type 0
  -- `check(key, ttlMs)`: whether the key is a replay, `none` where it throws.
  pub check_key : State → Text → ℤ → State × Option Bool

abbrev pub is_replay : CheckOutcome → Option Bool
is_replay fresh = some false
is_replay replay = some true
is_replay bad_ttl = none

-- The clock of the store reads `now`.
abbrev pub memory_store : ℤ → ReplayStore
memory_store now = record {
  State = MemoryReplayStore;
  check_key =
      λ s key ttl. let (s', outcome) = check s key (finite ttl) now in (s', is_replay outcome);
}
