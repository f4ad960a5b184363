-- ===== src/Replay/Memory.antt =====
-- `MemoryReplayStore` of src/replayStores.ts: it refuses rather than forgets a live key.
pub mod Once
mod Tests
use h3_protocol.Prelude.Int.{ℤ, pos, ◌+ℤ◌, ◌≤ℤ◌, ltb_ℤ, leb_ℤ, +ℤ_parts, Number, finite, non_finite}
use h3_protocol.Prelude.Map
use h3_protocol.Prelude.Map.{Map}
use h3_protocol.Prelude.Texts.{Text, text_eq, text_eq_iff}
use h3_protocol.Prelude.{
  ℕ, ◌≤◌, ◌<◌, ◌≡◌, refl, inl, inr, Bool, true, false, Option, none, some, List, [], ◌∷◌, arith,
  leb, ltb, if◌then◌else◌, Bool-cases,
}

pub record MemoryReplayStore : Type 0 where
  pub entries : Map ℤ
  pub max_entries : ℕ

-- A call returns whether the key is a replay, or throws.
pub data CheckOutcome : Type 0 where
  fresh replay : CheckOutcome
  -- 'MemoryReplayStore: ttlMs must be positive'
  bad_ttl : CheckOutcome

-- The constructor; `none` for 'maxEntries must be a positive integer'.
pub make : ℕ → Option MemoryReplayStore
make max_entries =
    if ltb max_entries 1 then none else some (record { entries = []; max_entries = max_entries })

-- Deletes each expired entry while it walks over the map.
unfoldable pub prune : ℤ → Map ℤ → Map ℤ
prune now [] = []
prune now ((key, expires_at) ∷ m) =
    let rest = prune now m in if leb_ℤ expires_at now then rest else (key, expires_at) ∷ rest

unfoldable pub is_live : Option ℤ → ℤ → Bool
is_live none now = false
is_live (some z) now = ltb_ℤ now z

-- `check` after its test of `ttlMs`. The second prune test sees the pruned map.
unfoldable pub check_positive : MemoryReplayStore → Text → ℤ → ℤ → MemoryReplayStore × CheckOutcome
check_positive s key ttl now =
    if is_live (Map.get key s.entries) now
    then (s, replay)
    else let s' =
        if leb s.max_entries (Map.size s.entries)
        then record s { entries = prune now s.entries }
        else s in
      if leb s'.max_entries (Map.size s'.entries)
      then (s', replay)
      else (record s' { entries = Map.set key (now +ℤ ttl) s'.entries }, fresh)

unfoldable pub check : MemoryReplayStore → Text → Number → ℤ → MemoryReplayStore × CheckOutcome
check s key non_finite now = (s, bad_ttl)
check s key (finite ttl) now =
    if leb_ℤ ttl (pos 0) then (s, bad_ttl) else check_positive s key ttl now

-- The getter `size`: the live keys, after a prune.
unfoldable pub live_size : MemoryReplayStore → ℤ → MemoryReplayStore × ℕ
live_size s now =
    let entries = prune now s.entries in (record s { entries = entries }, Map.size entries)
