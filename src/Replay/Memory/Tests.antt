-- ===== src/Replay/Memory/Tests.antt =====
-- The theorems on `MemoryReplayStore` at concrete inputs.
use h3_protocol.Prelude.Int.{pos, finite, ◌+ℤ◌}
use h3_protocol.Prelude.Map
use h3_protocol.Prelude.Texts.{codes}
use h3_protocol.Prelude.{◌≡◌, refl, [], ◌∷◌, arith}
use h3_protocol.Replay.Memory.{MemoryReplayStore, fresh, replay, is_live, check, check_positive}
use h3_protocol.Replay.Memory.Once.{run, fresh_once}

abbrev bare : MemoryReplayStore
bare = record { entries = []; max_entries = 1 }

-- One key that lives until 100.
abbrev full : MemoryReplayStore
full = record { entries = (codes "k", pos 100) ∷ []; max_entries = 1 }

first_is_fresh : (check bare (codes "k") (finite (pos 60)) (pos 10)).1 ≡ fresh
unfolding check check_positive is_live Map.get
first_is_fresh = refl

fresh_once_example :
    (check
      (run
        (check bare (codes "k") (finite (pos 60)) (pos 10)).0
        (record { key = codes "j"; ttl = finite (pos 5); now = pos 20 } ∷ []))
      (codes "k")
      (finite (pos 60))
      (pos 30)).1
    ≡ replay
unfolding ◌+ℤ◌
fresh_once_example =
    fresh_once bare (codes "k") (pos 60) (pos 60) (pos 10) (pos 30)
      (record { key = codes "j"; ttl = finite (pos 5); now = pos 20 } ∷ []) first_is_fresh
      (omega arith) (omega arith) (omega arith)
