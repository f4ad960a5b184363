-- ===== src/Replay/Redis/Tests.antt =====
-- Runs of `InMemoryRedisLikeClient`, and its theorem at a concrete input.
use h3_protocol.Prelude.Int.{pos, ◌+ℤ◌}
use h3_protocol.Prelude.Map
use h3_protocol.Prelude.Texts.{codes, text_eq}
use h3_protocol.Prelude.{◌≡◌, refl, inl, true, false, some, List, [], ◌∷◌, arith}
use h3_protocol.Replay.Redis.{
  RedisSetOptions, InMemoryRedisLikeClient, PipelineCommand, is_over, is_found, live, put, set,
  exec,
}
use h3_protocol.Replay.Redis.Once.{Command, setting, getting, run, set_nx_once}

abbrev bare : InMemoryRedisLikeClient
bare = record { entries = [] }

abbrev lock : RedisSetOptions
lock = record { nx = true; px_ms = some (pos 50) }

-- A second attempt while the first holds, and one after it has ended.
abbrev attempts : List PipelineCommand
attempts =
    record { key = codes "k"; value = codes "1"; options = lock; now = pos 10 }
    ∷ record { key = codes "k"; value = codes "2"; options = lock; now = pos 59 }
    ∷ record { key = codes "k"; value = codes "3"; options = lock; now = pos 60 }
    ∷ []

third_writes : (exec bare attempts).1 ≡ true ∷ false ∷ true ∷ []
unfolding exec set put live is_over is_found Map.get Map.set Map.delete text_eq ◌+ℤ◌
third_writes = refl

first_written : (set bare (codes "k") (codes "1") lock (pos 10)).1 ≡ true
unfolding set put live is_over is_found Map.get
first_written = refl

abbrev between : List Command
between = getting (codes "k") (pos 20) ∷ setting (codes "k") (codes "2") lock (pos 30) ∷ []

set_nx_once_example :
    (set
      (run (set bare (codes "k") (codes "1") lock (pos 10)).0 between)
      (codes "k")
      (codes "3")
      lock
      (pos 59)).1
    ≡ false
unfolding ◌+ℤ◌
set_nx_once_example =
    set_nx_once bare (codes "k") (codes "1") (codes "3") lock lock (pos 50) (pos 10) (pos 59)
      between refl first_written (omega arith, ((omega arith, inl refl), tt)) refl (omega arith)
