-- ===== src/Keys/Revocation/Tests.antt =====
-- Runs of `InMemoryRevocationStore`, and its theorems at concrete inputs.
use h3_protocol.Keys.Revocation.{RevocationStore, space, make_key, lasts, is_revoked, revoke}
use h3_protocol.Keys.Revocation.Key.{temporary_lifts_permanent}
use h3_protocol.Keys.Revocation.Persist.{Step, asking, revoking, run, revocation_persists}
use h3_protocol.Prelude.Int.{pos}
use h3_protocol.Prelude.Map
use h3_protocol.Prelude.Texts.{codes, text_eq}
use h3_protocol.Prelude.{◌≡◌, ◌≢◌, refl, true, false, none, some, List, [], ◌∷◌, ◌++◌, arith}

abbrev bare : RevocationStore
bare = record { revoked = [] }

abbrev steps : List Step
steps = asking (codes "a") (codes "k") (pos 50) ∷ revoking (codes "b") (codes "k") none ∷ []

ends_at_its_time :
    (is_revoked
      (revoke bare (codes "a") (codes "k") (some (pos 100)))
      (codes "a")
      (codes "k")
      (pos 100)).1
    ≡ false
unfolding is_revoked revoke lasts make_key Map.get Map.set text_eq
ends_at_its_time = refl

keys_differ : make_key (codes "b") (codes "k") ≢ make_key (codes "a") (codes "k")
unfolding make_key
keys_differ = ground arith

revocation_persists_example :
    (is_revoked
      (run (revoke bare (codes "a") (codes "k") (some (pos 100))) steps)
      (codes "a")
      (codes "k")
      (pos 99)).1
    ≡ true
unfolding lasts
revocation_persists_example =
    revocation_persists bare (codes "a") (codes "k") (some (pos 100)) steps (pos 99)
      (refl, (keys_differ, tt)) refl

temporary_lifts_permanent_example :
    (is_revoked
      (revoke
        (revoke bare (codes "a" ++ (space ++ codes "b")) (codes "k") none)
        (codes "a")
        (codes "b" ++ (space ++ codes "k"))
        (some (pos 10)))
      (codes "a" ++ (space ++ codes "b"))
      (codes "k")
      (pos 20)).1
    ≡ false
temporary_lifts_permanent_example =
    temporary_lifts_permanent bare (codes "a") (codes "b") (codes "k") (pos 10) (pos 20)
      (omega arith)
