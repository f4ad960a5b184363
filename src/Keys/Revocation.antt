-- ===== src/Keys/Revocation.antt =====
-- `InMemoryRevocationStore` of src/revocation.ts.
pub mod Key
pub mod Persist
mod Tests
use h3_protocol.Prelude.Int.{ℤ, ltb_ℤ}
use h3_protocol.Prelude.Map
use h3_protocol.Prelude.Map.{Map}
use h3_protocol.Prelude.Texts.{Text}
use h3_protocol.Prelude.{Bool, true, false, Option, none, some, List, [], ◌∷◌, ◌++◌, if◌then◌else◌}

-- `options.untilMs ?? Number.POSITIVE_INFINITY`: `none` is forever.
pub record RevocationStore : Type 0 where
  pub revoked : Map (Option ℤ)

abbrev pub space : Text
space = 32 ∷ []

unfoldable pub make_key : Text → Text → Text
make_key sender key_id = sender ++ (space ++ key_id)

-- `until <= nowMs`, for an entry.
unfoldable pub lasts : Option ℤ → ℤ → Bool
lasts none now = true
lasts (some until) now = ltb_ℤ now until

unfoldable pub is_revoked : RevocationStore → Text → Text → ℤ → RevocationStore × Bool
is_revoked store sender key_id now = elim (Map.get (make_key sender key_id) store.revoked) [
  | none ↦ (store, false)
  | some until ↦
      if lasts until now
      then (store, true)
      else (record { revoked = Map.delete (make_key sender key_id) store.revoked }, false)
]

unfoldable pub revoke : RevocationStore → Text → Text → Option ℤ → RevocationStore
revoke store sender key_id until = record {
  revoked = Map.set (make_key sender key_id) until store.revoked;
}
