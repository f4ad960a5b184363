-- ===== src/Keys/Ring/Tests.antt =====
-- Runs of `RollingKeyring`, and its theorems at concrete inputs.
use h3_protocol.Envelope.{hs256, ed25519, ProtocolSignature}
use h3_protocol.Keys.Ring.{
  KeyRecord, RollingKeyring, active, hs256_secret, ed25519_public_key, alg_eq, is_key, is_active,
  is_revoked, is_current, revoke, revoke_first, revoke_record, insert_newest, sort_newest,
  head_record, can_sign, can_verify, select_signing_key, resolve_verification_material,
}
use h3_protocol.Keys.Ring.Revoke.{Step, revoking, run, revoked_key_is_dead, revoke_spares_second}
use h3_protocol.Prelude.Int.{pos}
use h3_protocol.Prelude.Lists.{filter}
use h3_protocol.Prelude.Texts.{codes, text_eq}
use h3_protocol.Prelude.{◌≡◌, ◌≢◌, refl, none, some, List, [], ◌∷◌, arith}

abbrev old_key : KeyRecord
old_key = record {
  sender = codes "a";
  key_id = codes "k1";
  alg = ed25519;
  status = active;
  not_before_ms = pos 0;
  not_after_ms = pos 100;
  material = ed25519_public_key (codes "x");
}

abbrev new_key : KeyRecord
new_key = record old_key { key_id = codes "k2"; not_before_ms = pos 50 }

-- The key id of `old_key` again, for the other algorithm.
abbrev twin : KeyRecord
twin = record old_key { alg = hs256; material = hs256_secret (codes "s") }

abbrev ring : RollingKeyring
ring = record { records = old_key ∷ new_key ∷ [] }

abbrev signature : ProtocolSignature
signature = record { alg = hs256; key_id = codes "k1"; value = codes "v" }

abbrev steps : List Step
steps = revoking (codes "a") (codes "k2") (pos 70) ∷ []

newest_signs : select_signing_key ring (codes "a") ed25519 (pos 60) ≡ some new_key
unfolding select_signing_key sort_newest insert_newest head_record can_sign filter alg_eq is_active
    is_current text_eq
newest_signs = refl

revoked_key_is_dead_example :
    (resolve_verification_material
        (run (revoke ring (codes "a") (codes "k1") (pos 60)).0 steps)
        signature
        (codes "a")
        (pos 65)
      ≡ none)
    × ((r : KeyRecord)
        → select_signing_key
            (run (revoke ring (codes "a") (codes "k1") (pos 60)).0 steps)
            (codes "a")
            ed25519
            (pos 65)
          ≡ some r
        → r.key_id ≢ codes "k1")
unfolding filter is_key text_eq
revoked_key_is_dead_example =
    revoked_key_is_dead ring signature (codes "a") (pos 60) (pos 65) ed25519 steps (omega arith)
      (tt, tt)

revoke_spares_second_example :
    resolve_verification_material
      (revoke (record { records = old_key ∷ twin ∷ [] }) (codes "a") (codes "k1") (pos 60)).0
      signature
      (codes "a")
      (pos 65)
    ≡ resolve_verification_material (record { records = twin ∷ [] }) signature (codes "a") (pos 65)
unfolding is_key text_eq
revoke_spares_second_example =
    revoke_spares_second old_key (twin ∷ []) signature (codes "a") (pos 60) (pos 65) refl

twin_verifies :
    resolve_verification_material
      (revoke (record { records = old_key ∷ twin ∷ [] }) (codes "a") (codes "k1") (pos 60)).0
      signature
      (codes "a")
      (pos 65)
    ≡ some (hs256_secret (codes "s"))
unfolding revoke revoke_first resolve_verification_material sort_newest insert_newest head_record
    can_verify filter alg_eq is_key is_revoked is_current text_eq revoke_record
twin_verifies = refl
