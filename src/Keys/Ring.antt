-- ===== src/Keys/Ring.antt =====
-- `RollingKeyring` of src/keyRotation.ts. A record is a value here: a caller that changes a record
-- after `add` is not modelled. `sort` is the stable sort of the language, as an insertion sort.
pub mod Newest
pub mod Revoke
mod Tests
use h3_protocol.Envelope.{Alg, hs256, ed25519, ProtocolSignature}
use h3_protocol.Prelude.Int.{ℤ, ltb_ℤ, leb_ℤ}
use h3_protocol.Prelude.Lists.{filter}
use h3_protocol.Prelude.Texts.{Text, text_eq}
use h3_protocol.Prelude.{
  Bool, true, false, ◌&&◌, not, Option, none, some, List, [], ◌∷◌, ◌++◌, if◌then◌else◌,
}

pub data KeyStatus : Type 0 where
  active : KeyStatus
  verify_only : KeyStatus
  revoked : KeyStatus

pub data SignatureVerificationMaterial : Type 0 where
  hs256_secret : Text → SignatureVerificationMaterial
  ed25519_public_key : Text → SignatureVerificationMaterial

pub record KeyRecord : Type 0 where
  pub sender : Text
  pub key_id : Text
  pub alg : Alg
  pub status : KeyStatus
  pub not_before_ms : ℤ
  pub not_after_ms : ℤ
  pub material : SignatureVerificationMaterial

pub record RollingKeyring : Type 0 where
  pub records : List KeyRecord

unfoldable pub alg_eq : Alg → Alg → Bool
alg_eq hs256 hs256 = true
alg_eq ed25519 ed25519 = true
alg_eq _ _ = false

unfoldable pub is_active : KeyStatus → Bool
is_active active = true
is_active _ = false

unfoldable pub is_revoked : KeyStatus → Bool
is_revoked revoked = true
is_revoked _ = false

unfoldable pub add : RollingKeyring → KeyRecord → RollingKeyring
add ring r = record { records = ring.records ++ r ∷ [] }

-- `entry.sender === sender && entry.keyId === keyId`
unfoldable pub is_key : Text → Text → KeyRecord → Bool
is_key sender key_id r = text_eq r.sender sender && text_eq r.key_id key_id

-- The changes that `revoke` makes to the record it has found.
unfoldable pub revoke_record : ℤ → KeyRecord → KeyRecord
revoke_record revoked_at r = record r {
  status = revoked;
  not_after_ms = if leb_ℤ r.not_after_ms revoked_at then r.not_after_ms else revoked_at;
}

-- `find`, and the change in place: the records after it, and whether one was found.
unfoldable pub revoke_first : Text → Text → ℤ → List KeyRecord → List KeyRecord × Bool
revoke_first sender key_id revoked_at [] = ([], false)
revoke_first sender key_id revoked_at (r ∷ rs) =
    let (rs', found) = revoke_first sender key_id revoked_at rs in
    if is_key sender key_id r then (revoke_record revoked_at r ∷ rs, true) else (r ∷ rs', found)

unfoldable pub revoke : RollingKeyring → Text → Text → ℤ → RollingKeyring × Bool
revoke ring sender key_id revoked_at =
    let (records, found) = revoke_first sender key_id revoked_at ring.records in
    (record { records = records }, found)

unfoldable pub insert_newest : KeyRecord → List KeyRecord → List KeyRecord
insert_newest r [] = r ∷ []
insert_newest r (s ∷ rs) =
    let rest = insert_newest r rs in
    if leb_ℤ s.not_before_ms r.not_before_ms then r ∷ s ∷ rs else s ∷ rest

-- `.sort((a, b) => b.notBeforeMs - a.notBeforeMs)`
unfoldable pub sort_newest : List KeyRecord → List KeyRecord
sort_newest [] = []
sort_newest (r ∷ rs) = insert_newest r (sort_newest rs)

-- `candidates[0]`
unfoldable pub head_record : List KeyRecord → Option KeyRecord
head_record [] = none
head_record (r ∷ rs) = some r

-- `entry.notBeforeMs <= nowMs && nowMs < entry.notAfterMs`
unfoldable pub is_current : ℤ → KeyRecord → Bool
is_current now r = leb_ℤ r.not_before_ms now && ltb_ℤ now r.not_after_ms

unfoldable pub can_sign : Text → Alg → ℤ → KeyRecord → Bool
can_sign sender alg now r =
    text_eq r.sender sender && (alg_eq r.alg alg && (is_active r.status && is_current now r))

unfoldable pub select_signing_key : RollingKeyring → Text → Alg → ℤ → Option KeyRecord
select_signing_key ring sender alg now =
    head_record (sort_newest (filter (can_sign sender alg now) ring.records))

unfoldable pub can_verify : ProtocolSignature → Text → ℤ → KeyRecord → Bool
can_verify signature sender now r =
    is_key sender signature.key_id r
    && (alg_eq r.alg signature.alg && (not (is_revoked r.status) && is_current now r))

-- `candidates[0]?.material`
unfoldable pub resolve_verification_material :
    RollingKeyring → ProtocolSignature → Text → ℤ → Option SignatureVerificationMaterial
resolve_verification_material ring signature sender now =
    elim (head_record (sort_newest (filter (can_verify signature sender now) ring.records))) [
      | none ↦ none
      | some r ↦ some r.material
    ]
