-- ===== src/Keys/Ring/Revoke.antt =====
-- What `revoke` does to the keys that verify: it reaches the first record of the key only.
use h3_protocol.Envelope.{Alg, ProtocolSignature}
use h3_protocol.Keys.Ring.{
  KeyRecord, RollingKeyring, add, is_key, is_active, is_revoked, revoke_record, revoke_first,
  revoke, sort_newest, head_record, can_sign, can_verify, select_signing_key,
  resolve_verification_material,
}
use h3_protocol.Keys.Ring.Newest.{Member, IsNewest, select_signing_key-IsNewest}
use h3_protocol.Prelude.Int.{ℤ}
use h3_protocol.Prelude.Lists.{All, All-append, filter, length}
use h3_protocol.Prelude.Texts.{Text, text_eq_iff}
use mathlib.Core.Path.{subst}
use h3_protocol.Prelude.{
  ◌≤◌, ◌≡◌, ◌≢◌, refl, inl, inr, true, false, none, some, List, [], ◌∷◌, arith, Bool-cases,
}

-- The records of the key.
abbrev pub key_records : Text → Text → List KeyRecord → List KeyRecord
key_records sender key_id = filter (is_key sender key_id)

-- A record that its key's revocation has reached, or of another key.
abbrev IsBlocked : Text → Text → KeyRecord → Type 0
IsBlocked sender key_id r = is_key sender key_id r ≡ true → is_revoked r.status ≡ true

none-IsBlocked :
    (sender key_id : Text) (rs : List KeyRecord)
    → length (key_records sender key_id rs) ≤ 0
    → All (IsBlocked sender key_id) rs
unfolding filter
none-IsBlocked sender key_id [] h = tt
none-IsBlocked sender key_id (r ∷ rs) h = elim (Bool-cases (is_key sender key_id r)) [
  | inl own ↦ ground arith
  | inr other ↦
      ((λ e. ground (arith, other)), none-IsBlocked sender key_id rs (ground (arith, other)))
]

first-IsBlocked :
    (sender key_id : Text) (at : ℤ) (rs : List KeyRecord)
    → length (key_records sender key_id rs) ≤ 1
    → All (IsBlocked sender key_id) (revoke_first sender key_id at rs).0
unfolding filter revoke_first revoke_record
first-IsBlocked sender key_id at [] h = tt
first-IsBlocked sender key_id at (r ∷ rs) h = elim (Bool-cases (is_key sender key_id r)) [
  | inl own ↦
      rw own
        ((λ e. unfold is_revoked in refl), none-IsBlocked sender key_id rs (ground (arith, own)))
  | inr other ↦
      rw other
        ((λ e. ground (arith, other)), first-IsBlocked sender key_id at rs (ground (arith, other)))
]

blocked_verify :
    (signature : ProtocolSignature) (sender : Text) (now : ℤ) (rs : List KeyRecord)
    → All (IsBlocked sender signature.key_id) rs
    → filter (can_verify signature sender now) rs ≡ []
unfolding filter can_verify
blocked_verify signature sender now [] h = refl
blocked_verify signature sender now (r ∷ rs) (own, h) =
    ground (arith, own, blocked_verify signature sender now rs h)

-- A later change of the ring.
pub data Step : Type 0 where
  adding : KeyRecord → Step
  revoking : Text → Text → ℤ → Step

unfoldable pub step : RollingKeyring → Step → RollingKeyring
step ring (adding r) = add ring r
step ring (revoking sender key_id at) = (revoke ring sender key_id at).0

unfoldable pub run : RollingKeyring → List Step → RollingKeyring
run ring [] = ring
run ring (s ∷ steps) = run (step ring s) steps

-- No new record of the key.
abbrev pub SparesKey : Text → Text → Step → Type 0
SparesKey sender key_id (adding r) = is_key sender key_id r ≡ false
SparesKey sender key_id (revoking s k at) = Unit

revoke-IsBlocked :
    (sender key_id s k : Text) (at : ℤ) (rs : List KeyRecord)
    → All (IsBlocked sender key_id) rs
    → All (IsBlocked sender key_id) (revoke_first s k at rs).0
unfolding revoke_first
revoke-IsBlocked sender key_id s k at [] h = tt
revoke-IsBlocked sender key_id s k at (r ∷ rs) (own, h) = elim (Bool-cases (is_key s k r)) [
  | inl found ↦ rw found ((λ e. unfold revoke_record is_revoked in refl), h)
  | inr other ↦ rw other (own, revoke-IsBlocked sender key_id s k at rs h)
]

run-IsBlocked :
    (sender key_id : Text) (ring : RollingKeyring) (steps : List Step)
    → All (SparesKey sender key_id) steps
    → All (IsBlocked sender key_id) ring.records
    → All (IsBlocked sender key_id) (run ring steps).records
unfolding run step add revoke
run-IsBlocked sender key_id ring [] spare h = h
run-IsBlocked sender key_id ring (adding r ∷ steps) (own, spare) h =
    run-IsBlocked sender key_id (add ring r) steps spare (
      All-append (IsBlocked sender key_id) ring.records (r ∷ []) h ((λ e. ground (arith, own)), tt))
run-IsBlocked sender key_id ring (revoking s k at ∷ steps) (own, spare) h =
    run-IsBlocked sender key_id (revoke ring s k at).0 steps spare
      (revoke-IsBlocked sender key_id s k at ring.records h)

blocked-Member :
    (sender key_id : Text) (r : KeyRecord) (rs : List KeyRecord)
    → All (IsBlocked sender key_id) rs
    → Member r rs
    → is_key sender key_id r ≡ true
    → is_revoked r.status ≡ true
blocked-Member sender key_id r [] h member e = elim member [ ]
blocked-Member sender key_id r (s ∷ rs) (own, h) (inl same) e = rw same (own (rw (← same) e))
blocked-Member sender key_id r (s ∷ rs) (own, h) (inr later) e =
    blocked-Member sender key_id r rs h later e

signs_revoked :
    (r : KeyRecord) (sender key_id : Text) (alg : Alg) (now : ℤ)
    → can_sign sender alg now r ≡ true
    → r.key_id ≡ key_id
    → (is_key sender key_id r ≡ true → is_revoked r.status ≡ true)
    → ⊥
unfolding can_sign is_key is_active is_revoked
signs_revoked r sender key_id alg now passed same blocked =
    ground (arith, text_eq_iff r.sender sender, text_eq_iff r.key_id key_id)

blocked_sign :
    (ring : RollingKeyring) (sender key_id : Text) (alg : Alg) (now : ℤ) (r : KeyRecord)
    → All (IsBlocked sender key_id) ring.records
    → select_signing_key ring sender alg now ≡ some r
    → r.key_id ≢ key_id
blocked_sign ring sender key_id alg now r h selected =
    let (member, passed, best) =
      subst (IsNewest (can_sign sender alg now) ring.records) selected
        (select_signing_key-IsNewest ring sender alg now) in
    λ same.
      signs_revoked r sender key_id alg now passed same
        (blocked-Member sender key_id r ring.records h member)

-- After revoke of a key that has at most one record in the ring, no signature under that key finds
-- verification material at any time, and selectSigningKey never returns that key for its sender,
-- whatever is revoked or added afterwards, as long as no new record of the key is added.
pub revoked_key_is_dead :
    (ring : RollingKeyring) (signature : ProtocolSignature) (sender : Text) (at now : ℤ) (alg : Alg)
    (steps : List Step)
    → length (key_records sender signature.key_id ring.records) ≤ 1
    → All (SparesKey sender signature.key_id) steps
    → (resolve_verification_material
          (run (revoke ring sender signature.key_id at).0 steps)
          signature
          sender
          now
        ≡ none)
      × ((r : KeyRecord)
          → select_signing_key (run (revoke ring sender signature.key_id at).0 steps) sender alg now
            ≡ some r
          → r.key_id ≢ signature.key_id)
unfolding resolve_verification_material sort_newest head_record revoke
revoked_key_is_dead ring signature sender at now alg steps single spare =
    let ring' = run (revoke ring sender signature.key_id at).0 steps in
    let blocked =
      run-IsBlocked sender signature.key_id (revoke ring sender signature.key_id at).0 steps spare
        (first-IsBlocked sender signature.key_id at ring.records single) in
    (
      ground (arith, blocked_verify signature sender now ring'.records blocked),
      λ r. blocked_sign ring' sender signature.key_id alg now r blocked,
    )

-- A second record of a revoked key still verifies: after revoke, what a signature under the key
-- resolves to is decided by the records behind the first one of the key.
pub revoke_spares_second :
    (first : KeyRecord) (rest : List KeyRecord) (signature : ProtocolSignature) (sender : Text)
    (at now : ℤ)
    → is_key sender signature.key_id first ≡ true
    → resolve_verification_material
        (revoke (record { records = first ∷ rest }) sender signature.key_id at).0
        signature
        sender
        now
      ≡ resolve_verification_material (record { records = rest }) signature sender now
unfolding resolve_verification_material revoke revoke_first filter can_verify is_revoked
    revoke_record is_key
revoke_spares_second first rest signature sender at now own = ground (arith, own)
