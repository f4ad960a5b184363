-- ===== src/Keys/Revocation/Key.antt =====
-- `makeKey` joins sender and key id by a space: it keeps them apart for senders without a space only.
use h3_protocol.Keys.Revocation.{RevocationStore, space, make_key, lasts, is_revoked, revoke}
use h3_protocol.Prelude.Int.{ℤ, ◌≤ℤ◌}
use h3_protocol.Prelude.Lists.{All}
use h3_protocol.Prelude.Map
use h3_protocol.Prelude.Texts.{Text, text_eq_refl}
use h3_protocol.Prelude.{◌≡◌, ◌≢◌, refl, ap, false, none, some, [], ◌∷◌, ◌++◌, arith}

abbrev pub HasNoSpace : Text → Type 0
HasNoSpace = All (λ u. u ≢ 32)

-- The keys of two pairs agree only for equal pairs, where the senders hold no space.
pub make_key-separates :
    (sender other key_id other_id : Text)
    → HasNoSpace sender
    → HasNoSpace other
    → make_key sender key_id ≡ make_key other other_id
    → (sender ≡ other) × (key_id ≡ other_id)
unfolding make_key
make_key-separates [] [] key_id other_id h h' e = (refl, ground arith)
make_key-separates [] (u ∷ other) key_id other_id h (ne, h') e = ground arith
make_key-separates (u ∷ sender) [] key_id other_id (ne, h) h' e = ground arith
make_key-separates (u ∷ sender) (v ∷ other) key_id other_id (_, h) (_, h') e =
    let (same, same_id) = make_key-separates sender other key_id other_id h h' (ground arith) in
    (ground arith, same_id)

pub make_key-collides :
    (sender middle key_id : Text)
    → make_key (sender ++ (space ++ middle)) key_id ≡ make_key sender (middle ++ (space ++ key_id))
unfolding make_key
make_key-collides [] middle key_id = refl
make_key-collides (u ∷ sender) middle key_id =
    ap (λ s. u ∷ s) (make_key-collides sender middle key_id)

ended :
    (store : RevocationStore) (sender key_id : Text) (until now : ℤ)
    → until ≤ℤ now
    → Map.get (make_key sender key_id) store.revoked ≡ some (some until)
    → (is_revoked store sender key_id now).1 ≡ false
unfolding is_revoked lasts
ended store sender key_id until now late held = ground arith

-- A temporary revocation of one pair ends a permanent one of another: where a sender holds a space,
-- the pair that splits the same text at that space shares its entry, and revoking that pair until a
-- time makes the first pair valid again from that time on.
pub temporary_lifts_permanent :
    (store : RevocationStore) (sender middle key_id : Text) (until now : ℤ)
    → until ≤ℤ now
    → (is_revoked
        (revoke
          (revoke store (sender ++ (space ++ middle)) key_id none)
          sender
          (middle ++ (space ++ key_id))
          (some until))
        (sender ++ (space ++ middle))
        key_id
        now).1
      ≡ false
temporary_lifts_permanent store sender middle key_id until now late =
    let k = make_key sender (middle ++ (space ++ key_id)) in
    let first = revoke store (sender ++ (space ++ middle)) key_id none in
    ended (revoke first sender (middle ++ (space ++ key_id)) (some until))
      (sender ++ (space ++ middle)) key_id until now late
      (rw (make_key-collides sender middle key_id) (
        unfold revoke in
        ground (arith, Map.get-set k k (some until) first.revoked, text_eq_refl k)))
