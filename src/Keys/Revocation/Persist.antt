-- ===== src/Keys/Revocation/Persist.antt =====
-- A revocation holds until its end, whatever else is asked and revoked.
use h3_protocol.Keys.Revocation.{RevocationStore, make_key, lasts, is_revoked, revoke}
use h3_protocol.Prelude.Int.{ℤ}
use h3_protocol.Prelude.Lists.{All}
use h3_protocol.Prelude.Map
use h3_protocol.Prelude.Texts.{Text, text_eq_iff, text_eq_refl}
use h3_protocol.Prelude.{◌≡◌, ◌≢◌, true, Option, some, List, [], ◌∷◌, arith}

-- A call on the store.
pub data Step : Type 0 where
  asking : Text → Text → ℤ → Step
  revoking : Text → Text → Option ℤ → Step

unfoldable pub step : RevocationStore → Step → RevocationStore
step store (asking sender key_id now) = (is_revoked store sender key_id now).0
step store (revoking sender key_id until) = revoke store sender key_id until

unfoldable pub run : RevocationStore → List Step → RevocationStore
run store [] = store
run store (s ∷ steps) = run (step store s) steps

-- The call comes before the revocation's end, or is a revocation under another joined key.
abbrev pub SparesEntry : Text → Option ℤ → Step → Type 0
SparesEntry key until (asking sender key_id now) = lasts until now ≡ true
SparesEntry key until (revoking sender key_id u) = make_key sender key_id ≢ key

step-keeps :
    (store : RevocationStore) (s : Step) (key : Text) (until : Option ℤ)
    → SparesEntry key until s
    → Map.get key store.revoked ≡ some until
    → Map.get key (step store s).revoked ≡ some until
unfolding step is_revoked revoke
step-keeps store (asking sender key_id now) key until live held = ground (
  arith,
  Map.get-delete (make_key sender key_id) key store.revoked,
  text_eq_iff (make_key sender key_id) key,
)
step-keeps store (revoking sender key_id u) key until other held = ground (
  arith,
  Map.get-set (make_key sender key_id) key u store.revoked,
  text_eq_iff (make_key sender key_id) key,
)

run-keeps :
    (store : RevocationStore) (steps : List Step) (key : Text) (until : Option ℤ)
    → All (SparesEntry key until) steps
    → Map.get key store.revoked ≡ some until
    → Map.get key (run store steps).revoked ≡ some until
unfolding run
run-keeps store [] key until spare held = held
run-keeps store (s ∷ steps) key until (own, spare) held =
    run-keeps (step store s) steps key until spare (step-keeps store s key until own held)

-- A revoked key is reported as revoked at every time before the revocation's end, or always for a
-- revocation without one, whatever is asked before that end and whatever pairs of a sender and a key id
-- are revoked in between, as long as `make_key` does not join such a pair to the text of this one. (Two
-- different pairs can be joined to one text.)
pub revocation_persists :
    (store : RevocationStore) (sender key_id : Text) (until : Option ℤ) (steps : List Step)
    (now : ℤ)
    → All (SparesEntry (make_key sender key_id) until) steps
    → lasts until now ≡ true
    → (is_revoked (run (revoke store sender key_id until) steps) sender key_id now).1 ≡ true
unfolding is_revoked
revocation_persists store sender key_id until steps now spare live =
    let k = make_key sender key_id in
    let held : Map.get k (revoke store sender key_id until).revoked ≡ some until =
      unfold revoke in ground (arith, Map.get-set k k until store.revoked, text_eq_refl k) in
    ground (arith, run-keeps (revoke store sender key_id until) steps k until spare held)
