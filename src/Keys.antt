-- ===== src/Keys.antt =====
-- Keys: the rolling keyring of src/keyRotation.ts and the revocation lists of src/revocation.ts.
pub mod Ring
pub mod Revocation
