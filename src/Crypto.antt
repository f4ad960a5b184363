-- ===== src/Crypto.antt =====
-- The signing functions of src/protocol.ts over what they call of Web Crypto and of Node's `Buffer`,
-- the record `WebCrypto`. The caches of imported keys only save the second import of the same text.
pub mod Echo
use h3_protocol.Prelude.Lists.{length}
use h3_protocol.Prelude.Texts.{Text}
use h3_protocol.Prelude.{
  ℕ, ◌≡◌, zero, suc, ◌-◌, ◌%◌, Bool, true, false, not, ◌&&◌, Option, none, some, List, [], ◌∷◌,
  ◌++◌, map, ◌==◌, if◌then◌else◌,
}
use h3_protocol.Replay.Cache.Key.{utf8}

abbrev pub Bytes : Type 0
Bytes = List ℕ

pub record WebCrypto : Type 1 where
  pub CryptoKey : Type 0
  -- `Buffer.from(bytes).toString('base64')` and `Buffer.from(text, 'base64')`
  pub to_base64 : Bytes → Text
  pub from_base64 : Text → Bytes
  -- `importKey('spki', …)` and `importKey('pkcs8', …)`, `none` where it throws.
  pub import_spki : Bytes → Option CryptoKey
  pub import_pkcs8 : Bytes → Option CryptoKey
  pub sha256 : Bytes → Bytes
  -- `sign('Ed25519', key, data)`
  pub sign : CryptoKey → Bytes → Bytes
  -- `verify('Ed25519', key, signature, data)`
  pub verify : CryptoKey → Bytes → Bytes → Bool

-- `TextEncoder.encode`
unfoldable pub encode_text : Text → Bytes
encode_text [] = []
encode_text (c ∷ s) = utf8 c ++ encode_text s

-- `.replace(/-/g, '+').replace(/_/g, '/')`
unfoldable pub base64_unit : ℕ → ℕ
base64_unit u = if u == b'-' then b'+' else if u == b'_' then b'/' else u

-- `n` signs `=`.
unfoldable pub padding : ℕ → Text
padding zero = []
padding (suc n) = b'=' ∷ padding n

-- `fromBase64Url`: `padEnd` to the next multiple of 4.
unfoldable pub from_base64_url : WebCrypto → Text → Bytes
from_base64_url web value =
    web.from_base64 (map base64_unit value ++ padding ((4 - length value % 4) % 4))

-- `.replace(/\+/g, '-').replace(/\//g, '_')`
unfoldable pub base64_url_unit : ℕ → ℕ
base64_url_unit u = if u == b'+' then b'-' else if u == b'/' then b'_' else u

-- `.replace(/=+$/g, '')`
unfoldable pub strip_padding : Text → Text
strip_padding [] = []
strip_padding (c ∷ s) =
    let rest = strip_padding s in
    if c == b'=' then (elim rest [ [] ↦ [] | d ∷ t ↦ c ∷ d ∷ t ]) else c ∷ rest

unfoldable pub to_base64_url : WebCrypto → Bytes → Text
to_base64_url web bytes = strip_padding (map base64_url_unit (web.to_base64 bytes))

-- `signCanonicalPayloadEd25519`, `none` where the key cannot be imported.
unfoldable pub sign_canonical_payload : WebCrypto → Text → Text → Option Text
sign_canonical_payload web payload private_key =
    elim (web.import_pkcs8 (from_base64_url web private_key)) [
      | none ↦ none
      | some key ↦ some (to_base64_url web (web.sign key (encode_text payload)))
    ]

-- `verifyCanonicalPayloadEd25519`, `none` where the key cannot be imported.
unfoldable pub verify_canonical_payload : WebCrypto → Text → Text → Text → Option Bool
verify_canonical_payload web payload signature public_key =
    elim (web.import_spki (from_base64_url web public_key)) [
      | none ↦ none
      | some key ↦ some (web.verify key (from_base64_url web signature) (encode_text payload))
    ]

-- What the private key signs verifies with the public key, and both keys can be imported.
abbrev pub IsKeyPair : WebCrypto → Text → Text → Type 0
IsKeyPair web private_key public_key =
    (payload signature : Text)
    → sign_canonical_payload web payload private_key ≡ some signature
    → verify_canonical_payload web payload signature public_key ≡ some true
