-- ===== src/Crypto/Echo.antt =====
-- Instances of `WebCrypto` for tests. In `echo`, hashing and base64 change nothing, and a signature is the data
-- itself, up to the letters that base64url exchanges; in
-- `checksum` it is four letters that tell the first byte of the data, and a hash is
-- eight times these.
use h3_protocol.Crypto.{
  WebCrypto, Bytes, base64_unit, base64_url_unit, padding, strip_padding, to_base64_url,
  from_base64_url, encode_text, sign_canonical_payload, verify_canonical_payload,
}
use h3_protocol.Prelude.Arrays.{get_or}
use h3_protocol.Prelude.Lists.{length}
use h3_protocol.Prelude.Texts.{Text, text_eq, text_eq_refl}
use h3_protocol.Prelude.{◌≡◌, ap, ◌+◌, ◌-◌, ◌%◌, true, some, [], ◌∷◌, ◌++◌, map, arith}

abbrev pub padded : Bytes → Bytes
padded d = map base64_unit d ++ padding ((4 - length d % 4) % 4)

abbrev pub echo : WebCrypto
echo = record {
  CryptoKey = Unit;
  to_base64 = λ b. b;
  from_base64 = λ t. t;
  import_spki = λ b. some tt;
  import_pkcs8 = λ b. some tt;
  sha256 = λ b. b;
  sign = λ k d. d;
  verify = λ k s d. text_eq s (padded d);
}

abbrev pub letters : Bytes → Bytes
letters d = let u = 97 + get_or d 0 0 % 26 in u ∷ u ∷ u ∷ u ∷ []

abbrev pub hash : Bytes → Bytes
hash d = let w = letters d in w ++ w ++ w ++ w ++ w ++ w ++ w ++ w

abbrev pub checksum : WebCrypto
checksum = record echo {
  sha256 = hash;
  sign = λ k d. letters d;
  verify = λ k s d. text_eq s (letters d);
}

letters_survive :
    (d : Bytes) → from_base64_url checksum (to_base64_url checksum (letters d)) ≡ letters d
unfolding from_base64_url to_base64_url strip_padding base64_unit base64_url_unit padding get_or
letters_survive d = ground arith

-- Every pair of texts is a pair of keys.
pub checksum-pair :
    (private_key public_key payload signature : Text)
    → sign_canonical_payload checksum payload private_key ≡ some signature
    → verify_canonical_payload checksum payload signature public_key ≡ some true
unfolding sign_canonical_payload verify_canonical_payload
checksum-pair private_key public_key payload signature h =
    let same : to_base64_url checksum (letters (encode_text payload)) ≡ signature = cc in
    rw (← same) (
      rw (letters_survive (encode_text payload))
        (ap some (text_eq_refl (letters (encode_text payload)))))
