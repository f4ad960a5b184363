-- ===== src/Replay/Cache/Key.antt =====
-- `makeKey`: the key of an envelope in a replay store.
pub mod Utf8
pub mod Escape
pub mod Injective
use h3_protocol.Prelude.Texts.{Text}
use h3_protocol.Prelude.{
  ℕ, ◌+◌, ◌*◌, ◌/◌, ◌%◌, Bool, ◌&&◌, ◌||◌, List, [], ◌∷◌, ◌++◌, leb, ltb, ◌==◌, if◌then◌else◌,
}
use h3_protocol.Envelope.{ProtocolEnvelope}

-- The characters that `encodeURIComponent` leaves: letters, digits and - _ . ! ~ * ' ( ).
unfoldable pub is_unreserved : ℕ → Bool
is_unreserved c =
    leb b'0' c && leb c b'9'
    || leb b'A' c && leb c b'Z'
    || leb b'a' c && leb c b'z'
    || c == b'-'
    || c == b'_'
    || c == b'.'
    || c == b'!'
    || c == b'~'
    || c == b'*'
    || c == 0x27
    || c == b'('
    || c == b')'

unfoldable pub hex_digit : ℕ → ℕ
hex_digit d = if ltb d 10 then 48 + d else 55 + d

-- `%XX` for one byte.
unfoldable pub percent : ℕ → Text
percent b = b'%' ∷ hex_digit (b / 16) ∷ hex_digit (b % 16) ∷ []

-- UTF-8 of one code point.
unfoldable pub utf8 : ℕ → List ℕ
utf8 c =
    if ltb c 0x80
    then c ∷ []
    else if ltb c 0x800
    then (0xc0 + c / 64) ∷ (0x80 + c % 64) ∷ []
    else if ltb c 0x10000
    then (0xe0 + c / 4096) ∷ (0x80 + c / 64 % 64) ∷ (0x80 + c % 64) ∷ []
    else (0xf0 + c / 262144) ∷ (0x80 + c / 4096 % 64) ∷ (0x80 + c / 64 % 64) ∷ (0x80 + c % 64) ∷ []

unfoldable pub percent_all : List ℕ → Text
percent_all [] = []
percent_all (b ∷ bytes) = percent b ++ percent_all bytes

unfoldable pub encode_point : ℕ → Text
encode_point c = if is_unreserved c then c ∷ [] else percent_all (utf8 c)

-- `encodeURIComponent`, on code points.
unfoldable pub encode_uri_component : Text → Text
encode_uri_component [] = []
encode_uri_component (c ∷ s) = encode_point c ++ encode_uri_component s

unfoldable pub make_key : ProtocolEnvelope → Text
make_key envelope =
    encode_uri_component envelope.header.sender
    ++ (b'|' ∷ encode_uri_component envelope.header.message_id
        ++ (b'|' ∷ encode_uri_component envelope.header.nonce))
