-- ===== src/Action.antt =====
-- src/actionBinding.ts: a statement is bound to the method, the path and the hash of the body of one
-- action. Methods are ASCII.
use h3_protocol.Crypto.{WebCrypto, Bytes, encode_text}
use h3_protocol.Json.{hex_digit}
use h3_protocol.Policy.Scope.{to_upper}
use h3_protocol.Prelude.Lists.{length}
use h3_protocol.Prelude.Texts.{Text, text_eq}
use h3_protocol.Prelude.{
  ℕ, ◌/◌, ◌%◌, Bool, true, false, not, ◌&&◌, ◌||◌, Option, none, some, [], ◌∷◌, leb, ◌==◌,
  if◌then◌else◌,
}

pub record BoundAction : Type 0 where
  pub method : Text
  pub path : Text
  pub body_sha256 : Text

-- `string | Uint8Array`; no body is the empty text.
pub data Body : Type 0 where
  in_text : Text → Body
  in_bytes : Bytes → Body

pub record ActionInput : Type 0 where
  pub method : Text
  pub path : Text
  pub body : Body

unfoldable pub to_hex : Bytes → Text
to_hex [] = []
to_hex (b ∷ bytes) = hex_digit (b / 16) ∷ hex_digit (b % 16) ∷ to_hex bytes

unfoldable pub bytes_of : Body → Bytes
bytes_of (in_text s) = encode_text s
bytes_of (in_bytes bytes) = bytes

unfoldable pub sha256_hex : WebCrypto → Body → Text
sha256_hex web body = to_hex (web.sha256 (bytes_of body))

-- `path.startsWith('/')`
unfoldable pub is_absolute : Text → Bool
is_absolute [] = false
is_absolute (c ∷ s) = c == b'/'

unfoldable pub is_empty_text : Text → Bool
is_empty_text [] = true
is_empty_text (c ∷ s) = false

-- `none` is an error.
unfoldable pub bind_action : WebCrypto → ActionInput → Option BoundAction
bind_action web input =
    if is_empty_text input.method
    then none
    else if not (is_absolute input.path)
    then none
    else some (record {
      method = to_upper input.method;
      path = input.path;
      body_sha256 = sha256_hex web input.body;
    })

unfoldable pub actions_equal : BoundAction → BoundAction → Bool
actions_equal a b =
    text_eq a.method b.method && (text_eq a.path b.path && text_eq a.body_sha256 b.body_sha256)

-- `[0-9a-f]`
unfoldable pub is_hex_unit : ℕ → Bool
is_hex_unit c = (leb b'0' c && leb c b'9') || (leb b'a' c && leb c b'f')

unfoldable pub all_hex : Text → Bool
all_hex [] = true
all_hex (c ∷ s) = is_hex_unit c && all_hex s

-- On a value whose three members are texts.
unfoldable pub is_bound_action : BoundAction → Bool
is_bound_action action =
    not (is_empty_text action.method)
    && (is_absolute action.path && (length action.body_sha256 == 64 && all_hex action.body_sha256))
