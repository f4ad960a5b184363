-- ===== src/Gateway/Path.antt =====
-- `normalizeGatewayPath` of src/gateway.ts. A path is a list of UTF-16 code units, as it is read from a
-- request; `decodeURIComponent` is a parameter: `none` where it throws.
pub mod Clean
mod Tests
use h3_protocol.Prelude.Lists.{length}
use h3_protocol.Prelude.Texts.{Text, text_eq}
use h3_protocol.Prelude.{
  ℕ, zero, suc, Bool, true, false, not, ◌&&◌, ◌||◌, Option, none, some, List, [], ◌∷◌, ◌++◌, leb,
  ltb, ◌==◌, if◌then◌else◌,
}
use h3_protocol.Policy.Scope.{split_slash}

-- The loop over at most `passes` decodings: `none` where one throws.
unfoldable pub decode_passes : (Text → Option Text) → ℕ → Text → Option Text
decode_passes decode zero decoded = some decoded
decode_passes decode (suc passes) decoded = elim (decode decoded) [
  | none ↦ none
  | some next ↦
      let rest = decode_passes decode passes next in
      if text_eq next decoded then some decoded else rest
]

-- `[0-9a-fA-F]`
unfoldable pub is_hex : ℕ → Bool
is_hex c = (leb b'0' c && leb c b'9') || ((leb b'a' c && leb c b'f') || (leb b'A' c && leb c b'F'))

-- `/%[0-9a-fA-F]{2}/.test(decoded)`
unfoldable pub has_escape : Text → Bool
has_escape [] = false
has_escape (c ∷ []) = false
has_escape (c ∷ d ∷ []) = false
has_escape (c ∷ d ∷ e ∷ s) =
    let rest = has_escape (d ∷ e ∷ s) in (c == b'%' && (is_hex d && is_hex e)) || rest

-- `/[\x00-\x1f]/.test(decoded)`
unfoldable pub has_control : Text → Bool
has_control [] = false
has_control (c ∷ s) = ltb c 32 || has_control s

abbrev pub dot : Text
dot = b'.' ∷ []

abbrev pub dot_dot : Text
dot_dot = b'.' ∷ b'.' ∷ []

-- `seg === '' || seg === '.'`
unfoldable pub is_skipped : Text → Bool
is_skipped seg = text_eq seg [] || text_eq seg dot

-- `normalized.pop()` on the reversed list: `none` above the root.
unfoldable pub pop_segment : List Text → Option (List Text)
pop_segment [] = none
pop_segment (_ ∷ normalized) = some normalized

-- The loop over the segments; `normalized` is in reverse.
unfoldable pub normalize_segments : List Text → List Text → Option (List Text)
normalize_segments normalized [] = some normalized
normalize_segments normalized (seg ∷ segments) =
    let skipped = normalize_segments normalized segments in
    let pushed = normalize_segments (seg ∷ normalized) segments in
    let popped : Option (List Text) = elim (pop_segment normalized) [
      | none ↦ none
      | some shorter ↦ normalize_segments shorter segments
    ] in
    if is_skipped seg then skipped else if text_eq seg dot_dot then popped else pushed

-- `'/' + normalized.join('/')`, from the reversed list.
unfoldable pub join_onto : List Text → Text → Text
join_onto [] tail = tail
join_onto (seg ∷ normalized) tail = join_onto normalized (b'/' ∷ (seg ++ tail))

unfoldable pub join_path : List Text → Text
join_path [] = b'/' ∷ []
join_path (seg ∷ normalized) = join_onto (seg ∷ normalized) []

unfoldable pub normalize_decoded : Text → Option Text
normalize_decoded decoded =
    let joined : Option Text = elim (normalize_segments [] (split_slash decoded)) [
      | none ↦ none
      | some normalized ↦ some (join_path normalized)
    ] in
    if has_escape decoded then none else if has_control decoded then none else joined

-- `rawPath.startsWith('/')`
unfoldable pub starts_with_slash : Text → Bool
starts_with_slash [] = false
starts_with_slash (c ∷ s) = c == b'/'

unfoldable pub normalize_gateway_path : (Text → Option Text) → Text → Option Text
normalize_gateway_path decode raw_path =
    let settled : Option Text = elim (decode_passes decode 5 raw_path) [
      | none ↦ none
      | some decoded ↦ normalize_decoded decoded
    ] in
    if starts_with_slash raw_path then settled else none
