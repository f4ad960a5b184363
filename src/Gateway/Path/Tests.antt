-- ===== src/Gateway/Path/Tests.antt =====
-- Runs of `normalizeGatewayPath` on paths without an escape, which `decodeURIComponent` keeps.
use h3_protocol.Gateway.Path.{
  decode_passes, is_hex, has_escape, has_control, is_skipped, pop_segment, normalize_segments,
  join_onto, join_path, normalize_decoded, starts_with_slash, normalize_gateway_path,
}
use h3_protocol.Gateway.Path.Clean.{IsName, HasNoControl, normalized_path_is_clean}
use h3_protocol.Policy.Scope.{split_slash, split_slash_from}
use h3_protocol.Prelude.Lists.{All}
use h3_protocol.Prelude.Texts.{Text, codes, text_eq}
use h3_protocol.Prelude.{◌≡◌, refl, true, none, some, List}

traversal :
    normalize_gateway_path (λ t. some t) (codes "/public/../admin/./key")
    ≡ some (codes "/admin/key")
unfolding decode_passes is_hex has_escape has_control is_skipped pop_segment normalize_segments
    join_onto join_path normalize_decoded starts_with_slash normalize_gateway_path split_slash
    split_slash_from text_eq
traversal = refl

above_root : normalize_gateway_path (λ t. some t) (codes "/a/../../etc") ≡ none
unfolding decode_passes is_hex has_escape has_control is_skipped pop_segment normalize_segments
    join_onto join_path normalize_decoded starts_with_slash normalize_gateway_path split_slash
    split_slash_from text_eq
above_root = refl

normalized_path_is_clean_example :
    (starts_with_slash (codes "/public/../admin/./key") ≡ true)
    × (names : List Text) × (codes "/admin/key" ≡ join_path names)
    × All IsName names
    × HasNoControl (codes "/admin/key")
normalized_path_is_clean_example =
    normalized_path_is_clean (λ t. some t) (codes "/public/../admin/./key") (codes "/admin/key")
      traversal
