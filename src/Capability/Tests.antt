-- ===== src/Capability/Tests.antt =====
-- A chain of two tokens, issued and delegated by the functions of Capability.
use h3_protocol.Capability.{
  CapabilityToken, IssueOptions, DelegateOptions, ChainOptions, KeyRegistry, ok, delegated, refused,
  issue_capability_token, delegate_capability_token, verify_capability_chain, check_tokens,
  check_token, check_position, sign_token, check_signature, canonicalize_capability_token,
  check_link, covers_required, has_parent, is_exhausted, key_id_or, token_id, delegated_token,
}
use h3_protocol.Capability.Hop.{Signed}
use h3_protocol.Capability.Narrow.{AllLinked, accepted_chain_links}
use h3_protocol.Capability.Escalation.{AllPlain, chain_never_escalates}
use h3_protocol.Capability.Delegated.{delegated_chain_verifies}
use h3_protocol.Crypto.Echo.{checksum, checksum-pair}
use h3_protocol.Json.{braces, integer, decimal, decimal_digits}
use h3_protocol.Policy.Scope.{
  CapabilityScope, matches_scope, split_slash, split_slash_from, segment_is_subset,
  segments_are_subset, path_glob_is_subset, is_empty, all_included, is_covered, method_allowed,
  methods_are_subset, scope_is_subset, scopes_are_subset, to_upper,
}
use h3_protocol.Policy.Scope.Subset.{IsOneLine}
use h3_protocol.Prelude.Int.{pos, ◌≤ℤ◌, ◌+ℤ◌, ◌-ℤ◌}
use h3_protocol.Prelude.Lists.{All}
use h3_protocol.Prelude.Texts.{Text, codes, text_eq, includes}
use h3_protocol.Crypto.{
  sign_canonical_payload, verify_canonical_payload, from_base64_url, to_base64_url, strip_padding,
  base64_url_unit, encode_text, base64_unit, padding,
}
use h3_protocol.Policy.Glob.{atom, compile, is_line_end, is_slash, match_glob, matches}
use h3_protocol.Prelude.Arrays.{last, get_or}
use h3_protocol.Replay.Cache.Key.{utf8}
use h3_protocol.Prelude.{◌≡◌, refl, inl, inr, true, Option, none, some, [], ◌∷◌, arith}

abbrev keys : KeyRegistry
keys id = some (codes "key")

abbrev read_scope : CapabilityScope
read_scope = record {
  path_glob = codes "/docs/**";
  methods = some (codes "GET" ∷ []);
  max_delegations = none;
}

abbrev all_scope : CapabilityScope
all_scope = record { path_glob = codes "/**"; methods = none; max_delegations = none }

abbrev blank : CapabilityToken
blank = record {
  id = [];
  version = [];
  issuer = [];
  subject = [];
  scopes = [];
  issued_at = pos 0;
  expires_at = pos 0;
  delegation_depth = pos 0;
  parent_token_id = none;
  max_delegations = none;
  signature = [];
  key_id = [];
}

abbrev issue_options : IssueOptions
issue_options = record {
  issuer_private_key = codes "root key";
  issuer_id = codes "gateway";
  subject = codes "alice";
  scopes = all_scope ∷ [];
  ttl_ms = pos 1000;
  max_delegations = some (pos 1);
  key_id = none;
}

abbrev root : CapabilityToken
root = elim (issue_capability_token checksum issue_options (pos 10) (codes "abc")) [
  | none ↦ blank
  | some token ↦ token
]

abbrev delegate_options : DelegateOptions
delegate_options = record {
  parent_token = root;
  delegator_private_key = codes "alice key";
  delegator_id = codes "alice";
  new_subject = codes "bob";
  scopes = some (read_scope ∷ []);
  ttl_ms = pos 500;
  key_id = none;
}

abbrev leaf : CapabilityToken
leaf = elim (delegate_capability_token checksum delegate_options (pos 20) (codes "def")) [
  | refused error ↦ blank
  | delegated token ↦ token
]

abbrev any_scope : ChainOptions
any_scope = record { required_path_glob = none; required_method = none }

abbrev docs_only : ChainOptions
docs_only = record {
  required_path_glob = some (codes "/docs/a");
  required_method = some (codes "get");
}

root_accepted :
    verify_capability_chain checksum (root ∷ []) keys any_scope (pos 20) ≡ ok root (root ∷ [])
unfolding verify_capability_chain check_tokens check_token check_position issue_capability_token
    sign_token sign_canonical_payload ◌+ℤ◌ check_signature verify_canonical_payload text_eq
    from_base64_url to_base64_url strip_padding base64_url_unit encode_text
    canonicalize_capability_token check_link covers_required has_parent is_exhausted key_id_or
    token_id base64_unit padding atom compile is_line_end is_slash match_glob matches all_included
    is_covered matches_scope method_allowed methods_are_subset scope_is_subset scopes_are_subset
    to_upper last includes utf8 get_or braces delegate_capability_token delegated_token ◌-ℤ◌
    segment_is_subset segments_are_subset path_glob_is_subset is_empty split_slash split_slash_from
root_accepted = refl

leaf_delegated :
    delegate_capability_token checksum delegate_options (pos 20) (codes "def") ≡ delegated leaf
unfolding verify_capability_chain check_tokens check_token check_position issue_capability_token
    sign_token sign_canonical_payload ◌+ℤ◌ check_signature verify_canonical_payload text_eq
    from_base64_url to_base64_url strip_padding base64_url_unit encode_text
    canonicalize_capability_token check_link covers_required has_parent is_exhausted key_id_or
    token_id base64_unit padding atom compile is_line_end is_slash match_glob matches all_included
    is_covered matches_scope method_allowed methods_are_subset scope_is_subset scopes_are_subset
    to_upper last includes utf8 get_or braces delegate_capability_token delegated_token ◌-ℤ◌
    segment_is_subset segments_are_subset path_glob_is_subset is_empty split_slash split_slash_from
leaf_delegated = refl

chain_accepted :
    verify_capability_chain checksum (root ∷ leaf ∷ []) keys docs_only (pos 20)
    ≡ ok leaf (root ∷ leaf ∷ [])
unfolding verify_capability_chain check_tokens check_token check_position issue_capability_token
    sign_token sign_canonical_payload ◌+ℤ◌ check_signature verify_canonical_payload text_eq
    from_base64_url to_base64_url strip_padding base64_url_unit encode_text
    canonicalize_capability_token check_link covers_required has_parent is_exhausted key_id_or
    token_id base64_unit padding atom compile is_line_end is_slash match_glob matches all_included
    is_covered matches_scope method_allowed methods_are_subset scope_is_subset scopes_are_subset
    to_upper last includes utf8 get_or braces delegate_capability_token delegated_token ◌-ℤ◌
    segment_is_subset segments_are_subset path_glob_is_subset is_empty split_slash split_slash_from
    integer decimal decimal_digits
chain_accepted = refl

leaf_covers : covers_required docs_only leaf ≡ true
unfolding verify_capability_chain check_tokens check_token check_position issue_capability_token
    sign_token sign_canonical_payload ◌+ℤ◌ check_signature verify_canonical_payload text_eq
    from_base64_url to_base64_url strip_padding base64_url_unit encode_text
    canonicalize_capability_token check_link covers_required has_parent is_exhausted key_id_or
    token_id base64_unit padding atom compile is_line_end is_slash match_glob matches all_included
    is_covered matches_scope method_allowed methods_are_subset scope_is_subset scopes_are_subset
    to_upper last includes utf8 get_or braces delegate_capability_token delegated_token ◌-ℤ◌
    segment_is_subset segments_are_subset path_glob_is_subset is_empty split_slash split_slash_from
leaf_covers = refl

delegated_chain_verifies_example :
    verify_capability_chain checksum (root ∷ leaf ∷ []) keys docs_only (pos 20)
    ≡ ok leaf (root ∷ leaf ∷ [])
delegated_chain_verifies_example =
    delegated_chain_verifies checksum keys (pos 20) root [] any_scope docs_only root (root ∷ [])
      delegate_options (codes "def") (codes "key") leaf root_accepted refl leaf_delegated
      (checksum-pair (codes "alice key") (codes "key")) refl (λ e. cc) (omega arith) leaf_covers

accepted_chain_links_example :
    (root.delegation_depth ≡ pos 0)
    × All (Signed checksum keys (pos 20)) (root ∷ leaf ∷ [])
    × AllLinked root (leaf ∷ [])
    × (leaf ≡ last root (leaf ∷ []))
    × (root ∷ leaf ∷ [] ≡ root ∷ leaf ∷ [])
    × (covers_required docs_only leaf ≡ true)
accepted_chain_links_example =
    accepted_chain_links checksum keys (pos 20) root (leaf ∷ []) docs_only leaf (root ∷ leaf ∷ [])
      chain_accepted

root_plain : AllPlain root
unfolding verify_capability_chain check_tokens check_token check_position issue_capability_token
    sign_token sign_canonical_payload ◌+ℤ◌ check_signature verify_canonical_payload text_eq
    from_base64_url to_base64_url strip_padding base64_url_unit encode_text
    canonicalize_capability_token check_link covers_required has_parent is_exhausted key_id_or
    token_id base64_unit padding atom compile is_line_end is_slash match_glob matches all_included
    is_covered matches_scope method_allowed methods_are_subset scope_is_subset scopes_are_subset
    to_upper last includes utf8 get_or braces delegate_capability_token delegated_token ◌-ℤ◌
    segment_is_subset segments_are_subset path_glob_is_subset is_empty split_slash split_slash_from
root_plain = (((inr tt, (inl refl, tt)), ((λ e. cc), tt)), tt)

leaf_plain : AllPlain leaf
unfolding verify_capability_chain check_tokens check_token check_position issue_capability_token
    sign_token sign_canonical_payload ◌+ℤ◌ check_signature verify_canonical_payload text_eq
    from_base64_url to_base64_url strip_padding base64_url_unit encode_text
    canonicalize_capability_token check_link covers_required has_parent is_exhausted key_id_or
    token_id base64_unit padding atom compile is_line_end is_slash match_glob matches all_included
    is_covered matches_scope method_allowed methods_are_subset scope_is_subset scopes_are_subset
    to_upper last includes utf8 get_or braces delegate_capability_token delegated_token ◌-ℤ◌
    segment_is_subset segments_are_subset path_glob_is_subset is_empty split_slash split_slash_from
leaf_plain =
    (((inr tt, (inr (refl, (refl, (refl, tt))), (inl refl, tt))), ((λ e. cc), ((λ e. cc), tt))), tt)

chain_never_escalates_example :
    ((path : Text) (method : Option Text)
      → IsOneLine path
      → matches_scope leaf.scopes path method ≡ true
      → matches_scope root.scopes path method ≡ true)
    × (leaf.expires_at ≤ℤ root.expires_at)
chain_never_escalates_example =
    chain_never_escalates checksum keys (pos 20) root (leaf ∷ []) docs_only leaf (root ∷ leaf ∷ [])
      chain_accepted (root_plain, (leaf_plain, tt))
