-- ===== src/Capability/Hop.antt =====
-- What a link of an accepted chain satisfies, and what its scopes allow.
use h3_protocol.Capability.{
  CapabilityToken, is_exhausted, check_link, check_position, check_signature, check_token,
  KeyRegistry, canonicalize_capability_token, has_parent,
}
use h3_protocol.Crypto.{WebCrypto, verify_canonical_payload}
use h3_protocol.Policy.Glob.{match_glob}
use h3_protocol.Policy.Scope.{
  CapabilityScope, split_slash, all_included, methods_are_subset, scope_is_subset, is_covered,
  scopes_are_subset, method_allowed, matches_scope, to_upper,
}
use h3_protocol.Policy.Scope.Subset.{IsSimple, GlobstarLast, IsOneLine, path_glob_is_subset_sound}
use h3_protocol.Prelude.Int.{ℤ, pos, ◌+ℤ◌, ◌≤ℤ◌, ◌<ℤ◌, eq_of_parts}
use h3_protocol.Prelude.Lists.{All}
use h3_protocol.Prelude.Texts.{Text, text_eq_iff, includes}
use h3_protocol.Prelude.{
  ℕ, ◌≡◌, refl, ap, inl, inr, true, false, ◌&&◌, Option, none, some, List, [], ◌∷◌, arith,
  Bool-cases, Option-cases,
}

includes-all_included :
    (x : Text) (ms ps : List Text)
    → all_included ms ps ≡ true
    → includes x ms ≡ true
    → includes x ps ≡ true
unfolding all_included includes
includes-all_included x [] ps h m = cc
includes-all_included x (y ∷ ms) ps h m =
    ground (arith, includes-all_included x ms ps, text_eq_iff y x)

method_narrow :
    (child parent : Option (List Text)) (method : Option Text)
    → methods_are_subset child parent ≡ true
    → method_allowed child method ≡ true
    → method_allowed parent method ≡ true
unfolding methods_are_subset method_allowed
method_narrow child none method h m = refl
method_narrow none (some ps) method h m = cc
method_narrow (some ms) (some ps) none h m = cc
method_narrow (some ms) (some ps) (some x) h m = includes-all_included (to_upper x) ms ps h m

-- The globs for which `pathGlobIsSubset` is right: each `**` is a whole segment, and the last one.
abbrev pub IsPlain : CapabilityScope → Type 0
IsPlain scope =
    All IsSimple (split_slash scope.path_glob) × GlobstarLast (split_slash scope.path_glob)

module _ (path : Text) (method : Option Text) (line : IsOneLine path) where
  scope_narrow :
      (child parent : CapabilityScope)
      → IsPlain child
      → IsPlain parent
      → scope_is_subset child parent ≡ true
      → (match_glob child.path_glob path && method_allowed child.methods method) ≡ true
      → (match_glob parent.path_glob path && method_allowed parent.methods method) ≡ true
  unfolding scope_is_subset
  scope_narrow child parent (simple, _) (_, last) h m = ground (
    arith,
    path_glob_is_subset_sound child.path_glob parent.path_glob path (ground (arith, h)) simple last
        line (ground (arith, m)),
    method_narrow child.methods parent.methods method,
  )

  covered_narrow :
      (child : CapabilityScope) (parents : List CapabilityScope)
      → IsPlain child
      → All IsPlain parents
      → is_covered child parents ≡ true
      → (match_glob child.path_glob path && method_allowed child.methods method) ≡ true
      → matches_scope parents path method ≡ true
  unfolding is_covered matches_scope
  covered_narrow child [] plain plains h m = cc
  covered_narrow child (p ∷ parents) plain (own, plains) h m =
      elim (Bool-cases (scope_is_subset child p)) [
        | inl sub ↦ ground (arith, scope_narrow child p plain own sub m)
        | inr not_sub ↦
            ground (arith, covered_narrow child parents plain plains (ground (arith, not_sub)) m)
      ]

  pub scopes_narrow :
      (children parents : List CapabilityScope)
      → All IsPlain children
      → All IsPlain parents
      → scopes_are_subset children parents ≡ true
      → matches_scope children path method ≡ true
      → matches_scope parents path method ≡ true
  unfolding scopes_are_subset matches_scope
  scopes_narrow [] parents plain plains h m = cc
  scopes_narrow (c ∷ children) parents (own, plain) plains h m =
      elim (Bool-cases (match_glob c.path_glob path && method_allowed c.methods method)) [
        | inl here ↦ covered_narrow c parents own plains (ground (arith, h)) here
        | inr later ↦
            scopes_narrow children parents plain plains (ground (arith, h))
              (ground (arith, m, later))
      ]

has_parent_iff : (p : Option Text) (id : Text) → has_parent p id ≡ true → p ≡ some id
unfolding has_parent
has_parent_iff none id h = cc
has_parent_iff (some parent) id h = ap some ((text_eq_iff parent id).0 h)

-- The link of a token to the one before it.
pub record Linked (prev token : CapabilityToken) : Type 0 where
  pub issued : token.issuer ≡ prev.subject
  pub parented : token.parent_token_id ≡ some prev.id
  pub deeper : token.delegation_depth ≡ prev.delegation_depth +ℤ pos 1
  pub permitted : is_exhausted prev.max_delegations ≡ false
  pub within : token.expires_at ≤ℤ prev.expires_at
  pub narrower : scopes_are_subset token.scopes prev.scopes ≡ true

pub check_link-Linked :
    (i : ℕ) (prev token : CapabilityToken) → check_link i prev token ≡ none → Linked prev token
unfolding check_link
check_link-Linked i prev token h = ground (
  arith,
  text_eq_iff token.issuer prev.subject,
  has_parent_iff token.parent_token_id prev.id,
  eq_of_parts token.delegation_depth (prev.delegation_depth +ℤ pos 1),
)

-- A token that is in time and signed with the registered key of its issuer.
pub record Signed (web : WebCrypto) (keys : KeyRegistry) (now : ℤ) (token : CapabilityToken)
    : Type 0 where
  pub in_time : now <ℤ token.expires_at
  pub key : Text
  pub registered : keys token.issuer ≡ some key
  pub verified :
      verify_canonical_payload web (canonicalize_capability_token token) token.signature key
      ≡ some true

signature-Signed :
    (web : WebCrypto) (keys : KeyRegistry) (now : ℤ) (i : ℕ) (token : CapabilityToken)
    (found : Option Text)
    → now <ℤ token.expires_at
    → keys token.issuer ≡ found
    → check_signature web i token found ≡ none
    → Signed web keys now token
unfolding check_signature
signature-Signed web keys now i token none time k h = cc
signature-Signed web keys now i token (some []) time k h = cc
signature-Signed web keys now i token (some (u ∷ key)) time k h = record {
  in_time = time;
  key = u ∷ key;
  registered = k;
  verified = ground (arith, h);
}

pub check_token-Signed :
    (web : WebCrypto) (keys : KeyRegistry) (now : ℤ) (i : ℕ) (prev : Option CapabilityToken)
    (token : CapabilityToken)
    → check_token web keys now i prev token ≡ none
    → (check_position i prev token ≡ none) × Signed web keys now token
unfolding check_token
check_token-Signed web keys now i prev token h = elim (Option-cases (check_position i prev token)) [
  | inr (failure, e) ↦ ground (arith, h, e)
  | inl e ↦ (
    e,
    signature-Signed web keys now i token (keys token.issuer) (ground (arith, h, e)) refl
        (ground (arith, h, e)),
  )
]
