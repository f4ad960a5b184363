-- ===== src/Capability.antt =====
-- Capability tokens of src/capability.ts: issuing, delegating, and the verification of tokens and of
-- delegation chains, on the scopes of Policy/Scope. The clock and the random part of an id are
-- arguments. Times are integers of any sign.
pub mod Hop
pub mod Narrow
pub mod Delegated
pub mod Escalation
mod Tests
use h3_protocol.Crypto.{WebCrypto, sign_canonical_payload, verify_canonical_payload}
use h3_protocol.Json.{integer, quote, join_commas, field, optional, map_option, braces}
use h3_protocol.Policy.Scope.{CapabilityScope, scopes_are_subset, matches_scope}
use h3_protocol.Prelude.Arrays.{last}
use h3_protocol.Prelude.Int.{ℤ, pos, ◌+ℤ◌, ◌-ℤ◌, leb_ℤ, ltb_ℤ, eqb_ℤ}
use h3_protocol.Prelude.Texts.{Text, codes, text_eq}
use h3_protocol.Prelude.{
  ℕ, suc, Bool, true, false, not, ◌&&◌, Option, none, some, List, [], ◌∷◌, ◌++◌, map, if◌then◌else◌,
}

pub record CapabilityToken : Type 0 where
  pub id : Text
  pub version : Text
  pub issuer : Text
  pub subject : Text
  pub scopes : List CapabilityScope
  pub issued_at : ℤ
  pub expires_at : ℤ
  pub delegation_depth : ℤ
  pub parent_token_id : Option Text
  -- `none` is unlimited.
  pub max_delegations : Option ℤ
  pub signature : Text
  pub key_id : Text

unfoldable pub string_array : List Text → Text
string_array xs = b'[' ∷ (join_commas (map quote xs) ++ b']' ∷ [])

unfoldable pub canonicalize_scope : CapabilityScope → Text
canonicalize_scope scope = braces (
    optional (codes "maxDelegations") (map_option integer scope.max_delegations)
    ++ (optional (codes "methods") (map_option string_array scope.methods)
        ++ field (codes "pathGlob") (quote scope.path_glob) ∷ []))

-- The signature is not covered.
unfoldable pub canonicalize_capability_token : CapabilityToken → Text
canonicalize_capability_token token = braces (
    field (codes "delegationDepth") (integer token.delegation_depth)
    ∷ field (codes "expiresAt") (integer token.expires_at)
    ∷ field (codes "id") (quote token.id)
    ∷ field (codes "issuedAt") (integer token.issued_at)
    ∷ field (codes "issuer") (quote token.issuer)
    ∷ field (codes "keyId") (quote token.key_id)
    ∷ (optional (codes "maxDelegations") (map_option integer token.max_delegations)
        ++ (optional (codes "parentTokenId") (map_option quote token.parent_token_id)
            ++ field (codes "scopes")
                (b'[' ∷ (join_commas (map canonicalize_scope token.scopes) ++ b']' ∷ []))
              ∷ field (codes "subject") (quote token.subject)
              ∷ field (codes "version") (quote token.version)
              ∷ [])))

-- The token with its signature, `none` where the key cannot be imported.
unfoldable pub sign_token : WebCrypto → CapabilityToken → Text → Option CapabilityToken
sign_token web unsigned private_key =
    map_option (λ s. record unsigned { signature = s })
      (sign_canonical_payload web (canonicalize_capability_token unsigned) private_key)

abbrev pub cap_version : Text
cap_version = codes "7h3-cap/1"

-- `cap-${now}-${randomHex(6)}`
unfoldable pub token_id : ℤ → Text → Text
token_id now random = codes "cap-" ++ (integer now ++ (b'-' ∷ random))

-- `keyId ?? `${id}-key``
unfoldable pub key_id_or : Text → Option Text → Text
key_id_or id none = id ++ codes "-key"
key_id_or id (some key) = key

pub record IssueOptions : Type 0 where
  pub issuer_private_key : Text
  pub issuer_id : Text
  pub subject : Text
  pub scopes : List CapabilityScope
  pub ttl_ms : ℤ
  pub max_delegations : Option ℤ
  pub key_id : Option Text

unfoldable pub issue_capability_token : WebCrypto → IssueOptions → ℤ → Text → Option CapabilityToken
issue_capability_token web opts now random =
    let unsigned : CapabilityToken = record {
      id = token_id now random;
      version = cap_version;
      issuer = opts.issuer_id;
      subject = opts.subject;
      scopes = opts.scopes;
      issued_at = now;
      expires_at = now +ℤ opts.ttl_ms;
      delegation_depth = pos 0;
      parent_token_id = none;
      max_delegations = some (elim opts.max_delegations [ none ↦ pos 0 | some n ↦ n ]);
      signature = [];
      key_id = key_id_or opts.issuer_id opts.key_id;
    } in
    sign_token web unsigned opts.issuer_private_key

pub record DelegateOptions : Type 0 where
  pub parent_token : CapabilityToken
  pub delegator_private_key : Text
  pub delegator_id : Text
  pub new_subject : Text
  pub scopes : Option (List CapabilityScope)
  pub ttl_ms : ℤ
  pub key_id : Option Text

pub data DelegateError : Type 0 where
  delegator_mismatch parent_expired no_further_delegation scopes_exceed ttl_exceeds : DelegateError
  key_refused : DelegateError

pub data DelegateResult : Type 0 where
  delegated : CapabilityToken → DelegateResult
  refused : DelegateError → DelegateResult

-- `maxDelegations !== undefined && maxDelegations <= 0`
unfoldable pub is_exhausted : Option ℤ → Bool
is_exhausted none = false
is_exhausted (some n) = leb_ℤ n (pos 0)

unfoldable pub delegated_token : DelegateOptions → List CapabilityScope → ℤ → Text → CapabilityToken
delegated_token opts scopes now random = record {
  id = token_id now random;
  version = cap_version;
  issuer = opts.delegator_id;
  subject = opts.new_subject;
  scopes = scopes;
  issued_at = now;
  expires_at = now +ℤ opts.ttl_ms;
  delegation_depth = opts.parent_token.delegation_depth +ℤ pos 1;
  parent_token_id = some opts.parent_token.id;
  max_delegations = map_option (λ n. n -ℤ pos 1) opts.parent_token.max_delegations;
  signature = [];
  key_id = key_id_or opts.delegator_id opts.key_id;
}

unfoldable pub delegate_capability_token : WebCrypto → DelegateOptions → ℤ → Text → DelegateResult
delegate_capability_token web opts now random =
    let parent = opts.parent_token in
    let scopes : List CapabilityScope = elim opts.scopes [ none ↦ parent.scopes | some s ↦ s ] in
    let signed : DelegateResult =
      elim (sign_token web (delegated_token opts scopes now random) opts.delegator_private_key) [
        | none ↦ refused key_refused
        | some token ↦ delegated token
      ] in
    if not (text_eq opts.delegator_id parent.subject)
    then refused delegator_mismatch
    else if leb_ℤ parent.expires_at now
    then refused parent_expired
    else if is_exhausted parent.max_delegations
    then refused no_further_delegation
    else if not (scopes_are_subset scopes parent.scopes)
    then refused scopes_exceed
    else if ltb_ℤ (parent.expires_at -ℤ now) opts.ttl_ms
    then refused ttl_exceeds
    else signed

-- `none` where the key cannot be imported.
unfoldable pub verify_capability_token : WebCrypto → CapabilityToken → Text → ℤ → Option Bool
verify_capability_token web token public_key now =
    if leb_ℤ token.expires_at now
    then some false
    else verify_canonical_payload web (canonicalize_capability_token token) token.signature
        public_key

pub data ChainFailure : Type 0 where
  empty_chain root_depth leaf_scope thrown : ChainFailure
  issuer_broken parent_broken depth_broken delegation_exhausted : ℕ → ChainFailure
  expiry_exceeds scopes_exceed token_expired no_public_key invalid_signature : ℕ → ChainFailure

pub data CapabilityVerifyResult : Type 0 where
  ok : CapabilityToken → List CapabilityToken → CapabilityVerifyResult
  failed : ChainFailure → CapabilityVerifyResult

-- `token.parentTokenId === id`
unfoldable pub has_parent : Option Text → Text → Bool
has_parent none id = false
has_parent (some parent) id = text_eq parent id

-- The checks of `token` against the one before it, at index `i`.
unfoldable pub check_link : ℕ → CapabilityToken → CapabilityToken → Option ChainFailure
check_link i prev token =
    if not (text_eq token.issuer prev.subject)
    then some (issuer_broken i)
    else if not (has_parent token.parent_token_id prev.id)
    then some (parent_broken i)
    else if not (eqb_ℤ token.delegation_depth (prev.delegation_depth +ℤ pos 1))
    then some (depth_broken i)
    else if is_exhausted prev.max_delegations
    then some (delegation_exhausted i)
    else if ltb_ℤ prev.expires_at token.expires_at
    then some (expiry_exceeds i)
    else if not (scopes_are_subset token.scopes prev.scopes)
    then some (ChainFailure.scopes_exceed i)
    else none

-- The checks of the position: the root's depth, or the link to the token before.
unfoldable pub check_position : ℕ → Option CapabilityToken → CapabilityToken → Option ChainFailure
check_position i none token = if eqb_ℤ token.delegation_depth (pos 0) then none else some root_depth
check_position i (some prev) token = check_link i prev token

-- A registry: the public key of an id. An empty text counts as no key.
abbrev pub KeyRegistry : Type 0
KeyRegistry = Text → Option Text

unfoldable pub check_signature : WebCrypto → ℕ → CapabilityToken → Option Text → Option ChainFailure
check_signature web i token none = some (no_public_key i)
check_signature web i token (some []) = some (no_public_key i)
check_signature web i token (some (u ∷ key)) =
    elim (verify_canonical_payload web (canonicalize_capability_token token) token.signature
      (u ∷ key)) [
        | none ↦ some thrown
        | some valid ↦ if valid then none else some (invalid_signature i)
      ]

-- One round of the loop.
unfoldable pub check_token :
    WebCrypto → KeyRegistry → ℤ → ℕ → Option CapabilityToken → CapabilityToken → Option ChainFailure
check_token web keys now i prev token = elim (check_position i prev token) [
  | some failure ↦ some failure
  | none ↦
      if leb_ℤ token.expires_at now
      then some (token_expired i)
      else check_signature web i token (keys token.issuer)
]

-- The loop from index `i` on, after the token `prev`: the first failure.
unfoldable pub check_tokens :
    WebCrypto
    → KeyRegistry
    → ℤ
    → ℕ
    → Option CapabilityToken
    → List CapabilityToken
    → Option ChainFailure
check_tokens web keys now i prev [] = none
check_tokens web keys now i prev (token ∷ chain) =
    let rest = check_tokens web keys now (suc i) (some token) chain in
    elim (check_token web keys now i prev token) [ some failure ↦ some failure | none ↦ rest ]

pub record ChainOptions : Type 0 where
  pub required_path_glob : Option Text
  pub required_method : Option Text

-- The check of the required scope on the last token.
unfoldable pub covers_required : ChainOptions → CapabilityToken → Bool
covers_required opts leaf = elim opts.required_path_glob [
  | none ↦ true
  | some path ↦ matches_scope leaf.scopes path opts.required_method
]

unfoldable pub verify_capability_chain :
    WebCrypto → List CapabilityToken → KeyRegistry → ChainOptions → ℤ → CapabilityVerifyResult
verify_capability_chain web [] keys opts now = failed empty_chain
verify_capability_chain web (root ∷ chain) keys opts now =
    let leaf = last root chain in
    elim (check_tokens web keys now 0 none (root ∷ chain)) [
      | some failure ↦ failed failure
      | none ↦ if covers_required opts leaf then ok leaf (root ∷ chain) else failed leaf_scope
    ]
