-- ===== src/Capability/Delegated.antt =====
-- A delegated token is accepted behind the chain of its parent.
use h3_protocol.Capability.{
  CapabilityToken, ChainOptions, DelegateOptions, KeyRegistry, ok, delegated,
  canonicalize_capability_token, sign_token, delegated_token, delegate_capability_token, check_link,
  has_parent, check_position, check_signature, check_token, check_tokens, covers_required,
  verify_capability_chain, is_exhausted,
}
use h3_protocol.Capability.Narrow.{first_passes, accepted_chain_passes, accepted_chain_links}
use h3_protocol.Crypto.{WebCrypto, IsKeyPair, sign_canonical_payload, verify_canonical_payload}
use h3_protocol.Policy.Scope.{CapabilityScope, scopes_are_subset}
use h3_protocol.Prelude.Arrays.{last}
use h3_protocol.Prelude.Int.{ℤ, pos, ◌+ℤ◌, ◌-ℤ◌, ◌≤ℤ◌, ◌<ℤ◌, eqb_ℤ_refl, +ℤ_parts, -ℤ_parts}
use h3_protocol.Prelude.Texts.{Text, text_eq_iff, text_eq_refl}
use h3_protocol.Prelude.{
  ℕ, suc, ◌≡◌, ◌≢◌, refl, ap, ◌∙◌, inl, inr, true, false, Option, none, some, List, [], ◌∷◌, ◌++◌,
  arith, Option-cases,
}

sign_token-verifies :
    (web : WebCrypto) (private_key public_key : Text) (unsigned token : CapabilityToken)
    → IsKeyPair web private_key public_key
    → sign_token web unsigned private_key ≡ some token
    → (verify_canonical_payload web (canonicalize_capability_token token) token.signature public_key
        ≡ some true)
      × (s : Text) × (token ≡ record unsigned { signature = s })
unfolding sign_token canonicalize_capability_token
sign_token-verifies web private_key public_key unsigned token pair h =
    elim (Option-cases
      (sign_canonical_payload web (canonicalize_capability_token unsigned) private_key)) [
        | inl e ↦ ground (arith, h, e)
        | inr (s, e) ↦
            let same : record unsigned { signature = s } ≡ token = ground (arith, h, e) in
            rw (← same) (pair (canonicalize_capability_token unsigned) s e, s, refl)
      ]

-- What delegation checks, and what it makes.
record Delegation (web : WebCrypto) (opts : DelegateOptions) (now : ℤ) (random : Text)
    (token : CapabilityToken) : Type 0 where
  scopes : List CapabilityScope
  delegator : opts.delegator_id ≡ opts.parent_token.subject
  permitted : is_exhausted opts.parent_token.max_delegations ≡ false
  narrower : scopes_are_subset scopes opts.parent_token.scopes ≡ true
  lifetime : opts.ttl_ms ≤ℤ (opts.parent_token.expires_at -ℤ now)
  made :
      sign_token web (delegated_token opts scopes now random) opts.delegator_private_key
      ≡ some token

delegate-Delegation :
    (web : WebCrypto) (opts : DelegateOptions) (now : ℤ) (random : Text) (token : CapabilityToken)
    → delegate_capability_token web opts now random ≡ delegated token
    → Delegation web opts now random token
unfolding delegate_capability_token
delegate-Delegation web opts now random token h = record {
  scopes = elim opts.scopes [ none ↦ opts.parent_token.scopes | some s ↦ s ];
  delegator = ground (arith, h, text_eq_iff opts.delegator_id opts.parent_token.subject);
  permitted = ground (arith, h);
  narrower = ground (arith, h);
  lifetime = ground (arith, h);
  made = ground (arith, h);
}

delegation-check_link :
    (web : WebCrypto) (opts : DelegateOptions) (now : ℤ) (random : Text) (i : ℕ) (signature : Text)
    (scopes : List CapabilityScope)
    → opts.delegator_id ≡ opts.parent_token.subject
    → is_exhausted opts.parent_token.max_delegations ≡ false
    → scopes_are_subset scopes opts.parent_token.scopes ≡ true
    → opts.ttl_ms ≤ℤ (opts.parent_token.expires_at -ℤ now)
    → check_link i opts.parent_token
        (record (delegated_token opts scopes now random) { signature = signature })
      ≡ none
unfolding check_link delegated_token has_parent
delegation-check_link web opts now random i signature scopes delegator permitted narrower lifetime =
    ground (
      arith,
      -ℤ_parts opts.parent_token.expires_at now,
      +ℤ_parts now opts.ttl_ms,
      text_eq_iff opts.delegator_id opts.parent_token.subject,
      text_eq_refl opts.parent_token.id,
      eqb_ℤ_refl (opts.parent_token.delegation_depth +ℤ pos 1),
    )

module _ (web : WebCrypto) (keys : KeyRegistry) (now : ℤ) where
  passes_first :
      (i : ℕ) (prev : Option CapabilityToken) (token : CapabilityToken)
      (chain : List CapabilityToken)
      → check_token web keys now i prev token ≡ none
      → check_tokens web keys now (suc i) (some token) chain ≡ none
      → check_tokens web keys now i prev (token ∷ chain) ≡ none
  unfolding check_tokens
  passes_first i prev token chain first rest = ground (arith, first, rest)

  append_passes :
      (i : ℕ) (prev token : CapabilityToken) (chain : List CapabilityToken)
      → check_tokens web keys now i (some prev) chain ≡ none
      → ((j : ℕ) → check_token web keys now j (some (last prev chain)) token ≡ none)
      → check_tokens web keys now i (some prev) (chain ++ token ∷ []) ≡ none
  unfolding check_tokens last
  append_passes i prev token [] h passes = ground (arith, passes i)
  append_passes i prev token (next ∷ chain) h passes =
      let (first, rest) = first_passes web keys now i (some prev) next chain h in
      ground (arith, first, append_passes (suc i) next token chain rest passes)

last-append : (x y : CapabilityToken) (xs : List CapabilityToken) → last x (xs ++ y ∷ []) ≡ y
unfolding last
last-append x y [] = refl
last-append x y (z ∷ xs) = last-append z y xs

check_signature-passes :
    (web : WebCrypto) (i : ℕ) (token : CapabilityToken) (found : Option Text) (key : Text)
    → found ≡ some key
    → key ≢ []
    → verify_canonical_payload web (canonicalize_capability_token token) token.signature key
      ≡ some true
    → check_signature web i token found ≡ none
unfolding check_signature
check_signature-passes web i token none key f ne h = cc
check_signature-passes web i token (some []) key f ne h = absurd (ne cc)
check_signature-passes web i token (some (u ∷ rest)) key f ne h = ground (arith, f, h)

module _ (web : WebCrypto) (keys : KeyRegistry) (now : ℤ) where
  delegated_token_passes :
      (opts : DelegateOptions) (random public_key : Text) (token : CapabilityToken)
      → delegate_capability_token web opts now random ≡ delegated token
      → IsKeyPair web opts.delegator_private_key public_key
      → keys opts.delegator_id ≡ some public_key
      → public_key ≢ []
      → pos 0 <ℤ opts.ttl_ms
      → (j : ℕ) → check_token web keys now j (some opts.parent_token) token ≡ none
  unfolding check_token check_position delegated_token
  delegated_token_passes opts random public_key token d pair known ne ttl j =
      let made = delegate-Delegation web opts now random token d in
      let (verified, s, same) =
        sign_token-verifies web opts.delegator_private_key public_key
          (delegated_token opts made.scopes now random) token pair made.made in
      let link : check_link j opts.parent_token token ≡ none = rw same (
        delegation-check_link web opts now random j s made.scopes made.delegator made.permitted
          made.narrower made.lifetime) in
      let issuer : token.issuer ≡ opts.delegator_id = ap (λ t. t.issuer) same in
      let expiry : token.expires_at ≡ now +ℤ opts.ttl_ms = ap (λ t. t.expires_at) same in
      ground (
        arith,
        link,
        expiry,
        +ℤ_parts now opts.ttl_ms,
        check_signature-passes web j token (keys token.issuer) public_key (rw issuer known) ne
            verified,
      )

  -- A chain that passes as far as its last token, and a token that passes behind it.
  extended_chain_verifies :
      (root token : CapabilityToken) (chain : List CapabilityToken) (opts : ChainOptions)
      → check_tokens web keys now 0 none (root ∷ chain) ≡ none
      → ((j : ℕ) → check_token web keys now j (some (last root chain)) token ≡ none)
      → covers_required opts token ≡ true
      → verify_capability_chain web (root ∷ chain ++ token ∷ []) keys opts now
        ≡ ok token (root ∷ chain ++ token ∷ [])
  unfolding verify_capability_chain
  extended_chain_verifies root token chain opts h passes covers =
      let (first, rest) = first_passes web keys now 0 none root chain h in
      let all : check_tokens web keys now 0 none (root ∷ chain ++ token ∷ []) ≡ none =
        passes_first web keys now 0 none root (chain ++ token ∷ []) first
          (append_passes web keys now 1 root token chain rest passes) in
      ground (arith, all, last-append root token chain, covers)

-- What `delegateCapabilityToken` makes from the last token of an accepted chain is accepted behind that chain, by the same
-- registry and at the same time, where the delegator's keys are a pair whose public key the registry holds under the delegator's
-- id, the time to live is positive, and the new token covers what the verifier requires.
pub delegated_chain_verifies :
    (web : WebCrypto) (keys : KeyRegistry) (now : ℤ) (root : CapabilityToken)
    (chain : List CapabilityToken) (before after : ChainOptions) (leaf : CapabilityToken)
    (given : List CapabilityToken) (opts : DelegateOptions) (random public_key : Text)
    (token : CapabilityToken)
    → verify_capability_chain web (root ∷ chain) keys before now ≡ ok leaf given
    → opts.parent_token ≡ leaf
    → delegate_capability_token web opts now random ≡ delegated token
    → IsKeyPair web opts.delegator_private_key public_key
    → keys opts.delegator_id ≡ some public_key
    → public_key ≢ []
    → pos 0 <ℤ opts.ttl_ms
    → covers_required after token ≡ true
    → verify_capability_chain web (root ∷ chain ++ token ∷ []) keys after now
      ≡ ok token (root ∷ chain ++ token ∷ [])
delegated_chain_verifies web keys now root chain before after leaf given opts random public_key
      token h parent d pair known ne ttl covers =
    let (_, _, _, same, _, _) = accepted_chain_links web keys now root chain before leaf given h in
    extended_chain_verifies web keys now root token chain after
      (accepted_chain_passes web keys now root chain before leaf given h)
      (λ j.
        rw (← (parent ∙ same))
          (delegated_token_passes web keys now opts random public_key token d pair known ne ttl j))
      covers
