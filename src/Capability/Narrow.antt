-- ===== src/Capability/Narrow.antt =====
-- What an accepted chain guarantees: `verifyCapabilityChain` of src/capability.ts.
use h3_protocol.Capability.{
  CapabilityToken, ChainOptions, KeyRegistry, ok, check_token, check_tokens, covers_required,
  check_position, verify_capability_chain,
}
use h3_protocol.Capability.Hop.{Linked, Signed, check_link-Linked, check_token-Signed}
use h3_protocol.Crypto.{WebCrypto}
use h3_protocol.Prelude.Arrays.{last}
use h3_protocol.Prelude.Int.{ℤ, pos, eq_of_parts}
use h3_protocol.Prelude.Lists.{All}
use h3_protocol.Prelude.{
  ℕ, suc, ◌≡◌, inl, inr, true, Option, none, some, List, [], ◌∷◌, arith, Option-cases,
}

-- Each token is linked to the one before it.
abbrev pub AllLinked : CapabilityToken → List CapabilityToken → Type 0
AllLinked prev [] = Unit
AllLinked prev (token ∷ chain) = Linked prev token × AllLinked token chain

module _ (web : WebCrypto) (keys : KeyRegistry) (now : ℤ) where
  pub first_passes :
      (i : ℕ) (prev : Option CapabilityToken) (token : CapabilityToken)
      (chain : List CapabilityToken)
      → check_tokens web keys now i prev (token ∷ chain) ≡ none
      → (check_token web keys now i prev token ≡ none)
        × (check_tokens web keys now (suc i) (some token) chain ≡ none)
  unfolding check_tokens
  first_passes i prev token chain h = elim (Option-cases (check_token web keys now i prev token)) [
    | inr (failure, e) ↦ ground (arith, h, e)
    | inl e ↦ (e, ground (arith, h, e))
  ]

  pub check_tokens-AllLinked :
      (i : ℕ) (prev : CapabilityToken) (chain : List CapabilityToken)
      → check_tokens web keys now i (some prev) chain ≡ none
      → AllLinked prev chain × All (Signed web keys now) chain
  unfolding check_position
  check_tokens-AllLinked i prev [] h = (tt, tt)
  check_tokens-AllLinked i prev (token ∷ chain) h =
      let (first, rest) = first_passes i (some prev) token chain h in
      let (link, signed) = check_token-Signed web keys now i (some prev) token first in
      let (links, others) = check_tokens-AllLinked (suc i) token chain rest in
      ((check_link-Linked i prev token link, links), (signed, others))

  root_depth_zero :
      (i : ℕ) (root : CapabilityToken)
      → check_position i none root ≡ none
      → root.delegation_depth ≡ pos 0
  unfolding check_position
  root_depth_zero i root h = ground (arith, eq_of_parts root.delegation_depth (pos 0))

  pub accepted_chain_passes :
      (root : CapabilityToken) (chain : List CapabilityToken) (opts : ChainOptions)
      (leaf : CapabilityToken) (given : List CapabilityToken)
      → verify_capability_chain web (root ∷ chain) keys opts now ≡ ok leaf given
      → check_tokens web keys now 0 none (root ∷ chain) ≡ none
  unfolding verify_capability_chain
  accepted_chain_passes root chain opts leaf given h = ground (arith, h)

  -- An accepted chain starts at a root of depth 0; every token of it is in time, carries a signature that verifies with the
  -- registered key of its issuer, and, from the second on, is linked to the token before it (issuer, parent id, depth, expiry,
  -- scopes, and a parent that permits delegation). The result names the last token, which covers the required scope.
  pub accepted_chain_links :
      (root : CapabilityToken) (chain : List CapabilityToken) (opts : ChainOptions)
      (leaf : CapabilityToken) (given : List CapabilityToken)
      → verify_capability_chain web (root ∷ chain) keys opts now ≡ ok leaf given
      → (root.delegation_depth ≡ pos 0)
        × All (Signed web keys now) (root ∷ chain)
        × AllLinked root chain
        × (leaf ≡ last root chain)
        × (given ≡ root ∷ chain)
        × (covers_required opts leaf ≡ true)
  unfolding verify_capability_chain
  accepted_chain_links root chain opts leaf given h =
      let passed : check_tokens web keys now 0 none (root ∷ chain) ≡ none =
        accepted_chain_passes root chain opts leaf given h in
      let covered : covers_required opts (last root chain) ≡ true = ground (arith, h, passed) in
      let same : (last root chain ≡ leaf) × (root ∷ chain ≡ given) =
        ground (arith, h, passed, covered) in
      let (first, rest) = first_passes 0 none root chain passed in
      let (position, signed) = check_token-Signed web keys now 0 none root first in
      let (links, others) = check_tokens-AllLinked 1 root chain rest in
      (root_depth_zero 0 root position, (signed, others), links, cc, cc, rw (← same.0) covered)
