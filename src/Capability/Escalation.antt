-- ===== src/Capability/Escalation.antt =====
-- Delegation only narrows: the last token of an accepted chain against its root.
use h3_protocol.Capability.{CapabilityToken, ChainOptions, KeyRegistry, ok, verify_capability_chain}
use h3_protocol.Capability.Hop.{IsPlain, scopes_narrow}
use h3_protocol.Capability.Narrow.{AllLinked, accepted_chain_links}
use h3_protocol.Crypto.{WebCrypto}
use h3_protocol.Policy.Scope.{matches_scope}
use h3_protocol.Policy.Scope.Subset.{IsOneLine}
use h3_protocol.Prelude.Arrays.{last}
use h3_protocol.Prelude.Int.{ℤ, ◌≤ℤ◌}
use h3_protocol.Prelude.Lists.{All}
use h3_protocol.Prelude.Texts.{Text}
use h3_protocol.Prelude.{◌≡◌, true, Option, List, [], ◌∷◌, arith}

abbrev pub AllPlain : CapabilityToken → Type 0
AllPlain token = All IsPlain token.scopes

links_narrow :
    (path : Text) (method : Option Text)
    → IsOneLine path
    → (prev : CapabilityToken) (chain : List CapabilityToken) → AllLinked prev chain
    → All AllPlain (prev ∷ chain)
    → matches_scope (last prev chain).scopes path method ≡ true
    → matches_scope prev.scopes path method ≡ true
unfolding last
links_narrow path method line prev [] links plain m = m
links_narrow path method line prev (token ∷ chain) (link, links) (own, (next, plain)) m =
    scopes_narrow path method line token.scopes prev.scopes next own link.narrower
      (links_narrow path method line token chain links (next, plain) m)

links_expire :
    (prev : CapabilityToken) (chain : List CapabilityToken)
    → AllLinked prev chain
    → (last prev chain).expires_at ≤ℤ prev.expires_at
unfolding last
links_expire prev [] links = omega arith
links_expire prev (token ∷ chain) (link, links) =
    omega (arith, link.within, links_expire token chain links)

-- Where every scope of an accepted chain is plain (each `**` is a whole segment, and the last one), whatever one-line path and
-- method the last token's scopes allow, the root's scopes allow; and the last token expires no later than the root.
pub chain_never_escalates :
    (web : WebCrypto) (keys : KeyRegistry) (now : ℤ) (root : CapabilityToken)
    (chain : List CapabilityToken) (opts : ChainOptions) (leaf : CapabilityToken)
    (given : List CapabilityToken)
    → verify_capability_chain web (root ∷ chain) keys opts now ≡ ok leaf given
    → All AllPlain (root ∷ chain)
    → ((path : Text) (method : Option Text)
        → IsOneLine path
        → matches_scope leaf.scopes path method ≡ true
        → matches_scope root.scopes path method ≡ true)
      × (leaf.expires_at ≤ℤ root.expires_at)
chain_never_escalates web keys now root chain opts leaf given h plain =
    let (_, _, links, same, _, _) =
      accepted_chain_links web keys now root chain opts leaf given h in
    rw same (
      (λ path method line m. links_narrow path method line root chain links plain m),
      links_expire root chain links,
    )
