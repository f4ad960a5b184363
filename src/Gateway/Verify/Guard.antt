-- ===== src/Gateway/Verify/Guard.antt =====
-- What a request satisfies that `verify` of src/gateway.ts grants.
use h3_protocol.Capability.{CapabilityToken, CapabilityVerifyResult, ok, failed, KeyRegistry}
use h3_protocol.Crypto.{WebCrypto}
use h3_protocol.Gateway.Path.{normalize_gateway_path}
use h3_protocol.Gateway.Verify.{
  GatewayRequest, VerifiedEnvelope, CapabilityHeader, no_header, malformed_header, chain_header,
  Authentication, GatewayConfig, Refusal, Granted, Outcome, granted, refused, thrown, State, caught,
  admit_chain, after_replay, meets_policy, meets_alg, admit_envelope, admit_sender, verify_required,
  dpop_refused, http_signature_refused, verify_by_policy, verify_by_header, skips_verify, verify_at,
  verify,
}
use h3_protocol.Gateway.Verify.Grant.{
  IsDemanded, ChainGrant, EnvelopeGrant, IsRequired, IsAuthenticated,
}
use h3_protocol.Gateway.Verify.Admit.{admit_caller-IsDemanded}
use h3_protocol.Policy.Route.{
  RoutePolicy, PolicyRequirement, ed25519, hmac, any, http_signature, dpop, no_authentication,
  match_policy,
}
use h3_protocol.Policy.Scope.{matches_scope}
use h3_protocol.Prelude.Int.{ℤ}
use h3_protocol.Prelude.Texts.{Text}
use h3_protocol.Prelude.{
  ◌≡◌, ◌⊎◌, refl, sym, ap, inl, inr, Bool, true, false, Option, none, some, List, [], arith,
  Bool-cases, Option-cases,
}

module _ (web : WebCrypto) (auth : Authentication) (config : GatewayConfig) (now skew : ℤ) where
  -- An identity that is proved sent the request, and the policy's demands are met.
  abbrev pub IsGuarded :
      Option RoutePolicy → State web auth config now skew → Text → GatewayRequest → Granted → Type 0
  IsGuarded policy s path req g =
      IsAuthenticated web auth config now skew policy s req g
      × IsDemanded web auth config now skew policy path req g

  by_chain :
      (policy : Option RoutePolicy) (s : State web auth config now skew) (req : GatewayRequest)
      (g : Granted)
      → ChainGrant web auth config now skew req g
      → IsAuthenticated web auth config now skew policy s req g
  by_chain none s req g c = c
  by_chain (some p) s req g c = inl c

  caught_granted :
      (outcome : Outcome) (g : Granted)
      → caught web auth config now skew outcome ≡ granted g
      → outcome ≡ granted g
  unfolding caught
  caught_granted (granted g') g h = h
  caught_granted (refused reason) g h = cc
  caught_granted thrown g h = cc

  admit_chain-granted :
      (s : State web auth config now skew) (policy : Option RoutePolicy) (req : GatewayRequest)
      (path : Text) (result : CapabilityVerifyResult) (g : Granted)
      → (admit_chain web auth config now skew s policy req path result).1 ≡ granted g
      → (token : CapabilityToken) × (chain : List CapabilityToken) × (result ≡ ok token chain)
        × (matches_scope token.scopes req.path (some req.method) ≡ true)
        × (g.sender ≡ token.subject)
        × IsDemanded web auth config now skew policy path req g
  unfolding admit_chain
  admit_chain-granted s policy req path (failed reason) g h = cc
  admit_chain-granted s policy req path (ok token chain) g h =
      elim (Bool-cases (matches_scope token.scopes req.path (some req.method))) [
        | inr outside ↦ ground (arith, h, outside)
        | inl covered ↦
            let (own, demanded) =
              admit_caller-IsDemanded web auth config now skew s policy token.subject none req path
                g (caught_granted _ g (ground (arith, h, covered))) in
            (token, chain, refl, covered, sym own, demanded)
      ]

  after_replay-granted :
      (s : State web auth config now skew) (p : RoutePolicy) (req : GatewayRequest) (path : Text)
      (envelope : VerifiedEnvelope) (replayed : Option Bool) (g : Granted)
      → (after_replay web auth config now skew s (some p) req path envelope replayed).1 ≡ granted g
      → (replayed ≡ some false)
        × (meets_alg web auth config now skew p.require envelope.alg ≡ true)
        × (g.sender ≡ envelope.sender)
        × IsDemanded web auth config now skew (some p) path req g
  unfolding after_replay meets_policy
  after_replay-granted s p req path envelope none g h = cc
  after_replay-granted s p req path envelope (some true) g h = cc
  after_replay-granted s p req path envelope (some false) g h =
      elim (Bool-cases (meets_alg web auth config now skew p.require envelope.alg)) [
        | inr wrong ↦ ground (arith, h, wrong)
        | inl meets ↦
            let (own, demanded) =
              admit_caller-IsDemanded web auth config now skew s (some p) envelope.sender
                (some envelope.message_id) req path g (ground (arith, h, meets)) in
            (refl, meets, sym own, demanded)
      ]

  admit_envelope-granted :
      (s : State web auth config now skew) (p : RoutePolicy) (req : GatewayRequest) (path : Text)
      (found : Option VerifiedEnvelope) (g : Granted)
      → auth.envelope_of req ≡ found
      → (admit_envelope web auth config now skew s (some p) req path found).1 ≡ granted g
      → EnvelopeGrant web auth config now skew p.require s req g
        × IsDemanded web auth config now skew (some p) path req g
  unfolding admit_envelope
  admit_envelope-granted s p req path none g read h = cc
  admit_envelope-granted s p req path (some envelope) g read h =
      elim (Option-cases auth.replay_check) [
        | inl without ↦
            let (_, meets, own, demanded) =
              after_replay-granted s p req path envelope (some false) g
                (ground (arith, h, without)) in
            (
              record {
                envelope = envelope;
                accepted = read;
                fresh = rw without tt;
                algorithm = meets;
                named = own;
              },
              demanded,
            )
        | inr (check, e) ↦
            let (world, replayed) = check s.world envelope.nonce envelope.ttl_ms in
            let (fresh, meets, own, demanded) =
              after_replay-granted (record s { world = world }) p req path envelope replayed g
                (ground (arith, h, e)) in
            (
              record {
                envelope = envelope;
                accepted = read;
                fresh = rw e fresh;
                algorithm = meets;
                named = own;
              },
              demanded,
            )
      ]

  admit_sender-granted :
      (s : State web auth config now skew) (p : RoutePolicy) (req : GatewayRequest) (path : Text)
      (reason : Refusal) (found : auth.World × Option Text) (g : Granted)
      → (admit_sender web auth config now skew s (some p) req path reason found).1 ≡ granted g
      → (found.1 ≡ some g.sender) × IsDemanded web auth config now skew (some p) path req g
  unfolding admit_sender
  admit_sender-granted s p req path reason (world, none) g h = cc
  admit_sender-granted s p req path reason (world, some sender) g h =
      let (own, demanded) =
        admit_caller-IsDemanded web auth config now skew (record s { world = world }) (some p)
          sender none req path g h in
      (ap (λ t. some t) own, demanded)

  by_requirement :
      (requirement : PolicyRequirement) (s : State web auth config now skew) (p : RoutePolicy)
      (req : GatewayRequest) (path : Text) (g : Granted)
      → p.require ≡ requirement
      → (verify_required web auth config now skew requirement s p req path).1 ≡ granted g
      → IsRequired web auth config now skew requirement s req g
        × IsDemanded web auth config now skew (some p) path req g
  unfolding verify_required
  by_requirement dpop s p req path g e h = admit_sender-granted s p req path dpop_refused _ g h
  by_requirement http_signature s p req path g e h =
      admit_sender-granted s p req path http_signature_refused _ g h
  by_requirement ed25519 s p req path g e h =
      rw (← e) (admit_envelope-granted s p req path _ g refl h)
  by_requirement hmac s p req path g e h = rw (← e) (admit_envelope-granted s p req path _ g refl h)
  by_requirement any s p req path g e h = rw (← e) (admit_envelope-granted s p req path _ g refl h)
  by_requirement no_authentication s p req path g e h =
      rw (← e) (admit_envelope-granted s p req path _ g refl h)

  policy-IsGuarded :
      (s : State web auth config now skew) (policy : Option RoutePolicy) (req : GatewayRequest)
      (path : Text) (g : Granted)
      → (verify_by_policy web auth config now skew s policy req path).1 ≡ granted g
      → IsGuarded policy s path req g
  unfolding verify_by_policy
  policy-IsGuarded s none req path g h = cc
  policy-IsGuarded s (some p) req path g h =
      let (required, demanded) = by_requirement p.require s p req path g refl h in
      (inr required, demanded)

  header-IsGuarded :
      (s : State web auth config now skew) (policy : Option RoutePolicy) (req : GatewayRequest)
      (path : Text) (registry : Option KeyRegistry) (sent : CapabilityHeader) (g : Granted)
      → config.capability_registry ≡ registry
      → auth.capability_of req ≡ sent
      → (verify_by_header web auth config now skew s policy req path registry sent).1 ≡ granted g
      → IsGuarded policy s path req g
  unfolding verify_by_header
  header-IsGuarded s policy req path none sent g r c h = policy-IsGuarded s policy req path g h
  header-IsGuarded s policy req path (some registry) no_header g r c h =
      policy-IsGuarded s policy req path g h
  header-IsGuarded s policy req path (some registry) malformed_header g r c h = cc
  header-IsGuarded s policy req path (some registry) (chain_header shown) g r c h =
      let (token, chain, verified, covered, own, demanded) =
        admit_chain-granted s policy req path _ g h in
      (
        by_chain policy s req g (record {
          registry = registry;
          shown = shown;
          token = token;
          chain = chain;
          configured = r;
          presented = c;
          verified = verified;
          covered = covered;
          subject = own;
        }),
        demanded,
      )

  at_path :
      (s : State web auth config now skew) (req : GatewayRequest) (found : Option Text)
      (g : Granted)
      → (verify_at web auth config now skew s req found).1 ≡ granted g
      → (path : Text) × (found ≡ some path)
        × (((skips_verify web auth config now skew (match_policy config.policies path) ≡ true)
              × (g.sender ≡ []))
            ⊎ IsGuarded (match_policy config.policies path) s path req g)
  unfolding verify_at
  at_path s req none g h = cc
  at_path s req (some path) g h =
      elim (Bool-cases
        (skips_verify web auth config now skew (match_policy config.policies path))) [
          | inl skipped ↦ (path, refl, inl (skipped, ground (arith, h, skipped)))
          | inr checked ↦ (
            path,
            refl,
            inr (
                header-IsGuarded s (match_policy config.policies path) req path
                  config.capability_registry (auth.capability_of req) g refl refl
                  (ground (arith, h, checked))),
          )
        ]

  -- A request that the gateway grants has a path that normalizes. Either the policy of the normalized path asks for no
  -- authentication, or none matches where the default is to allow, and then no sender is named. Or the sender is authenticated:
  -- it is the subject of a capability chain that verifies and covers the request's path as received, or, where a policy matches,
  -- the identity that the policy's requirement proves (for an envelope, of the required algorithm and not a replay where a store
  -- is configured); and where a policy matches, the sender is in its list, and its rule on approvals, if it has one, is met by
  -- a grant that passes every check of verifyApproval, its single use included, for this rule, sender and action, or is a rule for untrusted inputs only
  -- and the action's provenance is trusted. Without a matching policy only a capability chain is accepted, whatever the default.
  pub granted_request-IsGuarded :
      (s : State web auth config now skew) (req : GatewayRequest) (g : Granted)
      → (verify web auth config now skew s req).1 ≡ granted g
      → (path : Text) × (normalize_gateway_path auth.decode req.path ≡ some path)
        × (((skips_verify web auth config now skew (match_policy config.policies path) ≡ true)
              × (g.sender ≡ []))
            ⊎ IsGuarded (match_policy config.policies path) s path req g)
  unfolding verify
  granted_request-IsGuarded s req g h =
      at_path s req (normalize_gateway_path auth.decode req.path) g h
