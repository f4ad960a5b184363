-- ===== src/Gateway/Verify/Grant.antt =====
-- What stands behind an outcome of `verify` of src/gateway.ts that grants a request: who sent it, and what its policy demands.
use h3_protocol.Action.{BoundAction, in_text, bind_action}
use h3_protocol.Approval.{ApprovalGrant, approval_key, at_least_one}
use h3_protocol.Approval.Exact.{Vetted}
use h3_protocol.Capability.{CapabilityToken, ok, KeyRegistry, verify_capability_chain}
use h3_protocol.Crypto.{WebCrypto}
use h3_protocol.Gateway.Verify.{
  GatewayRequest, trusted_level, VerifiedEnvelope, chain_header, Authentication, GatewayConfig,
  Granted, State, request_approval, meets_alg,
}
use h3_protocol.Policy.Route.{
  RoutePolicy, PolicyRequirement, ed25519, hmac, any, http_signature, dpop, no_authentication,
  ApprovalPolicy, untrusted, is_allowed_sender,
}
use h3_protocol.Policy.Scope.{matches_scope}
use h3_protocol.Prelude.Int.{ℤ, ◌+ℤ◌, ◌-ℤ◌}
use h3_protocol.Prelude.Texts.{Text}
use h3_protocol.Prelude.{◌≡◌, ◌⊎◌, Bool, true, false, Option, none, some, List}

module _ (web : WebCrypto) (auth : Authentication) (config : GatewayConfig) (now skew : ℤ) where
  -- The action of a request on its normalized path.
  abbrev pub action_of : GatewayRequest → Text → Option BoundAction
  action_of req path =
      bind_action web (record { method = req.method; path = path; body = in_text req.body })

  -- The request shows a grant that passes every check of `verifyApproval` for the rule, the sender and the action, its single
  -- use included.
  pub record Approved (rule : ApprovalPolicy) (sender path : Text) (req : GatewayRequest)
      (approved_by : Option Text) : Type 0 where
    pub grant : ApprovalGrant
    pub action : BoundAction
    pub shown : auth.grant_of req ≡ some grant
    pub bound : action_of req path ≡ some action
    pub vetted :
        Vetted web (request_approval web auth config now skew rule sender action) now skew grant
    -- The approval store, when it is asked, has not seen the grant.
    pub world : auth.World
    pub unused :
        (auth.approval_check world
          (approval_key grant)
          (at_least_one (grant.expires_at -ℤ now) +ℤ skew)).1
        ≡ some false
    pub named : approved_by ≡ some grant.approver

  -- The rule is for untrusted inputs only, and the provenance of the action is trusted.
  pub record Trusted (rule : ApprovalPolicy) (sender path : Text) (req : GatewayRequest)
      : Type 0 where
    pub lenient : rule.require ≡ untrusted
    pub action : BoundAction
    pub bound : action_of req path ≡ some action
    pub trusted : auth.trust_of req sender action ≡ trusted_level

  abbrev pub IsCleared : Option ApprovalPolicy → Text → Text → GatewayRequest → Option Text → Type 0
  IsCleared none sender path req approved_by = Unit
  IsCleared (some rule) sender path req approved_by =
      Approved rule sender path req approved_by ⊎ Trusted rule sender path req

  -- The policy's list of senders and its rule on approvals.
  abbrev pub IsDemanded : Option RoutePolicy → Text → GatewayRequest → Granted → Type 0
  IsDemanded none path req g = Unit
  IsDemanded (some p) path req g =
      (is_allowed_sender p g.sender ≡ true) × IsCleared p.approval g.sender path req g.approved_by

  -- A capability chain names the sender.
  pub record ChainGrant (req : GatewayRequest) (g : Granted) : Type 0 where
    pub registry : KeyRegistry
    pub shown : List CapabilityToken
    pub token : CapabilityToken
    pub chain : List CapabilityToken
    pub configured : config.capability_registry ≡ some registry
    pub presented : auth.capability_of req ≡ chain_header shown
    pub verified :
        verify_capability_chain web shown registry
          (record { required_path_glob = some req.path; required_method = some req.method })
          now
        ≡ ok token chain
    pub covered : matches_scope token.scopes req.path (some req.method) ≡ true
    pub subject : g.sender ≡ token.subject

  abbrev pub IsFresh :
      Option (auth.World → Text → ℤ → auth.World × Option Bool)
      → auth.World
      → VerifiedEnvelope
      → Type 0
  IsFresh none world envelope = Unit
  IsFresh (some check) world envelope = (check world envelope.nonce envelope.ttl_ms).1 ≡ some false

  -- An envelope names the sender; its nonce is fresh where a replay store is configured, and its algorithm is the required one.
  pub record EnvelopeGrant (requirement : PolicyRequirement) (s : State web auth config now skew)
      (req : GatewayRequest) (g : Granted) : Type 0 where
    pub envelope : VerifiedEnvelope
    pub accepted : auth.envelope_of req ≡ some envelope
    pub fresh : IsFresh auth.replay_check s.world envelope
    pub algorithm : meets_alg web auth config now skew requirement envelope.alg ≡ true
    pub named : g.sender ≡ envelope.sender

  abbrev pub IsRequired :
      PolicyRequirement → State web auth config now skew → GatewayRequest → Granted → Type 0
  IsRequired dpop s req g = (auth.dpop_sender s.world req).1 ≡ some g.sender
  IsRequired http_signature s req g = (auth.signature_sender s.world req).1 ≡ some g.sender
  IsRequired ed25519 s req g = EnvelopeGrant ed25519 s req g
  IsRequired hmac s req g = EnvelopeGrant hmac s req g
  IsRequired any s req g = EnvelopeGrant any s req g
  IsRequired no_authentication s req g = EnvelopeGrant no_authentication s req g

  -- A capability chain names the sender, or what the policy requires does. Without a policy only a chain can.
  abbrev pub IsAuthenticated :
      Option RoutePolicy → State web auth config now skew → GatewayRequest → Granted → Type 0
  IsAuthenticated none s req g = ChainGrant req g
  IsAuthenticated (some p) s req g = ChainGrant req g ⊎ IsRequired p.require s req g
