-- ===== src/Gateway/Verify.antt =====
-- `verify` of the gateway in src/gateway.ts: the order of its checks over the components that
-- authenticate a request. These are the record `Authentication`, on which nothing is assumed. Metrics, the details and
-- headers of a refusal, and a `rateLimitStore` of another process are not modelled.
pub mod Grant
pub mod Admit
pub mod Guard
mod Tests
use h3_protocol.Action.{BoundAction, Body, in_text, bind_action}
use h3_protocol.Approval.{
  ApprovalGrant, ApprovalFailure, ApprovalVerifyResult, VerifyApprovalOptions, verify_approval,
}
use h3_protocol.Approval
use h3_protocol.Capability.{
  CapabilityToken, ChainFailure, CapabilityVerifyResult, ok, failed, KeyRegistry,
  verify_capability_chain,
}
use h3_protocol.Crypto.{WebCrypto}
use h3_protocol.Gateway.Path.{normalize_gateway_path}
use h3_protocol.Policy.Route.{
  RoutePolicy, PolicyRequirement, ed25519, hmac, any, http_signature, dpop, no_authentication,
  ApprovalPolicy, ApprovalRequirement, always, untrusted, match_policy, is_allowed_sender,
}
use h3_protocol.Policy.Scope.{matches_scope}
use h3_protocol.Prelude.Int.{ℤ, pos}
use h3_protocol.Prelude.Texts.{Text}
use h3_protocol.Prelude.{
  ℕ, Bool, true, false, not, ◌&&◌, ◌||◌, Option, none, some, List, [], ◌∷◌, if◌then◌else◌,
}
use h3_protocol.RateLimit.{RateLimiter, RateLimitPolicy, consume}
use h3_protocol.Replay.Store.{ReplayStore}

pub record GatewayRequest : Type 0 where
  pub method : Text
  pub path : Text
  -- One pair for each value; the lookups of a name are in `Authentication`.
  pub headers : List (Text × Text)
  -- No body is the empty text, as in `bindAction`.
  pub body : Text

pub data TrustLevel : Type 0 where
  trusted_level untrusted_level : TrustLevel

pub data SignatureAlg : Type 0 where
  is_ed25519 is_hs256 other_alg : SignatureAlg

-- What `verifyHttpEnvelope` finds in an accepted envelope.
pub record VerifiedEnvelope : Type 0 where
  pub sender : Text
  pub message_id : Text
  pub nonce : Text
  pub ttl_ms : ℤ
  pub alg : SignatureAlg

-- The header of a capability chain: absent, refused by `parseCapabilityChain`, or a chain.
pub data CapabilityHeader : Type 0 where
  no_header malformed_header : CapabilityHeader
  chain_header : List CapabilityToken → CapabilityHeader

-- The components that authenticate a request, on the state `World` of their stores.
pub record Authentication : Type 1 where
  pub World : Type 0
  -- `decodeURIComponent`
  pub decode : Text → Option Text
  -- `verifyHttpEnvelope`; `none` is a refusal.
  pub envelope_of : GatewayRequest → Option VerifiedEnvelope
  -- `verifyMessage` and `resolveKey`, `verifyDpopProof` and `resolveToken`: the sender, `none` for a refusal.
  pub signature_sender : World → GatewayRequest → World × Option Text
  pub dpop_sender : World → GatewayRequest → World × Option Text
  pub capability_of : GatewayRequest → CapabilityHeader
  pub grant_of : GatewayRequest → Option ApprovalGrant
  -- `effectiveTrust(verifyProvenance(…))`
  pub trust_of : GatewayRequest → Text → BoundAction → TrustLevel
  -- `replayStore.check`, where one is configured: `none` where it throws.
  pub replay_check : Option (World → Text → ℤ → World × Option Bool)
  -- `approvalStore.check`
  pub approval_check : World → Text → ℤ → World × Option Bool

pub record GatewayConfig : Type 0 where
  pub policies : List RoutePolicy
  -- `defaultPolicy` is `allow`, or is not given.
  pub allows_by_default : Bool
  pub capability_registry : Option KeyRegistry
  pub approver_keys : Text → Option Text

pub data Refusal : Type 0 where
  invalid_path sender_denied rate_limited approval_required no_matching_policy : Refusal
  capability_scope_mismatch invalid_capability_chain replay_detected invalid_signature : Refusal
  approval_invalid : ApprovalFailure → Refusal
  capability_refused : ChainFailure → Refusal
  envelope_refused http_signature_refused dpop_refused : Refusal

pub record Granted : Type 0 where
  pub sender : Text
  pub envelope_id : Option Text
  pub approved_by : Option Text
  pub trust : Option TrustLevel

pub data Outcome : Type 0 where
  granted : Granted → Outcome
  refused : Refusal → Outcome
  -- An exception.
  thrown : Outcome

module _ (web : WebCrypto) (auth : Authentication) (config : GatewayConfig) (now skew : ℤ) where
  -- What the gateway itself keeps, and its stores.
  pub record State : Type 0 where
    pub limiter : RateLimiter
    pub world : auth.World

  -- The approval store.
  abbrev pub approval_store : ReplayStore
  approval_store = record { State = auth.World; check_key = auth.approval_check }

  unfoldable pub check_rate : State → Option RateLimitPolicy → Text → State × Option Refusal
  check_rate s none sender = (s, none)
  check_rate s (some limit) sender =
      let (limiter, result) = consume s.limiter sender limit now in
      (record s { limiter = limiter }, if result.allowed then none else some rate_limited)

  -- `checkSenderAndRateLimit`
  unfoldable pub check_sender_and_rate_limit :
      State → Option RoutePolicy → Text → State × Option Refusal
  check_sender_and_rate_limit s none sender = (s, none)
  check_sender_and_rate_limit s (some policy) sender =
      if not (is_allowed_sender policy sender)
      then (s, some sender_denied)
      else check_rate s policy.rate_limit sender

  -- `trust`: only a rule for untrusted inputs looks at the provenance.
  unfoldable pub trust_for : ApprovalRequirement → GatewayRequest → Text → BoundAction → TrustLevel
  trust_for always req sender action = untrusted_level
  trust_for untrusted req sender action = auth.trust_of req sender action

  pub data Gate : Type 0 where
    opened : Option Text → Option TrustLevel → Gate
    denied : Refusal → Gate
    gate_throws : Gate

  unfoldable pub approval_gate : TrustLevel → ApprovalVerifyResult → Gate
  approval_gate trust (Approval.ok grant) = opened (some grant.approver) (some trust)
  approval_gate trust (Approval.failed reason) = denied (approval_invalid reason)
  approval_gate trust Approval.thrown = gate_throws

  -- The options of `verifyApproval` for a request.
  unfoldable pub request_approval : ApprovalPolicy → Text → BoundAction → VerifyApprovalOptions
  request_approval rule sender action = record {
    approver_keys = config.approver_keys;
    allowed_approvers = rule.approvers;
    subject = sender;
    action = action;
    single_use = true;
  }

  unfoldable pub ask_approver :
      State → ApprovalPolicy → Text → BoundAction → TrustLevel → Option ApprovalGrant → State × Gate
  ask_approver s rule sender action trust none = (s, denied approval_required)
  ask_approver s rule sender action trust (some grant) =
      let (world, result) =
        verify_approval web approval_store s.world (some grant)
          (request_approval rule sender action) now skew in
      (record s { world = world }, approval_gate trust result)

  unfoldable pub enforce_rule :
      State → ApprovalPolicy → Text → GatewayRequest → Option BoundAction → State × Gate
  enforce_rule s rule sender req none = (s, gate_throws)
  enforce_rule s rule sender req (some action) = elim (trust_for rule.require req sender action) [
    | trusted_level ↦ (s, opened none (some trusted_level))
    | untrusted_level ↦ ask_approver s rule sender action untrusted_level (auth.grant_of req)
  ]

  unfoldable pub enforce_if :
      State → Option ApprovalPolicy → Text → GatewayRequest → Text → State × Gate
  enforce_if s none sender req path = (s, opened none none)
  enforce_if s (some rule) sender req path =
      enforce_rule s rule sender req
        (bind_action web (record { method = req.method; path = path; body = in_text req.body }))

  -- `enforceApproval`
  unfoldable pub enforce_approval :
      State → Option RoutePolicy → Text → GatewayRequest → Text → State × Gate
  enforce_approval s none sender req path = (s, opened none none)
  enforce_approval s (some policy) sender req path = enforce_if s policy.approval sender req path

  unfoldable pub gate_outcome : Text → Option Text → Gate → Outcome
  gate_outcome sender envelope_id (opened approved_by trust) = granted (record {
    sender = sender;
    envelope_id = envelope_id;
    approved_by = approved_by;
    trust = trust;
  })
  gate_outcome sender envelope_id (denied reason) = refused reason
  gate_outcome sender envelope_id gate_throws = thrown

  unfoldable pub admit_if :
      Option Refusal
      → State
      → Option RoutePolicy
      → Text
      → Option Text
      → GatewayRequest
      → Text
      → State × Outcome
  admit_if (some reason) s policy sender envelope_id req path = (s, refused reason)
  admit_if none s policy sender envelope_id req path =
      let (s', gate) = enforce_approval s policy sender req path in
      (s', gate_outcome sender envelope_id gate)

  -- What follows the authentication of a sender.
  unfoldable pub admit_caller :
      State → Option RoutePolicy → Text → Option Text → GatewayRequest → Text → State × Outcome
  admit_caller s policy sender envelope_id req path =
      let (s', reason) = check_sender_and_rate_limit s policy sender in
      admit_if reason s' policy sender envelope_id req path

  -- `catch` answers `invalid-capability-chain`.
  unfoldable pub caught : Outcome → Outcome
  caught (granted g) = granted g
  caught (refused reason) = refused reason
  caught thrown = refused invalid_capability_chain

  unfoldable pub chain_refusal : ChainFailure → Refusal
  chain_refusal ChainFailure.thrown = invalid_capability_chain
  chain_refusal reason = capability_refused reason

  -- The token is checked against the path as it was received.
  unfoldable pub admit_chain :
      State → Option RoutePolicy → GatewayRequest → Text → CapabilityVerifyResult → State × Outcome
  admit_chain s policy req path (failed reason) = (s, refused (chain_refusal reason))
  admit_chain s policy req path (ok token chain) =
      let (s', outcome) = admit_caller s policy token.subject none req path in
      if matches_scope token.scopes req.path (some req.method)
      then (s', caught outcome)
      else (s, refused capability_scope_mismatch)

  unfoldable pub meets_alg : PolicyRequirement → SignatureAlg → Bool
  meets_alg ed25519 is_ed25519 = true
  meets_alg ed25519 alg = false
  meets_alg hmac is_hs256 = true
  meets_alg hmac alg = false
  meets_alg requirement alg = true

  unfoldable pub meets_policy : Option RoutePolicy → SignatureAlg → Bool
  meets_policy none alg = true
  meets_policy (some policy) alg = meets_alg policy.require alg

  unfoldable pub after_replay :
      State
      → Option RoutePolicy
      → GatewayRequest
      → Text
      → VerifiedEnvelope
      → Option Bool
      → State × Outcome
  after_replay s policy req path envelope none = (s, thrown)
  after_replay s policy req path envelope (some true) = (s, refused replay_detected)
  after_replay s policy req path envelope (some false) =
      let admitted = admit_caller s policy envelope.sender (some envelope.message_id) req path in
      if meets_policy policy envelope.alg then admitted else (s, refused invalid_signature)

  unfoldable pub admit_envelope :
      State → Option RoutePolicy → GatewayRequest → Text → Option VerifiedEnvelope → State × Outcome
  admit_envelope s policy req path none = (s, refused envelope_refused)
  admit_envelope s policy req path (some envelope) = elim auth.replay_check [
    | none ↦ after_replay s policy req path envelope (some false)
    | some check ↦
        let (world, replayed) = check s.world envelope.nonce envelope.ttl_ms in
        after_replay (record s { world = world }) policy req path envelope replayed
  ]

  unfoldable pub admit_sender :
      State
      → Option RoutePolicy
      → GatewayRequest
      → Text
      → Refusal
      → auth.World × Option Text
      → State × Outcome
  admit_sender s policy req path reason (world, none) = (record s { world = world }, refused reason)
  admit_sender s policy req path reason (world, some sender) =
      admit_caller (record s { world = world }) policy sender none req path

  unfoldable pub verify_required :
      PolicyRequirement → State → RoutePolicy → GatewayRequest → Text → State × Outcome
  verify_required dpop s policy req path =
      admit_sender s (some policy) req path dpop_refused (auth.dpop_sender s.world req)
  verify_required http_signature s policy req path =
      admit_sender s (some policy) req path http_signature_refused
        (auth.signature_sender s.world req)
  verify_required _ s policy req path =
      admit_envelope s (some policy) req path (auth.envelope_of req)

  -- Without a capability header: by the requirement of the policy.
  unfoldable pub verify_by_policy :
      State → Option RoutePolicy → GatewayRequest → Text → State × Outcome
  verify_by_policy s none req path = (s, refused no_matching_policy)
  verify_by_policy s (some policy) req path = verify_required policy.require s policy req path

  unfoldable pub verify_by_header :
      State
      → Option RoutePolicy
      → GatewayRequest
      → Text
      → Option KeyRegistry
      → CapabilityHeader
      → State × Outcome
  verify_by_header s policy req path none _ = verify_by_policy s policy req path
  verify_by_header s policy req path (some registry) no_header = verify_by_policy s policy req path
  verify_by_header s policy req path (some registry) malformed_header =
      (s, refused invalid_capability_chain)
  verify_by_header s policy req path (some registry) (chain_header chain) =
      admit_chain s policy req path (
        verify_capability_chain web chain registry
          (record { required_path_glob = some req.path; required_method = some req.method }) now)

  -- `skipVerify`
  unfoldable pub skips_verify : Option RoutePolicy → Bool
  skips_verify none = config.allows_by_default
  skips_verify (some policy) = elim policy.require [ no_authentication ↦ true | _ ↦ false ]

  unfoldable pub verify_at : State → GatewayRequest → Option Text → State × Outcome
  verify_at s req none = (s, refused invalid_path)
  verify_at s req (some path) =
      let policy = match_policy config.policies path in
      let checked =
        verify_by_header s policy req path config.capability_registry (auth.capability_of req) in
      if skips_verify policy
      then (
        s,
        granted (record { sender = []; envelope_id = none; approved_by = none; trust = none }),
      )
      else checked

  unfoldable pub verify : State → GatewayRequest → State × Outcome
  verify s req = verify_at s req (normalize_gateway_path auth.decode req.path)
