-- ===== src/Gateway/Verify/Admit.antt =====
-- What the checks that follow the authentication leave true: `checkSenderAndRateLimit` and `enforceApproval` of src/gateway.ts.
use h3_protocol.Action.{BoundAction}
use h3_protocol.Approval.{ApprovalGrant, ApprovalVerifyResult, verify_approval}
use h3_protocol.Approval
use h3_protocol.Approval.Exact.{accepted_approval_binds}
use h3_protocol.Crypto.{WebCrypto}
use h3_protocol.Gateway.Verify.{
  GatewayRequest, TrustLevel, trusted_level, untrusted_level, Authentication, GatewayConfig,
  Refusal, Granted, granted, State, Gate, opened, denied, gate_throws, approval_store,
  check_sender_and_rate_limit, trust_for, approval_gate, request_approval, ask_approver,
  enforce_rule, enforce_if, enforce_approval, gate_outcome, admit_if, admit_caller,
}
use h3_protocol.Gateway.Verify.Grant.{action_of, Approved, Trusted, IsCleared, IsDemanded}
use h3_protocol.Policy.Route.{
  RoutePolicy, ApprovalPolicy, ApprovalRequirement, always, untrusted, is_allowed_sender,
}
use h3_protocol.Prelude.Int.{ℤ}
use h3_protocol.Prelude.Texts.{Text}
use h3_protocol.Prelude.{◌≡◌, refl, ap, ◌∙◌, inl, inr, true, Option, none, some, arith}

module _ (web : WebCrypto) (auth : Authentication) (config : GatewayConfig) (now skew : ℤ) where
  sender_allowed :
      (s : State web auth config now skew) (p : RoutePolicy) (sender : Text)
      → (check_sender_and_rate_limit web auth config now skew s (some p) sender).1 ≡ none
      → is_allowed_sender p sender ≡ true
  unfolding check_sender_and_rate_limit
  sender_allowed s p sender h = ground (arith, h)

  gate_opened :
      (trust : TrustLevel) (result : ApprovalVerifyResult) (by : Option Text)
      (shown : Option TrustLevel)
      → approval_gate web auth config now skew trust result ≡ opened by shown
      → (g : ApprovalGrant) × (result ≡ Approval.ok g) × (by ≡ some g.approver)
  unfolding approval_gate
  gate_opened trust (Approval.ok g) by shown h = (g, refl, ground (arith, h))
  gate_opened trust (Approval.failed reason) by shown h = cc
  gate_opened trust Approval.thrown by shown h = cc

  ask_approver-Approved :
      (s : State web auth config now skew) (rule : ApprovalPolicy) (sender path : Text)
      (req : GatewayRequest) (action : BoundAction) (trust : TrustLevel)
      (found : Option ApprovalGrant) (by : Option Text) (shown : Option TrustLevel)
      → auth.grant_of req ≡ found
      → action_of web auth config now skew req path ≡ some action
      → (ask_approver web auth config now skew s rule sender action trust found).1 ≡ opened by shown
      → Approved web auth config now skew rule sender path req by
  unfolding ask_approver request_approval
  ask_approver-Approved s rule sender path req action trust none by shown given bound h = cc
  ask_approver-Approved s rule sender path req action trust (some grant) by shown given bound h =
      let (g, e, named) = gate_opened trust _ by shown h in
      let (same, vetted, fresh) =
        accepted_approval_binds web (approval_store web auth config now skew)
          (request_approval web auth config now skew rule sender action) now skew s.world
          (some grant) g e in
      record {
        grant = g;
        action = action;
        shown = given ∙ same;
        bound = bound;
        vetted = vetted;
        world = s.world;
        unused = fresh refl;
        named = named;
      }

  judged-IsCleared :
      (s : State web auth config now skew) (rule : ApprovalPolicy) (sender path : Text)
      (req : GatewayRequest) (action : BoundAction) (by : Option Text) (shown : Option TrustLevel)
      (level : TrustLevel)
      → action_of web auth config now skew req path ≡ some action
      → trust_for web auth config now skew rule.require req sender action ≡ level
      → (enforce_rule web auth config now skew s rule sender req (some action)).1 ≡ opened by shown
      → IsCleared web auth config now skew (some rule) sender path req by
  unfolding enforce_rule
  judged-IsCleared s rule sender path req action by shown untrusted_level bound level h = inl (
      ask_approver-Approved s rule sender path req action untrusted_level (auth.grant_of req) by
        shown refl bound (ground (arith, h, level)))
  judged-IsCleared s rule sender path req action by shown trusted_level bound level h =
      inr (lenient_trust rule.require refl level)
    where
      lenient_trust :
          (requirement : ApprovalRequirement)
          → rule.require ≡ requirement
          → trust_for web auth config now skew requirement req sender action ≡ trusted_level
          → Trusted web auth config now skew rule sender path req
      lenient_trust always e t = unfold trust_for in cc
      lenient_trust untrusted e t =
          unfold trust_for in record { lenient = e; action = action; bound = bound; trusted = t }

  enforce_rule-IsCleared :
      (s : State web auth config now skew) (rule : ApprovalPolicy) (sender path : Text)
      (req : GatewayRequest) (found : Option BoundAction) (by : Option Text)
      (shown : Option TrustLevel)
      → action_of web auth config now skew req path ≡ found
      → (enforce_rule web auth config now skew s rule sender req found).1 ≡ opened by shown
      → IsCleared web auth config now skew (some rule) sender path req by
  enforce_rule-IsCleared s rule sender path req none by shown bound h = unfold enforce_rule in cc
  enforce_rule-IsCleared s rule sender path req (some action) by shown bound h =
      judged-IsCleared s rule sender path req action by shown _ bound refl h

  enforce_if-IsCleared :
      (s : State web auth config now skew) (rule : Option ApprovalPolicy) (sender path : Text)
      (req : GatewayRequest) (by : Option Text) (shown : Option TrustLevel)
      → (enforce_if web auth config now skew s rule sender req path).1 ≡ opened by shown
      → IsCleared web auth config now skew rule sender path req by
  unfolding enforce_if
  enforce_if-IsCleared s none sender path req by shown h = tt
  enforce_if-IsCleared s (some rule) sender path req by shown h =
      enforce_rule-IsCleared s rule sender path req _ by shown refl h

  outcome_granted :
      (sender : Text) (id : Option Text) (gate : Gate web auth config now skew) (g : Granted)
      → gate_outcome web auth config now skew sender id gate ≡ granted g
      → (sender ≡ g.sender) × (shown : Option TrustLevel) × (gate ≡ opened g.approved_by shown)
  unfolding gate_outcome
  outcome_granted sender id (opened by shown) g h =
      let same : record { sender = sender; envelope_id = id; approved_by = by; trust = shown } ≡ g =
        cc in
      (ap (λ r. r.sender) same, shown, ap (λ b. opened b shown) (ap (λ r. r.approved_by) same))
  outcome_granted sender id (denied reason) g h = cc
  outcome_granted sender id gate_throws g h = cc

  admit_if-granted :
      (reason : Option Refusal) (s : State web auth config now skew) (policy : Option RoutePolicy)
      (sender : Text) (id : Option Text) (req : GatewayRequest) (path : Text) (g : Granted)
      → (admit_if web auth config now skew reason s policy sender id req path).1 ≡ granted g
      → (reason ≡ none)
        × (sender ≡ g.sender)
        × (shown : Option TrustLevel) × ((enforce_approval web auth config now skew s policy sender
              req path).1
            ≡ opened g.approved_by shown)
  unfolding admit_if
  admit_if-granted (some reason) s policy sender id req path g h = cc
  admit_if-granted none s policy sender id req path g h =
      let (own, shown, gate) = outcome_granted sender id _ g h in (refl, own, shown, gate)

  -- A caller that is admitted is the sender, and the policy's demands are met.
  pub admit_caller-IsDemanded :
      (s : State web auth config now skew) (policy : Option RoutePolicy) (sender : Text)
      (id : Option Text) (req : GatewayRequest) (path : Text) (g : Granted)
      → (admit_caller web auth config now skew s policy sender id req path).1 ≡ granted g
      → (sender ≡ g.sender) × IsDemanded web auth config now skew policy path req g
  unfolding admit_caller enforce_approval
  admit_caller-IsDemanded s none sender id req path g h =
      ((admit_if-granted _ _ none sender id req path g h).1, tt)
  admit_caller-IsDemanded s (some p) sender id req path g h =
      let (clear, own, shown, gate) = admit_if-granted _ _ (some p) sender id req path g h in
      let allowed = sender_allowed s p sender clear in
      let cleared = enforce_if-IsCleared _ p.approval sender path req g.approved_by shown gate in
      (own, rw (← own) (allowed, cleared))
