-- ===== src/Gateway/Verify/Tests.antt =====
-- A request that an HTTP signature authenticates and that shows the approval its policy asks for, and one of a sender that the
-- policy does not list.
use h3_protocol.Action.{
  BoundAction, actions_equal, is_bound_action, is_empty_text, is_absolute, all_hex, is_hex_unit,
  to_hex, bytes_of, sha256_hex, bind_action, in_text,
}
use h3_protocol.Approval.{
  ApprovalGrant, unsigned_form, reason_member, canonicalize_approval, issue_approval, sign_approval,
  bound, bound_action, approval_ttl, check_grant_signature, vet_approval, approval_key,
  at_least_one, used_result, consume_grant, verify_grant, verify_presented, no_approvers,
  verify_approval,
}
use h3_protocol.Crypto.{
  base64_unit, base64_url_unit, encode_text, padding, from_base64_url, to_base64_url, strip_padding,
  sign_canonical_payload, verify_canonical_payload,
}
use h3_protocol.Crypto.Echo.{checksum}
use h3_protocol.Json.{
  hex_digit, integer, decimal, decimal_digits, stable_stringify, sorted, insert_member, text_lt,
  stringify,
}
use h3_protocol.Policy.Scope.{to_upper}
use h3_protocol.Prelude.Arrays.{get_or}
use h3_protocol.Prelude.Int.{◌+ℤ◌, ◌-ℤ◌}
use h3_protocol.Prelude.Map
use h3_protocol.Replay.Cache.Key.{utf8}
use h3_protocol.Replay.Memory.{MemoryReplayStore, check, check_positive, is_live, prune}
use h3_protocol.Replay.Store.{memory_store}
use h3_protocol.Gateway.Path.{
  decode_passes, is_hex, has_escape, has_control, is_skipped, pop_segment, normalize_segments,
  join_onto, join_path, normalize_decoded, starts_with_slash, normalize_gateway_path,
}
use h3_protocol.Gateway.Verify.{
  GatewayRequest, Authentication, no_header, untrusted_level, GatewayConfig, State, Granted,
  granted, refused, sender_denied, trust_for, request_approval, ask_approver, approval_gate,
  enforce_rule, check_rate, check_sender_and_rate_limit, enforce_approval, enforce_if, gate_outcome,
  admit_if, admit_caller, admit_sender, verify_required, verify_by_policy, verify_by_header,
  skips_verify, verify_at, verify,
}
use h3_protocol.Gateway.Verify.Guard.{IsGuarded, granted_request-IsGuarded}
use h3_protocol.Policy.Glob.{match_glob, compile, atom, matches, is_slash, is_line_end}
use h3_protocol.Policy.Route.{
  RoutePolicy, http_signature, always, match_policy, is_allowed_sender, allowed_by,
}
use h3_protocol.Policy.Scope.{split_slash, split_slash_from}
use h3_protocol.Prelude.Int.{pos}
use h3_protocol.Prelude.Texts.{Text, codes, text_eq, includes}
use h3_protocol.Prelude.{◌≡◌, ◌⊎◌, refl, true, false, none, some, [], ◌∷◌}

abbrev action : BoundAction
action = record {
  method = codes "GET";
  path = codes "/orders";
  body_sha256 = sha256_hex checksum (in_text []);
}

abbrev blank : ApprovalGrant
blank = record {
  version = [];
  id = [];
  approver = [];
  subject = [];
  action = action;
  reason = none;
  issued_at = pos 0;
  expires_at = pos 0;
  key_id = [];
  signature = [];
}

-- Carol approves the action for a sender.
abbrev grant_for : Text → ApprovalGrant
grant_for sender =
    elim (issue_approval checksum
      (record {
        approver_private_key = codes "carol key";
        approver_id = codes "carol";
        subject = sender;
        action = bound action;
        ttl_ms = some (pos 1000);
        reason = none;
        key_id = none;
      })
      (pos 10) (codes "ab")) [ none ↦ blank | some g ↦ g ]

abbrev signed_by : Text → Authentication
signed_by sender = record {
  World = MemoryReplayStore;
  decode = λ t. some t;
  envelope_of = λ req. none;
  signature_sender = λ world req. (world, some sender);
  dpop_sender = λ world req. (world, none);
  capability_of = λ req. no_header;
  grant_of = λ req. some (grant_for sender);
  trust_of = λ req who action. untrusted_level;
  replay_check = none;
  approval_check = (memory_store (pos 20)).check_key;
}

abbrev orders : RoutePolicy
orders = record {
  path = codes "/orders";
  require = http_signature;
  rate_limit = none;
  allowed_senders = some (codes "alice" ∷ []);
  sign_response = none;
  approval = some (record { require = always; approvers = codes "carol" ∷ [] });
}

abbrev config : GatewayConfig
config = record {
  policies = orders ∷ [];
  allows_by_default = false;
  capability_registry = none;
  approver_keys = λ who. some (codes "key");
}

abbrev request : GatewayRequest
request = record { method = codes "GET"; path = codes "/x/../orders"; headers = []; body = [] }

abbrev start : (sender : Text) → State checksum (signed_by sender) config (pos 20) (pos 5)
start sender = record {
  limiter = record { windows = []; max_keys = 2 };
  world = record { entries = []; max_entries = 5 };
}

abbrev alice : Granted
alice = record {
  sender = codes "alice";
  envelope_id = none;
  approved_by = some (codes "carol");
  trust = some untrusted_level;
}

alice_granted :
    (verify checksum
      (signed_by (codes "alice"))
      config
      (pos 20)
      (pos 5)
      (start (codes "alice"))
      request).1
    ≡ granted alice
unfolding verify verify_at verify_by_header verify_by_policy verify_required admit_sender
    admit_caller check_sender_and_rate_limit check_rate admit_if enforce_approval enforce_if
    gate_outcome skips_verify match_policy is_allowed_sender allowed_by includes match_glob compile
    atom matches is_slash is_line_end decode_passes is_hex has_escape has_control is_skipped
    pop_segment normalize_segments join_onto join_path normalize_decoded starts_with_slash
    normalize_gateway_path split_slash split_slash_from text_eq issue_approval sign_approval
    bound_action approval_ttl verify_approval verify_presented verify_grant vet_approval
    check_grant_signature consume_grant no_approvers canonicalize_approval unsigned_form
    reason_member actions_equal is_bound_action is_empty_text is_absolute all_hex is_hex_unit
    base64_unit base64_url_unit encode_text padding from_base64_url to_base64_url strip_padding
    sign_canonical_payload verify_canonical_payload integer decimal decimal_digits stable_stringify
    sorted insert_member text_lt stringify to_upper get_or ◌+ℤ◌ ◌-ℤ◌ utf8 check check_positive
    is_live prune at_least_one approval_key used_result Map.get trust_for request_approval
    ask_approver approval_gate enforce_rule to_hex bytes_of sha256_hex bind_action hex_digit
alice_granted = refl

bob_refused :
    (verify checksum
      (signed_by (codes "bob"))
      config
      (pos 20)
      (pos 5)
      (start (codes "bob"))
      request).1
    ≡ refused sender_denied
unfolding verify verify_at verify_by_header verify_by_policy verify_required admit_sender
    admit_caller check_sender_and_rate_limit check_rate admit_if enforce_approval enforce_if
    gate_outcome skips_verify match_policy is_allowed_sender allowed_by includes match_glob compile
    atom matches is_slash is_line_end decode_passes is_hex has_escape has_control is_skipped
    pop_segment normalize_segments join_onto join_path normalize_decoded starts_with_slash
    normalize_gateway_path split_slash split_slash_from text_eq issue_approval sign_approval
    bound_action approval_ttl verify_approval verify_presented verify_grant vet_approval
    check_grant_signature consume_grant no_approvers canonicalize_approval unsigned_form
    reason_member actions_equal is_bound_action is_empty_text is_absolute all_hex is_hex_unit
    base64_unit base64_url_unit encode_text padding from_base64_url to_base64_url strip_padding
    sign_canonical_payload verify_canonical_payload integer decimal decimal_digits stable_stringify
    sorted insert_member text_lt stringify to_upper get_or ◌+ℤ◌ ◌-ℤ◌ utf8 check check_positive
    is_live prune at_least_one approval_key used_result Map.get trust_for request_approval
    ask_approver approval_gate enforce_rule to_hex bytes_of sha256_hex bind_action hex_digit
bob_refused = refl

granted_request-IsGuarded_example :
    (path : Text) × (normalize_gateway_path (λ t. some t) (codes "/x/../orders") ≡ some path)
    × (((skips_verify checksum
              (signed_by (codes "alice"))
              config
              (pos 20)
              (pos 5)
              (match_policy (orders ∷ []) path)
            ≡ true)
          × (codes "alice" ≡ []))
        ⊎ IsGuarded checksum
            (signed_by (codes "alice"))
            config
            (pos 20)
            (pos 5)
            (match_policy (orders ∷ []) path)
            (start (codes "alice"))
            path
            request
            alice)
granted_request-IsGuarded_example =
    granted_request-IsGuarded checksum (signed_by (codes "alice")) config (pos 20) (pos 5)
      (start (codes "alice")) request alice alice_granted
