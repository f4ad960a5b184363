-- ===== src/Approval/Tests.antt =====
-- A grant for one payment request, issued and verified.
use h3_protocol.Action.{
  BoundAction, actions_equal, is_bound_action, is_empty_text, is_absolute, all_hex, is_hex_unit,
}
use h3_protocol.Approval.{
  ApprovalGrant, IssueApprovalOptions, VerifyApprovalOptions, ok, failed, action_mismatch,
  unsigned_form, reason_member, canonicalize_approval, issue_approval, sign_approval, bound,
  bound_action, approval_ttl, check_grant_signature, vet_approval, approval_key, at_least_one,
  used_result, consume_grant, verify_grant, verify_presented, no_approvers, verify_approval,
}
use h3_protocol.Approval.Exact.{
  Vetted, UsedFresh, accepted_approval_binds, failed_approval_spends_nothing,
}
use h3_protocol.Approval.Once.{approval_used_once}
use h3_protocol.Crypto.{
  base64_unit, base64_url_unit, encode_text, padding, from_base64_url, to_base64_url, strip_padding,
  sign_canonical_payload, verify_canonical_payload,
}
use h3_protocol.Crypto.Echo.{checksum}
use h3_protocol.Json.{
  integer, decimal, decimal_digits, stable_stringify, sorted, insert_member, text_lt, stringify,
}
use h3_protocol.Policy.Scope.{to_upper}
use h3_protocol.Prelude.Arrays.{get_or}
use h3_protocol.Prelude.Int.{pos, finite, ◌+ℤ◌, ◌-ℤ◌}
use h3_protocol.Prelude.Map
use h3_protocol.Prelude.Texts.{Text, codes, text_eq, includes}
use h3_protocol.Prelude.{ℕ, zero, suc, ◌≡◌, ◌≢◌, refl, true, none, some, [], ◌∷◌, arith}
use h3_protocol.Replay.Cache.Key.{utf8}
use h3_protocol.Replay.Memory.{MemoryReplayStore, check, check_positive, is_live, prune}
use h3_protocol.Replay.Memory.Once.{run}
use h3_protocol.Replay.Store.{memory_store}

abbrev repeated : ℕ → Text
repeated zero = []
repeated (suc n) = b'a' ∷ repeated n

abbrev action : BoundAction
action = record { method = codes "POST"; path = codes "/pay"; body_sha256 = repeated 64 }

abbrev issue_options : IssueApprovalOptions
issue_options = record {
  approver_private_key = codes "carol key";
  approver_id = codes "carol";
  subject = codes "agent";
  action = bound action;
  ttl_ms = some (pos 1000);
  reason = none;
  key_id = none;
}

abbrev blank : ApprovalGrant
blank = record {
  version = [];
  id = [];
  approver = [];
  subject = [];
  action = action;
  reason = none;
  issued_at = pos 0;
  expires_at = pos 0;
  key_id = [];
  signature = [];
}

abbrev grant : ApprovalGrant
grant = elim (issue_approval checksum issue_options (pos 10) (codes "ab")) [
  | none ↦ blank
  | some g ↦ g
]

abbrev options : VerifyApprovalOptions
options = record {
  approver_keys = λ id. some (codes "key");
  allowed_approvers = codes "carol" ∷ [];
  subject = codes "agent";
  action = action;
  single_use = true;
}

abbrev other_path : VerifyApprovalOptions
other_path = record options { action = record action { path = codes "/refund" } }

abbrev store : MemoryReplayStore
store = record { entries = []; max_entries = 5 }

grant_accepted :
    (verify_approval checksum (memory_store (pos 20)) store (some grant) options (pos 20) (pos 5)).1
    ≡ ok grant
unfolding issue_approval sign_approval bound_action approval_ttl verify_approval verify_presented
    verify_grant vet_approval check_grant_signature consume_grant no_approvers canonicalize_approval
    unsigned_form reason_member actions_equal is_bound_action is_empty_text is_absolute all_hex
    is_hex_unit base64_unit base64_url_unit encode_text padding from_base64_url to_base64_url
    strip_padding sign_canonical_payload verify_canonical_payload integer decimal decimal_digits
    stable_stringify sorted insert_member text_lt stringify to_upper get_or ◌+ℤ◌ ◌-ℤ◌ text_eq
    includes utf8 check check_positive is_live prune at_least_one approval_key used_result Map.get
grant_accepted = refl

path_refused :
    (verify_approval checksum
      (memory_store (pos 20))
      store
      (some grant)
      other_path
      (pos 20)
      (pos 5)).1
    ≡ failed action_mismatch
unfolding issue_approval sign_approval bound_action approval_ttl verify_approval verify_presented
    verify_grant vet_approval check_grant_signature consume_grant no_approvers canonicalize_approval
    unsigned_form reason_member actions_equal is_bound_action is_empty_text is_absolute all_hex
    is_hex_unit base64_unit base64_url_unit encode_text padding from_base64_url to_base64_url
    strip_padding sign_canonical_payload verify_canonical_payload integer decimal decimal_digits
    stable_stringify sorted insert_member text_lt stringify to_upper get_or ◌+ℤ◌ ◌-ℤ◌ text_eq
    includes utf8 check check_positive is_live prune at_least_one approval_key used_result Map.get
path_refused = refl

accepted_approval_binds_example :
    (some grant ≡ some grant)
    × Vetted checksum options (pos 20) (pos 5) grant
    × UsedFresh checksum (memory_store (pos 20)) options (pos 20) (pos 5) store grant
accepted_approval_binds_example =
    accepted_approval_binds checksum (memory_store (pos 20)) options (pos 20) (pos 5) store
      (some grant) grant grant_accepted

failed_approval_spends_nothing_example :
    (verify_approval checksum
      (memory_store (pos 20))
      store
      (some grant)
      other_path
      (pos 20)
      (pos 5)).0
    ≡ store
failed_approval_spends_nothing_example =
    failed_approval_spends_nothing checksum (memory_store (pos 20)) other_path (pos 20) (pos 5)
      store (some grant) action_mismatch path_refused (λ e. cc)

approval_used_once_example :
    (verify_approval checksum
      (memory_store (pos 30))
      (run
        (verify_approval checksum
          (memory_store (pos 20))
          store
          (some grant)
          options
          (pos 20)
          (pos 5)).0
        (record { key = codes "k"; ttl = finite (pos 9); now = pos 25 } ∷ []))
      (some grant)
      options
      (pos 30)
      (pos 5)).1
    ≢ ok grant
approval_used_once_example =
    approval_used_once checksum options options store grant grant grant (pos 20) (pos 5) (pos 30)
      (pos 5) (record { key = codes "k"; ttl = finite (pos 9); now = pos 25 } ∷ []) grant_accepted
      refl refl (omega arith) (omega arith) (omega arith, tt)
