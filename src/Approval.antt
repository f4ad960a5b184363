-- ===== src/Approval.antt =====
-- src/approval.ts: grants that a named approver signs for one action of one agent, and their
-- verification. Clock, random part of an id and clock skew are arguments.
pub mod Exact
pub mod Once
mod Tests
use h3_protocol.Action.{
  BoundAction, ActionInput, bind_action, actions_equal, is_bound_action, is_empty_text,
}
use h3_protocol.Crypto.{WebCrypto, sign_canonical_payload, verify_canonical_payload}
use h3_protocol.Json.{Value, Members, text, number, object, member, end, integer, stable_stringify}
use h3_protocol.Policy.Scope.{to_upper}
use h3_protocol.Prelude.Int.{ℤ, pos, ◌+ℤ◌, ◌-ℤ◌, ltb_ℤ, leb_ℤ}
use h3_protocol.Prelude.Texts.{Text, codes, text_eq, includes}
use h3_protocol.Prelude.{
  ℕ, Bool, true, false, not, ◌||◌, Option, none, some, List, [], ◌∷◌, ◌++◌, if◌then◌else◌,
}
use h3_protocol.Replay.Store.{ReplayStore}

abbrev pub approval_version : Text
approval_version = codes "7h3-approval/1"

-- `10 * 60_000`
abbrev pub max_approval_ttl_ms : ℤ
max_approval_ttl_ms = pos 600000

-- `2 * 60_000`
abbrev pub default_approval_ttl_ms : ℤ
default_approval_ttl_ms = pos 120000

pub record ApprovalGrant : Type 0 where
  pub version : Text
  pub id : Text
  pub approver : Text
  pub subject : Text
  pub action : BoundAction
  pub reason : Option Text
  pub issued_at : ℤ
  pub expires_at : ℤ
  pub key_id : Text
  pub signature : Text

pub data ApprovalFailure : Type 0 where
  malformed unsupported_version approver_not_allowed self_approval : ApprovalFailure
  ttl_too_long not_yet_valid expired subject_mismatch action_mismatch : ApprovalFailure
  no_approver_key invalid_signature already_used : ApprovalFailure

pub data ApprovalVerifyResult : Type 0 where
  ok : ApprovalGrant → ApprovalVerifyResult
  failed : ApprovalFailure → ApprovalVerifyResult
  -- An exception, from an empty list of approvers, a key that cannot be imported, or the store.
  thrown : ApprovalVerifyResult

-- `{ ...base, reason }` where there is a reason.
unfoldable pub reason_member : Option Text → Members
reason_member none = end
reason_member (some reason) = member (codes "reason") (text reason) end

unfoldable pub unsigned_form : ApprovalGrant → Value
unsigned_form grant = object (
    member (codes "version") (text grant.version) (
      member (codes "id") (text grant.id) (
        member (codes "approver") (text grant.approver) (
          member (codes "subject") (text grant.subject) (
            member (codes "action")
              (object (
                member (codes "method") (text grant.action.method) (
                  member (codes "path") (text grant.action.path)
                    (member (codes "bodySha256") (text grant.action.body_sha256) end))))
              (member (codes "issuedAt") (number grant.issued_at) (
                member (codes "expiresAt") (number grant.expires_at)
                  (member (codes "keyId") (text grant.key_id) (reason_member grant.reason)))))))))

unfoldable pub canonicalize_approval : ApprovalGrant → Text
canonicalize_approval grant = stable_stringify (unsigned_form grant)

-- `ActionInput | BoundAction`
pub data GrantedAction : Type 0 where
  bound : BoundAction → GrantedAction
  raw : ActionInput → GrantedAction

unfoldable pub bound_action : WebCrypto → GrantedAction → Option BoundAction
bound_action web (bound action) = some action
bound_action web (raw input) = bind_action web input

pub record IssueApprovalOptions : Type 0 where
  pub approver_private_key : Text
  pub approver_id : Text
  pub subject : Text
  pub action : GrantedAction
  pub ttl_ms : Option ℤ
  pub reason : Option Text
  pub key_id : Option Text

unfoldable pub approval_ttl : Option ℤ → ℤ
approval_ttl none = default_approval_ttl_ms
approval_ttl (some ttl) = ttl

-- The part of `issueApproval` after the action is bound.
unfoldable pub sign_approval :
    WebCrypto → IssueApprovalOptions → BoundAction → ℤ → Text → Option ApprovalGrant
sign_approval web opts action now random =
    let unsigned : ApprovalGrant = record {
      version = approval_version;
      id = codes "appr-" ++ (integer now ++ (b'-' ∷ random));
      approver = opts.approver_id;
      subject = opts.subject;
      action = record action { method = to_upper action.method };
      reason = opts.reason;
      issued_at = now;
      expires_at = now +ℤ approval_ttl opts.ttl_ms;
      key_id = elim opts.key_id [ none ↦ opts.approver_id ++ codes "-key" | some key ↦ key ];
      signature = [];
    } in
    let signed : Option ApprovalGrant =
      elim (sign_canonical_payload web (canonicalize_approval unsigned) opts.approver_private_key) [
        | none ↦ none
        | some s ↦ some (record unsigned { signature = s })
      ] in
    if not (is_bound_action action) then none else signed

-- `none` is an error.
unfoldable pub issue_approval : WebCrypto → IssueApprovalOptions → ℤ → Text → Option ApprovalGrant
issue_approval web opts now random =
    let ttl = approval_ttl opts.ttl_ms in
    let issued : Option ApprovalGrant = elim (bound_action web opts.action) [
      | none ↦ none
      | some action ↦ sign_approval web opts action now random
    ] in
    if leb_ℤ ttl (pos 0)
    then none
    else if ltb_ℤ max_approval_ttl_ms ttl
    then none
    else if is_empty_text opts.approver_id || is_empty_text opts.subject
    then none
    else if text_eq opts.approver_id opts.subject
    then none
    else issued

pub record VerifyApprovalOptions : Type 0 where
  -- The public key of an approver; an empty text counts as no key.
  pub approver_keys : Text → Option Text
  pub allowed_approvers : List Text
  pub subject : Text
  pub action : BoundAction
  -- Whether a replay store is given.
  pub single_use : Bool

unfoldable pub check_grant_signature :
    WebCrypto → ApprovalGrant → Option Text → ApprovalVerifyResult
check_grant_signature web grant none = failed no_approver_key
check_grant_signature web grant (some []) = failed no_approver_key
check_grant_signature web grant (some (u ∷ key)) =
    elim (verify_canonical_payload web (canonicalize_approval grant) grant.signature (u ∷ key)) [
      | none ↦ thrown
      | some valid ↦ if valid then ok grant else failed invalid_signature
    ]

-- The checks of a grant before the replay store is asked.
unfoldable pub vet_approval :
    WebCrypto → ApprovalGrant → VerifyApprovalOptions → ℤ → ℤ → ApprovalVerifyResult
vet_approval web grant opts now skew =
    if not (text_eq grant.version approval_version)
    then failed unsupported_version
    else if not (includes grant.approver opts.allowed_approvers)
    then failed approver_not_allowed
    else if text_eq grant.approver grant.subject
    then failed self_approval
    else if leb_ℤ grant.expires_at grant.issued_at
        || ltb_ℤ max_approval_ttl_ms (grant.expires_at -ℤ grant.issued_at)
    then failed ttl_too_long
    else if ltb_ℤ (now +ℤ skew) grant.issued_at
    then failed not_yet_valid
    else if leb_ℤ grant.expires_at now
    then failed expired
    else if not (text_eq grant.subject opts.subject)
    then failed subject_mismatch
    else if not (actions_equal grant.action opts.action)
    then failed action_mismatch
    else check_grant_signature web grant (opts.approver_keys grant.approver)

-- `7h3:approval:${grant.id}`
unfoldable pub approval_key : ApprovalGrant → Text
approval_key grant = codes "7h3:approval:" ++ grant.id

-- `Math.max(1, n)`
unfoldable pub at_least_one : ℤ → ℤ
at_least_one n = if ltb_ℤ n (pos 1) then pos 1 else n

unfoldable pub used_result : ApprovalGrant → Option Bool → ApprovalVerifyResult
used_result grant none = thrown
used_result grant (some true) = failed already_used
used_result grant (some false) = ok grant

-- The use of a grant that passes, where a store is given.
unfoldable pub consume_grant :
    (store : ReplayStore)
    → store.State
    → Bool
    → ApprovalGrant
    → ℤ
    → ℤ
    → store.State × ApprovalVerifyResult
consume_grant store s false grant now skew = (s, ok grant)
consume_grant store s true grant now skew =
    let remaining = at_least_one (grant.expires_at -ℤ now) in
    let (s', replayed) = store.check_key s (approval_key grant) (remaining +ℤ skew) in
    (s', used_result grant replayed)

unfoldable pub verify_grant :
    WebCrypto
    → (store : ReplayStore) → store.State
    → ApprovalGrant
    → VerifyApprovalOptions
    → ℤ
    → ℤ
    → store.State × ApprovalVerifyResult
verify_grant web store s grant opts now skew = elim (vet_approval web grant opts now skew) [
  | ok vetted ↦ consume_grant store s opts.single_use vetted now skew
  | failed reason ↦ (s, failed reason)
  | thrown ↦ (s, thrown)
]

unfoldable pub verify_presented :
    WebCrypto
    → (store : ReplayStore) → store.State
    → Option ApprovalGrant
    → VerifyApprovalOptions
    → ℤ
    → ℤ
    → store.State × ApprovalVerifyResult
verify_presented web store s none opts now skew = (s, failed malformed)
verify_presented web store s (some grant) opts now skew =
    verify_grant web store s grant opts now skew

-- `allowedApprovers.length === 0`
unfoldable pub no_approvers : List Text → Bool
no_approvers [] = true
no_approvers (_ ∷ _) = false

unfoldable pub verify_approval :
    WebCrypto
    → (store : ReplayStore) → store.State
    → Option ApprovalGrant
    → VerifyApprovalOptions
    → ℤ
    → ℤ
    → store.State × ApprovalVerifyResult
verify_approval web store s grant opts now skew =
    if no_approvers opts.allowed_approvers
    then (s, thrown)
    else verify_presented web store s grant opts now skew
