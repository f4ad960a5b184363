-- ===== src/Mandate/Payment.antt =====
-- `verifyPayment` of src/mandate.ts, on `MemorySpendLedger`. The strings `detail` of a failure are not
-- modelled, but for the reason of a failed approval.
pub mod Effect
pub mod Accept
pub mod Charged
mod Tests
use h3_protocol.Action.{BoundAction}
use h3_protocol.Approval.{
  ApprovalGrant, ApprovalFailure, ApprovalVerifyResult, VerifyApprovalOptions, verify_approval,
}
use h3_protocol.Approval
use h3_protocol.Crypto.{WebCrypto, verify_canonical_payload}
use h3_protocol.Mandate.Check.{
  PaymentFailure, approval_required, approval_invalid, exceeds_total_limit, already_charged,
  ApprovalOptions, VerifyPaymentOptions, Verdict, passes, fails, throws, is_above_limit,
  check_payment,
}
use h3_protocol.Mandate.Document.{
  IntentConstraints, IntentMandate, CartMandate, PaymentMandate, canon_intent, canon_cart,
  canon_payment, digest_of_cart,
}
use h3_protocol.Mandate.Ledger.{
  MemorySpendLedger, ReserveOutcome, reserved, duplicate, exceeds_ceiling, reserve, release, spent,
}
use h3_protocol.Mandate.Money.{CartItem, max_safe_integer, as_money, as_positive, checked_total}
use h3_protocol.Prelude.Int.{
  ℤ, pos, negsuc, ◌+ℤ◌, ◌-ℤ◌, ltb_ℤ, leb_ℤ, eqb_ℤ, Number, finite, non_finite,
}
use h3_protocol.Prelude.Lists.{length}
use h3_protocol.Prelude.Texts.{Text, codes, text_eq, includes}
use h3_protocol.Prelude.{
  ℕ, suc, Bool, true, false, not, ◌&&◌, ◌||◌, Option, none, some, List, [], ◌∷◌, ◌++◌, leb, ◌==◌,
  if◌then◌else◌,
}
use h3_protocol.Replay.Store.{ReplayStore}

-- `paymentApprovalAction`
unfoldable pub payment_approval_action : PaymentMandate → BoundAction
payment_approval_action payment = record {
  method = codes "PAY";
  path = codes "/mandate/" ++ payment.id;
  body_sha256 = payment.cart_digest;
}

pub data PaymentVerifyResult : Type 0 where
  -- The spend of the intent after the payment, and the approver.
  ok : ℕ → Option Text → PaymentVerifyResult
  failed : PaymentFailure → PaymentVerifyResult
  thrown : PaymentVerifyResult

-- The options of `verifyApproval` for a payment.
unfoldable pub approval_options : ApprovalOptions → PaymentMandate → VerifyApprovalOptions
approval_options approval payment = record {
  approver_keys = approval.approver_keys;
  allowed_approvers = approval.allowed_approvers;
  subject = payment.agent;
  action = payment_approval_action payment;
  single_use = approval.single_use;
}

-- The end of `verifyPayment`, after a verification of the approval. An exception of it leaves the
-- payment reserved.
unfoldable pub after_approval :
    MemorySpendLedger
    → VerifyPaymentOptions
    → ApprovalVerifyResult
    → MemorySpendLedger × PaymentVerifyResult
after_approval ledger opts (Approval.ok grant) =
    (ledger, ok (spent ledger opts.intent.id) (some grant.approver))
after_approval ledger opts (Approval.failed reason) =
    (release ledger opts.intent.id opts.payment.id, failed (approval_invalid reason))
after_approval ledger opts Approval.thrown = (ledger, thrown)

-- The approval of a payment that is reserved and needs one.
unfoldable pub ask_grant :
    WebCrypto
    → (store : ReplayStore) → MemorySpendLedger
    → store.State
    → VerifyPaymentOptions
    → ApprovalOptions
    → Option ApprovalGrant
    → ℤ
    → ℤ
    → MemorySpendLedger × store.State × PaymentVerifyResult
ask_grant web store ledger s opts approval none now skew =
    (release ledger opts.intent.id opts.payment.id, s, failed approval_required)
ask_grant web store ledger s opts approval (some grant) now skew =
    let (s', result) =
      verify_approval web store s (some grant) (approval_options approval opts.payment) now skew in
    let (ledger', answer) = after_approval ledger opts result in (ledger', s', answer)

-- `!opts.approval || opts.approval.grant === null` is `approval-required`.
unfoldable pub ask_approval :
    WebCrypto
    → (store : ReplayStore) → MemorySpendLedger
    → store.State
    → VerifyPaymentOptions
    → Option ApprovalOptions
    → ℤ
    → ℤ
    → MemorySpendLedger × store.State × PaymentVerifyResult
ask_approval web store ledger s opts none now skew =
    (release ledger opts.intent.id opts.payment.id, s, failed approval_required)
ask_approval web store ledger s opts (some approval) now skew =
    ask_grant web store ledger s opts approval approval.grant now skew

unfoldable pub needs_approval : VerifyPaymentOptions → Bool
needs_approval opts =
    is_above_limit opts.payment.amount_minor opts.intent.constraints.require_approval_above_minor

-- The part of `verifyPayment` after the reservation.
unfoldable pub after_reserve :
    WebCrypto
    → (store : ReplayStore) → MemorySpendLedger
    → store.State
    → Option ReserveOutcome
    → VerifyPaymentOptions
    → ℤ
    → ℤ
    → MemorySpendLedger × store.State × PaymentVerifyResult
after_reserve web store ledger s none opts now skew = (ledger, s, thrown)
after_reserve web store ledger s (some duplicate) opts now skew =
    (ledger, s, failed already_charged)
after_reserve web store ledger s (some exceeds_ceiling) opts now skew =
    (ledger, s, failed exceeds_total_limit)
after_reserve web store ledger s (some reserved) opts now skew =
    if needs_approval opts
    then ask_approval web store ledger s opts opts.approval now skew
    else (ledger, s, ok (spent ledger opts.intent.id) none)

unfoldable pub charge_payment :
    WebCrypto
    → (store : ReplayStore) → MemorySpendLedger
    → store.State
    → VerifyPaymentOptions
    → ℤ
    → ℤ
    → MemorySpendLedger × store.State × PaymentVerifyResult
charge_payment web store ledger s opts now skew =
    let (ledger', outcome) = reserve ledger (record {
      intent_id = opts.intent.id;
      payment_id = opts.payment.id;
      amount_minor = opts.payment.amount_minor;
      ceiling_minor = opts.intent.constraints.max_total_minor;
    }) in
    after_reserve web store ledger' s outcome opts now skew

-- The part of `verifyPayment` after the checks.
unfoldable pub after_check :
    WebCrypto
    → (store : ReplayStore) → MemorySpendLedger
    → store.State
    → VerifyPaymentOptions
    → Verdict
    → ℤ
    → ℤ
    → MemorySpendLedger × store.State × PaymentVerifyResult
after_check web store ledger s opts passes now skew =
    charge_payment web store ledger s opts now skew
after_check web store ledger s opts (fails reason) now skew = (ledger, s, failed reason)
after_check web store ledger s opts throws now skew = (ledger, s, thrown)

unfoldable pub verify_payment :
    WebCrypto
    → (store : ReplayStore) → MemorySpendLedger
    → store.State
    → VerifyPaymentOptions
    → ℤ
    → ℤ
    → MemorySpendLedger × store.State × PaymentVerifyResult
verify_payment web store ledger s opts now skew =
    after_check web store ledger s opts (check_payment web opts now skew) now skew
