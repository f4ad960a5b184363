-- ===== src/Mandate/Payment/Effect.antt =====
-- What a call of `verifyPayment` does to the ledger, by its result.
use h3_protocol.Approval.{ApprovalGrant, ApprovalFailure, ApprovalVerifyResult, verify_approval}
use h3_protocol.Approval
use h3_protocol.Crypto.{WebCrypto}
use h3_protocol.Mandate.Check.{
  PaymentFailure, VerifyPaymentOptions, ApprovalOptions, Verdict, passes, fails, throws,
  check_payment,
}
use h3_protocol.Mandate.Ledger.{
  MemorySpendLedger, ReserveOutcome, Reservation, reserved, duplicate, exceeds_ceiling, payments_of,
  release, spent,
}
use h3_protocol.Mandate.Ledger.Charge.{undo}
use h3_protocol.Mandate.Ledger.Effects.{
  Reserved, added, refused, reserve_amount-Reserved, reserve-cases,
}
use h3_protocol.Mandate.Money.{as_money, as_positive}
use h3_protocol.Mandate.Payment.{
  PaymentVerifyResult, ok, failed, thrown, after_approval, ask_grant, ask_approval, after_reserve,
  needs_approval, charge_payment, after_check, verify_payment,
}
use h3_protocol.Prelude.Int.{ℤ}
use h3_protocol.Prelude.Map
use h3_protocol.Prelude.Map.{Map}
use h3_protocol.Prelude.Texts.{Text, text_eq}
use h3_protocol.Prelude.{
  ℕ, ◌+◌, ◌≤◌, ◌≡◌, ◌≢◌, refl, inl, inr, Option, none, some, if◌then◌else◌, Bool-cases,
}
use h3_protocol.Replay.Store.{ReplayStore}

abbrev pub reservation : VerifyPaymentOptions → Reservation
reservation opts = record {
  intent_id = opts.intent.id;
  payment_id = opts.payment.id;
  amount_minor = opts.payment.amount_minor;
  ceiling_minor = opts.intent.constraints.max_total_minor;
}

-- The payments of every intent are as before.
abbrev pub IsKept : MemorySpendLedger → MemorySpendLedger → Type 0
IsKept before after = (other : Text) → payments_of other after ≡ payments_of other before

-- The payment was absent, fits under the ceiling, and is the only change.
pub record Charged (opts : VerifyPaymentOptions) (before after : MemorySpendLedger) : Type 0 where
  pub amount : ℕ
  pub ceiling : ℕ
  pub is_amount : as_money opts.payment.amount_minor ≡ some amount
  pub is_ceiling : as_positive opts.intent.constraints.max_total_minor ≡ some ceiling
  pub absent : Map.get opts.payment.id (payments_of opts.intent.id before) ≡ none
  pub fits : amount + spent before opts.intent.id ≤ ceiling
  pub only :
      (other : Text)
      → payments_of other after ≡ (
          if text_eq opts.intent.id other
          then Map.set opts.payment.id amount (payments_of opts.intent.id before)
          else payments_of other before)

-- The change of the ledger that goes with a result.
pub data Effect (opts : VerifyPaymentOptions) (before : MemorySpendLedger)
    : MemorySpendLedger → PaymentVerifyResult → Type 0 where
  kept_failed :
      {after : MemorySpendLedger} {reason : PaymentFailure}
      → IsKept before after
      → Effect opts before after (failed reason)
  kept_thrown : {after : MemorySpendLedger} → IsKept before after → Effect opts before after thrown
  charged_ok :
      {after : MemorySpendLedger} {total : ℕ} {approver : Option Text}
      → Charged opts before after
      → spent after opts.intent.id ≡ total
      → Effect opts before after (ok total approver)
  charged_thrown :
      {after : MemorySpendLedger} → Charged opts before after → Effect opts before after thrown

released :
    (opts : VerifyPaymentOptions) (before after : MemorySpendLedger)
    → Charged opts before after
    → IsKept before (release after opts.intent.id opts.payment.id)
released opts before after charged other =
    undo before opts.intent.id opts.payment.id other charged.amount charged.ceiling
      (added charged.absent charged.fits charged.only) refl

approval-Effect :
    (opts : VerifyPaymentOptions) (before after : MemorySpendLedger) (result : ApprovalVerifyResult)
    → Charged opts before after
    → Effect opts before (after_approval after opts result).0 (after_approval after opts result).1
unfolding after_approval
approval-Effect opts before after (Approval.ok grant) charged = charged_ok charged refl
approval-Effect opts before after (Approval.failed reason) charged =
    kept_failed (released opts before after charged)
approval-Effect opts before after Approval.thrown charged = charged_thrown charged

module _ (web : WebCrypto) (store : ReplayStore) (opts : VerifyPaymentOptions) (now skew : ℤ) where
  grant-Effect :
      (before after : MemorySpendLedger) (s : store.State) (approval : ApprovalOptions)
      (grant : Option ApprovalGrant)
      → Charged opts before after
      → Effect opts before
          (ask_grant web store after s opts approval grant now skew).0
          (ask_grant web store after s opts approval grant now skew).2
  unfolding ask_grant
  grant-Effect before after s approval none charged =
      kept_failed (released opts before after charged)
  grant-Effect before after s approval (some grant) charged =
      approval-Effect opts before after _ charged

  ask-Effect :
      (before after : MemorySpendLedger) (s : store.State) (approval : Option ApprovalOptions)
      → Charged opts before after
      → Effect opts before
          (ask_approval web store after s opts approval now skew).0
          (ask_approval web store after s opts approval now skew).2
  unfolding ask_approval
  ask-Effect before after s none charged = kept_failed (released opts before after charged)
  ask-Effect before after s (some approval) charged =
      grant-Effect before after s approval approval.grant charged

  reserved-Effect :
      (before after : MemorySpendLedger) (s : store.State)
      → Charged opts before after
      → Effect opts before
          (after_reserve web store after s (some reserved) opts now skew).0
          (after_reserve web store after s (some reserved) opts now skew).2
  unfolding after_reserve
  reserved-Effect before after s charged = elim (Bool-cases (needs_approval opts)) [
    | inl asked ↦ rw asked (ask-Effect before after s opts.approval charged)
    | inr free ↦ rw free (charged_ok charged refl)
  ]

  refused-Effect :
      (before after : MemorySpendLedger) (s : store.State) (outcome : ReserveOutcome)
      → outcome ≢ reserved
      → IsKept before after
      → Effect opts before
          (after_reserve web store after s (some outcome) opts now skew).0
          (after_reserve web store after s (some outcome) opts now skew).2
  unfolding after_reserve
  refused-Effect before after s reserved differs kept = absurd (differs refl)
  refused-Effect before after s duplicate differs kept = kept_failed kept
  refused-Effect before after s exceeds_ceiling differs kept = kept_failed kept

  outcome-Effect :
      (before : MemorySpendLedger) (s : store.State) (amount ceiling : ℕ)
      (out : MemorySpendLedger × ReserveOutcome)
      → as_money opts.payment.amount_minor ≡ some amount
      → as_positive opts.intent.constraints.max_total_minor ≡ some ceiling
      → Reserved before opts.intent.id opts.payment.id amount ceiling out
      → Effect opts before
          (after_reserve web store out.0 s (some out.1) opts now skew).0
          (after_reserve web store out.0 s (some out.1) opts now skew).2
  outcome-Effect before s amount ceiling out is_amount is_ceiling
        (added {ledger' = after} absent fits only) =
      reserved-Effect before after s (record {
        amount = amount;
        ceiling = ceiling;
        is_amount = is_amount;
        is_ceiling = is_ceiling;
        absent = absent;
        fits = fits;
        only = only;
      })
  outcome-Effect before s amount ceiling out is_amount is_ceiling
        (refused {ledger' = after} {outcome = outcome} differs kept) =
      refused-Effect before after s outcome differs kept

  charge-Effect :
      (before : MemorySpendLedger) (s : store.State)
      → Effect opts before
          (charge_payment web store before s opts now skew).0
          (charge_payment web store before s opts now skew).2
  unfolding charge_payment after_reserve
  charge-Effect before s = elim (reserve-cases before (reservation opts)) [
    | inl none_reserved ↦ rw none_reserved (kept_thrown (λ other. refl))
    | inr (amount, ceiling, is_amount, is_ceiling, done) ↦ rw done (
        outcome-Effect before s amount ceiling _ is_amount is_ceiling
          (reserve_amount-Reserved before opts.intent.id opts.payment.id amount ceiling))
  ]

  verdict-Effect :
      (before : MemorySpendLedger) (s : store.State) (verdict : Verdict)
      → Effect opts before
          (after_check web store before s opts verdict now skew).0
          (after_check web store before s opts verdict now skew).2
  unfolding after_check
  verdict-Effect before s passes = charge-Effect before s
  verdict-Effect before s (fails reason) = kept_failed (λ other. refl)
  verdict-Effect before s throws = kept_thrown (λ other. refl)

  pub verify-Effect :
      (before : MemorySpendLedger) (s : store.State)
      → Effect opts before
          (verify_payment web store before s opts now skew).0
          (verify_payment web store before s opts now skew).2
  unfolding verify_payment
  verify-Effect before s = verdict-Effect before s (check_payment web opts now skew)
