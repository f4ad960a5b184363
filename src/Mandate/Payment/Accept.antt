-- ===== src/Mandate/Payment/Accept.antt =====
-- What a payment that `verifyPayment` accepts satisfies.
use h3_protocol.Approval.{ApprovalGrant, ApprovalVerifyResult, verify_approval}
use h3_protocol.Approval
use h3_protocol.Approval.Exact.{Vetted, accepted_approval_binds}
use h3_protocol.Crypto.{WebCrypto}
use h3_protocol.Mandate.Check.{
  VerifyPaymentOptions, ApprovalOptions, Verdict, passes, fails, throws, check_payment,
}
use h3_protocol.Mandate.Check.Sound.{Authorized}
use h3_protocol.Mandate.Check.Passed.{check_payment-Authorized}
use h3_protocol.Mandate.Ledger.{
  MemorySpendLedger, ReserveOutcome, reserved, duplicate, exceeds_ceiling, payments_of, spent,
}
use h3_protocol.Mandate.Ledger.Ceiling.{sum-set}
use h3_protocol.Mandate.Money.{as_money, as_positive}
use h3_protocol.Mandate.Payment.{
  PaymentVerifyResult, ok, after_approval, ask_grant, ask_approval, after_reserve, needs_approval,
  charge_payment, after_check, verify_payment, approval_options,
}
use h3_protocol.Mandate.Payment.Effect.{
  Charged, Effect, kept_failed, kept_thrown, charged_ok, charged_thrown, verify-Effect,
}
use h3_protocol.Prelude.Int.{ℤ, finite, pos}
use h3_protocol.Prelude.Map
use h3_protocol.Prelude.Texts.{Text, text_eq_refl}
use h3_protocol.Prelude.{ℕ, ◌+◌, ◌≤◌, ◌≡◌, refl, true, Option, none, some, arith}
use h3_protocol.Replay.Store.{ReplayStore}

pub Charged-spend :
    (opts : VerifyPaymentOptions) (before after : MemorySpendLedger)
    (charged : Charged opts before after)
    → spent after opts.intent.id ≡ spent before opts.intent.id + charged.amount
unfolding spent
Charged-spend opts before after charged = ground (
  arith,
  charged.only opts.intent.id,
  text_eq_refl opts.intent.id,
  sum-set opts.payment.id charged.amount (payments_of opts.intent.id before) charged.absent,
)

-- The case of an accepted payment.
pub accepted_charge :
    (opts : VerifyPaymentOptions) (before after : MemorySpendLedger) (result : PaymentVerifyResult)
    (total : ℕ) (approver : Option Text)
    → Effect opts before after result
    → result ≡ ok total approver
    → Charged opts before after × (spent after opts.intent.id ≡ total)
accepted_charge opts before after result total approver (kept_failed kept) h = cc
accepted_charge opts before after result total approver (kept_thrown kept) h = cc
accepted_charge opts before after result total approver (charged_ok charged same) h =
    (charged, ground (arith, same, h))
accepted_charge opts before after result total approver (charged_thrown charged) h = cc

-- A grant for exactly this payment, by an allowed approver who is not the agent.
pub record Approved (web : WebCrypto) (opts : VerifyPaymentOptions) (now skew : ℤ)
    (approver : Option Text) : Type 0 where
  pub approval : ApprovalOptions
  pub grant : ApprovalGrant
  pub given : opts.approval ≡ some approval
  pub named : approver ≡ some grant.approver
  pub vetted : Vetted web (approval_options approval opts.payment) now skew grant

module _ (web : WebCrypto) (store : ReplayStore) (opts : VerifyPaymentOptions) (now skew : ℤ)
    (total : ℕ) (approver : Option Text) where
  approval_ok :
      (ledger : MemorySpendLedger) (result : ApprovalVerifyResult)
      → (after_approval ledger opts result).1 ≡ ok total approver
      → (g : ApprovalGrant) × (result ≡ Approval.ok g) × (approver ≡ some g.approver)
  unfolding after_approval
  approval_ok ledger (Approval.ok g) h = (g, refl, ground (arith, h))
  approval_ok ledger (Approval.failed reason) h = cc
  approval_ok ledger Approval.thrown h = cc

  grant_ok :
      (ledger : MemorySpendLedger) (s : store.State) (approval : ApprovalOptions)
      (grant : Option ApprovalGrant)
      → (ask_grant web store ledger s opts approval grant now skew).2 ≡ ok total approver
      → (g : ApprovalGrant) × (approver ≡ some g.approver)
        × Vetted web (approval_options approval opts.payment) now skew g
  unfolding ask_grant
  grant_ok ledger s approval none h = cc
  grant_ok ledger s approval (some grant) h =
      let (g, e, named) = approval_ok ledger _ h in
      let (_, vetted, _) =
        accepted_approval_binds web store (approval_options approval opts.payment) now skew s
          (some grant) g e in
      (g, named, vetted)

  ask_ok :
      (ledger : MemorySpendLedger) (s : store.State) (given : Option ApprovalOptions)
      → opts.approval ≡ given
      → (ask_approval web store ledger s opts given now skew).2 ≡ ok total approver
      → Approved web opts now skew approver
  unfolding ask_approval
  ask_ok ledger s none e h = cc
  ask_ok ledger s (some approval) e h =
      let (g, named, vetted) = grant_ok ledger s approval approval.grant h in
      record { approval = approval; grant = g; given = e; named = named; vetted = vetted }

  reserve_ok :
      (ledger : MemorySpendLedger) (s : store.State) (outcome : Option ReserveOutcome)
      → (after_reserve web store ledger s outcome opts now skew).2 ≡ ok total approver
      → needs_approval opts ≡ true
      → Approved web opts now skew approver
  unfolding after_reserve
  reserve_ok ledger s none h needs = cc
  reserve_ok ledger s (some duplicate) h needs = cc
  reserve_ok ledger s (some exceeds_ceiling) h needs = cc
  reserve_ok ledger s (some reserved) h needs =
      ask_ok ledger s opts.approval refl (ground (arith, h, needs))

  check_ok :
      (ledger : MemorySpendLedger) (s : store.State) (verdict : Verdict)
      → (after_check web store ledger s opts verdict now skew).2 ≡ ok total approver
      → (verdict ≡ passes) × (needs_approval opts ≡ true → Approved web opts now skew approver)
  unfolding after_check charge_payment
  check_ok ledger s passes h = (refl, λ needs. reserve_ok _ s _ h needs)
  check_ok ledger s (fails reason) h = cc
  check_ok ledger s throws h = cc

  checked :
      (ledger : MemorySpendLedger) (s : store.State)
      → (verify_payment web store ledger s opts now skew).2 ≡ ok total approver
      → (check_payment web opts now skew ≡ passes)
        × (needs_approval opts ≡ true → Approved web opts now skew approver)
  unfolding verify_payment
  checked ledger s h = check_ok ledger s (check_payment web opts now skew) h

same_amount : (n : ℕ) (amount : ℕ) → as_money (finite (pos n)) ≡ some amount → amount ≡ n
unfolding as_money
same_amount n amount h = ground arith

-- Where verifyPayment accepts, the three documents are authorized: they name the expected payer and merchant and the agent of the
-- intent, refer to one another, agree in the currency, are in time and are signed with the registered keys; the amount is the
-- recomputed total of the items of the signed cart, and respects the merchants, the categories and the limit for one purchase of
-- the intent. The payment was not in the ledger, the spend of the intent grows by exactly this amount, and stays within the ceiling of the
-- intent. Where the intent asks for an approval, an allowed approver who is not the agent signed exactly this payment.
pub accepted_payment-Authorized :
    (web : WebCrypto) (store : ReplayStore) (opts : VerifyPaymentOptions) (now skew : ℤ)
    (ledger : MemorySpendLedger) (s : store.State) (total : ℕ) (approver : Option Text)
    → (verify_payment web store ledger s opts now skew).2 ≡ ok total approver
    → (authorized : Authorized web opts now skew) × (ceiling : ℕ) × (as_positive
          opts.intent.constraints.max_total_minor
        ≡ some ceiling)
      × (Map.get opts.payment.id (payments_of opts.intent.id ledger) ≡ none)
      × (total ≡ spent ledger opts.intent.id + authorized.total)
      × (spent (verify_payment web store ledger s opts now skew).0 opts.intent.id ≡ total)
      × (total ≤ ceiling)
      × (needs_approval opts ≡ true → Approved web opts now skew approver)
accepted_payment-Authorized web store opts now skew ledger s total approver h =
    let after = (verify_payment web store ledger s opts now skew).0 in
    let (passed, approved) = checked web store opts now skew total approver ledger s h in
    let authorized = check_payment-Authorized web opts now skew passed in
    let (charged, same) =
      accepted_charge opts ledger after _ total approver
        (verify-Effect web store opts now skew ledger s) h in
    let grown = Charged-spend opts ledger after charged in
    let equal =
      same_amount authorized.total charged.amount (rw (← authorized.amount) charged.is_amount) in
    (
      authorized,
      charged.ceiling,
      charged.is_ceiling,
      charged.absent,
      omega (arith, grown, equal, same),
      same,
      omega (arith, grown, same, charged.fits),
      approved,
    )
