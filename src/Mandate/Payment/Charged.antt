-- ===== src/Mandate/Payment/Charged.antt =====
-- What `verifyPayment` leaves in the ledger over several calls.
use h3_protocol.Approval.{ApprovalGrant, ApprovalVerifyResult, verify_approval}
use h3_protocol.Approval
use h3_protocol.Crypto.{WebCrypto}
use h3_protocol.Mandate.Check.{
  PaymentFailure, VerifyPaymentOptions, ApprovalOptions, passes, check_payment,
}
use h3_protocol.Mandate.Ledger.{
  MemorySpendLedger, ReserveOutcome, reserved, payments_of, reserve, spent,
}
use h3_protocol.Mandate.Ledger.Effects.{
  Reserved, added, refused, reserve_amount-Reserved, reserve-cases,
}
use h3_protocol.Mandate.Money.{as_money, as_positive}
use h3_protocol.Mandate.Payment.{
  PaymentVerifyResult, ok, failed, thrown, after_approval, ask_grant, ask_approval, after_reserve,
  needs_approval, charge_payment, after_check, verify_payment, approval_options,
}
use h3_protocol.Mandate.Payment.Accept.{accepted_charge, Charged-spend}
use h3_protocol.Mandate.Payment.Effect.{
  Charged, Effect, IsKept, kept_failed, kept_thrown, charged_ok, charged_thrown, reservation,
  verify-Effect,
}
use h3_protocol.Prelude.Int.{ℤ}
use h3_protocol.Prelude.Map
use h3_protocol.Prelude.Texts.{Text, text_eq_iff, text_eq_refl}
use h3_protocol.Prelude.{ℕ, ◌+◌, ◌≡◌, ◌≢◌, inl, inr, true, Option, some, List, [], ◌∷◌, arith}
use h3_protocol.Replay.Store.{ReplayStore}

-- The amount of a payment in the ledger.
abbrev charged_amount : MemorySpendLedger → Text → Text → Option ℕ
charged_amount ledger intent payment = Map.get payment (payments_of intent ledger)

charge_keeps :
    (opts : VerifyPaymentOptions) (before after : MemorySpendLedger) (intent payment : Text) {v : ℕ}
    → Charged opts before after
    → charged_amount before intent payment ≡ some v
    → charged_amount after intent payment ≡ some v
charge_keeps opts before after intent payment charged h = ground (
  arith,
  charged.only intent,
  charged.absent,
  text_eq_iff opts.intent.id intent,
  text_eq_iff opts.payment.id payment,
  Map.get-set opts.payment.id payment charged.amount (payments_of opts.intent.id before),
)

Effect-keeps :
    (opts : VerifyPaymentOptions) (before after : MemorySpendLedger) (result : PaymentVerifyResult)
    (intent payment : Text) {v : ℕ}
    → Effect opts before after result
    → charged_amount before intent payment ≡ some v
    → charged_amount after intent payment ≡ some v
Effect-keeps opts before after result intent payment (kept_failed kept) h = rw (kept intent) h
Effect-keeps opts before after result intent payment (kept_thrown kept) h = rw (kept intent) h
Effect-keeps opts before after result intent payment (charged_ok charged same) h =
    charge_keeps opts before after intent payment charged h
Effect-keeps opts before after result intent payment (charged_thrown charged) h =
    charge_keeps opts before after intent payment charged h

charge_holds :
    (opts : VerifyPaymentOptions) (before after : MemorySpendLedger)
    (charged : Charged opts before after)
    → charged_amount after opts.intent.id opts.payment.id ≡ some charged.amount
charge_holds opts before after charged = ground (
  arith,
  charged.only opts.intent.id,
  text_eq_refl opts.intent.id,
  text_eq_refl opts.payment.id,
  Map.get-set opts.payment.id opts.payment.id charged.amount (payments_of opts.intent.id before),
)

pub record Call : Type 0 where
  pub opts : VerifyPaymentOptions
  pub now : ℤ
  pub skew : ℤ

module _ (web : WebCrypto) (store : ReplayStore) where
  -- Calls of `verifyPayment`, one after the other, on one ledger and one replay store.
  unfoldable pub run : MemorySpendLedger → store.State → List Call → MemorySpendLedger × store.State
  run ledger s [] = (ledger, s)
  run ledger s (c ∷ calls) =
      let (ledger', s', _) = verify_payment web store ledger s c.opts c.now c.skew in
      run ledger' s' calls

  run-keeps :
      (ledger : MemorySpendLedger) (s : store.State) (calls : List Call) (intent payment : Text)
      {v : ℕ}
      → charged_amount ledger intent payment ≡ some v
      → charged_amount (run ledger s calls).0 intent payment ≡ some v
  unfolding run
  run-keeps ledger s [] intent payment h = h
  run-keeps ledger s (c ∷ calls) intent payment h =
      run-keeps (verify_payment web store ledger s c.opts c.now c.skew).0
        (verify_payment web store ledger s c.opts c.now c.skew).1 calls intent payment
        (Effect-keeps c.opts ledger _ _ intent payment
          (verify-Effect web store c.opts c.now c.skew ledger s) h)

  -- The payment is in the ledger, so no later call accepts it.
  charged_is_final :
      (ledger : MemorySpendLedger) (s : store.State) (again : Call) (intent payment : Text) {v : ℕ}
      (total : ℕ) (approver : Option Text)
      → charged_amount ledger intent payment ≡ some v
      → again.opts.intent.id ≡ intent
      → again.opts.payment.id ≡ payment
      → (verify_payment web store ledger s again.opts again.now again.skew).2 ≢ ok total approver
  charged_is_final ledger s again intent payment total approver held same_intent same_payment h =
      let (twice, _) =
        accepted_charge again.opts ledger _ _ total approver
          (verify-Effect web store again.opts again.now again.skew ledger s) h in
      ground (arith, held, twice.absent, same_intent, same_payment)

  -- A payment that was accepted is never accepted again: after any further calls, a payment of the same id under the same intent
  -- is not accepted, whatever documents the call presents.
  pub payment_charged_once :
      (ledger : MemorySpendLedger) (s : store.State) (first again : Call) (calls : List Call)
      (total total' : ℕ) (approver approver' : Option Text)
      → (verify_payment web store ledger s first.opts first.now first.skew).2 ≡ ok total approver
      → again.opts.intent.id ≡ first.opts.intent.id
      → again.opts.payment.id ≡ first.opts.payment.id
      → (verify_payment web store
          (run
            (verify_payment web store ledger s first.opts first.now first.skew).0
            (verify_payment web store ledger s first.opts first.now first.skew).1
            calls).0
          (run
            (verify_payment web store ledger s first.opts first.now first.skew).0
            (verify_payment web store ledger s first.opts first.now first.skew).1
            calls).1
          again.opts
          again.now
          again.skew).2
        ≢ ok total' approver'
  payment_charged_once ledger s first again calls total total' approver approver' accepted intent
        payment h =
      let ledger' = (verify_payment web store ledger s first.opts first.now first.skew).0 in
      let s' = (verify_payment web store ledger s first.opts first.now first.skew).1 in
      let later = run ledger' s' calls in
      let (charged, _) =
        accepted_charge first.opts ledger ledger' _ total approver
          (verify-Effect web store first.opts first.now first.skew ledger s) accepted in
      let held =
        run-keeps ledger' s' calls first.opts.intent.id first.opts.payment.id
          (charge_holds first.opts ledger ledger' charged) in
      charged_is_final later.0 later.1 again first.opts.intent.id first.opts.payment.id total'
        approver' held intent payment h

failed_keeps :
    (opts : VerifyPaymentOptions) (before after : MemorySpendLedger) (result : PaymentVerifyResult)
    (reason : PaymentFailure)
    → Effect opts before after result
    → result ≡ failed reason
    → IsKept before after
failed_keeps opts before after result reason (kept_failed kept) h = kept
failed_keeps opts before after result reason (kept_thrown kept) h = cc
failed_keeps opts before after result reason (charged_ok charged same) h = cc
failed_keeps opts before after result reason (charged_thrown charged) h = cc

-- A payment that is refused for a reason, an invalid or missing approval included, leaves the payments of every intent as they
-- were.
pub failed_payment_keeps_ledger :
    (web : WebCrypto) (store : ReplayStore) (opts : VerifyPaymentOptions) (now skew : ℤ)
    (ledger : MemorySpendLedger) (s : store.State) (reason : PaymentFailure)
    → (verify_payment web store ledger s opts now skew).2 ≡ failed reason
    → (other : Text)
    → payments_of other (verify_payment web store ledger s opts now skew).0
      ≡ payments_of other ledger
failed_payment_keeps_ledger web store opts now skew ledger s reason h =
    failed_keeps opts ledger _ _ reason (verify-Effect web store opts now skew ledger s) h

reserved_charge :
    (opts : VerifyPaymentOptions) (ledger : MemorySpendLedger) (amount ceiling : ℕ)
    (out : MemorySpendLedger × ReserveOutcome)
    → as_money opts.payment.amount_minor ≡ some amount
    → as_positive opts.intent.constraints.max_total_minor ≡ some ceiling
    → Reserved ledger opts.intent.id opts.payment.id amount ceiling out
    → out.1 ≡ reserved
    → Charged opts ledger out.0
reserved_charge opts ledger amount ceiling out is_amount is_ceiling (added absent fits only) h =
    record {
      amount = amount;
      ceiling = ceiling;
      is_amount = is_amount;
      is_ceiling = is_ceiling;
      absent = absent;
      fits = fits;
      only = only;
    }
reserved_charge opts ledger amount ceiling out is_amount is_ceiling (refused differs kept) h =
    absurd (differs h)

reserve-Charged :
    (opts : VerifyPaymentOptions) (ledger : MemorySpendLedger)
    → (reserve ledger (reservation opts)).1 ≡ some reserved
    → Charged opts ledger (reserve ledger (reservation opts)).0
reserve-Charged opts ledger h = elim (reserve-cases ledger (reservation opts)) [
  | inl none_reserved ↦ ground (arith, h, none_reserved)
  | inr (amount, ceiling, is_amount, is_ceiling, done) ↦ rw done (
      reserved_charge opts ledger amount ceiling _ is_amount is_ceiling
        (reserve_amount-Reserved ledger opts.intent.id opts.payment.id amount ceiling)
        (ground (arith, h, done)))
]

module _ (web : WebCrypto) (store : ReplayStore) (opts : VerifyPaymentOptions) (now skew : ℤ)
    (ledger : MemorySpendLedger) (s : store.State) (approval : ApprovalOptions)
    (grant : ApprovalGrant) where
  -- The verification of the approval throws.
  abbrev pub ApprovalThrows : Type 0
  ApprovalThrows =
      (verify_approval web store s (some grant) (approval_options approval opts.payment) now skew).1
      ≡ Approval.thrown

  thrown_result :
      check_payment web opts now skew ≡ passes
      → (reserve ledger (reservation opts)).1 ≡ some reserved
      → needs_approval opts ≡ true
      → opts.approval ≡ some approval
      → approval.grant ≡ some grant
      → ApprovalThrows
      → ((verify_payment web store ledger s opts now skew).0
          ≡ (reserve ledger (reservation opts)).0)
        × ((verify_payment web store ledger s opts now skew).2 ≡ thrown)
  unfolding verify_payment after_check charge_payment after_reserve ask_approval ask_grant
      after_approval
  thrown_result passed taken asked given granted broken = (
    ground (arith, passed, taken, asked, given, granted, broken),
    ground (arith, passed, taken, asked, given, granted, broken),
  )

  -- Where the verification of the approval throws after the payment was reserved, verifyPayment throws and the payment stays
  -- charged: the spend of the intent has grown by its amount, and after any further calls, in any state of the replay store, a
  -- payment of the same id under the same intent is not accepted, whatever documents and approval the call presents.
  pub thrown_approval_blocks_payment :
      check_payment web opts now skew ≡ passes
      → (reserve ledger (reservation opts)).1 ≡ some reserved
      → needs_approval opts ≡ true
      → opts.approval ≡ some approval
      → approval.grant ≡ some grant
      → ApprovalThrows
      → (calls : List Call) (later : store.State) (again : Call) (total : ℕ)
        (approver : Option Text)
      → again.opts.intent.id ≡ opts.intent.id
      → again.opts.payment.id ≡ opts.payment.id
      → ((verify_payment web store ledger s opts now skew).2 ≡ thrown)
        × ((amount : ℕ) × (as_money opts.payment.amount_minor ≡ some amount)
            × (spent (verify_payment web store ledger s opts now skew).0 opts.intent.id
                ≡ spent ledger opts.intent.id + amount))
        × ((verify_payment web store
              (run web store (verify_payment web store ledger s opts now skew).0 later calls).0
              (run web store (verify_payment web store ledger s opts now skew).0 later calls).1
              again.opts
              again.now
              again.skew).2
            ≢ ok total approver)
  thrown_approval_blocks_payment passed taken asked given granted broken calls later again total
        approver same_intent same_payment =
      let (left, result) = thrown_result passed taken asked given granted broken in
      let charged = reserve-Charged opts ledger taken in
      let after = (reserve ledger (reservation opts)).0 in
      rw left (
        result,
        (charged.amount, charged.is_amount, Charged-spend opts ledger after charged),
        charged_is_final web store (run web store after later calls).0
            (run web store after later calls).1 again opts.intent.id opts.payment.id total approver
            (run-keeps web store after later calls opts.intent.id opts.payment.id
              (charge_holds opts ledger after charged))
            same_intent same_payment,
      )
