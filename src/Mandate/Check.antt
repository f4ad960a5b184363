-- ===== src/Mandate/Check.antt =====
-- The checks of `verifyPayment` in src/mandate.ts before the ledger is asked, in the order of the
-- source. Times are integers; clock and skew are arguments.
pub mod Sound
pub mod Passed
use h3_protocol.Action.{BoundAction}
use h3_protocol.Approval.{
  ApprovalGrant, ApprovalFailure, ApprovalVerifyResult, VerifyApprovalOptions, verify_approval,
}
use h3_protocol.Approval
use h3_protocol.Crypto.{WebCrypto, verify_canonical_payload}
use h3_protocol.Mandate.Document.{
  IntentConstraints, IntentMandate, CartMandate, PaymentMandate, canon_intent, canon_cart,
  canon_payment, digest_of_cart,
}
use h3_protocol.Mandate.Ledger.{
  MemorySpendLedger, ReserveOutcome, reserved, duplicate, exceeds_ceiling, reserve, release, spent,
}
use h3_protocol.Mandate.Money.{CartItem, max_safe_integer, as_money, as_positive, checked_total}
use h3_protocol.Prelude.Int.{
  ℤ, pos, negsuc, ◌+ℤ◌, ◌-ℤ◌, ltb_ℤ, leb_ℤ, eqb_ℤ, Number, finite, non_finite,
}
use h3_protocol.Prelude.Lists.{length}
use h3_protocol.Prelude.Texts.{Text, codes, text_eq, includes}
use h3_protocol.Prelude.{
  ℕ, suc, Bool, true, false, not, ◌&&◌, ◌||◌, Option, none, some, List, [], ◌∷◌, ◌++◌, leb, ◌==◌,
  if◌then◌else◌,
}
use h3_protocol.Replay.Store.{ReplayStore}

abbrev pub mandate_version : Text
mandate_version = codes "7h3-mandate/1"

-- `60 * 60_000`
abbrev pub max_cart_lifetime_ms : ℤ
max_cart_lifetime_ms = pos 3600000

-- `15 * 60_000`
abbrev pub max_payment_lifetime_ms : ℤ
max_payment_lifetime_ms = pos 900000

-- `30 * 24 * 60 * 60_000`
abbrev pub max_intent_lifetime_ms : ℤ
max_intent_lifetime_ms = pos 2592000000

pub data PaymentFailure : Type 0 where
  malformed unsupported_version no_payer_key no_merchant_key no_agent_key : PaymentFailure
  invalid_intent_signature invalid_cart_signature invalid_payment_signature : PaymentFailure
  intent_expired cart_expired payment_expired not_yet_valid lifetime_too_long : PaymentFailure
  payer_mismatch agent_mismatch merchant_mismatch intent_mismatch cart_mismatch : PaymentFailure
  currency_mismatch cart_total_wrong amount_mismatch merchant_not_allowed : PaymentFailure
  category_not_allowed exceeds_per_purchase_limit exceeds_total_limit approval_required :
      PaymentFailure
  approval_invalid : ApprovalFailure → PaymentFailure
  already_charged : PaymentFailure

pub record ApprovalOptions : Type 0 where
  pub grant : Option ApprovalGrant
  pub approver_keys : Text → Option Text
  pub allowed_approvers : List Text
  -- Whether a replay store is given.
  pub single_use : Bool

pub record VerifyPaymentOptions : Type 0 where
  pub intent : IntentMandate
  pub cart : CartMandate
  pub payment : PaymentMandate
  -- The registries: the public key of an id. An empty text counts as no key.
  pub payer_keys : Text → Option Text
  pub merchant_keys : Text → Option Text
  pub agent_keys : Text → Option Text
  pub expected_payer : Text
  pub expected_merchant : Text
  pub approval : Option ApprovalOptions

-- What a block of checks answers: an early return, an exception, or neither.
pub data Verdict : Type 0 where
  passes : Verdict
  fails : PaymentFailure → Verdict
  throws : Verdict

-- One block of checks after another.
infixr 20 ◌and_then◌
unfoldable pub ◌and_then◌ : Verdict → Verdict → Verdict
passes and_then next = next
fails reason and_then next = fails reason
throws and_then next = throws

-- `if (test) return fail(reason)`
unfoldable pub unless : Bool → PaymentFailure → Verdict
unless true reason = fails reason
unless false reason = passes

-- `Number.isSafeInteger`, on an integer.
unfoldable pub is_safe_integer : ℤ → Bool
is_safe_integer (pos n) = leb n max_safe_integer
is_safe_integer (negsuc n) = leb (suc n) max_safe_integer

unfoldable pub is_money : Number → Bool
is_money n = elim (as_money n) [ none ↦ false | some a ↦ true ]

unfoldable pub is_positive : Number → Bool
is_positive n = elim (as_positive n) [ none ↦ false | some a ↦ true ]

unfoldable pub all_capital : Text → Bool
all_capital [] = true
all_capital (c ∷ s) = (leb b'A' c && leb c b'Z') && all_capital s

-- `CURRENCY`
unfoldable pub is_currency : Text → Bool
is_currency s = length s == 3 && all_capital s

-- `shape`, on documents whose members have their types.
unfoldable pub shape : IntentMandate → CartMandate → PaymentMandate → Bool
shape intent cart payment =
    text_eq intent.kind (codes "intent")
    && (text_eq cart.kind (codes "cart")
        && (text_eq payment.kind (codes "payment")
            && (is_safe_integer intent.issued_at
                && (is_safe_integer intent.expires_at
                    && (is_safe_integer cart.issued_at
                        && (is_safe_integer cart.expires_at
                            && (is_safe_integer payment.issued_at
                                && (is_safe_integer payment.expires_at
                                    && (is_money cart.total_minor
                                        && (is_money payment.amount_minor
                                            && (is_currency intent.constraints.currency
                                                && is_positive
                                                    intent.constraints.max_total_minor)))))))))))

unfoldable pub check_form : VerifyPaymentOptions → Verdict
check_form opts =
    unless (not (shape opts.intent opts.cart opts.payment)) malformed
    and_then unless
        (not (text_eq opts.intent.version mandate_version)
          || (not (text_eq opts.cart.version mandate_version)
              || not (text_eq opts.payment.version mandate_version)))
        unsupported_version

-- `expiresAt <= issuedAt || expiresAt - issuedAt > max`
unfoldable pub is_too_long : ℤ → ℤ → ℤ → Bool
is_too_long issued_at expires_at max_ms =
    leb_ℤ expires_at issued_at || ltb_ℤ max_ms (expires_at -ℤ issued_at)

unfoldable pub check_lifetimes : VerifyPaymentOptions → ℤ → ℤ → Verdict
check_lifetimes opts now skew =
    unless (is_too_long opts.intent.issued_at opts.intent.expires_at max_intent_lifetime_ms)
      lifetime_too_long
    and_then unless (is_too_long opts.cart.issued_at opts.cart.expires_at max_cart_lifetime_ms)
        lifetime_too_long
    and_then unless
        (is_too_long opts.payment.issued_at opts.payment.expires_at max_payment_lifetime_ms)
        lifetime_too_long
    and_then unless
        (ltb_ℤ (now +ℤ skew) opts.intent.issued_at
          || (ltb_ℤ (now +ℤ skew) opts.cart.issued_at
              || ltb_ℤ (now +ℤ skew) opts.payment.issued_at))
        not_yet_valid
    and_then unless (leb_ℤ opts.intent.expires_at now) intent_expired
    and_then unless (leb_ℤ opts.cart.expires_at now) cart_expired
    and_then unless (leb_ℤ opts.payment.expires_at now) payment_expired

unfoldable pub check_parties : VerifyPaymentOptions → Verdict
check_parties opts =
    unless (not (text_eq opts.intent.payer opts.expected_payer)) payer_mismatch
    and_then unless
        (not (text_eq opts.cart.merchant opts.expected_merchant)
          || not (text_eq opts.payment.merchant opts.expected_merchant))
        merchant_mismatch
    and_then unless (not (text_eq opts.payment.agent opts.intent.agent)) agent_mismatch

unfoldable pub check_references : VerifyPaymentOptions → Verdict
check_references opts =
    unless
      (not (text_eq opts.cart.intent_id opts.intent.id)
        || not (text_eq opts.payment.intent_id opts.intent.id))
      intent_mismatch
    and_then unless (not (text_eq opts.payment.cart_id opts.cart.id)) cart_mismatch
    and_then unless
        (not (text_eq opts.cart.currency opts.intent.constraints.currency)
          || not (text_eq opts.payment.currency opts.intent.constraints.currency))
        currency_mismatch

-- `if (!key) return fail(reason)`
unfoldable pub check_key : Option Text → PaymentFailure → Verdict
check_key none reason = fails reason
check_key (some []) reason = fails reason
check_key (some (u ∷ key)) reason = passes

-- The key, where `check_key` passes.
unfoldable pub key_of : Option Text → Text
key_of none = []
key_of (some key) = key

unfoldable pub check_payload : WebCrypto → Option Text → Text → Text → PaymentFailure → Verdict
check_payload web none signature key reason = throws
check_payload web (some payload) signature key reason =
    elim (verify_canonical_payload web payload signature key) [
      | none ↦ throws
      | some valid ↦ unless (not valid) reason
    ]

unfoldable pub check_signatures : WebCrypto → VerifyPaymentOptions → Verdict
check_signatures web opts =
    let payer_key = opts.payer_keys opts.intent.payer in
    let merchant_key = opts.merchant_keys opts.cart.merchant in
    let agent_key = opts.agent_keys opts.payment.agent in
    check_key payer_key no_payer_key
    and_then check_key merchant_key no_merchant_key
    and_then check_key agent_key no_agent_key
    and_then check_payload web (canon_intent opts.intent) opts.intent.signature (key_of payer_key)
        invalid_intent_signature
    and_then check_payload web (canon_cart opts.cart) opts.cart.signature (key_of merchant_key)
        invalid_cart_signature
    and_then check_payload web (canon_payment opts.payment) opts.payment.signature
        (key_of agent_key) invalid_payment_signature

-- `===` on numbers.
unfoldable pub number_eq : Number → Number → Bool
number_eq (finite a) (finite b) = eqb_ℤ a b
number_eq _ _ = false

-- `computed === null || computed !== totalMinor`
unfoldable pub is_wrong_total : Option ℕ → Number → Bool
is_wrong_total none total = true
is_wrong_total (some computed) total = not (number_eq (finite (pos computed)) total)

unfoldable pub check_digest : Option Text → Text → Verdict
check_digest none given = throws
check_digest (some digest) given = unless (not (text_eq given digest)) cart_mismatch

unfoldable pub check_money : WebCrypto → VerifyPaymentOptions → Verdict
check_money web opts =
    unless (is_wrong_total (checked_total opts.cart.items) opts.cart.total_minor) cart_total_wrong
    and_then check_digest (digest_of_cart web opts.cart) opts.payment.cart_digest
    and_then unless (not (number_eq opts.payment.amount_minor opts.cart.total_minor))
        amount_mismatch

-- `c.merchants && !c.merchants.includes(merchant)`
unfoldable pub is_foreign_merchant : Option (List Text) → Text → Bool
is_foreign_merchant none merchant = false
is_foreign_merchant (some merchants) merchant = not (includes merchant merchants)

unfoldable pub is_allowed_category : List Text → Option Text → Bool
is_allowed_category categories none = false
is_allowed_category categories (some category) = includes category categories

unfoldable pub has_foreign_category : List Text → List CartItem → Bool
has_foreign_category categories [] = false
has_foreign_category categories (item ∷ items) =
    not (is_allowed_category categories item.category) || has_foreign_category categories items

unfoldable pub has_forbidden_item : Option (List Text) → List CartItem → Bool
has_forbidden_item none items = false
has_forbidden_item (some categories) items = has_foreign_category categories items

-- `a > b` on numbers; where one is not finite, the canonical form has thrown before.
unfoldable pub is_above : Number → Number → Bool
is_above (finite a) (finite b) = ltb_ℤ b a
is_above _ _ = false

-- `limit !== undefined && amount > limit`
unfoldable pub is_above_limit : Number → Option Number → Bool
is_above_limit amount none = false
is_above_limit amount (some limit) = is_above amount limit

unfoldable pub check_constraints : VerifyPaymentOptions → Verdict
check_constraints opts =
    let c = opts.intent.constraints in
    let amount = opts.payment.amount_minor in
    unless (is_foreign_merchant c.merchants opts.cart.merchant) merchant_not_allowed
    and_then unless (has_forbidden_item c.categories opts.cart.items) category_not_allowed
    and_then unless (is_above_limit amount c.max_per_purchase_minor) exceeds_per_purchase_limit
    and_then unless (is_above amount c.max_total_minor) exceeds_total_limit

-- Every check before the ledger is asked.
unfoldable pub check_payment : WebCrypto → VerifyPaymentOptions → ℤ → ℤ → Verdict
check_payment web opts now skew =
    check_form opts
    and_then check_lifetimes opts now skew
    and_then check_parties opts
    and_then check_references opts
    and_then check_signatures web opts
    and_then check_money web opts
    and_then check_constraints opts
