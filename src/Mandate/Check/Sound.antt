-- ===== src/Mandate/Check/Sound.antt =====
-- What the checks of `verifyPayment` establish.
use h3_protocol.Crypto.{WebCrypto, verify_canonical_payload}
use h3_protocol.Mandate.Check.{
  PaymentFailure, VerifyPaymentOptions, Verdict, passes, fails, throws, ◌and_then◌, unless,
  max_payment_lifetime_ms, is_too_long, is_allowed_category, has_foreign_category, number_eq,
  is_wrong_total, check_key, key_of, check_payload, check_digest, check_lifetimes, check_parties,
  check_references, check_signatures,
}
use h3_protocol.Mandate.Document.{canon_intent, canon_cart, canon_payment, digest_of_cart}
use h3_protocol.Mandate.Money.{CartItem, checked_total}
use h3_protocol.Prelude.Int.{
  ℤ, pos, ◌+ℤ◌, ◌-ℤ◌, ◌≤ℤ◌, ◌<ℤ◌, Number, finite, non_finite, eq_of_parts,
}
use h3_protocol.Prelude.Lists.{All}
use h3_protocol.Prelude.Texts.{Text, text_eq_iff, includes}
use h3_protocol.Prelude.{
  ℕ, ◌≡◌, refl, ap, Bool, true, false, Option, none, some, List, [], ◌∷◌, arith,
}

pub both_pass : (a b : Verdict) → (a and_then b) ≡ passes → (a ≡ passes) × (b ≡ passes)
unfolding ◌and_then◌
both_pass passes b h = (refl, h)
both_pass (fails reason) b h = cc
both_pass throws b h = cc

pub unless_passes :
    (test : Bool) (reason : PaymentFailure) → unless test reason ≡ passes → test ≡ false
unfolding unless
unless_passes true reason h = cc
unless_passes false reason h = refl

-- A document that is signed with the registered key of `id`.
abbrev pub IsSigned : WebCrypto → (Text → Option Text) → Text → Option Text → Text → Type 0
IsSigned web keys id canonical signature =
    (key : Text) × (keys id ≡ some key)
    × (payload : Text) × (canonical ≡ some payload)
    × (verify_canonical_payload web payload signature key ≡ some true)

key_registered :
    (found : Option Text) (reason : PaymentFailure)
    → check_key found reason ≡ passes
    → found ≡ some (key_of found)
unfolding check_key key_of
key_registered none reason h = cc
key_registered (some []) reason h = cc
key_registered (some (u ∷ key)) reason h = refl

payload-IsSigned :
    (web : WebCrypto) (keys : Text → Option Text) (id : Text) (canonical : Option Text)
    (signature : Text) (missing forged : PaymentFailure)
    → check_key (keys id) missing ≡ passes
    → check_payload web canonical signature (key_of (keys id)) forged ≡ passes
    → IsSigned web keys id canonical signature
unfolding check_payload unless
payload-IsSigned web keys id none signature missing forged k h = cc
payload-IsSigned web keys id (some payload) signature missing forged k h =
    (key_of (keys id), key_registered (keys id) missing k, payload, refl, ground (arith, h))

pub number_eq_iff : (a b : Number) → number_eq a b ≡ true → a ≡ b
unfolding number_eq
number_eq_iff (finite a) (finite b) h = ap finite (eq_of_parts a b (ground (arith, h)))
number_eq_iff (finite a) non_finite h = cc
number_eq_iff non_finite b h = cc

pub right_total :
    (computed : Option ℕ) (total : Number)
    → is_wrong_total computed total ≡ false
    → (n : ℕ) × (computed ≡ some n) × (total ≡ finite (pos n))
unfolding is_wrong_total
right_total none total h = cc
right_total (some n) total h = (n, refl, ground (arith, h, number_eq_iff (finite (pos n)) total))

pub digest_matches :
    (digest : Option Text) (given : Text) → check_digest digest given ≡ passes → digest ≡ some given
unfolding check_digest unless
digest_matches none given h = cc
digest_matches (some digest) given h = ground (arith, h, text_eq_iff given digest)

-- The category of each item is one of the list.
abbrev pub AllOfCategory : List Text → List CartItem → Type 0
AllOfCategory categories = All (λ item. is_allowed_category categories item.category ≡ true)

pub categories_allowed :
    (categories : List Text) (items : List CartItem)
    → has_foreign_category categories items ≡ false
    → AllOfCategory categories items
unfolding has_foreign_category
categories_allowed categories [] h = tt
categories_allowed categories (item ∷ items) h =
    (ground (arith, h), categories_allowed categories items (ground (arith, h)))

-- What a payment that passes every check satisfies.
pub record Authorized (web : WebCrypto) (opts : VerifyPaymentOptions) (now skew : ℤ) : Type 0 where
  pub payer : opts.intent.payer ≡ opts.expected_payer
  pub merchant : opts.cart.merchant ≡ opts.expected_merchant
  pub paid_merchant : opts.payment.merchant ≡ opts.expected_merchant
  pub agent : opts.payment.agent ≡ opts.intent.agent
  pub cart_intent : opts.cart.intent_id ≡ opts.intent.id
  pub payment_intent : opts.payment.intent_id ≡ opts.intent.id
  pub payment_cart : opts.payment.cart_id ≡ opts.cart.id
  pub cart_currency : opts.cart.currency ≡ opts.intent.constraints.currency
  pub payment_currency : opts.payment.currency ≡ opts.intent.constraints.currency
  pub intent_in_time : (opts.intent.issued_at ≤ℤ (now +ℤ skew)) × (now <ℤ opts.intent.expires_at)
  pub cart_in_time : (opts.cart.issued_at ≤ℤ (now +ℤ skew)) × (now <ℤ opts.cart.expires_at)
  pub payment_in_time : (opts.payment.issued_at ≤ℤ (now +ℤ skew)) × (now <ℤ opts.payment.expires_at)
  pub brief : (opts.payment.expires_at -ℤ opts.payment.issued_at) ≤ℤ max_payment_lifetime_ms
  pub intent_signed :
      IsSigned web opts.payer_keys opts.intent.payer
        (canon_intent opts.intent)
        opts.intent.signature
  pub cart_signed :
      IsSigned web opts.merchant_keys opts.cart.merchant (canon_cart opts.cart) opts.cart.signature
  pub payment_signed :
      IsSigned web opts.agent_keys opts.payment.agent
        (canon_payment opts.payment)
        opts.payment.signature
  pub total : ℕ
  pub priced : checked_total opts.cart.items ≡ some total
  pub amount : opts.payment.amount_minor ≡ finite (pos total)
  pub bound : digest_of_cart web opts.cart ≡ some opts.payment.cart_digest
  pub allowed_merchant :
      (merchants : List Text)
      → opts.intent.constraints.merchants ≡ some merchants
      → includes opts.cart.merchant merchants ≡ true
  pub allowed_categories :
      (categories : List Text)
      → opts.intent.constraints.categories ≡ some categories
      → AllOfCategory categories opts.cart.items
  pub within_purchase :
      (limit : ℤ)
      → opts.intent.constraints.max_per_purchase_minor ≡ some (finite limit)
      → pos total ≤ℤ limit

module _ (opts : VerifyPaymentOptions) where
  pub parties :
      check_parties opts ≡ passes
      → (opts.intent.payer ≡ opts.expected_payer)
        × (opts.cart.merchant ≡ opts.expected_merchant)
        × (opts.payment.merchant ≡ opts.expected_merchant)
        × (opts.payment.agent ≡ opts.intent.agent)
  unfolding check_parties unless ◌and_then◌
  parties h = (
    ground (arith, h, text_eq_iff opts.intent.payer opts.expected_payer),
    ground (arith, h, text_eq_iff opts.cart.merchant opts.expected_merchant),
    ground (arith, h, text_eq_iff opts.payment.merchant opts.expected_merchant),
    ground (arith, h, text_eq_iff opts.payment.agent opts.intent.agent),
  )

  pub references :
      check_references opts ≡ passes
      → (opts.cart.intent_id ≡ opts.intent.id)
        × (opts.payment.intent_id ≡ opts.intent.id)
        × (opts.payment.cart_id ≡ opts.cart.id)
        × (opts.cart.currency ≡ opts.intent.constraints.currency)
        × (opts.payment.currency ≡ opts.intent.constraints.currency)
  unfolding check_references unless ◌and_then◌
  references h = (
    ground (arith, h, text_eq_iff opts.cart.intent_id opts.intent.id),
    ground (arith, h, text_eq_iff opts.payment.intent_id opts.intent.id),
    ground (arith, h, text_eq_iff opts.payment.cart_id opts.cart.id),
    ground (arith, h, text_eq_iff opts.cart.currency opts.intent.constraints.currency),
    ground (arith, h, text_eq_iff opts.payment.currency opts.intent.constraints.currency),
  )

  pub lifetimes :
      (now skew : ℤ)
      → check_lifetimes opts now skew ≡ passes
      → ((opts.intent.issued_at ≤ℤ (now +ℤ skew)) × (now <ℤ opts.intent.expires_at))
        × ((opts.cart.issued_at ≤ℤ (now +ℤ skew)) × (now <ℤ opts.cart.expires_at))
        × ((opts.payment.issued_at ≤ℤ (now +ℤ skew)) × (now <ℤ opts.payment.expires_at))
        × ((opts.payment.expires_at -ℤ opts.payment.issued_at) ≤ℤ max_payment_lifetime_ms)
  unfolding check_lifetimes is_too_long unless ◌and_then◌
  lifetimes now skew h = (
    (ground (arith, h), ground (arith, h)),
    (ground (arith, h), ground (arith, h)),
    (ground (arith, h), ground (arith, h)),
    ground (arith, h),
  )

  pub signatures :
      (web : WebCrypto)
      → check_signatures web opts ≡ passes
      → IsSigned web opts.payer_keys opts.intent.payer
          (canon_intent opts.intent)
          opts.intent.signature
        × IsSigned web opts.merchant_keys opts.cart.merchant
            (canon_cart opts.cart)
            opts.cart.signature
        × IsSigned web opts.agent_keys opts.payment.agent
            (canon_payment opts.payment)
            opts.payment.signature
  unfolding check_signatures
  signatures web h =
      let (payer, rest) = both_pass _ _ h in
      let (merchant, rest) = both_pass _ _ rest in
      let (agent, rest) = both_pass _ _ rest in
      let (intent, rest) = both_pass _ _ rest in
      let (cart, payment) = both_pass _ _ rest in
      (
        payload-IsSigned web opts.payer_keys opts.intent.payer _ _ _ _ payer intent,
        payload-IsSigned web opts.merchant_keys opts.cart.merchant _ _ _ _ merchant cart,
        payload-IsSigned web opts.agent_keys opts.payment.agent _ _ _ _ agent payment,
      )
