-- ===== src/Mandate/Check/Passed.antt =====
-- A payment that passes every check of `verifyPayment` is authorized.
use h3_protocol.Crypto.{WebCrypto}
use h3_protocol.Mandate.Check.{
  VerifyPaymentOptions, passes, is_foreign_merchant, has_forbidden_item, is_above, is_above_limit,
  number_eq, check_money, check_constraints, check_payment,
}
use h3_protocol.Mandate.Check.Sound.{
  Authorized, AllOfCategory, both_pass, unless_passes, number_eq_iff, right_total, digest_matches,
  categories_allowed, parties, references, lifetimes, signatures,
}
use h3_protocol.Mandate.Document.{digest_of_cart}
use h3_protocol.Mandate.Money.{CartItem, checked_total}
use h3_protocol.Prelude.Int.{ℤ, pos, ◌≤ℤ◌, Number, finite}
use h3_protocol.Prelude.Texts.{Text, includes}
use h3_protocol.Prelude.{ℕ, ◌≡◌, ◌∙◌, true, false, Option, none, some, List, arith}

merchant_listed :
    (list : Option (List Text)) (merchant : Text)
    → is_foreign_merchant list merchant ≡ false
    → (merchants : List Text) → list ≡ some merchants
    → includes merchant merchants ≡ true
unfolding is_foreign_merchant
merchant_listed none merchant h merchants e = cc
merchant_listed (some given) merchant h merchants e = ground (arith, h, e)

items_listed :
    (list : Option (List Text)) (items : List CartItem)
    → has_forbidden_item list items ≡ false
    → (categories : List Text) → list ≡ some categories
    → AllOfCategory categories items
unfolding has_forbidden_item
items_listed none items h categories e = cc
items_listed (some given) items h categories e =
    categories_allowed categories items (ground (arith, h, e))

below_limit :
    (amount : Number) (limit : Option Number) (total : ℕ)
    → amount ≡ finite (pos total)
    → is_above_limit amount limit ≡ false
    → (z : ℤ) → limit ≡ some (finite z)
    → pos total ≤ℤ z
unfolding is_above_limit is_above
below_limit amount none total own h z e = cc
below_limit amount (some given) total own h z e = ground (arith, own, h, e)

module _ (web : WebCrypto) (opts : VerifyPaymentOptions) where
  money :
      check_money web opts ≡ passes
      → (total : ℕ) × (checked_total opts.cart.items ≡ some total)
        × (opts.payment.amount_minor ≡ finite (pos total))
        × (digest_of_cart web opts.cart ≡ some opts.payment.cart_digest)
  unfolding check_money
  money h =
      let (priced, rest) = both_pass _ _ h in
      let (digest, same) = both_pass _ _ rest in
      let (total, exact, stated) = right_total _ opts.cart.total_minor (unless_passes _ _ priced) in
      let equal : number_eq opts.payment.amount_minor opts.cart.total_minor ≡ true =
        ground (arith, unless_passes _ _ same) in
      (
        total,
        exact,
        number_eq_iff opts.payment.amount_minor opts.cart.total_minor equal ∙ stated,
        digest_matches _ opts.payment.cart_digest digest,
      )

  pub check_payment-Authorized :
      (now skew : ℤ) → check_payment web opts now skew ≡ passes → Authorized web opts now skew
  unfolding check_payment check_constraints
  check_payment-Authorized now skew h =
      let (_, rest) = both_pass _ _ h in
      let (times, rest) = both_pass _ _ rest in
      let (who, rest) = both_pass _ _ rest in
      let (links, rest) = both_pass _ _ rest in
      let (signed, rest) = both_pass _ _ rest in
      let (paid, limits) = both_pass _ _ rest in
      let (shop, rest) = both_pass _ _ limits in
      let (kinds, rest) = both_pass _ _ rest in
      let (purchase, _) = both_pass _ _ rest in
      let (intent_in_time, cart_in_time, payment_in_time, brief) = lifetimes opts now skew times in
      let (payer, merchant, paid_merchant, agent) = parties opts who in
      let (cart_intent, payment_intent, payment_cart, cart_currency, payment_currency) =
        references opts links in
      let (intent_signed, cart_signed, payment_signed) = signatures opts web signed in
      let (total, priced, amount, bound) = money paid in
      record {
        payer = payer;
        merchant = merchant;
        paid_merchant = paid_merchant;
        agent = agent;
        cart_intent = cart_intent;
        payment_intent = payment_intent;
        payment_cart = payment_cart;
        cart_currency = cart_currency;
        payment_currency = payment_currency;
        intent_in_time = intent_in_time;
        cart_in_time = cart_in_time;
        payment_in_time = payment_in_time;
        brief = brief;
        intent_signed = intent_signed;
        cart_signed = cart_signed;
        payment_signed = payment_signed;
        total = total;
        priced = priced;
        amount = amount;
        bound = bound;
        allowed_merchant = merchant_listed _ opts.cart.merchant (unless_passes _ _ shop);
        allowed_categories = items_listed _ opts.cart.items (unless_passes _ _ kinds);
        within_purchase = below_limit _ _ total amount (unless_passes _ _ purchase);
      }
