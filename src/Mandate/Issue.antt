-- ===== src/Mandate/Issue.antt =====
-- The issuing of the three documents in src/mandate.ts; `none` is an error. Times are integers; the
-- clock and the random part of an id are arguments.
use h3_protocol.Crypto.{WebCrypto, sign_canonical_payload}
use h3_protocol.Json.{integer}
use h3_protocol.Mandate.Check.{
  mandate_version, max_cart_lifetime_ms, max_payment_lifetime_ms, max_intent_lifetime_ms, is_money,
  is_positive, is_currency, is_above,
}
use h3_protocol.Mandate.Document.{
  IntentConstraints, IntentMandate, CartMandate, PaymentMandate, canon_intent, canon_cart,
  canon_payment, digest_of_cart,
}
use h3_protocol.Mandate.Money.{CartItem, checked_total}
use h3_protocol.Prelude.Int.{ℤ, pos, ◌+ℤ◌, leb_ℤ, ltb_ℤ, Number, finite}
use h3_protocol.Prelude.Lists.{length}
use h3_protocol.Prelude.Texts.{Text, codes}
use h3_protocol.Prelude.{
  ℕ, Bool, true, false, not, ◌&&◌, ◌||◌, Option, none, some, List, [], ◌∷◌, ◌++◌, ◌>>=◌, leb, ltb,
  ◌==◌, if◌then◌else◌,
}

-- `[A-Za-z0-9@._:/#-]`
unfoldable pub is_name_unit : ℕ → Bool
is_name_unit c =
    (leb b'A' c && leb c b'Z')
    || ((leb b'a' c && leb c b'z')
        || ((leb b'0' c && leb c b'9')
            || (c == b'@'
                || (c == b'.'
                    || (c == b'_' || (c == b':' || (c == b'/' || (c == b'#' || c == b'-'))))))))

unfoldable pub all_name_units : Text → Bool
all_name_units [] = true
all_name_units (c ∷ s) = is_name_unit c && all_name_units s

-- `NAME`
unfoldable pub is_name : Text → Bool
is_name s = (leb 1 (length s) && leb (length s) 256) && all_name_units s

-- `checkLifetime`, the test for an error.
unfoldable pub is_bad_lifetime : ℤ → ℤ → Bool
is_bad_lifetime ttl max_ms = leb_ℤ ttl (pos 0) || ltb_ℤ max_ms ttl

-- `maxPerPurchaseMinor` is given and no positive amount up to the total.
unfoldable pub is_bad_purchase : Option Number → Number → Bool
is_bad_purchase none total = false
is_bad_purchase (some limit) total = not (is_positive limit) || is_above limit total

-- `requireApprovalAboveMinor` is given and no amount.
unfoldable pub is_bad_threshold : Option Number → Bool
is_bad_threshold none = false
is_bad_threshold (some limit) = not (is_money limit)

unfoldable pub all_names : List Text → Bool
all_names [] = true
all_names (x ∷ xs) = is_name x && all_names xs

-- `list !== undefined && (list.length === 0 || list.some((x) => !NAME.test(x)))`
unfoldable pub is_bad_list : Option (List Text) → Bool
is_bad_list none = false
is_bad_list (some []) = true
is_bad_list (some (x ∷ xs)) = not (all_names (x ∷ xs))

-- `prefix-${now}-${randomHex(8)}`
unfoldable pub document_id : Text → ℤ → Text → Text
document_id prefix now random = prefix ++ (b'-' ∷ (integer now ++ (b'-' ∷ random)))

-- `keyId ?? `${signer}-key``
unfoldable pub signer_key_id : Option Text → Text → Text
signer_key_id none signer = signer ++ codes "-key"
signer_key_id (some key_id) signer = key_id

unfoldable pub or_default : Option ℤ → ℤ → ℤ
or_default none default = default
or_default (some n) default = n

-- The signature of a canonical form.
unfoldable pub sign_document : WebCrypto → Option Text → Text → Option Text
sign_document web canonical private_key = do
  payload ← canonical
  sign_canonical_payload web payload private_key

pub record IssueIntentOptions : Type 0 where
  pub payer_private_key : Text
  pub payer : Text
  pub agent : Text
  pub constraints : IntentConstraints
  pub lifetime_ms : ℤ
  pub key_id : Option Text

unfoldable pub unsigned_intent : IssueIntentOptions → ℤ → Text → IntentMandate
unsigned_intent opts now random = record {
  version = mandate_version;
  kind = codes "intent";
  id = document_id (codes "intent") now random;
  payer = opts.payer;
  agent = opts.agent;
  constraints = opts.constraints;
  issued_at = now;
  expires_at = now +ℤ opts.lifetime_ms;
  key_id = signer_key_id opts.key_id opts.payer;
  signature = [];
}

-- The guards of `issueIntentMandate`.
unfoldable pub is_bad_intent : IssueIntentOptions → Bool
is_bad_intent opts =
    let c = opts.constraints in
    is_bad_lifetime opts.lifetime_ms max_intent_lifetime_ms
    || ((not (is_name opts.payer) || not (is_name opts.agent))
        || (not (is_currency c.currency)
            || (not (is_positive c.max_total_minor)
                || (is_bad_purchase c.max_per_purchase_minor c.max_total_minor
                    || (is_bad_threshold c.require_approval_above_minor
                        || (is_bad_list c.merchants || is_bad_list c.categories))))))

unfoldable pub issue_intent_mandate :
    WebCrypto → IssueIntentOptions → ℤ → Text → Option IntentMandate
issue_intent_mandate web opts now random =
    let unsigned = unsigned_intent opts now random in
    let signed : Option IntentMandate = (do
      signature ← sign_document web (canon_intent unsigned) opts.payer_private_key
      some (record unsigned { signature = signature })) in
    if is_bad_intent opts then none else signed

pub record IssueCartOptions : Type 0 where
  pub merchant_private_key : Text
  pub merchant : Text
  pub intent_id : Text
  pub currency : Text
  pub items : List CartItem
  pub lifetime_ms : Option ℤ
  pub key_id : Option Text

unfoldable pub is_bad_category : Option Text → Bool
is_bad_category none = false
is_bad_category (some category) = not (is_name category)

unfoldable pub has_bad_item : List CartItem → Bool
has_bad_item [] = false
has_bad_item (item ∷ items) =
    not (is_name item.sku) || (is_bad_category item.category || has_bad_item items)

-- `lifetimeMs ?? 15 * 60_000`
unfoldable pub cart_lifetime : IssueCartOptions → ℤ
cart_lifetime opts = or_default opts.lifetime_ms (pos 900000)

unfoldable pub unsigned_cart : IssueCartOptions → ℕ → ℤ → Text → CartMandate
unsigned_cart opts total now random = record {
  version = mandate_version;
  kind = codes "cart";
  id = document_id (codes "cart") now random;
  intent_id = opts.intent_id;
  merchant = opts.merchant;
  currency = opts.currency;
  items = opts.items;
  total_minor = finite (pos total);
  issued_at = now;
  expires_at = now +ℤ cart_lifetime opts;
  key_id = signer_key_id opts.key_id opts.merchant;
  signature = [];
}

-- The guards of `issueCartMandate` before the total.
unfoldable pub is_bad_cart : IssueCartOptions → Bool
is_bad_cart opts =
    is_bad_lifetime (cart_lifetime opts) max_cart_lifetime_ms
    || ((not (is_name opts.merchant) || not (is_name opts.intent_id))
        || (not (is_currency opts.currency)
            || ((length opts.items == 0 || ltb 200 (length opts.items))
                || has_bad_item opts.items)))

unfoldable pub issue_cart_mandate : WebCrypto → IssueCartOptions → ℤ → Text → Option CartMandate
issue_cart_mandate web opts now random =
    let signed : Option CartMandate = (do
      total ← checked_total opts.items
      signature ←
          sign_document web (canon_cart (unsigned_cart opts total now random))
            opts.merchant_private_key
      some (record (unsigned_cart opts total now random) { signature = signature })) in
    if is_bad_cart opts then none else signed

pub record IssuePaymentOptions : Type 0 where
  pub agent_private_key : Text
  pub agent : Text
  pub intent : IntentMandate
  pub cart : CartMandate
  pub lifetime_ms : Option ℤ
  pub key_id : Option Text

-- `lifetimeMs ?? 5 * 60_000`
unfoldable pub payment_lifetime : IssuePaymentOptions → ℤ
payment_lifetime opts = or_default opts.lifetime_ms (pos 300000)

unfoldable pub unsigned_payment : IssuePaymentOptions → Text → ℤ → Text → PaymentMandate
unsigned_payment opts digest now random = record {
  version = mandate_version;
  kind = codes "payment";
  id = document_id (codes "pay") now random;
  intent_id = opts.intent.id;
  cart_id = opts.cart.id;
  cart_digest = digest;
  merchant = opts.cart.merchant;
  agent = opts.agent;
  amount_minor = opts.cart.total_minor;
  currency = opts.cart.currency;
  issued_at = now;
  expires_at = now +ℤ payment_lifetime opts;
  key_id = signer_key_id opts.key_id opts.agent;
  signature = [];
}

unfoldable pub issue_payment_mandate :
    WebCrypto → IssuePaymentOptions → ℤ → Text → Option PaymentMandate
issue_payment_mandate web opts now random =
    let signed : Option PaymentMandate = (do
      digest ← digest_of_cart web opts.cart
      signature ←
          sign_document web (canon_payment (unsigned_payment opts digest now random))
            opts.agent_private_key
      some (record (unsigned_payment opts digest now random) { signature = signature })) in
    if is_bad_lifetime (payment_lifetime opts) max_payment_lifetime_ms then none else signed
