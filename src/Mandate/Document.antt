-- ===== src/Mandate/Document.antt =====
-- The three signed documents of src/mandate.ts, their canonical forms and the digest of a cart. An
-- amount that is no finite number has no canonical form: `stableStringify` throws.
use h3_protocol.Action.{in_text, sha256_hex}
use h3_protocol.Crypto.{WebCrypto}
use h3_protocol.Json.{
  Value, Values, null, text, number, array, object, nil, cons, end, member, stable_stringify,
}
use h3_protocol.Mandate.Money.{CartItem}
use h3_protocol.Prelude.Int.{ℤ, Number, finite, non_finite}
use h3_protocol.Prelude.Texts.{Text, codes}
use h3_protocol.Prelude.{Option, none, some, List, [], ◌∷◌, ◌++◌, ◌>>=◌}

pub record IntentConstraints : Type 0 where
  pub currency : Text
  pub max_total_minor : Number
  pub max_per_purchase_minor : Option Number
  pub merchants : Option (List Text)
  pub categories : Option (List Text)
  pub require_approval_above_minor : Option Number

pub record IntentMandate : Type 0 where
  pub version : Text
  pub kind : Text
  pub id : Text
  pub payer : Text
  pub agent : Text
  pub constraints : IntentConstraints
  pub issued_at : ℤ
  pub expires_at : ℤ
  pub key_id : Text
  pub signature : Text

pub record CartMandate : Type 0 where
  pub version : Text
  pub kind : Text
  pub id : Text
  pub intent_id : Text
  pub merchant : Text
  pub currency : Text
  pub items : List CartItem
  pub total_minor : Number
  pub issued_at : ℤ
  pub expires_at : ℤ
  pub key_id : Text
  pub signature : Text

pub record PaymentMandate : Type 0 where
  pub version : Text
  pub kind : Text
  pub id : Text
  pub intent_id : Text
  pub cart_id : Text
  pub cart_digest : Text
  pub merchant : Text
  pub agent : Text
  pub amount_minor : Number
  pub currency : Text
  pub issued_at : ℤ
  pub expires_at : ℤ
  pub key_id : Text
  pub signature : Text

-- A number as JSON, where it has one.
unfoldable pub number_value : Number → Option Value
number_value (finite n) = some (number n)
number_value non_finite = none

-- `x ?? null`
unfoldable pub number_or_null : Option Number → Option Value
number_or_null none = some null
number_or_null (some n) = number_value n

unfoldable pub text_or_null : Option Text → Value
text_or_null none = null
text_or_null (some s) = text s

unfoldable pub text_values : List Text → Values
text_values [] = nil
text_values (s ∷ texts) = cons (text s) (text_values texts)

unfoldable pub texts_or_null : Option (List Text) → Value
texts_or_null none = null
texts_or_null (some texts) = array (text_values texts)

unfoldable pub canon_constraints : IntentConstraints → Option Value
canon_constraints c = do
  total ← number_value c.max_total_minor
  purchase ← number_or_null c.max_per_purchase_minor
  approval ← number_or_null c.require_approval_above_minor
  some (
      object (
        member (codes "currency") (text c.currency) (
          member (codes "maxTotalMinor") total (
            member (codes "maxPerPurchaseMinor") purchase (
              member (codes "merchants") (texts_or_null c.merchants) (
                member (codes "categories") (texts_or_null c.categories)
                  (member (codes "requireApprovalAboveMinor") approval end)))))))

unfoldable pub canon_intent : IntentMandate → Option Text
canon_intent m = do
  constraints ← canon_constraints m.constraints
  some (
      stable_stringify (
        object (
          member (codes "version") (text m.version) (
            member (codes "kind") (text m.kind) (
              member (codes "id") (text m.id) (
                member (codes "payer") (text m.payer) (
                  member (codes "agent") (text m.agent) (
                    member (codes "constraints") constraints (
                      member (codes "issuedAt") (number m.issued_at) (
                        member (codes "expiresAt") (number m.expires_at)
                          (member (codes "keyId") (text m.key_id) end)))))))))))

unfoldable pub item_value : CartItem → Option Value
item_value i = do
  quantity ← number_value i.quantity
  unit ← number_value i.unit_minor
  some (
      object (
        member (codes "sku") (text i.sku) (
          member (codes "description") (text_or_null i.description) (
            member (codes "category") (text_or_null i.category)
              (member (codes "quantity") quantity (member (codes "unitMinor") unit end))))))

unfoldable pub item_values : List CartItem → Option Values
item_values [] = some nil
item_values (i ∷ items) = do
  value ← item_value i
  values ← item_values items
  some (cons value values)

unfoldable pub canon_cart : CartMandate → Option Text
canon_cart m = do
  items ← item_values m.items
  total ← number_value m.total_minor
  some (
      stable_stringify (
        object (
          member (codes "version") (text m.version) (
            member (codes "kind") (text m.kind) (
              member (codes "id") (text m.id) (
                member (codes "intentId") (text m.intent_id) (
                  member (codes "merchant") (text m.merchant) (
                    member (codes "currency") (text m.currency) (
                      member (codes "items") (array items) (
                        member (codes "totalMinor") total (
                          member (codes "issuedAt") (number m.issued_at) (
                            member (codes "expiresAt") (number m.expires_at)
                              (member (codes "keyId") (text m.key_id) end)))))))))))))

unfoldable pub canon_payment : PaymentMandate → Option Text
canon_payment m = do
  amount ← number_value m.amount_minor
  some (
      stable_stringify (
        object (
          member (codes "version") (text m.version) (
            member (codes "kind") (text m.kind) (
              member (codes "id") (text m.id) (
                member (codes "intentId") (text m.intent_id) (
                  member (codes "cartId") (text m.cart_id) (
                    member (codes "cartDigest") (text m.cart_digest) (
                      member (codes "merchant") (text m.merchant) (
                        member (codes "agent") (text m.agent) (
                          member (codes "amountMinor") amount (
                            member (codes "currency") (text m.currency) (
                              member (codes "issuedAt") (number m.issued_at) (
                                member (codes "expiresAt") (number m.expires_at)
                                  (member (codes "keyId") (text m.key_id) end)))))))))))))))

-- `cartDigest`
unfoldable pub digest_of_cart : WebCrypto → CartMandate → Option Text
digest_of_cart web cart = do
  canonical ← canon_cart cart
  some (sha256_hex web (in_text (canonical ++ (b'.' ∷ cart.signature))))
