-- ===== src/Mandate/Payment/Tests.antt =====
-- A purchase that needs an approval, issued and verified.
use h3_protocol.Mandate.Issue.{
  is_name_unit, all_name_units, is_name, is_bad_lifetime, is_bad_purchase, is_bad_threshold,
  all_names, is_bad_list, document_id, signer_key_id, or_default, sign_document, unsigned_intent,
  is_bad_intent, issue_intent_mandate, is_bad_category, has_bad_item, cart_lifetime, unsigned_cart,
  is_bad_cart, issue_cart_mandate, payment_lifetime, unsigned_payment, issue_payment_mandate,
}
use h3_protocol.Mandate.Document.{
  number_value, number_or_null, text_or_null, text_values, texts_or_null, canon_constraints,
  canon_intent, item_value, item_values, canon_cart, canon_payment, digest_of_cart,
}
use h3_protocol.Mandate.Check.{
  ◌and_then◌, unless, is_safe_integer, is_money, is_positive, all_capital, is_currency, shape,
  check_form, is_too_long, check_lifetimes, check_parties, check_references, check_key, key_of,
  check_payload, check_signatures, number_eq, is_wrong_total, check_digest, check_money,
  is_foreign_merchant, is_allowed_category, has_foreign_category, has_forbidden_item, is_above,
  is_above_limit, check_constraints, check_payment,
}
use h3_protocol.Mandate.Payment.{
  payment_approval_action, approval_options, after_approval, ask_grant, ask_approval,
  needs_approval, after_reserve, charge_payment, after_check, verify_payment,
}
use h3_protocol.Mandate.Money.{as_money, as_positive, line_of, checked_total_from, checked_total}
use h3_protocol.Mandate.Ledger.{
  sum_payments, payments_of, open_intent, has_payment, reserve_amount, reserve, release, spent,
}
use h3_protocol.Approval.{
  reason_member, unsigned_form, canonicalize_approval, bound_action, approval_ttl, sign_approval,
  issue_approval, check_grant_signature, vet_approval, approval_key, at_least_one, used_result,
  consume_grant, verify_grant, verify_presented, no_approvers, verify_approval,
}
use h3_protocol.Action.{
  to_hex, bytes_of, sha256_hex, is_absolute, is_empty_text, bind_action, actions_equal, is_hex_unit,
  all_hex, is_bound_action,
}
use h3_protocol.Crypto.{
  encode_text, base64_unit, padding, from_base64_url, base64_url_unit, strip_padding, to_base64_url,
  sign_canonical_payload, verify_canonical_payload,
}
use h3_protocol.Json.{
  decimal_digits, decimal, integer, hex_digit, unicode_escape, escape, escape_all, quote,
  join_commas, text_lt, insert_member, stable_stringify, sorted, sorted_values, sorted_members,
  stringify, stringify_values, stringify_members,
}
use h3_protocol.Replay.Memory.{prune, is_live, check_positive, check}
use h3_protocol.Replay.Cache.Key.{utf8}
use h3_protocol.Prelude.Int.{◌+ℤ◌, ◌-ℤ◌, add_number}
use h3_protocol.Prelude.Texts.{text_eq, includes}
use h3_protocol.Prelude.Arrays.{get_or}
use h3_protocol.Policy.Scope.{to_upper}
use h3_protocol.Prelude.Tests.{◌>>=◌}
use h3_protocol.Approval.{ApprovalGrant, IssueApprovalOptions, bound}
use h3_protocol.Approval
use h3_protocol.Crypto.Echo.{checksum}
use h3_protocol.Mandate.Check.{VerifyPaymentOptions, ApprovalOptions, approval_required, passes}
use h3_protocol.Mandate.Check.Sound.{Authorized}
use h3_protocol.Mandate.Document.{IntentMandate, CartMandate, PaymentMandate}
use h3_protocol.Mandate.Issue.{IssueIntentOptions, IssueCartOptions, IssuePaymentOptions}
use h3_protocol.Mandate.Ledger.{MemorySpendLedger, reserved}
use h3_protocol.Mandate.Money.{CartItem}
use h3_protocol.Mandate.Payment.{ok, failed, thrown}
use h3_protocol.Mandate.Payment.Accept.{Approved, accepted_payment-Authorized}
use h3_protocol.Mandate.Payment.Charged.{
  Call, run, payment_charged_once, failed_payment_keeps_ledger, thrown_approval_blocks_payment,
}
use h3_protocol.Mandate.Payment.Effect.{reservation}
use h3_protocol.Prelude.Int.{pos, finite}
use h3_protocol.Prelude.Map
use h3_protocol.Prelude.Texts.{Text, codes}
use h3_protocol.Prelude.{List, ℕ, ◌+◌, ◌≤◌, ◌≡◌, ◌≢◌, refl, true, Option, none, some, [], ◌∷◌}
use h3_protocol.Replay.Memory.{MemoryReplayStore}
use h3_protocol.Replay.Store.{ReplayStore, memory_store}

abbrev or_else {ℓ} : {A : Type ℓ} → Option A → A → A
or_else none a = a
or_else (some x) a = x

abbrev item : CartItem
item = record {
  sku = codes "tea";
  description = none;
  category = some (codes "food");
  quantity = finite (pos 2);
  unit_minor = finite (pos 150);
}

abbrev intent_options : IssueIntentOptions
intent_options = record {
  payer_private_key = codes "payer key";
  payer = codes "alice";
  agent = codes "agent";
  constraints = record {
    currency = codes "EUR";
    max_total_minor = finite (pos 1000);
    max_per_purchase_minor = some (finite (pos 500));
    merchants = some (codes "shop" ∷ []);
    categories = some (codes "food" ∷ []);
    require_approval_above_minor = some (finite (pos 200));
  };
  lifetime_ms = pos 5000;
  key_id = none;
}

abbrev intent : IntentMandate
intent =
    or_else (issue_intent_mandate checksum intent_options (pos 10) (codes "a"))
      (unsigned_intent intent_options (pos 0) [])

abbrev cart_options : IssueCartOptions
cart_options = record {
  merchant_private_key = codes "shop key";
  merchant = codes "shop";
  intent_id = intent.id;
  currency = codes "EUR";
  items = item ∷ [];
  lifetime_ms = none;
  key_id = none;
}

abbrev cart : CartMandate
cart =
    or_else (issue_cart_mandate checksum cart_options (pos 20) (codes "b"))
      (unsigned_cart cart_options 0 (pos 0) [])

abbrev payment_options : IssuePaymentOptions
payment_options = record {
  agent_private_key = codes "agent key";
  agent = codes "agent";
  intent = intent;
  cart = cart;
  lifetime_ms = none;
  key_id = none;
}

abbrev payment : PaymentMandate
payment =
    or_else (issue_payment_mandate checksum payment_options (pos 30) (codes "c"))
      (unsigned_payment payment_options [] (pos 0) [])

abbrev grant_options : IssueApprovalOptions
grant_options = record {
  approver_private_key = codes "carol key";
  approver_id = codes "carol";
  subject = codes "agent";
  action = bound (payment_approval_action payment);
  ttl_ms = none;
  reason = none;
  key_id = none;
}

abbrev no_grant : ApprovalGrant
no_grant = record {
  version = [];
  id = [];
  approver = [];
  subject = [];
  action = payment_approval_action payment;
  reason = none;
  issued_at = pos 0;
  expires_at = pos 0;
  key_id = [];
  signature = [];
}

abbrev grant : ApprovalGrant
grant = or_else (issue_approval checksum grant_options (pos 35) (codes "d")) no_grant

abbrev keys : Text → Option Text
keys id = some (codes "key")

abbrev approved_by : Option ApprovalGrant → ApprovalOptions
approved_by given = record {
  grant = given;
  approver_keys = keys;
  allowed_approvers = codes "carol" ∷ [];
  single_use = true;
}

abbrev options : Option ApprovalGrant → VerifyPaymentOptions
options given = record {
  intent = intent;
  cart = cart;
  payment = payment;
  payer_keys = keys;
  merchant_keys = keys;
  agent_keys = keys;
  expected_payer = codes "alice";
  expected_merchant = codes "shop";
  approval = some (approved_by given);
}

abbrev ledger : MemorySpendLedger
ledger = record { by_intent = [] }

abbrev store : MemoryReplayStore
store = record { entries = []; max_entries = 5 }

payment_accepted :
    (verify_payment checksum
      (memory_store (pos 40))
      ledger
      store
      (options (some grant))
      (pos 40)
      (pos 5)).2
    ≡ ok 300 (some (codes "carol"))
unfolding is_name_unit all_name_units is_name is_bad_lifetime is_bad_purchase is_bad_threshold
    all_names is_bad_list document_id signer_key_id or_default sign_document unsigned_intent
    is_bad_intent issue_intent_mandate is_bad_category has_bad_item cart_lifetime unsigned_cart
    is_bad_cart issue_cart_mandate payment_lifetime unsigned_payment issue_payment_mandate
    number_value number_or_null text_or_null text_values texts_or_null canon_constraints
    canon_intent item_value item_values canon_cart canon_payment digest_of_cart ◌and_then◌ unless
    is_safe_integer is_money is_positive all_capital is_currency shape check_form is_too_long
    check_lifetimes check_parties check_references check_key key_of check_payload check_signatures
    number_eq is_wrong_total check_digest check_money is_foreign_merchant is_allowed_category
    has_foreign_category has_forbidden_item is_above is_above_limit check_constraints check_payment
    payment_approval_action approval_options after_approval ask_grant ask_approval needs_approval
    after_reserve charge_payment after_check verify_payment as_money as_positive line_of
    checked_total_from checked_total sum_payments payments_of open_intent has_payment reserve_amount
    reserve release spent reason_member unsigned_form canonicalize_approval bound_action
    approval_ttl sign_approval issue_approval check_grant_signature vet_approval approval_key
    at_least_one used_result consume_grant verify_grant verify_presented no_approvers
    verify_approval to_hex bytes_of sha256_hex is_absolute is_empty_text bind_action actions_equal
    is_hex_unit all_hex is_bound_action encode_text base64_unit padding from_base64_url
    base64_url_unit strip_padding to_base64_url sign_canonical_payload verify_canonical_payload
    decimal_digits decimal integer hex_digit unicode_escape escape escape_all quote join_commas
    text_lt insert_member stable_stringify sorted sorted_values sorted_members stringify
    stringify_values stringify_members prune is_live check_positive check utf8 ◌+ℤ◌ ◌-ℤ◌ add_number
    text_eq includes get_or to_upper ◌>>=◌ Map.get Map.set Map.delete
payment_accepted = refl

no_grant_refused :
    (verify_payment checksum (memory_store (pos 40)) ledger store (options none) (pos 40) (pos 5)).2
    ≡ failed approval_required
unfolding is_name_unit all_name_units is_name is_bad_lifetime is_bad_purchase is_bad_threshold
    all_names is_bad_list document_id signer_key_id or_default sign_document unsigned_intent
    is_bad_intent issue_intent_mandate is_bad_category has_bad_item cart_lifetime unsigned_cart
    is_bad_cart issue_cart_mandate payment_lifetime unsigned_payment issue_payment_mandate
    number_value number_or_null text_or_null text_values texts_or_null canon_constraints
    canon_intent item_value item_values canon_cart canon_payment digest_of_cart ◌and_then◌ unless
    is_safe_integer is_money is_positive all_capital is_currency shape check_form is_too_long
    check_lifetimes check_parties check_references check_key key_of check_payload check_signatures
    number_eq is_wrong_total check_digest check_money is_foreign_merchant is_allowed_category
    has_foreign_category has_forbidden_item is_above is_above_limit check_constraints check_payment
    payment_approval_action approval_options after_approval ask_grant ask_approval needs_approval
    after_reserve charge_payment after_check verify_payment as_money as_positive line_of
    checked_total_from checked_total sum_payments payments_of open_intent has_payment reserve_amount
    reserve release spent reason_member unsigned_form canonicalize_approval bound_action
    approval_ttl sign_approval issue_approval check_grant_signature vet_approval approval_key
    at_least_one used_result consume_grant verify_grant verify_presented no_approvers
    verify_approval to_hex bytes_of sha256_hex is_absolute is_empty_text bind_action actions_equal
    is_hex_unit all_hex is_bound_action encode_text base64_unit padding from_base64_url
    base64_url_unit strip_padding to_base64_url sign_canonical_payload verify_canonical_payload
    decimal_digits decimal integer hex_digit unicode_escape escape escape_all quote join_commas
    text_lt insert_member stable_stringify sorted sorted_values sorted_members stringify
    stringify_values stringify_members prune is_live check_positive check utf8 ◌+ℤ◌ ◌-ℤ◌ add_number
    text_eq includes get_or to_upper ◌>>=◌ Map.get Map.set Map.delete
no_grant_refused = refl

needed : needs_approval (options (some grant)) ≡ true
unfolding is_name_unit all_name_units is_name is_bad_lifetime is_bad_purchase is_bad_threshold
    all_names is_bad_list document_id signer_key_id or_default sign_document unsigned_intent
    is_bad_intent issue_intent_mandate is_bad_category has_bad_item cart_lifetime unsigned_cart
    is_bad_cart issue_cart_mandate payment_lifetime unsigned_payment issue_payment_mandate
    number_value number_or_null text_or_null text_values texts_or_null canon_constraints
    canon_intent item_value item_values canon_cart canon_payment digest_of_cart ◌and_then◌ unless
    is_safe_integer is_money is_positive all_capital is_currency shape check_form is_too_long
    check_lifetimes check_parties check_references check_key key_of check_payload check_signatures
    number_eq is_wrong_total check_digest check_money is_foreign_merchant is_allowed_category
    has_foreign_category has_forbidden_item is_above is_above_limit check_constraints check_payment
    payment_approval_action approval_options after_approval ask_grant ask_approval needs_approval
    after_reserve charge_payment after_check verify_payment as_money as_positive line_of
    checked_total_from checked_total sum_payments payments_of open_intent has_payment reserve_amount
    reserve release spent reason_member unsigned_form canonicalize_approval bound_action
    approval_ttl sign_approval issue_approval check_grant_signature vet_approval approval_key
    at_least_one used_result consume_grant verify_grant verify_presented no_approvers
    verify_approval to_hex bytes_of sha256_hex is_absolute is_empty_text bind_action actions_equal
    is_hex_unit all_hex is_bound_action encode_text base64_unit padding from_base64_url
    base64_url_unit strip_padding to_base64_url sign_canonical_payload verify_canonical_payload
    decimal_digits decimal integer hex_digit unicode_escape escape escape_all quote join_commas
    text_lt insert_member stable_stringify sorted sorted_values sorted_members stringify
    stringify_values stringify_members prune is_live check_positive check utf8 ◌+ℤ◌ ◌-ℤ◌ add_number
    text_eq includes get_or to_upper ◌>>=◌ Map.get Map.set Map.delete
needed = refl

accepted_payment-Authorized_example :
    (authorized : Authorized checksum (options (some grant)) (pos 40) (pos 5)) × (ceiling : ℕ)
    × (as_positive intent.constraints.max_total_minor ≡ some ceiling)
    × (Map.get payment.id (payments_of intent.id ledger) ≡ none)
    × (300 ≡ spent ledger intent.id + authorized.total)
    × (spent
          (verify_payment checksum
            (memory_store (pos 40))
            ledger
            store
            (options (some grant))
            (pos 40)
            (pos 5)).0
          intent.id
        ≡ 300)
    × (300 ≤ ceiling)
    × (needs_approval (options (some grant)) ≡ true
        → Approved checksum (options (some grant)) (pos 40) (pos 5) (some (codes "carol")))
accepted_payment-Authorized_example =
    accepted_payment-Authorized checksum (memory_store (pos 40)) (options (some grant)) (pos 40)
      (pos 5) ledger store 300 (some (codes "carol")) payment_accepted

payment_charged_once_example :
    (verify_payment checksum
      (memory_store (pos 40))
      (run checksum
        (memory_store (pos 40))
        (verify_payment checksum
          (memory_store (pos 40))
          ledger
          store
          (options (some grant))
          (pos 40)
          (pos 5)).0
        (verify_payment checksum
          (memory_store (pos 40))
          ledger
          store
          (options (some grant))
          (pos 40)
          (pos 5)).1
        []).0
      (run checksum
        (memory_store (pos 40))
        (verify_payment checksum
          (memory_store (pos 40))
          ledger
          store
          (options (some grant))
          (pos 40)
          (pos 5)).0
        (verify_payment checksum
          (memory_store (pos 40))
          ledger
          store
          (options (some grant))
          (pos 40)
          (pos 5)).1
        []).1
      (options none)
      (pos 50)
      (pos 5)).2
    ≢ ok 300 none
payment_charged_once_example =
    payment_charged_once checksum (memory_store (pos 40)) ledger store
      (record { opts = options (some grant); now = pos 40; skew = pos 5 })
      (record { opts = options none; now = pos 50; skew = pos 5 }) [] 300 300 (some (codes "carol"))
      none payment_accepted refl refl

failed_payment_keeps_ledger_example :
    payments_of
      (codes "other")
      (verify_payment checksum
        (memory_store (pos 40))
        ledger
        store
        (options none)
        (pos 40)
        (pos 5)).0
    ≡ payments_of (codes "other") ledger
failed_payment_keeps_ledger_example =
    failed_payment_keeps_ledger checksum (memory_store (pos 40)) (options none) (pos 40) (pos 5)
      ledger store approval_required no_grant_refused (codes "other")

-- A call that comes between.
abbrev between : List Call
between = record { opts = options none; now = pos 50; skew = pos 5 } ∷ []

-- A replay store that throws.
abbrev broken_store : ReplayStore
broken_store = record { State = Unit; check_key = λ s key ttl. (s, none) }

checks_pass : check_payment checksum (options (some grant)) (pos 40) (pos 5) ≡ passes
unfolding is_name_unit all_name_units is_name is_bad_lifetime is_bad_purchase is_bad_threshold
    all_names is_bad_list document_id signer_key_id or_default sign_document unsigned_intent
    is_bad_intent issue_intent_mandate is_bad_category has_bad_item cart_lifetime unsigned_cart
    is_bad_cart issue_cart_mandate payment_lifetime unsigned_payment issue_payment_mandate
    number_value number_or_null text_or_null text_values texts_or_null canon_constraints
    canon_intent item_value item_values canon_cart canon_payment digest_of_cart ◌and_then◌ unless
    is_safe_integer is_money is_positive all_capital is_currency shape check_form is_too_long
    check_lifetimes check_parties check_references check_key key_of check_payload check_signatures
    number_eq is_wrong_total check_digest check_money is_foreign_merchant is_allowed_category
    has_foreign_category has_forbidden_item is_above is_above_limit check_constraints check_payment
    payment_approval_action approval_options after_approval ask_grant ask_approval needs_approval
    after_reserve charge_payment after_check verify_payment as_money as_positive line_of
    checked_total_from checked_total sum_payments payments_of open_intent has_payment reserve_amount
    reserve release spent reason_member unsigned_form canonicalize_approval bound_action
    approval_ttl sign_approval issue_approval check_grant_signature vet_approval approval_key
    at_least_one used_result consume_grant verify_grant verify_presented no_approvers
    verify_approval to_hex bytes_of sha256_hex is_absolute is_empty_text bind_action actions_equal
    is_hex_unit all_hex is_bound_action encode_text base64_unit padding from_base64_url
    base64_url_unit strip_padding to_base64_url sign_canonical_payload verify_canonical_payload
    decimal_digits decimal integer hex_digit unicode_escape escape escape_all quote join_commas
    text_lt insert_member stable_stringify sorted sorted_values sorted_members stringify
    stringify_values stringify_members prune is_live check_positive check utf8 ◌+ℤ◌ ◌-ℤ◌ add_number
    text_eq includes get_or to_upper ◌>>=◌ Map.get Map.set Map.delete
checks_pass = refl

is_reserved : (reserve ledger (reservation (options (some grant)))).1 ≡ some reserved
unfolding is_name_unit all_name_units is_name is_bad_lifetime is_bad_purchase is_bad_threshold
    all_names is_bad_list document_id signer_key_id or_default sign_document unsigned_intent
    is_bad_intent issue_intent_mandate is_bad_category has_bad_item cart_lifetime unsigned_cart
    is_bad_cart issue_cart_mandate payment_lifetime unsigned_payment issue_payment_mandate
    number_value number_or_null text_or_null text_values texts_or_null canon_constraints
    canon_intent item_value item_values canon_cart canon_payment digest_of_cart ◌and_then◌ unless
    is_safe_integer is_money is_positive all_capital is_currency shape check_form is_too_long
    check_lifetimes check_parties check_references check_key key_of check_payload check_signatures
    number_eq is_wrong_total check_digest check_money is_foreign_merchant is_allowed_category
    has_foreign_category has_forbidden_item is_above is_above_limit check_constraints check_payment
    payment_approval_action approval_options after_approval ask_grant ask_approval needs_approval
    after_reserve charge_payment after_check verify_payment as_money as_positive line_of
    checked_total_from checked_total sum_payments payments_of open_intent has_payment reserve_amount
    reserve release spent reason_member unsigned_form canonicalize_approval bound_action
    approval_ttl sign_approval issue_approval check_grant_signature vet_approval approval_key
    at_least_one used_result consume_grant verify_grant verify_presented no_approvers
    verify_approval to_hex bytes_of sha256_hex is_absolute is_empty_text bind_action actions_equal
    is_hex_unit all_hex is_bound_action encode_text base64_unit padding from_base64_url
    base64_url_unit strip_padding to_base64_url sign_canonical_payload verify_canonical_payload
    decimal_digits decimal integer hex_digit unicode_escape escape escape_all quote join_commas
    text_lt insert_member stable_stringify sorted sorted_values sorted_members stringify
    stringify_values stringify_members prune is_live check_positive check utf8 ◌+ℤ◌ ◌-ℤ◌ add_number
    text_eq includes get_or to_upper ◌>>=◌ Map.get Map.set Map.delete
is_reserved = refl

approval_throws :
    (verify_approval checksum broken_store tt
      (some grant)
      (approval_options (approved_by (some grant)) payment)
      (pos 40)
      (pos 5)).1
    ≡ Approval.thrown
unfolding is_name_unit all_name_units is_name is_bad_lifetime is_bad_purchase is_bad_threshold
    all_names is_bad_list document_id signer_key_id or_default sign_document unsigned_intent
    is_bad_intent issue_intent_mandate is_bad_category has_bad_item cart_lifetime unsigned_cart
    is_bad_cart issue_cart_mandate payment_lifetime unsigned_payment issue_payment_mandate
    number_value number_or_null text_or_null text_values texts_or_null canon_constraints
    canon_intent item_value item_values canon_cart canon_payment digest_of_cart ◌and_then◌ unless
    is_safe_integer is_money is_positive all_capital is_currency shape check_form is_too_long
    check_lifetimes check_parties check_references check_key key_of check_payload check_signatures
    number_eq is_wrong_total check_digest check_money is_foreign_merchant is_allowed_category
    has_foreign_category has_forbidden_item is_above is_above_limit check_constraints check_payment
    payment_approval_action approval_options after_approval ask_grant ask_approval needs_approval
    after_reserve charge_payment after_check verify_payment as_money as_positive line_of
    checked_total_from checked_total sum_payments payments_of open_intent has_payment reserve_amount
    reserve release spent reason_member unsigned_form canonicalize_approval bound_action
    approval_ttl sign_approval issue_approval check_grant_signature vet_approval approval_key
    at_least_one used_result consume_grant verify_grant verify_presented no_approvers
    verify_approval to_hex bytes_of sha256_hex is_absolute is_empty_text bind_action actions_equal
    is_hex_unit all_hex is_bound_action encode_text base64_unit padding from_base64_url
    base64_url_unit strip_padding to_base64_url sign_canonical_payload verify_canonical_payload
    decimal_digits decimal integer hex_digit unicode_escape escape escape_all quote join_commas
    text_lt insert_member stable_stringify sorted sorted_values sorted_members stringify
    stringify_values stringify_members prune is_live check_positive check utf8 ◌+ℤ◌ ◌-ℤ◌ add_number
    text_eq includes get_or to_upper ◌>>=◌ Map.get Map.set Map.delete
approval_throws = refl

thrown_approval_blocks_payment_example :
    ((verify_payment checksum broken_store ledger tt (options (some grant)) (pos 40) (pos 5)).2
      ≡ thrown)
    × ((amount : ℕ) × (as_money payment.amount_minor ≡ some amount)
        × (spent
              (verify_payment checksum broken_store ledger tt
                (options (some grant))
                (pos 40)
                (pos 5)).0
              intent.id
            ≡ spent ledger intent.id + amount))
    × ((verify_payment checksum broken_store
          (run checksum broken_store
            (verify_payment checksum broken_store ledger tt
              (options (some grant))
              (pos 40)
              (pos 5)).0
            tt
            between).0
          (run checksum broken_store
            (verify_payment checksum broken_store ledger tt
              (options (some grant))
              (pos 40)
              (pos 5)).0
            tt
            between).1
          (options (some grant))
          (pos 60)
          (pos 5)).2
        ≢ ok 300 (some (codes "carol")))
thrown_approval_blocks_payment_example =
    thrown_approval_blocks_payment checksum broken_store (options (some grant)) (pos 40) (pos 5)
      ledger tt (approved_by (some grant)) grant checks_pass is_reserved needed refl refl
      approval_throws between tt
      (record { opts = options (some grant); now = pos 60; skew = pos 5 }) 300
      (some (codes "carol")) refl refl
