-- ===== src/Audit/Tests.antt =====
-- A log of three entries that is written, shortened and overfilled.
use h3_protocol.Audit.{
  type_text, zeros, audit_genesis_hash, canonical_audit_payload, audit_entry_hash, create_audit_log,
  audit_id, unsigned_entry, shift, make_place, append_entry, push_entry, set_tip, begin_entry,
  sign_entry, log_event, has_type, is_from, is_since, skip, slice_last, query, verify_entry,
  signature_check, check_entry, after_entry, check_from, verify_audit_chain,
}
use h3_protocol.Action.{
  to_hex, bytes_of, sha256_hex, is_absolute, is_empty_text, bind_action, actions_equal, is_hex_unit,
  all_hex, is_bound_action,
}
use h3_protocol.Crypto.{
  encode_text, base64_unit, padding, from_base64_url, base64_url_unit, strip_padding, to_base64_url,
  sign_canonical_payload, verify_canonical_payload,
}
use h3_protocol.Json.{
  decimal_digits, decimal, integer, hex_digit, unicode_escape, escape, escape_all, quote,
  join_commas, field, optional, braces, text_lt, insert_member, stable_stringify, sorted,
  sorted_values, sorted_members, stringify, stringify_values, stringify_members,
}
use h3_protocol.Prelude.Texts.{text_eq, includes}
use h3_protocol.Prelude.Int.{◌+ℤ◌, ◌-ℤ◌, add_number}
use h3_protocol.Prelude.Tests.{◌>>=◌}
use h3_protocol.Replay.Cache.Key.{utf8}
use h3_protocol.Prelude.Arrays.{get_or}
use h3_protocol.Prelude.Lists.{filter}
use h3_protocol.Audit.{
  AuditEvent, AuditEntry, InMemoryAuditLog, sender_denied, verify_ok, ok, broken_at,
  prev_hash_mismatch,
}
use h3_protocol.Audit.Logged.{Event, log_all, logged_chain_verifies, Chained}
use h3_protocol.Audit.Overlap.{log_overlapped, overlapping_calls_break}
use h3_protocol.Audit.Tamper.{deletion_is_found, truncated_log_verifies, evicted_log_breaks}
use h3_protocol.Crypto.Echo.{checksum, checksum-pair}
use h3_protocol.Prelude.Int.{pos}
use h3_protocol.Prelude.Lists.{length}
use h3_protocol.Prelude.Texts.{codes, text_ne_of_test}
use h3_protocol.Prelude.{ℕ, suc, ◌+◌, ◌≤◌, ◌≡◌, refl, false, none, some, List, [], ◌∷◌, ◌++◌, arith}

abbrev denied : AuditEvent
denied = record {
  type = sender_denied;
  sender = some (codes "mallory");
  path = none;
  method = none;
  envelope_id = none;
  fail_reason = none;
  upstream = none;
  response_status = none;
}

abbrev events : List Event
events =
    record { event = denied; now = pos 10; random = codes "a" }
    ∷ record { event = record denied { type = verify_ok }; now = pos 20; random = codes "b" }
    ∷ record { event = denied; now = pos 30; random = codes "c" }
    ∷ []

abbrev empty_log : InMemoryAuditLog
empty_log = create_audit_log (codes "key") 3

abbrev written : InMemoryAuditLog
written = elim (log_all checksum empty_log events) [ none ↦ empty_log | some log ↦ log ]

three_logged : log_all checksum (create_audit_log (codes "key") 3) events ≡ some written
unfolding type_text zeros audit_genesis_hash canonical_audit_payload audit_entry_hash
    create_audit_log audit_id unsigned_entry shift make_place append_entry push_entry set_tip
    sign_entry log_event begin_entry has_type is_from is_since skip slice_last query verify_entry
    signature_check check_entry after_entry check_from verify_audit_chain to_hex bytes_of sha256_hex
    is_absolute is_empty_text bind_action actions_equal is_hex_unit all_hex is_bound_action
    encode_text base64_unit padding from_base64_url base64_url_unit strip_padding to_base64_url
    sign_canonical_payload verify_canonical_payload decimal_digits decimal integer hex_digit
    unicode_escape escape escape_all quote join_commas field optional braces text_lt insert_member
    stable_stringify sorted sorted_values sorted_members stringify stringify_values
    stringify_members text_eq includes ◌+ℤ◌ ◌-ℤ◌ add_number ◌>>=◌ utf8 get_or filter log_all
three_logged = refl

logged_chain_verifies_example :
    (verify_audit_chain checksum written.entries (codes "public") ≡ ok)
    × (length written.entries ≡ length events)
logged_chain_verifies_example =
    logged_chain_verifies checksum (codes "public") (codes "key") 3 events written
      (checksum-pair (codes "key") (codes "public")) (omega arith) three_logged

-- `slice(-0)` takes everything.
zero_limit :
    length
      (query written (record { type = none; sender = none; since = none; limit = some (pos 0) }))
    ≡ 3
unfolding type_text zeros audit_genesis_hash canonical_audit_payload audit_entry_hash
    create_audit_log audit_id unsigned_entry shift make_place append_entry push_entry set_tip
    sign_entry log_event begin_entry has_type is_from is_since skip slice_last query verify_entry
    signature_check check_entry after_entry check_from verify_audit_chain to_hex bytes_of sha256_hex
    is_absolute is_empty_text bind_action actions_equal is_hex_unit all_hex is_bound_action
    encode_text base64_unit padding from_base64_url base64_url_unit strip_padding to_base64_url
    sign_canonical_payload verify_canonical_payload decimal_digits decimal integer hex_digit
    unicode_escape escape escape_all quote join_commas field optional braces text_lt insert_member
    stable_stringify sorted sorted_values sorted_members stringify stringify_values
    stringify_members text_eq includes ◌+ℤ◌ ◌-ℤ◌ add_number ◌>>=◌ utf8 get_or filter log_all
zero_limit = refl

abbrev no_entry : AuditEntry
no_entry = record {
  id = [];
  timestamp_ms = pos 0;
  event = denied;
  prev_hash = [];
  entry_signature = [];
}

-- The entry at an index.
abbrev entry : ℕ → AuditEntry
entry i = get_or written.entries i no_entry

three_verify :
    verify_audit_chain checksum ([] ++ entry 0 ∷ entry 1 ∷ entry 2 ∷ []) (codes "public") ≡ ok
unfolding type_text zeros audit_genesis_hash canonical_audit_payload audit_entry_hash
    create_audit_log audit_id unsigned_entry shift make_place append_entry push_entry set_tip
    sign_entry log_event begin_entry has_type is_from is_since skip slice_last query verify_entry
    signature_check check_entry after_entry check_from verify_audit_chain to_hex bytes_of sha256_hex
    is_absolute is_empty_text bind_action actions_equal is_hex_unit all_hex is_bound_action
    encode_text base64_unit padding from_base64_url base64_url_unit strip_padding to_base64_url
    sign_canonical_payload verify_canonical_payload decimal_digits decimal integer hex_digit
    unicode_escape escape escape_all quote join_commas field optional braces text_lt insert_member
    stable_stringify sorted sorted_values sorted_members stringify stringify_values
    stringify_members text_eq includes ◌+ℤ◌ ◌-ℤ◌ add_number ◌>>=◌ utf8 get_or filter log_all
three_verify = refl

first_moves : text_eq (audit_entry_hash checksum (entry 0)) (entry 0).prev_hash ≡ false
unfolding type_text zeros audit_genesis_hash canonical_audit_payload audit_entry_hash
    create_audit_log audit_id unsigned_entry shift make_place append_entry push_entry set_tip
    sign_entry log_event begin_entry has_type is_from is_since skip slice_last query verify_entry
    signature_check check_entry after_entry check_from verify_audit_chain to_hex bytes_of sha256_hex
    is_absolute is_empty_text bind_action actions_equal is_hex_unit all_hex is_bound_action
    encode_text base64_unit padding from_base64_url base64_url_unit strip_padding to_base64_url
    sign_canonical_payload verify_canonical_payload decimal_digits decimal integer hex_digit
    unicode_escape escape escape_all quote join_commas field optional braces text_lt insert_member
    stable_stringify sorted sorted_values sorted_members stringify stringify_values
    stringify_members text_eq includes ◌+ℤ◌ ◌-ℤ◌ add_number ◌>>=◌ utf8 get_or filter log_all
first_moves = refl

deletion_is_found_example :
    verify_audit_chain checksum ([] ++ entry 1 ∷ entry 2 ∷ []) (codes "public")
    ≡ broken_at 0 prev_hash_mismatch
deletion_is_found_example =
    deletion_is_found checksum (codes "public") [] (entry 0) (entry 1) (entry 2 ∷ []) three_verify
      (text_ne_of_test (audit_entry_hash checksum (entry 0)) (entry 0).prev_hash first_moves)

truncated_log_verifies_example : verify_audit_chain checksum (entry 0 ∷ []) (codes "public") ≡ ok
truncated_log_verifies_example =
    truncated_log_verifies checksum (codes "public") (entry 0 ∷ []) (entry 1 ∷ entry 2 ∷ [])
      three_verify

abbrev overfull : InMemoryAuditLog
overfull = elim (log_event checksum written denied (pos 40) (codes "d")) [
  | none ↦ empty_log
  | some log ↦ log
]

fourth_logged : log_event checksum written denied (pos 40) (codes "d") ≡ some overfull
unfolding type_text zeros audit_genesis_hash canonical_audit_payload audit_entry_hash
    create_audit_log audit_id unsigned_entry shift make_place append_entry push_entry set_tip
    sign_entry log_event begin_entry has_type is_from is_since skip slice_last query verify_entry
    signature_check check_entry after_entry check_from verify_audit_chain to_hex bytes_of sha256_hex
    is_absolute is_empty_text bind_action actions_equal is_hex_unit all_hex is_bound_action
    encode_text base64_unit padding from_base64_url base64_url_unit strip_padding to_base64_url
    sign_canonical_payload verify_canonical_payload decimal_digits decimal integer hex_digit
    unicode_escape escape escape_all quote join_commas field optional braces text_lt insert_member
    stable_stringify sorted sorted_values sorted_members stringify stringify_values
    stringify_members text_eq includes ◌+ℤ◌ ◌-ℤ◌ add_number ◌>>=◌ utf8 get_or filter log_all
fourth_logged = refl

written-Chained : Chained checksum (codes "public") written
unfolding type_text zeros audit_genesis_hash canonical_audit_payload audit_entry_hash
    create_audit_log audit_id unsigned_entry shift make_place append_entry push_entry set_tip
    sign_entry log_event begin_entry has_type is_from is_since skip slice_last query verify_entry
    signature_check check_entry after_entry check_from verify_audit_chain to_hex bytes_of sha256_hex
    is_absolute is_empty_text bind_action actions_equal is_hex_unit all_hex is_bound_action
    encode_text base64_unit padding from_base64_url base64_url_unit strip_padding to_base64_url
    sign_canonical_payload verify_canonical_payload decimal_digits decimal integer hex_digit
    unicode_escape escape escape_all quote join_commas field optional braces text_lt insert_member
    stable_stringify sorted sorted_values sorted_members stringify stringify_values
    stringify_members text_eq includes ◌+ℤ◌ ◌-ℤ◌ add_number ◌>>=◌ utf8 get_or filter log_all
written-Chained = record { verified = refl; remembered = refl }

written_entries : written.entries ≡ entry 0 ∷ entry 1 ∷ entry 2 ∷ []
unfolding type_text zeros audit_genesis_hash canonical_audit_payload audit_entry_hash
    create_audit_log audit_id unsigned_entry shift make_place append_entry push_entry set_tip
    sign_entry log_event begin_entry has_type is_from is_since skip slice_last query verify_entry
    signature_check check_entry after_entry check_from verify_audit_chain to_hex bytes_of sha256_hex
    is_absolute is_empty_text bind_action actions_equal is_hex_unit all_hex is_bound_action
    encode_text base64_unit padding from_base64_url base64_url_unit strip_padding to_base64_url
    sign_canonical_payload verify_canonical_payload decimal_digits decimal integer hex_digit
    unicode_escape escape escape_all quote join_commas field optional braces text_lt insert_member
    stable_stringify sorted sorted_values sorted_members stringify stringify_values
    stringify_members text_eq includes ◌+ℤ◌ ◌-ℤ◌ add_number ◌>>=◌ utf8 get_or filter log_all
written_entries = refl

written_full : written.max_entries ≤ length written.entries
unfolding type_text zeros audit_genesis_hash canonical_audit_payload audit_entry_hash
    create_audit_log audit_id unsigned_entry shift make_place append_entry push_entry set_tip
    sign_entry log_event begin_entry has_type is_from is_since skip slice_last query verify_entry
    signature_check check_entry after_entry check_from verify_audit_chain to_hex bytes_of sha256_hex
    is_absolute is_empty_text bind_action actions_equal is_hex_unit all_hex is_bound_action
    encode_text base64_unit padding from_base64_url base64_url_unit strip_padding to_base64_url
    sign_canonical_payload verify_canonical_payload decimal_digits decimal integer hex_digit
    unicode_escape escape escape_all quote join_commas field optional braces text_lt insert_member
    stable_stringify sorted sorted_values sorted_members stringify stringify_values
    stringify_members text_eq includes ◌+ℤ◌ ◌-ℤ◌ add_number ◌>>=◌ utf8 get_or filter log_all
written_full = omega arith

first_is_no_start : text_eq (audit_entry_hash checksum (entry 0)) audit_genesis_hash ≡ false
unfolding type_text zeros audit_genesis_hash canonical_audit_payload audit_entry_hash
    create_audit_log audit_id unsigned_entry shift make_place append_entry push_entry set_tip
    sign_entry log_event begin_entry has_type is_from is_since skip slice_last query verify_entry
    signature_check check_entry after_entry check_from verify_audit_chain to_hex bytes_of sha256_hex
    is_absolute is_empty_text bind_action actions_equal is_hex_unit all_hex is_bound_action
    encode_text base64_unit padding from_base64_url base64_url_unit strip_padding to_base64_url
    sign_canonical_payload verify_canonical_payload decimal_digits decimal integer hex_digit
    unicode_escape escape escape_all quote join_commas field optional braces text_lt insert_member
    stable_stringify sorted sorted_values sorted_members stringify stringify_values
    stringify_members text_eq includes ◌+ℤ◌ ◌-ℤ◌ add_number ◌>>=◌ utf8 get_or filter log_all
first_is_no_start = refl

evicted_log_breaks_example :
    verify_audit_chain checksum overfull.entries (codes "public") ≡ broken_at 0 prev_hash_mismatch
evicted_log_breaks_example =
    evicted_log_breaks checksum (codes "public") written overfull (entry 0) (entry 1 ∷ entry 2 ∷ [])
      denied (pos 40) (codes "d") (checksum-pair written.private_key (codes "public"))
      written-Chained written_entries written_full
      (text_ne_of_test (audit_entry_hash checksum (entry 0)) audit_genesis_hash first_is_no_start)
      fourth_logged

abbrev early : Event
early = record { event = denied; now = pos 10; random = codes "a" }

abbrev late : Event
late = record { event = denied; now = pos 20; random = codes "b" }

abbrev overlapped : InMemoryAuditLog
overlapped = elim (log_overlapped checksum empty_log early late) [
  | none ↦ empty_log
  | some log ↦ log
]

abbrev begun : Event → AuditEntry
begun e = elim (begin_entry checksum empty_log e.event e.now e.random) [
  | none ↦ no_entry
  | some a ↦ a
]

empty-Chained : Chained checksum (codes "public") empty_log
unfolding type_text zeros audit_genesis_hash canonical_audit_payload audit_entry_hash
    create_audit_log audit_id unsigned_entry shift make_place append_entry push_entry set_tip
    sign_entry log_event begin_entry has_type is_from is_since skip slice_last query verify_entry
    signature_check check_entry after_entry check_from verify_audit_chain to_hex bytes_of sha256_hex
    is_absolute is_empty_text bind_action actions_equal is_hex_unit all_hex is_bound_action
    encode_text base64_unit padding from_base64_url base64_url_unit strip_padding to_base64_url
    sign_canonical_payload verify_canonical_payload decimal_digits decimal integer hex_digit
    unicode_escape escape escape_all quote join_commas field optional braces text_lt insert_member
    stable_stringify sorted sorted_values sorted_members stringify stringify_values
    stringify_members text_eq includes ◌+ℤ◌ ◌-ℤ◌ add_number ◌>>=◌ utf8 get_or filter log_all
    log_overlapped
empty-Chained = record { verified = refl; remembered = refl }

early_begun : begin_entry checksum empty_log denied (pos 10) (codes "a") ≡ some (begun early)
unfolding type_text zeros audit_genesis_hash canonical_audit_payload audit_entry_hash
    create_audit_log audit_id unsigned_entry shift make_place append_entry push_entry set_tip
    sign_entry log_event begin_entry has_type is_from is_since skip slice_last query verify_entry
    signature_check check_entry after_entry check_from verify_audit_chain to_hex bytes_of sha256_hex
    is_absolute is_empty_text bind_action actions_equal is_hex_unit all_hex is_bound_action
    encode_text base64_unit padding from_base64_url base64_url_unit strip_padding to_base64_url
    sign_canonical_payload verify_canonical_payload decimal_digits decimal integer hex_digit
    unicode_escape escape escape_all quote join_commas field optional braces text_lt insert_member
    stable_stringify sorted sorted_values sorted_members stringify stringify_values
    stringify_members text_eq includes ◌+ℤ◌ ◌-ℤ◌ add_number ◌>>=◌ utf8 get_or filter log_all
    log_overlapped
early_begun = refl

late_begun : begin_entry checksum empty_log denied (pos 20) (codes "b") ≡ some (begun late)
unfolding type_text zeros audit_genesis_hash canonical_audit_payload audit_entry_hash
    create_audit_log audit_id unsigned_entry shift make_place append_entry push_entry set_tip
    sign_entry log_event begin_entry has_type is_from is_since skip slice_last query verify_entry
    signature_check check_entry after_entry check_from verify_audit_chain to_hex bytes_of sha256_hex
    is_absolute is_empty_text bind_action actions_equal is_hex_unit all_hex is_bound_action
    encode_text base64_unit padding from_base64_url base64_url_unit strip_padding to_base64_url
    sign_canonical_payload verify_canonical_payload decimal_digits decimal integer hex_digit
    unicode_escape escape escape_all quote join_commas field optional braces text_lt insert_member
    stable_stringify sorted sorted_values sorted_members stringify stringify_values
    stringify_members text_eq includes ◌+ℤ◌ ◌-ℤ◌ add_number ◌>>=◌ utf8 get_or filter log_all
    log_overlapped
late_begun = refl

both_logged : log_overlapped checksum empty_log early late ≡ some overlapped
unfolding type_text zeros audit_genesis_hash canonical_audit_payload audit_entry_hash
    create_audit_log audit_id unsigned_entry shift make_place append_entry push_entry set_tip
    sign_entry log_event begin_entry has_type is_from is_since skip slice_last query verify_entry
    signature_check check_entry after_entry check_from verify_audit_chain to_hex bytes_of sha256_hex
    is_absolute is_empty_text bind_action actions_equal is_hex_unit all_hex is_bound_action
    encode_text base64_unit padding from_base64_url base64_url_unit strip_padding to_base64_url
    sign_canonical_payload verify_canonical_payload decimal_digits decimal integer hex_digit
    unicode_escape escape escape_all quote join_commas field optional braces text_lt insert_member
    stable_stringify sorted sorted_values sorted_members stringify stringify_values
    stringify_members text_eq includes ◌+ℤ◌ ◌-ℤ◌ add_number ◌>>=◌ utf8 get_or filter log_all
    log_overlapped
both_logged = refl

early_moves_tip : text_eq (audit_entry_hash checksum (begun early)) empty_log.tip ≡ false
unfolding type_text zeros audit_genesis_hash canonical_audit_payload audit_entry_hash
    create_audit_log audit_id unsigned_entry shift make_place append_entry push_entry set_tip
    sign_entry log_event begin_entry has_type is_from is_since skip slice_last query verify_entry
    signature_check check_entry after_entry check_from verify_audit_chain to_hex bytes_of sha256_hex
    is_absolute is_empty_text bind_action actions_equal is_hex_unit all_hex is_bound_action
    encode_text base64_unit padding from_base64_url base64_url_unit strip_padding to_base64_url
    sign_canonical_payload verify_canonical_payload decimal_digits decimal integer hex_digit
    unicode_escape escape escape_all quote join_commas field optional braces text_lt insert_member
    stable_stringify sorted sorted_values sorted_members stringify stringify_values
    stringify_members text_eq includes ◌+ℤ◌ ◌-ℤ◌ add_number ◌>>=◌ utf8 get_or filter log_all
    log_overlapped
early_moves_tip = refl

two_fit : length empty_log.entries + 2 ≤ empty_log.max_entries
unfolding create_audit_log
two_fit = omega arith

overlapping_calls_break_example :
    verify_audit_chain checksum overlapped.entries (codes "public")
    ≡ broken_at (suc (length empty_log.entries)) prev_hash_mismatch
overlapping_calls_break_example =
    overlapping_calls_break checksum (codes "public") empty_log overlapped early late (begun early)
      (begun late) (checksum-pair empty_log.private_key (codes "public")) empty-Chained two_fit
      early_begun late_begun
      (text_ne_of_test (audit_entry_hash checksum (begun early)) empty_log.tip early_moves_tip)
      both_logged
