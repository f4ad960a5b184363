-- ===== src/Audit.antt =====
-- src/auditLog.ts: the hash-chained audit log in memory and the verification of a chain. The clock and
-- the random part of an id are arguments; `none` is an exception of the signing functions. `log` suspends
-- twice: it is `begin_entry`, `push_entry` and `set_tip`, and `log_event` is a call that no other
-- call of `log` overlaps.
pub mod Logged
pub mod Tamper
pub mod Overlap
mod Tests
use h3_protocol.Action.{in_text, sha256_hex}
use h3_protocol.Crypto.{WebCrypto, sign_canonical_payload, verify_canonical_payload}
use h3_protocol.Json.{integer, quote, field, optional, map_option, braces}
use h3_protocol.Prelude.Int.{ℤ, pos, negsuc, leb_ℤ}
use h3_protocol.Prelude.Lists.{length, filter}
use h3_protocol.Prelude.Texts.{Text, codes, text_eq}
use h3_protocol.Prelude.{
  ℕ, zero, suc, ◌-◌, Bool, true, false, not, Option, none, some, List, [], ◌∷◌, ◌++◌, leb,
  if◌then◌else◌,
}

pub data AuditEventType : Type 0 where
  verify_ok verify_fail rate_limited sender_denied response_signed : AuditEventType

unfoldable pub type_text : AuditEventType → Text
type_text verify_ok = codes "verify-ok"
type_text verify_fail = codes "verify-fail"
type_text rate_limited = codes "rate-limited"
type_text sender_denied = codes "sender-denied"
type_text response_signed = codes "response-signed"

-- The event that a caller hands over.
pub record AuditEvent : Type 0 where
  pub type : AuditEventType
  pub sender : Option Text
  pub path : Option Text
  pub method : Option Text
  pub envelope_id : Option Text
  pub fail_reason : Option Text
  pub upstream : Option Text
  pub response_status : Option ℤ

-- `AuditEntry`: the event with what `log` adds.
pub record AuditEntry : Type 0 where
  pub id : Text
  pub timestamp_ms : ℤ
  pub event : AuditEvent
  pub prev_hash : Text
  pub entry_signature : Text

unfoldable pub zeros : ℕ → Text
zeros zero = []
zeros (suc n) = b'0' ∷ zeros n

-- `'0'.repeat(64)`
unfoldable pub audit_genesis_hash : Text
audit_genesis_hash = zeros 64

-- The signature is not covered.
unfoldable pub canonical_audit_payload : AuditEntry → Text
canonical_audit_payload entry =
    let e = entry.event in
    braces (
      field (codes "id") (quote entry.id)
      ∷ field (codes "timestampMs") (integer entry.timestamp_ms)
      ∷ field (codes "type") (quote (type_text e.type))
      ∷ (optional (codes "sender") (map_option quote e.sender)
          ++ (optional (codes "path") (map_option quote e.path)
              ++ (optional (codes "method") (map_option quote e.method)
                  ++ (optional (codes "envelopeId") (map_option quote e.envelope_id)
                      ++ (optional (codes "failReason") (map_option quote e.fail_reason)
                          ++ (optional (codes "upstream") (map_option quote e.upstream)
                              ++ (optional (codes "responseStatus")
                                    (map_option integer e.response_status)
                                  ++ field (codes "prevHash") (quote entry.prev_hash) ∷ []))))))))

unfoldable pub audit_entry_hash : WebCrypto → AuditEntry → Text
audit_entry_hash web entry =
    sha256_hex web (in_text (canonical_audit_payload entry ++ entry.entry_signature))

pub record InMemoryAuditLog : Type 0 where
  pub entries : List AuditEntry
  pub tip : Text
  pub private_key : Text
  pub max_entries : ℕ

unfoldable pub create_audit_log : Text → ℕ → InMemoryAuditLog
create_audit_log private_key max_entries = record {
  entries = [];
  tip = audit_genesis_hash;
  private_key = private_key;
  max_entries = max_entries;
}

-- `audit-${Date.now()}-${randomHex(5)}`; the second reading of the clock is taken to be the first.
unfoldable pub audit_id : ℤ → Text → Text
audit_id now random = codes "audit-" ++ (integer now ++ (b'-' ∷ random))

unfoldable pub unsigned_entry : InMemoryAuditLog → AuditEvent → ℤ → Text → AuditEntry
unsigned_entry log event now random = record {
  id = audit_id now random;
  timestamp_ms = now;
  event = event;
  prev_hash = log.tip;
  entry_signature = [];
}

-- `entries.shift()`
unfoldable pub shift : List AuditEntry → List AuditEntry
shift [] = []
shift (_ ∷ entries) = entries

-- `if (entries.length >= maxEntries) entries.shift()`
unfoldable pub make_place : ℕ → List AuditEntry → List AuditEntry
make_place max_entries entries = if leb max_entries (length entries) then shift entries else entries

-- What `log` does after the signature has come.
unfoldable pub push_entry : InMemoryAuditLog → AuditEntry → InMemoryAuditLog
push_entry log entry = record log { entries = make_place log.max_entries log.entries ++ entry ∷ [] }

-- What `log` does after the hash has come.
unfoldable pub set_tip : WebCrypto → InMemoryAuditLog → AuditEntry → InMemoryAuditLog
set_tip web log entry = record log { tip = audit_entry_hash web entry }

-- The end of `log`, with the signed entry.
unfoldable pub append_entry : WebCrypto → InMemoryAuditLog → AuditEntry → InMemoryAuditLog
append_entry web log entry = set_tip web (push_entry log entry) entry

unfoldable pub sign_entry : WebCrypto → AuditEntry → Text → Option AuditEntry
sign_entry web unsigned private_key =
    map_option (λ s. record unsigned { entry_signature = s })
      (sign_canonical_payload web (canonical_audit_payload unsigned) private_key)

-- What `log` does before it waits for the signature, and the entry with that signature.
unfoldable pub begin_entry :
    WebCrypto → InMemoryAuditLog → AuditEvent → ℤ → Text → Option AuditEntry
begin_entry web log event now random =
    sign_entry web (unsigned_entry log event now random) log.private_key

-- `log`, where no other call of it begins or goes on before it has ended.
unfoldable pub log_event :
    WebCrypto → InMemoryAuditLog → AuditEvent → ℤ → Text → Option InMemoryAuditLog
log_event web log event now random =
    map_option (append_entry web log) (begin_entry web log event now random)

pub record QueryOptions : Type 0 where
  pub type : Option AuditEventType
  pub sender : Option Text
  pub since : Option ℤ
  pub limit : Option ℤ

unfoldable pub has_type : Option AuditEventType → AuditEntry → Bool
has_type none entry = true
has_type (some type) entry = text_eq (type_text entry.event.type) (type_text type)

unfoldable pub is_from : Option Text → Option Text → Bool
is_from none sender = true
is_from (some wanted) none = false
is_from (some wanted) (some sender) = text_eq sender wanted

unfoldable pub is_since : Option ℤ → ℤ → Bool
is_since none time = true
is_since (some since) time = leb_ℤ since time

unfoldable pub skip : ℕ → List AuditEntry → List AuditEntry
skip zero entries = entries
skip (suc n) [] = []
skip (suc n) (_ ∷ entries) = skip n entries

-- `results.slice(-limit)`: `slice(-0)` takes everything, and a negative limit skips from the front.
unfoldable pub slice_last : Option ℤ → List AuditEntry → List AuditEntry
slice_last none entries = entries
slice_last (some (pos zero)) entries = entries
slice_last (some (pos (suc n))) entries = skip (length entries - suc n) entries
slice_last (some (negsuc n)) entries = skip (suc n) entries

unfoldable pub query : InMemoryAuditLog → QueryOptions → List AuditEntry
query log opts = slice_last opts.limit (
    filter (λ e. is_since opts.since e.timestamp_ms)
      (filter (λ e. is_from opts.sender e.event.sender) (filter (has_type opts.type) log.entries)))

-- `verify`; `none` where the key cannot be imported.
unfoldable pub verify_entry : WebCrypto → AuditEntry → Text → Option Bool
verify_entry web entry public_key =
    verify_canonical_payload web (canonical_audit_payload entry) entry.entry_signature public_key

pub data AuditFailure : Type 0 where
  prev_hash_mismatch bad_signature : AuditFailure

pub data EntryCheck : Type 0 where
  passes : EntryCheck
  breaks : AuditFailure → EntryCheck
  throws : EntryCheck

-- `AuditChainVerification` but for the length of the input, or an exception.
pub data AuditChainVerification : Type 0 where
  ok : AuditChainVerification
  broken_at : ℕ → AuditFailure → AuditChainVerification
  thrown : AuditChainVerification

unfoldable pub signature_check : Option Bool → EntryCheck
signature_check none = throws
signature_check (some true) = passes
signature_check (some false) = breaks bad_signature

-- The body of the loop, on the hash that the entry must name.
unfoldable pub check_entry : WebCrypto → Text → Text → AuditEntry → EntryCheck
check_entry web public_key expected entry =
    if not (text_eq entry.prev_hash expected)
    then breaks prev_hash_mismatch
    else signature_check (verify_entry web entry public_key)

-- What follows the check of the entry at index `i`.
unfoldable pub after_entry : ℕ → EntryCheck → AuditChainVerification → AuditChainVerification
after_entry i passes rest = rest
after_entry i (breaks reason) rest = broken_at i reason
after_entry i throws rest = thrown

-- The loop from index `i` on.
unfoldable pub check_from : WebCrypto → Text → Text → ℕ → List AuditEntry → AuditChainVerification
check_from web public_key expected i [] = ok
check_from web public_key expected i (entry ∷ entries) =
    after_entry i (check_entry web public_key expected entry)
      (check_from web public_key (audit_entry_hash web entry) (suc i) entries)

unfoldable pub verify_audit_chain : WebCrypto → List AuditEntry → Text → AuditChainVerification
verify_audit_chain web entries public_key = check_from web public_key audit_genesis_hash 0 entries
