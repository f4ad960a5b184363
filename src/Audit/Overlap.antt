-- ===== src/Audit/Overlap.antt =====
-- Two calls of `log` that overlap: `log` suspends between reading `this.tip` and pushing its entry.
use h3_protocol.Audit.{
  AuditEntry, InMemoryAuditLog, passes, breaks, AuditFailure, prev_hash_mismatch, ok, broken_at,
  audit_genesis_hash, audit_entry_hash, unsigned_entry, make_place, push_entry, set_tip,
  append_entry, begin_entry, check_entry, after_entry, check_from, verify_audit_chain,
}
use h3_protocol.Audit.Logged.{
  Event, check_from-cons, check_from-append, end_hash, end_hash-append, sign_entry-verifies,
  Chained, entry_passes,
}
use h3_protocol.Audit.Tamper.{other_breaks}
use h3_protocol.Crypto.{WebCrypto, IsKeyPair}
use h3_protocol.Prelude.Lists.{length, length-append}
use h3_protocol.Prelude.Texts.{Text}
use h3_protocol.Prelude.{
  ℕ, suc, ◌+◌, ◌≤◌, ◌≡◌, ◌≢◌, sym, ap, ◌∙◌, Option, some, List, [], ◌∷◌, ◌++◌, ◌>>=◌, arith,
}

-- The second call begins while the first one waits for its signature. Each pushes its entry and then sets the tip.
unfoldable pub log_overlapped :
    WebCrypto → InMemoryAuditLog → Event → Event → Option InMemoryAuditLog
log_overlapped web log a b = begin_entry web log a.event a.now a.random >>= λ first.
    begin_entry web log b.event b.now b.random >>= λ second.
    some (append_entry web (append_entry web log first) second)

module _ (web : WebCrypto) (public_key : Text) where
  check_from-append-breaks :
      (expected : Text) (i : ℕ) (entries : List AuditEntry) (entry : AuditEntry)
      (reason : AuditFailure)
      → check_from web public_key expected i entries ≡ ok
      → check_entry web public_key (end_hash web public_key expected entries) entry ≡ breaks reason
      → check_from web public_key expected i (entries ++ entry ∷ [])
        ≡ broken_at (i + length entries) reason
  unfolding check_from after_entry
  check_from-append-breaks expected i [] entry reason h broken = ground (arith, broken)
  check_from-append-breaks expected i (first ∷ entries) entry reason h broken =
      let (own, rest) = check_from-cons web public_key expected i (suc i) first entries h in
      ground (
        arith,
        own,
        check_from-append-breaks (audit_entry_hash web first) (suc i) entries entry reason rest
            broken,
      )

  begin_entry-verifies :
      (log : InMemoryAuditLog) (e : Event) (entry : AuditEntry)
      → IsKeyPair web log.private_key public_key
      → begin_entry web log e.event e.now e.random ≡ some entry
      → (check_entry web public_key log.tip entry ≡ passes) × (entry.prev_hash ≡ log.tip)
  unfolding begin_entry unsigned_entry
  begin_entry-verifies log e entry pair h =
      let (signed, own) =
        sign_entry-verifies web public_key (unsigned_entry log e.event e.now e.random) entry
          log.private_key pair h in
      (entry_passes web public_key log.tip entry signed own, own)

  -- Two calls of log that overlap, on a log that verifies and has room for both, leave entries that do not verify: the second
  -- entry names the hash before the first one, where the first entry's own hash is another.
  pub overlapping_calls_break :
      (log after : InMemoryAuditLog) (a b : Event) (first second : AuditEntry)
      → IsKeyPair web log.private_key public_key
      → Chained web public_key log
      → length log.entries + 2 ≤ log.max_entries
      → begin_entry web log a.event a.now a.random ≡ some first
      → begin_entry web log b.event b.now b.random ≡ some second
      → audit_entry_hash web first ≢ log.tip
      → log_overlapped web log a b ≡ some after
      → verify_audit_chain web after.entries public_key
        ≡ broken_at (suc (length log.entries)) prev_hash_mismatch
  unfolding verify_audit_chain log_overlapped append_entry push_entry set_tip make_place ◌>>=◌
  overlapping_calls_break log after a b first second pair chained room begun begun' moved h =
      let (passing, _) = begin_entry-verifies log a first pair begun in
      let (_, stale) = begin_entry-verifies log b second pair begun' in
      let held = log.entries ++ first ∷ [] in
      let size = length-append log.entries (first ∷ []) in
      let result : append_entry web (append_entry web log first) second ≡ after =
        ground (arith, h, begun, begun') in
      let left : after.entries ≡ held ++ second ∷ [] =
        sym (ap (λ l. l.entries) result) ∙ ground (arith, room, size) in
      let whole =
        check_from-append web public_key audit_genesis_hash 0 log.entries first chained.verified
          (ap (λ t. check_entry web public_key t first) (sym chained.remembered) ∙ passing) in
      let last = end_hash-append web public_key audit_genesis_hash log.entries first in
      let broken =
        other_breaks web public_key (end_hash web public_key audit_genesis_hash held) second
          (λ e. moved (sym last ∙ (sym e ∙ stale))) in
      rw left (
        check_from-append-breaks audit_genesis_hash 0 held second prev_hash_mismatch whole broken
        ∙ ap (λ n. broken_at n prev_hash_mismatch) (omega (arith, size)))
