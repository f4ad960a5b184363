-- ===== src/Audit/Tamper.antt =====
-- What a verified chain detects, and what it does not.
use h3_protocol.Audit.{
  AuditEvent, AuditEntry, InMemoryAuditLog, passes, breaks, prev_hash_mismatch, ok, broken_at,
  audit_genesis_hash, audit_entry_hash, shift, make_place, append_entry, push_entry, set_tip,
  log_event, check_entry, after_entry, check_from, verify_audit_chain,
}
use h3_protocol.Audit.Logged.{check_from-cons, end_hash, Chained, log_event-Written}
use h3_protocol.Crypto.{WebCrypto, IsKeyPair}
use h3_protocol.Prelude.Int.{ℤ}
use h3_protocol.Prelude.Lists.{length}
use h3_protocol.Prelude.Texts.{Text, text_eq_iff}
use h3_protocol.Prelude.{
  ℕ, suc, ◌+◌, ◌≤◌, ◌≡◌, ◌≢◌, refl, sym, ap, ◌∙◌, some, List, [], ◌∷◌, ◌++◌, arith,
}

module _ (web : WebCrypto) (public_key : Text) where
  names_expected :
      (expected : Text) (entry : AuditEntry)
      → check_entry web public_key expected entry ≡ passes
      → entry.prev_hash ≡ expected
  unfolding check_entry
  names_expected expected entry h = ground (arith, h, text_eq_iff entry.prev_hash expected)

  pub other_breaks :
      (expected : Text) (entry : AuditEntry)
      → entry.prev_hash ≢ expected
      → check_entry web public_key expected entry ≡ breaks prev_hash_mismatch
  unfolding check_entry
  other_breaks expected entry differs =
      ground (arith, differs, text_eq_iff entry.prev_hash expected)

  removed_from :
      (expected : Text) (i : ℕ) (before : List AuditEntry) (removed next : AuditEntry)
      (rest : List AuditEntry)
      → check_from web public_key expected i (before ++ removed ∷ next ∷ rest) ≡ ok
      → audit_entry_hash web removed ≢ removed.prev_hash
      → check_from web public_key expected i (before ++ next ∷ rest)
        ≡ broken_at (i + length before) prev_hash_mismatch
  unfolding check_from after_entry
  removed_from expected i [] removed next rest h moved =
      let (own, later) =
        check_from-cons web public_key expected i (suc i) removed (next ∷ rest) h in
      let (second, _) =
        check_from-cons web public_key (audit_entry_hash web removed) (suc i) i next rest later in
      let named = names_expected expected removed own in
      let follows = names_expected (audit_entry_hash web removed) next second in
      let broken = other_breaks expected next (λ e. moved (sym follows ∙ (e ∙ sym named))) in
      ground (arith, broken)
  removed_from expected i (first ∷ before) removed next rest h moved =
      let (own, later) =
        check_from-cons web public_key expected i (suc i) first (before ++ removed ∷ next ∷ rest)
          h in
      ground (
        arith,
        own,
        removed_from (audit_entry_hash web first) (suc i) before removed next rest later moved,
      )

  -- Removing an entry that is not the last from a chain that verifies is found, at the place of the removed entry, where the hash
  -- of that entry is not the hash that it names itself.
  pub deletion_is_found :
      (before : List AuditEntry) (removed next : AuditEntry) (rest : List AuditEntry)
      → verify_audit_chain web (before ++ removed ∷ next ∷ rest) public_key ≡ ok
      → audit_entry_hash web removed ≢ removed.prev_hash
      → verify_audit_chain web (before ++ next ∷ rest) public_key
        ≡ broken_at (length before) prev_hash_mismatch
  unfolding verify_audit_chain
  deletion_is_found before removed next rest h moved =
      removed_from audit_genesis_hash 0 before removed next rest h moved
      ∙ ap (λ n. broken_at n prev_hash_mismatch) (omega arith)

  truncated_from :
      (expected : Text) (i : ℕ) (kept cut : List AuditEntry)
      → check_from web public_key expected i (kept ++ cut) ≡ ok
      → check_from web public_key expected i kept ≡ ok
  unfolding check_from after_entry
  truncated_from expected i [] cut h = refl
  truncated_from expected i (first ∷ kept) cut h =
      let (own, later) = check_from-cons web public_key expected i (suc i) first (kept ++ cut) h in
      ground (arith, own, truncated_from (audit_entry_hash web first) (suc i) kept cut later)

  first_breaks :
      (entry : AuditEntry) (rest : List AuditEntry)
      → entry.prev_hash ≢ audit_genesis_hash
      → verify_audit_chain web (entry ∷ rest) public_key ≡ broken_at 0 prev_hash_mismatch
  unfolding verify_audit_chain check_from after_entry
  first_breaks entry rest differs = ground (arith, other_breaks audit_genesis_hash entry differs)

  -- Whatever is cut off from the end of a chain that verifies, what is left verifies: a log that lost its latest entries is not
  -- told from a complete one.
  pub truncated_log_verifies :
      (kept cut : List AuditEntry)
      → verify_audit_chain web (kept ++ cut) public_key ≡ ok
      → verify_audit_chain web kept public_key ≡ ok
  unfolding verify_audit_chain
  truncated_log_verifies kept cut h = truncated_from audit_genesis_hash 0 kept cut h

  -- The entries that follow a first one that is gone.
  headless_breaks :
      (first entry : AuditEntry) (rest : List AuditEntry) (i : ℕ)
      → check_from web public_key (audit_entry_hash web first) i rest ≡ ok
      → entry.prev_hash ≡ end_hash web public_key (audit_entry_hash web first) rest
      → audit_entry_hash web first ≢ audit_genesis_hash
      → verify_audit_chain web (rest ++ entry ∷ []) public_key ≡ broken_at 0 prev_hash_mismatch
  headless_breaks first entry [] i h named moved =
      first_breaks entry [] (λ e. moved (sym named ∙ e))
  headless_breaks first entry (next ∷ rest) i h named moved =
      let (own, _) = check_from-cons web public_key (audit_entry_hash web first) i i next rest h in
      first_breaks next (rest ++ entry ∷ [])
        (λ e. moved (sym (names_expected (audit_entry_hash web first) next own) ∙ e))

  -- Once a log that verifies is full, the next call of `log` evicts the first entry and leaves entries that do not verify, where
  -- the hash of the evicted entry is not that of the start.
  pub evicted_log_breaks :
      (log after : InMemoryAuditLog) (first : AuditEntry) (rest : List AuditEntry)
      (event : AuditEvent) (now : ℤ) (random : Text)
      → IsKeyPair web log.private_key public_key
      → Chained web public_key log
      → log.entries ≡ first ∷ rest
      → log.max_entries ≤ length log.entries
      → audit_entry_hash web first ≢ audit_genesis_hash
      → log_event web log event now random ≡ some after
      → verify_audit_chain web after.entries public_key ≡ broken_at 0 prev_hash_mismatch
  unfolding append_entry push_entry set_tip make_place shift verify_audit_chain
  evicted_log_breaks log after first rest event now random pair chained own full moved h =
      let (entry, written) = log_event-Written web public_key log after event now random pair h in
      let left : after.entries ≡ rest ++ entry ∷ [] =
        ap (λ l. l.entries) written.result ∙ ground (arith, own, full) in
      let whole : verify_audit_chain web (first ∷ rest) public_key ≡ ok =
        rw (← own) chained.verified in
      let (_, later) = check_from-cons web public_key audit_genesis_hash 0 1 first rest whole in
      let tip : log.tip ≡ end_hash web public_key audit_genesis_hash (first ∷ rest) =
        chained.remembered ∙ ap (end_hash web public_key audit_genesis_hash) own in
      rw left (headless_breaks first entry rest 1 later (written.names_tip ∙ tip) moved)
