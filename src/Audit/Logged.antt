-- ===== src/Audit/Logged.antt =====
-- A log that was written by `log` verifies until it evicts.
use h3_protocol.Audit.{
  AuditEvent, AuditEntry, InMemoryAuditLog, AuditChainVerification, EntryCheck, passes, breaks,
  throws, ok, audit_genesis_hash, canonical_audit_payload, audit_entry_hash, create_audit_log,
  unsigned_entry, make_place, append_entry, push_entry, set_tip, begin_entry, sign_entry, log_event,
  verify_entry, signature_check, check_entry, after_entry, check_from, verify_audit_chain,
}
use h3_protocol.Crypto.{WebCrypto, IsKeyPair, sign_canonical_payload}
use h3_protocol.Prelude.Int.{ℤ}
use h3_protocol.Prelude.Lists.{length, length-append}
use h3_protocol.Prelude.Texts.{Text, text_eq_iff}
use h3_protocol.Prelude.{
  ℕ, suc, ◌+◌, ◌≤◌, ◌<◌, ◌≡◌, refl, sym, ◌∙◌, inl, inr, true, Option, some, List, [], ◌∷◌, ◌++◌,
  ◌>>=◌, arith, Option-cases,
}

after_entry-ok :
    (i : ℕ) (c : EntryCheck) (rest : AuditChainVerification)
    → after_entry i c rest ≡ ok
    → (c ≡ passes) × (rest ≡ ok)
unfolding after_entry
after_entry-ok i passes rest h = (refl, h)
after_entry-ok i (breaks reason) rest h = cc
after_entry-ok i throws rest h = cc

module _ (web : WebCrypto) (public_key : Text) where
  -- The hash that the next entry has to name.
  abbrev pub end_hash : Text → List AuditEntry → Text
  end_hash expected [] = expected
  end_hash expected (entry ∷ entries) = end_hash (audit_entry_hash web entry) entries

  -- The first entry passes, and so does the rest, from any index.
  pub check_from-cons :
      (expected : Text) (i j : ℕ) (entry : AuditEntry) (entries : List AuditEntry)
      → check_from web public_key expected i (entry ∷ entries) ≡ ok
      → (check_entry web public_key expected entry ≡ passes)
        × (check_from web public_key (audit_entry_hash web entry) j entries ≡ ok)
  unfolding check_from after_entry
  check_from-cons expected i j entry [] h = ((after_entry-ok i _ _ h).0, refl)
  check_from-cons expected i j entry (next ∷ entries) h =
      let (first, rest) = after_entry-ok i _ _ h in
      let (second, others) =
        check_from-cons (audit_entry_hash web entry) (suc i) (suc j) next entries rest in
      (first, rw (second, others) refl)

  pub check_from-append :
      (expected : Text) (i : ℕ) (entries : List AuditEntry) (entry : AuditEntry)
      → check_from web public_key expected i entries ≡ ok
      → check_entry web public_key (end_hash expected entries) entry ≡ passes
      → check_from web public_key expected i (entries ++ entry ∷ []) ≡ ok
  unfolding check_from after_entry
  check_from-append expected i [] entry h passing = ground (arith, passing)
  check_from-append expected i (first ∷ entries) entry h passing =
      let (own, rest) = check_from-cons expected i (suc i) first entries h in
      ground (
        arith,
        own,
        check_from-append (audit_entry_hash web first) (suc i) entries entry rest passing,
      )

  pub end_hash-append :
      (expected : Text) (entries : List AuditEntry) (entry : AuditEntry)
      → end_hash expected (entries ++ entry ∷ []) ≡ audit_entry_hash web entry
  end_hash-append expected [] entry = refl
  end_hash-append expected (first ∷ entries) entry =
      end_hash-append (audit_entry_hash web first) entries entry

  pub sign_entry-verifies :
      (unsigned entry : AuditEntry) (private_key : Text)
      → IsKeyPair web private_key public_key
      → sign_entry web unsigned private_key ≡ some entry
      → (verify_entry web entry public_key ≡ some true) × (entry.prev_hash ≡ unsigned.prev_hash)
  unfolding sign_entry verify_entry canonical_audit_payload
  sign_entry-verifies unsigned entry private_key pair h =
      elim (Option-cases
        (sign_canonical_payload web (canonical_audit_payload unsigned) private_key)) [
          | inl e ↦ ground (arith, h, e)
          | inr (s, e) ↦
              let same : record unsigned { entry_signature = s } ≡ entry = ground (arith, h, e) in
              rw (← same) (pair (canonical_audit_payload unsigned) s e, refl)
        ]

  -- The entries verify, and the log remembers the hash of the last one.
  pub record Chained (log : InMemoryAuditLog) : Type 0 where
    pub verified : verify_audit_chain web log.entries public_key ≡ ok
    pub remembered : log.tip ≡ end_hash audit_genesis_hash log.entries

  -- What a call of `log` makes.
  pub record Written (log : InMemoryAuditLog) (entry : AuditEntry) (after : InMemoryAuditLog)
      : Type 0 where
    pub signed : verify_entry web entry public_key ≡ some true
    pub names_tip : entry.prev_hash ≡ log.tip
    pub result : after ≡ append_entry web log entry

  pub log_event-Written :
      (log after : InMemoryAuditLog) (event : AuditEvent) (now : ℤ) (random : Text)
      → IsKeyPair web log.private_key public_key
      → log_event web log event now random ≡ some after
      → (entry : AuditEntry) × Written log entry after
  unfolding log_event begin_entry unsigned_entry
  log_event-Written log after event now random pair h =
      elim (Option-cases (sign_entry web (unsigned_entry log event now random) log.private_key)) [
        | inl e ↦ ground (arith, h, e)
        | inr (entry, e) ↦
            let (signed, own) =
              sign_entry-verifies (unsigned_entry log event now random) entry log.private_key pair
                e in
            (entry, record { signed = signed; names_tip = own; result = ground (arith, h, e) })
      ]

  pub entry_passes :
      (expected : Text) (entry : AuditEntry)
      → verify_entry web entry public_key ≡ some true
      → entry.prev_hash ≡ expected
      → check_entry web public_key expected entry ≡ passes
  unfolding check_entry signature_check
  entry_passes expected entry signed own =
      ground (arith, signed, text_eq_iff entry.prev_hash expected)

  log_event-Chained :
      (log after : InMemoryAuditLog) (event : AuditEvent) (now : ℤ) (random : Text)
      → IsKeyPair web log.private_key public_key
      → Chained log
      → length log.entries < log.max_entries
      → log_event web log event now random ≡ some after
      → Chained after
        × (after.private_key ≡ log.private_key)
        × (after.max_entries ≡ log.max_entries)
        × (length after.entries ≡ suc (length log.entries))
  unfolding verify_audit_chain append_entry push_entry set_tip make_place
  log_event-Chained log after event now random pair chained room h =
      let (entry, written) = log_event-Written log after event now random pair h in
      let kept : make_place log.max_entries log.entries ≡ log.entries = ground arith in
      let passing =
        entry_passes (end_hash audit_genesis_hash log.entries) entry written.signed
          (written.names_tip ∙ chained.remembered) in
      rw (written.result, kept)
        (
          record {
            verified =
                check_from-append audit_genesis_hash 0 log.entries entry chained.verified passing;
            remembered = sym (end_hash-append audit_genesis_hash log.entries entry);
          },
          refl,
          refl,
          omega (arith, length-append log.entries (entry ∷ [])),
        )

-- A call of `log`.
pub record Event : Type 0 where
  pub event : AuditEvent
  pub now : ℤ
  pub random : Text

-- Calls of `log`, each of which ends before the next one begins; `none` where one throws.
unfoldable pub log_all : WebCrypto → InMemoryAuditLog → List Event → Option InMemoryAuditLog
log_all web log [] = some log
log_all web log (e ∷ events) =
    log_event web log e.event e.now e.random >>= λ after. log_all web after events

module _ (web : WebCrypto) (public_key : Text) where
  log_all-Chained :
      (log after : InMemoryAuditLog) (events : List Event)
      → IsKeyPair web log.private_key public_key
      → Chained web public_key log
      → length log.entries + length events ≤ log.max_entries
      → log_all web log events ≡ some after
      → Chained web public_key after × (length after.entries ≡ length log.entries + length events)
  unfolding log_all ◌>>=◌
  log_all-Chained log after [] pair chained room h =
      let same : log ≡ after = cc in rw (← same) (chained, omega arith)
  log_all-Chained log after (e ∷ events) pair chained room h =
      elim (Option-cases (log_event web log e.event e.now e.random)) [
        | inl failed ↦ ground (arith, h, failed)
        | inr (next, made) ↦
            let (again, key, limit, size) =
              log_event-Chained web public_key log next e.event e.now e.random pair chained
                (omega arith) made in
            let (end, total) =
              log_all-Chained next after events (rw key pair) again (omega (arith, limit, size))
                (ground (arith, h, made)) in
            (end, omega (arith, total, size))
      ]

  -- A log that starts empty and writes at most as many events as it can hold, each call of log having ended before the next one
  -- begins, verifies from end to end with the public key of its key pair, and holds one entry for each event.
  pub logged_chain_verifies :
      (private_key : Text) (max_entries : ℕ) (events : List Event) (after : InMemoryAuditLog)
      → IsKeyPair web private_key public_key
      → length events ≤ max_entries
      → log_all web (create_audit_log private_key max_entries) events ≡ some after
      → (verify_audit_chain web after.entries public_key ≡ ok)
        × (length after.entries ≡ length events)
  unfolding create_audit_log verify_audit_chain check_from
  logged_chain_verifies private_key max_entries events after pair room h =
      let (chained, size) =
        log_all-Chained (create_audit_log private_key max_entries) after events pair
          (record { verified = refl; remembered = refl }) (omega arith) h in
      (chained.verified, omega (arith, size))
