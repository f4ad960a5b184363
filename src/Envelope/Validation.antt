-- ===== src/Envelope/Validation.antt =====
-- What `validateEnvelope` guarantees of an envelope without error-level diagnostics.
use mathlib.Core.Path.{subst, subst₂}
use h3_protocol.Prelude.Int.{
  ℤ, pos, ◌+ℤ◌, ◌≤ℤ◌, ◌<ℤ◌, ltb_ℤ, leb_ℤ, +ℤ_parts, Number, finite, non_finite, add_number,
}
use h3_protocol.Prelude.Lists.{All}
use h3_protocol.Prelude.Texts.{Text, codes, text_eq, text_eq_iff}
use h3_protocol.Prelude.{◌≡◌, ◌≢◌, ◌+◌, refl, Bool, true, false, not, List, [], ◌∷◌, ◌++◌, arith}
use h3_protocol.Envelope.{
  ProtocolEnvelope, Level, Diagnostic, level, when, is_blank, max_ttl_ms, max_clock_skew_ms,
  validate_envelope, check_ttl, check_timestamp, check_future, check_expired, unsupported_version,
  missing_message_id, missing_sender, missing_nonce, ttl_not_positive, ttl_too_large,
  timestamp_in_future, ttl_expired,
}

-- No diagnostic is an error; warnings are allowed.
abbrev pub HasNoErrors : List Diagnostic → Type 0
HasNoErrors = All (λ d. level d ≢ Level.error)

split_errors : (xs ys : List Diagnostic) → HasNoErrors (xs ++ ys) → HasNoErrors xs × HasNoErrors ys
split_errors [] ys h = (tt, h)
split_errors (x ∷ xs) ys (hx, h) = let (a, b) = split_errors xs ys h in ((hx, a), b)

-- The fields of an accepted envelope, with its timestamp `t` and its lifetime `ttl`.
pub record Accepted (e : ProtocolEnvelope) (now t ttl : ℤ) : Type 0 where
  pub version : e.header.version ≡ codes "7h3/0.1"
  pub message_id : is_blank e.header.message_id ≡ false
  pub sender : is_blank e.header.sender ≡ false
  pub nonce : is_blank e.header.nonce ≡ false
  pub timestamp : e.header.timestamp_ms ≡ finite t
  pub lifetime : e.header.ttl_ms ≡ finite ttl
  pub positive : pos 0 <ℤ ttl
  pub short : ttl ≤ℤ pos max_ttl_ms
  pub not_ahead : t ≤ℤ now +ℤ pos max_clock_skew_ms
  pub not_expired : now ≤ℤ t +ℤ ttl

when_clear :
    (b : Bool) (d : Diagnostic) → level d ≡ Level.error → HasNoErrors (when b d) → b ≡ false
when_clear true d e (h, _) = absurd (h e)
when_clear false d e h = refl

timestamp_clear : (n : Number) → HasNoErrors (check_timestamp n) → (t : ℤ) × (n ≡ finite t)
unfolding check_timestamp level
timestamp_clear (finite t) h = (t, refl)
timestamp_clear non_finite (h, _) = absurd (h refl)

ttl_clear :
    (n : Number)
    → HasNoErrors (check_ttl n)
    → (ttl : ℤ) × (n ≡ finite ttl) × (pos 0 <ℤ ttl) × (ttl ≤ℤ pos max_ttl_ms)
unfolding check_ttl level
ttl_clear (finite ttl) h =
    let (a, b) = split_errors _ _ h in
    let low = when_clear (leb_ℤ ttl (pos 0)) ttl_not_positive refl a in
    let high = when_clear (ltb_ℤ (pos max_ttl_ms) ttl) ttl_too_large refl b in
    (ttl, refl, ground arith, ground arith)
ttl_clear non_finite (h, _) = absurd (h refl)

future_clear :
    (t now : ℤ) → HasNoErrors (check_future (finite t) now) → t ≤ℤ now +ℤ pos max_clock_skew_ms
unfolding check_future level
future_clear t now h =
    let clear = when_clear (ltb_ℤ (now +ℤ pos max_clock_skew_ms) t) timestamp_in_future refl h in
    ground arith

expired_clear :
    (t ttl now : ℤ) → HasNoErrors (check_expired (finite t) (finite ttl) now) → now ≤ℤ t +ℤ ttl
unfolding check_expired level
expired_clear t ttl now h =
    let clear = when_clear (ltb_ℤ (t +ℤ ttl) now) ttl_expired refl h in ground arith

same_of_clear : (v w : Text) → not (text_eq v w) ≡ false → v ≡ w
same_of_clear v w h = ground (arith, text_eq_iff v w)

-- An envelope without errors has all its fields, and its expiry lies between now and the largest
-- lifetime after the clock skew.
pub validate_envelope_accepts :
    (e : ProtocolEnvelope) (now : ℤ)
    → HasNoErrors (validate_envelope e now)
    → (t : ℤ) × (ttl : ℤ) × Accepted e now t ttl
unfolding validate_envelope level
validate_envelope_accepts e now h =
    let (h1, r1) = split_errors _ _ h in
    let (h2, r2) = split_errors _ _ r1 in
    let (h3, r3) = split_errors _ _ r2 in
    let (h4, r4) = split_errors _ _ r3 in
    let (h5, r5) = split_errors _ _ r4 in
    let (h6, r6) = split_errors _ _ r5 in
    let (h7, r7) = split_errors _ _ r6 in
    let (h8, _) = split_errors _ _ r7 in
    let (t, at_t) = timestamp_clear e.header.timestamp_ms h5 in
    let (ttl, at_ttl, positive, short) = ttl_clear e.header.ttl_ms h6 in
    (
      t,
      ttl,
      record {
        version =
            same_of_clear e.header.version (codes "7h3/0.1")
              (when_clear _ unsupported_version refl h1);
        message_id = when_clear _ missing_message_id refl h2;
        sender = when_clear _ missing_sender refl h3;
        nonce = when_clear _ missing_nonce refl h4;
        timestamp = at_t;
        lifetime = at_ttl;
        positive = positive;
        short = short;
        not_ahead = future_clear t now (subst (λ n. HasNoErrors (check_future n now)) at_t h7);
        not_expired =
            expired_clear t ttl now
              (subst₂ (λ n m. HasNoErrors (check_expired n m now)) at_t at_ttl h8);
      },
    )

-- So an accepted envelope can be tracked for replay, for a day and the clock skew at most.
pub accepted_expiry :
    (e : ProtocolEnvelope) (now : ℤ)
    → HasNoErrors (validate_envelope e now)
    → (z : ℤ) × (add_number e.header.timestamp_ms e.header.ttl_ms ≡ finite z)
      × (now ≤ℤ z)
      × (z ≤ℤ now +ℤ pos (max_clock_skew_ms + max_ttl_ms))
unfolding add_number
accepted_expiry e now h =
    let (t, ttl, a) = validate_envelope_accepts e now h in
    (
      t +ℤ ttl,
      rw (a.timestamp, a.lifetime),
      a.not_expired,
      omega (arith, +ℤ_parts, a.short, a.not_ahead, a.positive),
    )
