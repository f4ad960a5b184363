-- ===== src/Envelope.antt =====
-- The envelope of src/protocol.ts: its data and its structural validation.
-- Texts are lists of Unicode code points; a missing field is an empty text or a non-finite number,
-- as the `typeof` tests of `validateEnvelope` make of it.
pub mod Validation
mod Tests
use h3_protocol.Prelude.Int.{ℤ, pos, ◌+ℤ◌, ltb_ℤ, leb_ℤ, Number, finite, non_finite}
use h3_protocol.Prelude.Texts.{Text, codes, text_eq}
use h3_protocol.Prelude.{
  ℕ, Bool, true, not, ◌&&◌, ◌||◌, Option, List, [], ◌∷◌, ◌++◌, leb, ◌==◌, if◌then◌else◌,
}

pub data IntentKind : Type 0 where
  ping pong caps task result error encrypted : IntentKind

pub record ProtocolHeader : Type 0 where
  pub version : Text
  pub message_id : Text
  pub timestamp_ms : Number
  pub ttl_ms : Number
  pub sender : Text
  pub recipient : Option Text
  pub nonce : Text

pub record ProtocolBody : Type 0 where
  pub intent : IntentKind
  pub content : Text
  pub capability : Option Text
  pub correlation_id : Option Text

pub data Alg : Type 0 where
  hs256 ed25519 : Alg

pub record ProtocolSignature : Type 0 where
  pub alg : Alg
  pub key_id : Text
  pub value : Text

pub record ProtocolEnvelope : Type 0 where
  pub header : ProtocolHeader
  pub body : ProtocolBody
  pub signature : Option ProtocolSignature

abbrev pub max_ttl_ms : ℕ
max_ttl_ms = 86_400_000

abbrev pub max_clock_skew_ms : ℕ
max_clock_skew_ms = 30_000

-- One constructor for each message that `validateEnvelope` pushes.
pub data Diagnostic : Type 0 where
  unsupported_version missing_message_id missing_sender missing_nonce : Diagnostic
  timestamp_not_finite ttl_not_finite ttl_not_positive ttl_too_large : Diagnostic
  timestamp_in_future ttl_expired empty_content : Diagnostic

pub data Level : Type 0 where
  error warning : Level

unfoldable pub level : Diagnostic → Level
level empty_content = Level.warning
level _ = Level.error

-- White space and line terminators, which `String.prototype.trim` removes.
unfoldable pub is_space : ℕ → Bool
is_space c =
    leb 9 c && leb c 13
    || c == 32
    || c == 160
    || c == 0x1680
    || leb 0x2000 c && leb c 0x200a
    || c == 0x2028
    || c == 0x2029
    || c == 0x202f
    || c == 0x205f
    || c == 0x3000
    || c == 0xfeff

-- `!text.trim()`
unfoldable pub is_blank : Text → Bool
is_blank [] = true
is_blank (c ∷ s) = is_space c && is_blank s

abbrev pub when : Bool → Diagnostic → List Diagnostic
when b d = if b then d ∷ [] else []

pub check_ttl : Number → List Diagnostic
check_ttl (finite ttl) =
    when (leb_ℤ ttl (pos 0)) ttl_not_positive ++ when (ltb_ℤ (pos max_ttl_ms) ttl) ttl_too_large
check_ttl non_finite = ttl_not_finite ∷ []

pub check_timestamp : Number → List Diagnostic
check_timestamp (finite t) = []
check_timestamp non_finite = timestamp_not_finite ∷ []

pub check_future : Number → ℤ → List Diagnostic
check_future (finite t) now = when (ltb_ℤ (now +ℤ pos max_clock_skew_ms) t) timestamp_in_future
check_future non_finite now = []

pub check_expired : Number → Number → ℤ → List Diagnostic
check_expired (finite t) (finite ttl) now = when (ltb_ℤ (t +ℤ ttl) now) ttl_expired
check_expired _ _ now = []

unfoldable pub validate_envelope : ProtocolEnvelope → ℤ → List Diagnostic
unfolding check_ttl check_timestamp check_future check_expired
validate_envelope envelope now =
    let h = envelope.header in
    when (not (text_eq h.version (codes "7h3/0.1"))) unsupported_version
    ++ (when (is_blank h.message_id) missing_message_id
        ++ (when (is_blank h.sender) missing_sender
            ++ (when (is_blank h.nonce) missing_nonce
                ++ (check_timestamp h.timestamp_ms
                    ++ (check_ttl h.ttl_ms
                        ++ (check_future h.timestamp_ms now
                            ++ (check_expired h.timestamp_ms h.ttl_ms now
                                ++ when (is_blank envelope.body.content) empty_content)))))))
