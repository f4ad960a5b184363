-- ===== src/Envelope/Tests.antt =====
-- `validateEnvelope` on one envelope.
use h3_protocol.Prelude.Int.{ℤ, pos, ◌+ℤ◌, finite}
use h3_protocol.Prelude.Texts.{codes, text_eq}
use h3_protocol.Prelude.{◌≡◌, refl, [], ◌∷◌, none, arith}
use h3_protocol.Envelope.{
  ProtocolEnvelope, task, level, empty_content, is_blank, is_space, validate_envelope,
}
use h3_protocol.Envelope.Validation.{HasNoErrors, Accepted, validate_envelope_accepts}

abbrev quiet : ProtocolEnvelope
quiet = record {
  header = record {
    version = codes "7h3/0.1";
    message_id = codes "m";
    timestamp_ms = finite (pos 1000);
    ttl_ms = finite (pos 60);
    sender = codes "a";
    recipient = none;
    nonce = codes "n";
  };
  body = record { intent = task; content = codes " "; capability = none; correlation_id = none };
  signature = none;
}

quiet_warned : validate_envelope quiet (pos 1010) ≡ empty_content ∷ []
unfolding validate_envelope text_eq is_blank is_space ◌+ℤ◌
quiet_warned = refl

quiet_clear : HasNoErrors (validate_envelope quiet (pos 1010))
unfolding level
quiet_clear = rw quiet_warned (ground arith)

validate_envelope_accepts_example : (t : ℤ) × (ttl : ℤ) × Accepted quiet (pos 1010) t ttl
validate_envelope_accepts_example = validate_envelope_accepts quiet (pos 1010) quiet_clear
