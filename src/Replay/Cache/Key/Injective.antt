-- ===== src/Replay/Cache/Key/Injective.antt =====
-- `makeKey` keeps the three fields of a header apart.
use h3_protocol.Prelude.Lists.{All}
use h3_protocol.Prelude.Texts.{Text}
use h3_protocol.Prelude.{◌≡◌, refl, [], ◌∷◌, ◌++◌, arith}
use h3_protocol.Envelope.{ProtocolEnvelope}
use h3_protocol.Replay.Cache.Key.{encode_uri_component, make_key}
use h3_protocol.Replay.Cache.Key.Utf8.{IsPoint}
use h3_protocol.Replay.Cache.Key.Escape.{
  HasNoBar, encode_uri_component-injective, encode_uri_component-HasNoBar,
}

-- A separator that stands in neither prefix splits a text in one way.
split_at_bar :
    (a b r r' : Text)
    → HasNoBar a
    → HasNoBar b
    → a ++ b'|' ∷ r ≡ b ++ b'|' ∷ r'
    → (a ≡ b) × (r ≡ r')
split_at_bar [] [] r r' ha hb e = (refl, cc)
split_at_bar [] (y ∷ b) r r' ha (hy, hb) e = ground arith
split_at_bar (x ∷ a) [] r r' (hx, ha) hb e = ground arith
split_at_bar (x ∷ a) (y ∷ b) r r' (hx, ha) (hy, hb) e =
    let (same, rest) = split_at_bar a b r r' ha hb (cc) in (cc (same), rest)

-- The texts of a header are lists of code points.
pub record HasPoints (e : ProtocolEnvelope) : Type 0 where
  pub sender : All IsPoint e.header.sender
  pub message_id : All IsPoint e.header.message_id
  pub nonce : All IsPoint e.header.nonce

-- Two envelopes with one key agree on sender, message id and nonce.
pub make_key-injective :
    (e f : ProtocolEnvelope)
    → HasPoints e
    → HasPoints f
    → make_key e ≡ make_key f
    → (e.header.sender ≡ f.header.sender)
      × (e.header.message_id ≡ f.header.message_id)
      × (e.header.nonce ≡ f.header.nonce)
unfolding make_key
make_key-injective e f he hf same =
    let (senders, rest) =
      split_at_bar (encode_uri_component e.header.sender) (encode_uri_component f.header.sender) _ _
        (encode_uri_component-HasNoBar e.header.sender he.sender)
        (encode_uri_component-HasNoBar f.header.sender hf.sender) same in
    let (ids, nonces) =
      split_at_bar (encode_uri_component e.header.message_id)
        (encode_uri_component f.header.message_id) _ _
        (encode_uri_component-HasNoBar e.header.message_id he.message_id)
        (encode_uri_component-HasNoBar f.header.message_id hf.message_id) rest in
    (
      encode_uri_component-injective e.header.sender f.header.sender he.sender hf.sender senders,
      encode_uri_component-injective e.header.message_id f.header.message_id he.message_id
          hf.message_id ids,
      encode_uri_component-injective e.header.nonce f.header.nonce he.nonce hf.nonce nonces,
    )
