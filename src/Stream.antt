-- ===== src/Stream.antt =====
-- Streams of signed chunks, the reading side of src/stream.ts: the content that the signature covers,
-- `SignedStreamReader` and `verifyStream`. Texts are lists of code points. The cache of imported keys
-- only saves the second import of the same text.
pub mod Accept
pub mod Boundary
mod Tests
use h3_protocol.Prelude.Arrays.{last, remove_last}
use h3_protocol.Prelude.Lists.{length}
use h3_protocol.Prelude.Texts.{Text}
use h3_protocol.Prelude.{
  ℕ, zero, suc, ◌+◌, ◌-◌, ◌/◌, ◌%◌, Bool, true, false, Option, none, some, List, [], ◌∷◌, ◌++◌, map,
  not, ltb, leb, ◌==◌, if◌then◌else◌,
}
use h3_protocol.Crypto.{WebCrypto, Bytes, encode_text, from_base64_url}
use h3_protocol.Json.{decimal}

pub record StreamChunk : Type 0 where
  pub i : ℕ
  pub d : Text
  pub h : Text
  pub f : Bool
  pub sig : Option Text
  pub kid : Option Text

pub record StreamVerifierOpts : Type 0 where
  pub public_key : Text
  pub max_chunks : Option ℕ

pub data Reason : Type 0 where
  already_finalized : Reason
  exceeded_max_chunks : ℕ → Reason
  sequence_error : ℕ → ℕ → Reason
  missing_signature : Reason
  invalid_public_key : Reason
  signature_failed : Reason
  empty_array : Reason
  missing_final : Reason

pub data StreamVerifyResult : Type 0 where
  ok : ℕ → ℕ → StreamVerifyResult
  failed : Reason → Option ℕ → StreamVerifyResult

-- `${c.i}:${c.d}`
unfoldable pub content_part : ℕ × Text → Text
content_part (i, d) = decimal i ++ (b':' ∷ d)

-- `.join('\n')`, 10 being the line feed.
unfoldable pub join_parts : List (ℕ × Text) → Text
join_parts [] = []
join_parts (p ∷ []) = content_part p
join_parts (p ∷ q ∷ ps) = content_part p ++ (10 ∷ join_parts (q ∷ ps))

unfoldable pub build_content_message : List (ℕ × Text) → Bytes
build_content_message parts = encode_text (join_parts parts)

pub record SignedStreamReader : Type 0 where
  pub opts : StreamVerifierOpts
  pub expected_seq : ℕ
  pub accum : List (ℕ × Text)
  pub total_bytes : ℕ
  pub done : Bool

unfoldable pub create_stream_verifier : StreamVerifierOpts → SignedStreamReader
create_stream_verifier opts = record {
  opts = opts;
  expected_seq = 0;
  accum = [];
  total_bytes = 0;
  done = false;
}

-- `this.opts.maxChunks ?? 10_000`
unfoldable pub max_chunks_of : StreamVerifierOpts → ℕ
max_chunks_of opts = elim opts.max_chunks [ none ↦ 10_000 | some n ↦ n ]

-- `none` is `{ ok: true }`.
unfoldable pub receive_chunk : SignedStreamReader → StreamChunk → SignedStreamReader × Option Reason
receive_chunk reader chunk =
    let limit = max_chunks_of reader.opts in
    if reader.done
    then (reader, some already_finalized)
    else if leb limit (length reader.accum)
    then (reader, some (exceeded_max_chunks limit))
    else if not (chunk.i == reader.expected_seq)
    then (reader, some (sequence_error reader.expected_seq chunk.i))
    else (
      record reader {
        expected_seq = reader.expected_seq + 1;
        accum = reader.accum ++ (chunk.i, chunk.d) ∷ [];
        total_bytes = reader.total_bytes + length (encode_text chunk.d);
      },
      none,
    )

-- The part of `finalize` from the test of the signature on. An empty signature counts as missing.
unfoldable pub check_signature :
    (web : WebCrypto) → SignedStreamReader → Option Text → Option web.CryptoKey → StreamVerifyResult
check_signature web reader none key = failed missing_signature none
check_signature web reader (some []) key = failed missing_signature none
check_signature web reader (some (u ∷ sig)) none = failed invalid_public_key none
check_signature web reader (some (u ∷ sig)) (some key) =
    let digest = web.sha256 (build_content_message reader.accum) in
    if web.verify key (from_base64_url web (u ∷ sig)) digest
    then ok reader.total_bytes (length reader.accum)
    else failed signature_failed none

unfoldable pub finalize :
    WebCrypto → SignedStreamReader → StreamChunk → SignedStreamReader × StreamVerifyResult
finalize web reader chunk =
    let key = web.import_spki (from_base64_url web reader.opts.public_key) in
    if reader.done
    then (reader, failed already_finalized none)
    else (record reader { done = true }, check_signature web reader chunk.sig key)

-- The loop of `verifyStream`: the reader, and the first failure with the index of its chunk.
unfoldable pub receive_all :
    SignedStreamReader → List StreamChunk → SignedStreamReader × Option (Reason × ℕ)
receive_all reader [] = (reader, none)
receive_all reader (c ∷ cs) =
    let (reader', failure) = receive_chunk reader c in
    elim failure [ none ↦ receive_all reader' cs | some reason ↦ (reader', some (reason, c.i)) ]

-- The end of `verifyStream`, on the last chunk.
unfoldable pub finish :
    WebCrypto → SignedStreamReader × Option (Reason × ℕ) → StreamChunk → StreamVerifyResult
finish web (reader, some (reason, i)) chunk = failed reason (some i)
finish web (reader, none) chunk =
    let unfinished : StreamVerifyResult = elim (receive_chunk reader chunk).1 [
      | none ↦ failed missing_final none
      | some reason ↦ failed reason (some chunk.i)
    ] in
    if chunk.f then (finalize web reader chunk).1 else unfinished

unfoldable pub verify_stream :
    WebCrypto → StreamVerifierOpts → List StreamChunk → StreamVerifyResult
verify_stream web opts [] = failed empty_array none
verify_stream web opts (c ∷ cs) =
    finish web (receive_all (create_stream_verifier opts) (remove_last c cs)) (last c cs)
