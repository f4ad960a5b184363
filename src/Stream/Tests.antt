-- ===== src/Stream/Tests.antt =====
-- A run of `verifyStream`, and its theorems at it, where hashing and base64 change nothing and a
-- signature is the text that it signs.
use h3_protocol.Crypto.Echo.{echo}
use h3_protocol.Crypto.{encode_text, base64_unit, padding, from_base64_url}
use h3_protocol.Json.{decimal_digits, decimal}
use h3_protocol.Stream.{
  StreamChunk, StreamVerifierOpts, ok, failed, missing_final, sequence_error, content_part,
  join_parts, build_content_message, create_stream_verifier, max_chunks_of, receive_chunk,
  receive_all, check_signature, finalize, finish, verify_stream,
}
use h3_protocol.Stream.Accept.{Accepted, verify_stream_accepts}
use h3_protocol.Stream.Boundary.{merged_stream_accepted}
use h3_protocol.Prelude.Arrays.{last, remove_last}
use h3_protocol.Prelude.Lists.{length}
use h3_protocol.Prelude.Texts.{codes, text_eq}
use h3_protocol.Prelude.{◌≡◌, refl, true, false, none, some, [], ◌∷◌, ◌++◌}
use h3_protocol.Replay.Cache.Key.{utf8}

abbrev opts : StreamVerifierOpts
opts = record { public_key = codes "key"; max_chunks = none }

abbrev first_chunk : StreamChunk
first_chunk = record { i = 0; d = codes "a"; h = []; f = false; sig = none; kid = none }

abbrev second_chunk : StreamChunk
second_chunk = record first_chunk { i = 1; d = codes "bc" }

abbrev merged_chunk : StreamChunk
merged_chunk = record first_chunk { d = codes "a" ++ (10 ∷ codes "1:bc") }

abbrev final_chunk : StreamChunk
final_chunk = record first_chunk {
  i = 2;
  d = [];
  f = true;
  sig = some (codes "0:a" ++ (10 ∷ codes "1:bc"));
}

two_accepted : verify_stream echo opts (first_chunk ∷ second_chunk ∷ final_chunk ∷ []) ≡ ok 3 2
unfolding verify_stream finish finalize receive_all receive_chunk create_stream_verifier
    max_chunks_of remove_last last check_signature build_content_message join_parts content_part
    decimal decimal_digits encode_text utf8 from_base64_url base64_unit padding text_eq
two_accepted = refl

swapped_refused :
    verify_stream echo opts (second_chunk ∷ first_chunk ∷ final_chunk ∷ [])
    ≡ failed (sequence_error 0 1) (some 1)
unfolding verify_stream finish receive_all receive_chunk create_stream_verifier max_chunks_of
    remove_last last
swapped_refused = refl

no_final : verify_stream echo opts (first_chunk ∷ []) ≡ failed missing_final none
unfolding verify_stream finish finalize receive_all receive_chunk create_stream_verifier
    max_chunks_of remove_last last
no_final = refl

verify_stream_accepts_example : Accepted echo opts (first_chunk ∷ second_chunk ∷ []) final_chunk 3 2
unfolding remove_last last
verify_stream_accepts_example =
    verify_stream_accepts echo opts first_chunk (second_chunk ∷ final_chunk ∷ []) 3 2 two_accepted

merged_stream_accepted_example :
    verify_stream echo opts (merged_chunk ∷ final_chunk ∷ [])
    ≡ ok (length (encode_text merged_chunk.d)) 1
unfolding content_part decimal decimal_digits
merged_stream_accepted_example =
    merged_stream_accepted echo opts first_chunk second_chunk merged_chunk final_chunk 3 2
      two_accepted refl refl
