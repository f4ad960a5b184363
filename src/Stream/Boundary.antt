-- ===== src/Stream/Boundary.antt =====
-- The signed content does not fix where a chunk ends: a line feed in the data reads like the separator.
use mathlib.Core.List.{append_assoc}
use h3_protocol.Crypto.{WebCrypto, encode_text, from_base64_url}
use h3_protocol.Json.{decimal}
use h3_protocol.Stream.{
  StreamChunk, StreamVerifierOpts, SignedStreamReader, ok, content_part, join_parts,
  build_content_message, create_stream_verifier, max_chunks_of, receive_chunk, receive_all,
  check_signature, finalize, finish, verify_stream,
}
use h3_protocol.Stream.Accept.{taken, contents, IsSigned, Accepted, verify_stream_accepts}
use h3_protocol.Prelude.Arrays.{last, remove_last}
use h3_protocol.Prelude.Lists.{length}
use h3_protocol.Prelude.Texts.{Text}
use h3_protocol.Prelude.{
  ℕ, ◌≤◌, ◌≡◌, refl, ap, ◌∙◌, true, false, Option, none, List, [], ◌∷◌, ◌++◌, arith,
}

-- The data of a chunk, a line feed, and the next chunk as the signed content shows it.
abbrev pub merged_data : Text → ℕ → Text → Text
merged_data a j b = a ++ (10 ∷ content_part (j, b))

-- Merging the last two parts leaves the signed content as it is.
join_parts-merged :
    (parts : List (ℕ × Text)) (i j : ℕ) (a b : Text)
    → join_parts (parts ++ (i, a) ∷ (j, b) ∷ []) ≡ join_parts (parts ++ (i, merged_data a j b) ∷ [])
unfolding join_parts content_part
join_parts-merged [] i j a b = append_assoc (decimal i) (b':' ∷ a) (10 ∷ (decimal j ++ (b':' ∷ b)))
join_parts-merged (p ∷ []) i j a b =
    ap (λ s. content_part p ++ (10 ∷ s)) (join_parts-merged [] i j a b)
join_parts-merged (p ∷ q ∷ parts) i j a b =
    ap (λ s. content_part p ++ (10 ∷ s)) (join_parts-merged (q ∷ parts) i j a b)

two_parts :
    (i j : ℕ) (a b : Text)
    → build_content_message ((i, a) ∷ (j, b) ∷ [])
      ≡ build_content_message ((i, merged_data a j b) ∷ [])
unfolding build_content_message
two_parts i j a b = ap encode_text (join_parts-merged [] i j a b)

check_signature-accepts :
    (web : WebCrypto) (reader : SignedStreamReader) (sig : Option Text) (key : Option web.CryptoKey)
    → IsSigned web reader.accum sig key
    → check_signature web reader sig key ≡ ok reader.total_bytes (length reader.accum)
unfolding check_signature
check_signature-accepts web reader sig key ([], k, filled, given, imported, valid) =
    elim (filled refl) [ ]
check_signature-accepts web reader sig key (u ∷ s, k, filled, given, imported, valid) =
    rw (given, imported) (rw valid refl)

receive_first :
    (opts : StreamVerifierOpts) (x : StreamChunk)
    → 1 ≤ max_chunks_of opts
    → x.i ≡ 0
    → receive_all (create_stream_verifier opts) (x ∷ [])
      ≡ (taken (create_stream_verifier opts) x, none)
unfolding receive_all receive_chunk create_stream_verifier
receive_first opts x room first = ground arith

finish_final :
    (web : WebCrypto) (reader : SignedStreamReader) (final : StreamChunk)
    → reader.done ≡ false
    → final.f ≡ true
    → finish web (reader, none) final
      ≡ check_signature web reader final.sig
          (web.import_spki (from_base64_url web reader.opts.public_key))
unfolding finish finalize
finish_final web reader final open_yet is_final = ground arith

-- Where verifyStream accepts a stream of two chunks, it also accepts the stream of one chunk, whose
-- data is that of the first, a line feed, and the number and data of the second: the signature does
-- not tell the two apart.
pub merged_stream_accepted :
    (web : WebCrypto) (opts : StreamVerifierOpts) (x y z final : StreamChunk) (bytes count : ℕ)
    → verify_stream web opts (x ∷ y ∷ final ∷ []) ≡ ok bytes count
    → z.i ≡ 0
    → z.d ≡ merged_data x.d y.i y.d
    → verify_stream web opts (z ∷ final ∷ []) ≡ ok (length (encode_text z.d)) 1
unfolding verify_stream remove_last last create_stream_verifier
merged_stream_accepted web opts x y z final bytes count h first same =
    let v : Accepted web opts (x ∷ y ∷ []) final bytes count =
      verify_stream_accepts web opts x (y ∷ final ∷ []) bytes count h in
    let reader = taken (create_stream_verifier opts) z in
    let (number, _) = v.numbered in
    let (s, k, filled, given, imported, valid) = v.signed in
    let content : build_content_message (contents (x ∷ y ∷ []))
        ≡ build_content_message (contents (z ∷ [])) =
      rw (first, same, number) (two_parts 0 y.i x.d y.d) in
    rw (receive_first opts z (omega (arith, v.bounded)) first) (
      finish_final web reader final refl v.is_final
      ∙ (check_signature-accepts web reader final.sig _
            (s, k, filled, given, imported, rw (← content) valid)
          ∙ ground arith))
