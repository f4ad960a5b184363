-- ===== src/Stream/Accept.antt =====
-- What an accepted stream satisfies.
use mathlib.Core.List.{append-nil, append_assoc}
use mathlib.Core.Path.{subst}
use h3_protocol.Crypto.{WebCrypto, encode_text, from_base64_url}
use h3_protocol.Stream.{
  StreamChunk, StreamVerifierOpts, SignedStreamReader, Reason, ok, build_content_message,
  create_stream_verifier, max_chunks_of, receive_chunk, receive_all, check_signature, finalize,
  finish, verify_stream,
}
use h3_protocol.Prelude.Arrays.{last, remove_last}
use h3_protocol.Prelude.Lists.{length, length-append}
use h3_protocol.Prelude.Texts.{Text}
use h3_protocol.Prelude.{
  ℕ, suc, ◌+◌, ◌≤◌, ◌≡◌, ◌≢◌, refl, sym, ap, ◌∙◌, inl, inr, true, Option, none, some, List, [], ◌∷◌,
  ◌++◌, map, arith, Bool-cases, Option-cases,
}

-- The numbers and data of the chunks, which the signature covers.
abbrev pub contents : List StreamChunk → List (ℕ × Text)
contents = map (λ c. (c.i, c.d))

-- The chunks are numbered in order from the given number.
abbrev pub IsNumbered : ℕ → List StreamChunk → Type 0
IsNumbered n [] = Unit
IsNumbered n (c ∷ cs) = (c.i ≡ n) × IsNumbered (n + 1) cs

-- The bytes of the data in UTF-8.
abbrev pub byte_size : List StreamChunk → ℕ
byte_size [] = 0
byte_size (c ∷ cs) = length (encode_text c.d) + byte_size cs

-- What the reader holds after the chunks.
pub record Received (before after : SignedStreamReader) (cs : List StreamChunk) : Type 0 where
  pub numbered : IsNumbered before.expected_seq cs
  pub kept : after.accum ≡ before.accum ++ contents cs
  pub sized : after.total_bytes ≡ before.total_bytes + byte_size cs
  pub bounded :
      length before.accum ≤ max_chunks_of before.opts
      → length after.accum ≤ max_chunks_of before.opts
  pub same_opts : after.opts ≡ before.opts

-- A chunk that the reader takes is the next one, and there is room for it.
pub receive_chunk_takes :
    (reader : SignedStreamReader) (c : StreamChunk)
    → (receive_chunk reader c).1 ≡ none
    → (c.i ≡ reader.expected_seq)
      × (suc (length reader.accum) ≤ max_chunks_of reader.opts)
      × ((receive_chunk reader c).0 ≡ record reader {
        expected_seq = reader.expected_seq + 1;
        accum = reader.accum ++ (c.i, c.d) ∷ [];
        total_bytes = reader.total_bytes + length (encode_text c.d);
      })
unfolding receive_chunk
receive_chunk_takes reader c h = ground arith

-- The reader after a chunk that it takes.
abbrev pub taken : SignedStreamReader → StreamChunk → SignedStreamReader
taken reader c = record reader {
  expected_seq = reader.expected_seq + 1;
  accum = reader.accum ++ (c.i, c.d) ∷ [];
  total_bytes = reader.total_bytes + length (encode_text c.d);
}

receive_all_cons :
    (reader : SignedStreamReader) (c : StreamChunk) (cs : List StreamChunk)
    → (receive_all reader (c ∷ cs)).1 ≡ none
    → (c.i ≡ reader.expected_seq)
      × (suc (length reader.accum) ≤ max_chunks_of reader.opts)
      × (receive_all reader (c ∷ cs) ≡ receive_all (taken reader c) cs)
unfolding receive_all
receive_all_cons reader c cs h = elim (Option-cases (receive_chunk reader c).1) [
  | inr (reason, refused) ↦ ground (arith, refused)
  | inl took ↦
      let (number, room, next) = receive_chunk_takes reader c took in
      (number, room, ground (arith, took, next))
]

Received-cons :
    (before after : SignedStreamReader) (c : StreamChunk) (cs : List StreamChunk)
    → c.i ≡ before.expected_seq
    → suc (length before.accum) ≤ max_chunks_of before.opts
    → Received (taken before c) after cs
    → Received before after (c ∷ cs)
Received-cons before after c cs number room v = record {
  numbered = (number, v.numbered);
  kept = v.kept ∙ append_assoc before.accum ((c.i, c.d) ∷ []) (contents cs);
  sized = omega (arith, v.sized);
  bounded = λ _. v.bounded (omega (arith, length-append before.accum ((c.i, c.d) ∷ []), room));
  same_opts = v.same_opts;
}

receive_all-Received :
    (reader : SignedStreamReader) (cs : List StreamChunk)
    → (receive_all reader cs).1 ≡ none
    → Received reader (receive_all reader cs).0 cs
receive_all-Received reader [] h =
    unfold receive_all in
    record {
      numbered = tt;
      kept = sym (append-nil reader.accum);
      sized = omega arith;
      bounded = λ b. b;
      same_opts = refl;
    }
receive_all-Received reader (c ∷ cs) h =
    let (number, room, next) = receive_all_cons reader c cs h in
    rw next (
      Received-cons reader (receive_all (taken reader c) cs).0 c cs number room
        (receive_all-Received (taken reader c) cs (rw (← next) h)))

-- The signature is there, not empty, and verifies under the key for the contents.
abbrev pub IsSigned :
    (web : WebCrypto) → List (ℕ × Text) → Option Text → Option web.CryptoKey → Type 0
IsSigned web parts sig key =
    (s : Text) × (k : web.CryptoKey) × (s ≢ [])
    × (sig ≡ some s)
    × (key ≡ some k)
    × (web.verify k (from_base64_url web s) (web.sha256 (build_content_message parts)) ≡ true)

check_signature-ok :
    (web : WebCrypto) (reader : SignedStreamReader) (sig : Option Text) (key : Option web.CryptoKey)
    {bytes count : ℕ}
    → check_signature web reader sig key ≡ ok bytes count
    → IsSigned web reader.accum sig key
      × (bytes ≡ reader.total_bytes)
      × (count ≡ length reader.accum)
unfolding check_signature
check_signature-ok web reader none key h = ground arith
check_signature-ok web reader (some []) key h = ground arith
check_signature-ok web reader (some (u ∷ sig)) none h = ground arith
check_signature-ok web reader (some (u ∷ sig)) (some key) {bytes} {count} h =
    let digest = web.sha256 (build_content_message reader.accum) in
    elim (Bool-cases (web.verify key (from_base64_url web (u ∷ sig)) digest)) [
      | inr bad ↦ ground (arith, bad)
      | inl good ↦ (
        (u ∷ sig, key, ground arith, refl, refl, good),
        ground (arith, good),
        ground (arith, good),
      )
    ]

-- What a stream has that `verifyStream` accepts: its chunks but the last, and the last.
pub record Accepted (web : WebCrypto) (opts : StreamVerifierOpts) (front : List StreamChunk)
    (final : StreamChunk) (bytes count : ℕ) : Type 0 where
  pub numbered : IsNumbered 0 front
  pub counted : count ≡ length front
  pub sized : bytes ≡ byte_size front
  pub bounded : length front ≤ max_chunks_of opts
  pub is_final : final.f ≡ true
  pub signed :
      IsSigned web
        (contents front)
        final.sig
        (web.import_spki (from_base64_url web opts.public_key))

finish-ok :
    (web : WebCrypto) (reader : SignedStreamReader) (failure : Option (Reason × ℕ))
    (chunk : StreamChunk) {bytes count : ℕ}
    → finish web (reader, failure) chunk ≡ ok bytes count
    → (failure ≡ none)
      × (chunk.f ≡ true)
      × (check_signature web reader chunk.sig
            (web.import_spki (from_base64_url web reader.opts.public_key))
          ≡ ok bytes count)
unfolding finish finalize
finish-ok web reader (some (reason, i)) chunk h = ground arith
finish-ok web reader none chunk h = ground arith

length-contents : (cs : List StreamChunk) → length (contents cs) ≡ length cs
length-contents [] = refl
length-contents (c ∷ cs) = ap suc (length-contents cs)

-- A stream that verifyStream accepts ends with a final chunk, its other chunks are numbered from 0
-- without a gap and within the limit, the reported size and count are those of these chunks, and the
-- final chunk's signature verifies under the given public key for the numbers and data of all of them
-- in order.
pub verify_stream_accepts :
    (web : WebCrypto) (opts : StreamVerifierOpts) (c : StreamChunk) (cs : List StreamChunk)
    (bytes count : ℕ)
    → verify_stream web opts (c ∷ cs) ≡ ok bytes count
    → Accepted web opts (remove_last c cs) (last c cs) bytes count
unfolding verify_stream create_stream_verifier
verify_stream_accepts web opts c cs bytes count h =
    let front = remove_last c cs in
    let start = create_stream_verifier opts in
    let out = receive_all start front in
    let (none_failed, is_final, checked) = finish-ok web out.0 out.1 (last c cs) h in
    let v = receive_all-Received start front none_failed in
    let (signed, is_bytes, is_count) = check_signature-ok web out.0 (last c cs).sig _ checked in
    record {
      numbered = v.numbered;
      counted = is_count ∙ ap length v.kept ∙ length-contents front;
      sized = omega (arith, is_bytes, v.sized);
      bounded = rw (← length-contents front, ← v.kept) (v.bounded (omega arith));
      is_final = is_final;
      signed =
          subst
            (λ parts.
              IsSigned web parts (last c cs).sig
                (web.import_spki (from_base64_url web opts.public_key)))
            v.kept
            (subst
              (λ o.
                IsSigned web out.0.accum (last c cs).sig
                  (web.import_spki (from_base64_url web o.public_key)))
              v.same_opts signed);
    }
