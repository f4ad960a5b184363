-- ===== src/Replay/Cache/Key/Escape.antt =====
-- `encodeURIComponent` can be undone, and never produces the separator of `makeKey`.
use mathlib.Core.List.{append_assoc}
use h3_protocol.Prelude.Lists.{All, All-append}
use h3_protocol.Prelude.Texts.{Text}
use h3_protocol.Prelude.{
  ℕ, ◌+◌, ◌*◌, ◌-◌, ◌/◌, ◌%◌, ◌<◌, ◌≡◌, ◌≢◌, refl, sym, ap, ◌∙◌, inl, inr, true, false, List, [],
  ◌∷◌, ◌++◌, arith, ltb, ◌==◌, if◌then◌else◌, Bool-cases,
}
use h3_protocol.Replay.Cache.Key.{
  is_unreserved, hex_digit, percent, percent_all, utf8, encode_point, encode_uri_component,
}
use h3_protocol.Replay.Cache.Key.Utf8.{IsPoint, utf8_all, utf8_all_injective, utf8-IsByte}

-- A decoder, as a witness that nothing is lost: the state is what of an escape has been read.
data Pending : Type 0 where
  start escape : Pending
  high : ℕ → Pending

digit_value : ℕ → ℕ
digit_value h = if ltb h 58 then h - 48 else h - 55

unescape_from : Pending → Text → List ℕ
unescape_from p [] = []
unescape_from start (c ∷ s) =
    if c == b'%' then unescape_from escape s else c ∷ unescape_from start s
unescape_from escape (c ∷ s) = unescape_from (high (digit_value c)) s
unescape_from (high h) (c ∷ s) = (h * 16 + digit_value c) ∷ unescape_from start s

digit_value-hex_digit : (d : ℕ) → d < 16 → digit_value (hex_digit d) ≡ d
unfolding digit_value hex_digit
digit_value-hex_digit d h = ground arith

unescape-percent :
    (b : ℕ) (s : Text) → b < 256 → unescape_from start (percent b ++ s) ≡ b ∷ unescape_from start s
unfolding unescape_from percent
unescape-percent b s h =
    let high_half = digit_value-hex_digit (b / 16) (omega arith) in
    let low_half = digit_value-hex_digit (b % 16) (omega arith) in
    rw (high_half, low_half) (ap (λ n. n ∷ unescape_from start s) (omega arith))

unescape-percent_all :
    (bytes : List ℕ) (s : Text)
    → All (λ b. b < 256) bytes
    → unescape_from start (percent_all bytes ++ s) ≡ bytes ++ unescape_from start s
unfolding percent_all
unescape-percent_all [] s h = refl
unescape-percent_all (b ∷ bytes) s (hb, h) = rw (
  append_assoc (percent b) (percent_all bytes) s,
  unescape-percent b (percent_all bytes ++ s) hb,
  unescape-percent_all bytes s h,
)

-- A character that is left alone is ASCII, and neither the escape nor the separator.
unreserved_plain : (c : ℕ) → is_unreserved c ≡ true → (c < 128) × ((c == b'%') ≡ false) × (c ≢ b'|')
unfolding is_unreserved
unreserved_plain c h = ground arith

unescape-encode_point :
    (c : ℕ) (s : Text)
    → IsPoint c
    → unescape_from start (encode_point c ++ s) ≡ utf8 c ++ unescape_from start s
unfolding encode_point unescape_from
unescape-encode_point c s h = elim (Bool-cases (is_unreserved c)) [
  | inl plain ↦
      let (ascii, ordinary, _) = unreserved_plain c plain in
      rw (plain, ordinary) (unfold utf8 in ground arith)
  | inr other ↦ rw other (unescape-percent_all (utf8 c) s (utf8-IsByte c h))
]

unescape-encode_uri_component :
    (s : Text) → All IsPoint s → unescape_from start (encode_uri_component s) ≡ utf8_all s
unfolding encode_uri_component utf8_all unescape_from
unescape-encode_uri_component [] h = refl
unescape-encode_uri_component (c ∷ s) (hc, h) =
    unescape-encode_point c (encode_uri_component s) hc
    ∙ ap (λ t. utf8 c ++ t) (unescape-encode_uri_component s h)

-- Distinct texts have distinct encodings.
pub encode_uri_component-injective :
    (s t : Text)
    → All IsPoint s
    → All IsPoint t
    → encode_uri_component s ≡ encode_uri_component t
    → s ≡ t
encode_uri_component-injective s t hs ht e = utf8_all_injective s t hs ht (
    sym (unescape-encode_uri_component s hs)
    ∙ (ap (unescape_from start) e ∙ unescape-encode_uri_component t ht))

abbrev pub HasNoBar : Text → Type 0
HasNoBar = All (λ c. c ≢ b'|')

percent_all-HasNoBar : (bytes : List ℕ) → All (λ b. b < 256) bytes → HasNoBar (percent_all bytes)
unfolding percent_all percent hex_digit
percent_all-HasNoBar [] h = tt
percent_all-HasNoBar (b ∷ bytes) (hb, h) =
    (omega arith, (ground arith, (ground arith, percent_all-HasNoBar bytes h)))

-- The separator of `makeKey` never stands in an encoded field.
pub encode_uri_component-HasNoBar : (s : Text) → All IsPoint s → HasNoBar (encode_uri_component s)
unfolding encode_uri_component encode_point
encode_uri_component-HasNoBar [] h = tt
encode_uri_component-HasNoBar (c ∷ s) (hc, h) =
    let rest = encode_uri_component-HasNoBar s h in
    elim (Bool-cases (is_unreserved c)) [
      | inl plain ↦ rw plain ((unreserved_plain c plain).2, rest)
      | inr other ↦ rw other (
          All-append (λ x. x ≢ b'|') (percent_all (utf8 c)) (encode_uri_component s)
            (percent_all-HasNoBar (utf8 c) (utf8-IsByte c hc)) rest)
    ]
