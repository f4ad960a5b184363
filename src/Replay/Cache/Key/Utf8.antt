-- ===== src/Replay/Cache/Key/Utf8.antt =====
-- UTF-8 is a prefix code, so it is injective on texts.
use h3_protocol.Prelude.Lists.{All}
use h3_protocol.Prelude.Texts.{Text}
use h3_protocol.Prelude.{ℕ, ◌<◌, ◌≡◌, refl, List, [], ◌∷◌, ◌++◌, arith}
use h3_protocol.Replay.Cache.Key.{utf8}

-- A Unicode code point.
abbrev pub IsPoint : ℕ → Type 0
IsPoint c = c < 0x110000

utf8_prefix :
    (c d : ℕ) (xs ys : List ℕ)
    → IsPoint c
    → IsPoint d
    → utf8 c ++ xs ≡ utf8 d ++ ys
    → (c ≡ d) × (xs ≡ ys)
unfolding utf8
utf8_prefix c d xs ys hc hd e = ground arith

unfoldable pub utf8_all : Text → List ℕ
utf8_all [] = []
utf8_all (c ∷ s) = utf8 c ++ utf8_all s

pub utf8_all_injective :
    (s t : Text) → All IsPoint s → All IsPoint t → utf8_all s ≡ utf8_all t → s ≡ t
unfolding utf8_all utf8
utf8_all_injective [] [] hs ht e = refl
utf8_all_injective [] (d ∷ t) hs ht e = ground arith
utf8_all_injective (c ∷ s) [] hs ht e = ground arith
utf8_all_injective (c ∷ s) (d ∷ t) (hc, hs) (hd, ht) e =
    let (same, rest) = utf8_prefix c d (utf8_all s) (utf8_all t) hc hd e in
    cc (same, utf8_all_injective s t hs ht rest)

-- Every byte of UTF-8 is a byte, and of an ASCII character it is the character.
pub utf8-IsByte : (c : ℕ) → IsPoint c → All (λ b. b < 256) (utf8 c)
unfolding utf8
utf8-IsByte c h = ground arith
