-- ===== src/Policy/Scope/Segments.antt =====
-- A glob is compiled segment by segment.
use mathlib.Core.List.{append-nil, append_assoc}
use h3_protocol.Prelude.Lists.{All, All-append}
use h3_protocol.Prelude.Texts.{Text}
use h3_protocol.Prelude.{
  ◌≡◌, inl, inr, refl, sym, ap, ◌∙◌, false, ◌&&◌, List, [], ◌∷◌, ◌++◌, arith, ◌==◌, Bool-cases,
}
use h3_protocol.Policy.Glob.{Atom, any, literal, atom, compile, is_slash}
use h3_protocol.Policy.Scope.{split_slash_from, split_slash}

unfoldable pub compile_rest : List Text → List Atom
compile_rest [] = []
compile_rest (s ∷ r) = literal b'/' ∷ (compile s ++ compile_rest r)

unfoldable pub compile_segments : List Text → List Atom
compile_segments [] = []
compile_segments (s ∷ r) = compile s ++ compile_rest r

compile_slash : (rest : Text) → compile (b'/' ∷ rest) ≡ literal b'/' ∷ compile rest
unfolding compile atom
compile_slash [] = refl
compile_slash (c ∷ rest) = refl

compile-append_slash :
    (seg rest : Text) → compile (seg ++ b'/' ∷ rest) ≡ compile seg ++ literal b'/' ∷ compile rest
unfolding compile
compile-append_slash [] rest = compile_slash rest
compile-append_slash (c ∷ []) rest = ground (arith, compile_slash rest)
compile-append_slash (c ∷ d ∷ seg) rest = elim (Bool-cases (c == b'*' && d == b'*')) [
  | inl double ↦ rw double (ap (λ ts. any ∷ ts) (compile-append_slash seg rest))
  | inr single ↦ rw single (ap (λ ts. atom c ∷ ts) (compile-append_slash (d ∷ seg) rest))
]

compile_rest-split :
    (seg glob : Text)
    → compile_rest (split_slash_from seg glob)
      ≡ literal b'/' ∷ compile_segments (split_slash_from seg glob)
unfolding compile_rest compile_segments split_slash_from
compile_rest-split seg [] = refl
compile_rest-split seg (c ∷ glob) = elim (Bool-cases (c == b'/')) [
  | inl slash ↦ rw slash
  | inr other ↦ rw other (compile_rest-split (seg ++ c ∷ []) glob)
]

compile_segments-split_from :
    (seg glob : Text) → compile_segments (split_slash_from seg glob) ≡ compile (seg ++ glob)
unfolding compile_segments compile_rest split_slash_from
compile_segments-split_from seg [] = append-nil (compile seg) ∙ ap compile (sym (append-nil seg))
compile_segments-split_from seg (c ∷ glob) = elim (Bool-cases (c == b'/')) [
  | inl slash ↦
      let e : c ≡ b'/' = ground arith in
      rw (slash, e)
        (ap (λ ts. compile seg ++ ts)
            (compile_rest-split [] glob
              ∙ ap (λ ts. literal b'/' ∷ ts) (compile_segments-split_from [] glob))
          ∙ sym (compile-append_slash seg glob))
  | inr other ↦ rw other (
      compile_segments-split_from (seg ++ c ∷ []) glob
      ∙ ap compile (append_assoc seg (c ∷ []) glob))
]

-- The atoms of a glob are those of its segments, with a slash between.
pub compile_segments-split_slash :
    (glob : Text) → compile_segments (split_slash glob) ≡ compile glob
unfolding split_slash
compile_segments-split_slash glob = compile_segments-split_from [] glob

abbrev pub HasNoSlash : Text → Type 0
HasNoSlash = All (λ c. is_slash c ≡ false)

split_from-HasNoSlash :
    (seg glob : Text) → HasNoSlash seg → All HasNoSlash (split_slash_from seg glob)
unfolding split_slash_from is_slash
split_from-HasNoSlash seg [] h = (h, tt)
split_from-HasNoSlash seg (c ∷ glob) h = elim (Bool-cases (c == b'/')) [
  | inl slash ↦ rw slash (h, split_from-HasNoSlash [] glob tt)
  | inr other ↦ rw other (
      split_from-HasNoSlash (seg ++ c ∷ []) glob
        (All-append (λ x. is_slash x ≡ false) seg (c ∷ []) h (other, tt)))
]

pub split_slash-HasNoSlash : (glob : Text) → All HasNoSlash (split_slash glob)
unfolding split_slash
split_slash-HasNoSlash glob = split_from-HasNoSlash [] glob tt
