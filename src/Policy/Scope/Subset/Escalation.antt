-- ===== src/Policy/Scope/Subset/Escalation.antt =====
-- Where `pathGlobIsSubset` accepts a child that is wider than its parent: a `**` that is not the
-- parent's last segment, and stars side by side under the parent's `*`.
use mathlib.Core.List.{append-nil, append_assoc}
use h3_protocol.Prelude.Lists.{All, All-append}
use h3_protocol.Prelude.Texts.{Text, text_eq, text_eq_refl, text_eq_ne}
use h3_protocol.Prelude.{
  ℕ, ◌≡◌, ◌≢◌, inl, inr, refl, sym, ap, ◌∙◌, true, false, List, [], ◌∷◌, ◌++◌, arith, ◌==◌,
  Bool-cases,
}
use h3_protocol.Policy.Glob.{literal, atom, compile, is_slash, matches, match_glob}
use h3_protocol.Policy.Glob.Laws.{matches-any}
use h3_protocol.Policy.Scope.{
  star, globstar, split_slash, split_slash_from, segment_is_subset, segments_are_subset,
  path_glob_is_subset, is_empty,
}
use h3_protocol.Policy.Scope.Segments.{HasNoSlash}
use h3_protocol.Policy.Scope.Subset.{IsOneLine}

-- A text without wildcards.
abbrev pub IsPlain : Text → Type 0
IsPlain = All (λ c. (c ≢ b'*') × (c ≢ b'?'))

plain_atom : (c : ℕ) → c ≢ b'*' → c ≢ b'?' → atom c ≡ literal c
unfolding atom
plain_atom c s q = ground arith

compile-plain : (c : ℕ) (s : Text) → c ≢ b'*' → c ≢ b'?' → compile (c ∷ s) ≡ literal c ∷ compile s
unfolding compile
compile-plain c [] s q = rw (plain_atom c s q)
compile-plain c (d ∷ r) s q = ground (arith, plain_atom c s q)

-- A glob without wildcards matches itself.
pub match_glob_self : (p : Text) → IsPlain p → match_glob p p ≡ true
unfolding match_glob compile matches
match_glob_self [] h = refl
match_glob_self (c ∷ p) ((s, q), h) =
    rw (compile-plain c p s q) (ground (arith, match_glob_self p h))

-- `split` never returns an empty array.
split_from_cons :
    (seg glob : Text) → (s : Text) × (r : List Text) × (split_slash_from seg glob ≡ s ∷ r)
unfolding split_slash_from
split_from_cons seg [] = (seg, [], refl)
split_from_cons seg (c ∷ glob) = elim (Bool-cases (c == b'/')) [
  | inl slash ↦ (seg, split_slash_from [] glob, rw slash)
  | inr other ↦ let (s, r, e) = split_from_cons (seg ++ c ∷ []) glob in (s, r, rw other e)
]

-- Whoever holds the scope `**/suffix` can pass on every glob: what follows `**` is not looked at.
pub globstar_prefix_covers_all :
    (child suffix : Text) → path_glob_is_subset child (globstar ++ b'/' ∷ suffix) ≡ true
unfolding path_glob_is_subset split_slash split_slash_from segments_are_subset text_eq
globstar_prefix_covers_all child suffix = let (s, r, e) = split_from_cons [] child in rw e refl

-- So every path without wildcards can be passed on, also one that the parent does not match.
pub globstar_prefix_escalates :
    (suffix path : Text)
    → IsPlain path
    → match_glob (globstar ++ b'/' ∷ suffix) path ≡ false
    → (path_glob_is_subset path (globstar ++ b'/' ∷ suffix) ≡ true) × (match_glob path path ≡ true)
globstar_prefix_escalates suffix path plain outside =
    (globstar_prefix_covers_all path suffix, match_glob_self path plain)

split_from_slash_free : (seg s : Text) → HasNoSlash s → split_slash_from seg s ≡ (seg ++ s) ∷ []
unfolding split_slash_from is_slash
split_from_slash_free seg [] h = ap (λ t. t ∷ []) (sym (append-nil seg))
split_from_slash_free seg (c ∷ s) (hc, h) =
    rw hc
      (split_from_slash_free (seg ++ c ∷ []) s h ∙ ap (λ t. t ∷ []) (append_assoc seg (c ∷ []) s))

globstar_suffix_matches :
    (x r : Text) → IsPlain x → IsOneLine r → match_glob (x ++ globstar) (x ++ r) ≡ true
unfolding match_glob compile matches
globstar_suffix_matches [] r h line = matches-any r line
globstar_suffix_matches (c ∷ x) r ((s, q), h) line =
    rw (compile-plain c (x ++ globstar) s q) (ground (arith, globstar_suffix_matches x r h line))

star_stops_at_slash : (x r : Text) → match_glob star (x ++ b'/' ∷ r) ≡ false
unfolding match_glob compile atom matches is_slash
star_stops_at_slash [] r = refl
star_stops_at_slash (d ∷ x) r = ground (arith, star_stops_at_slash x r)

plain_ne_globstar : (c : ℕ) (x : Text) → c ≢ b'*' → text_eq (c ∷ x ++ globstar) globstar ≡ false
unfolding text_eq
plain_ne_globstar c x s = ground arith

star_takes_segment :
    (s : Text) → HasNoSlash s → text_eq s globstar ≡ false → path_glob_is_subset s star ≡ true
unfolding path_glob_is_subset split_slash segments_are_subset segment_is_subset is_empty is_slash
star_takes_segment s local ne =
    rw (split_from_slash_free [] s local, split_from_slash_free [] star (refl, tt))
      (ground (arith, text_eq_refl star, star_ne_globstar))
  where
    star_ne_globstar : text_eq star globstar ≡ false
    star_ne_globstar = text_eq_ne star globstar (λ e. ground arith)

globstar-HasNoSlash : (x : Text) → HasNoSlash x → HasNoSlash (x ++ globstar)
unfolding is_slash
globstar-HasNoSlash x h = All-append (λ c. is_slash c ≡ false) x globstar h (refl, (refl, tt))

-- Whoever holds the scope `*`, one segment, can pass on `x**`, which reaches below every `x/`.
pub stars_under_star_escalate :
    (c : ℕ) (x r : Text)
    → IsPlain (c ∷ x)
    → HasNoSlash (c ∷ x)
    → IsOneLine (b'/' ∷ r)
    → (path_glob_is_subset (c ∷ x ++ globstar) star ≡ true)
      × (match_glob (c ∷ x ++ globstar) (c ∷ x ++ b'/' ∷ r) ≡ true)
      × (match_glob star (c ∷ x ++ b'/' ∷ r) ≡ false)
stars_under_star_escalate c x r plain local line = (
  star_takes_segment (c ∷ x ++ globstar) (globstar-HasNoSlash (c ∷ x) local)
      (plain_ne_globstar c x plain.0.0),
  globstar_suffix_matches (c ∷ x) (b'/' ∷ r) plain line,
  star_stops_at_slash (c ∷ x) r,
)
