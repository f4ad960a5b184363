-- ===== src/Policy/Scope/Subset.antt =====
-- `pathGlobIsSubset`: where it is right, every path of the child is a path of the parent.
pub mod Escalation
use h3_protocol.Prelude.Lists.{All}
use h3_protocol.Prelude.Texts.{Text, text_eq, text_eq_iff}
use h3_protocol.Prelude.{
  ℕ, ◌≡◌, ◌≢◌, ◌⊎◌, inl, inr, refl, sym, ap, ◌∙◌, Bool, true, false, not, ◌&&◌, List, [], ◌∷◌, ◌++◌,
  arith, ◌==◌, Bool-cases, if◌then◌else◌,
}
use h3_protocol.Policy.Glob.{
  Atom, any, segment, literal, atom, compile, is_slash, is_line_end, matches, match_glob,
}
use h3_protocol.Policy.Glob.Laws.{
  Split, matches-Split, matches-join, matches-segment, matches-any, IsLocal, local_no_slash,
}
use h3_protocol.Policy.Scope.{
  star, globstar, split_slash, is_empty, segment_is_subset, segments_are_subset,
  path_glob_is_subset,
}
use h3_protocol.Policy.Scope.Segments.{
  compile_rest, compile_segments, compile_segments-split_slash, HasNoSlash, split_slash-HasNoSlash,
}

-- No two stars stand side by side.
abbrev pub HasNoGlobstar : Text → Type 0
HasNoGlobstar [] = Unit
HasNoGlobstar (c ∷ []) = Unit
HasNoGlobstar (c ∷ d ∷ s) = ((c == b'*' && d == b'*') ≡ false) × HasNoGlobstar (d ∷ s)

-- `**` is a whole segment or stands nowhere in it.
abbrev pub IsSimple : Text → Type 0
IsSimple seg = (seg ≡ globstar) ⊎ HasNoGlobstar seg

-- Only the last segment is `**`.
abbrev pub GlobstarLast : List Text → Type 0
GlobstarLast [] = Unit
GlobstarLast (s ∷ []) = Unit
GlobstarLast (s ∷ t ∷ r) = (s ≢ globstar) × GlobstarLast (t ∷ r)

abbrev pub IsOneLine : Text → Type 0
IsOneLine = All (λ d. is_line_end d ≡ false)

atom-IsLocal : (c : ℕ) → is_slash c ≡ false → IsLocal (atom c)
unfolding atom
atom-IsLocal c h = elim (Bool-cases (c == b'*')) [
  | inl s ↦ rw s tt
  | inr s ↦ rw s (elim (Bool-cases (c == b'?')) [ inl q ↦ rw q tt | inr q ↦ rw q h ])
]

compile-IsLocal : (seg : Text) → HasNoSlash seg → HasNoGlobstar seg → All IsLocal (compile seg)
unfolding compile
compile-IsLocal [] h g = tt
compile-IsLocal (c ∷ []) (hc, h) g = (atom-IsLocal c hc, tt)
compile-IsLocal (c ∷ d ∷ seg) (hc, h) (gc, g) =
    rw gc (atom-IsLocal c hc, compile-IsLocal (d ∷ seg) h g)

no_globstar : (seg : Text) → IsSimple seg → seg ≢ globstar → HasNoGlobstar seg
no_globstar seg (inl same) ne = absurd (ne same)
no_globstar seg (inr none) ne = none

wild_parent :
    (child parent : Text)
    → segment_is_subset child parent ≡ true
    → text_eq child parent ≡ false
    → (parent ≡ star) × (child ≢ globstar)
unfolding segment_is_subset
wild_parent child parent sub other =
    ground (arith, text_eq_iff parent star, text_eq_iff child globstar)

-- What one segment of the child matches, the parent's segment matches.
segment_sound :
    (child parent p : Text)
    → segment_is_subset child parent ≡ true
    → IsSimple child
    → HasNoSlash child
    → matches (compile child) p ≡ true
    → matches (compile parent) p ≡ true
unfolding segment_is_subset compile atom
segment_sound child parent p sub simple local m = elim (Bool-cases (text_eq child parent)) [
  | inl same ↦ let e : child ≡ parent = (text_eq_iff child parent).0 same in rw (← e) m
  | inr other ↦
      let (wild, ne) = wild_parent child parent sub other in
      let single = no_globstar child simple ne in
      rw wild (
        matches-segment p (local_no_slash (compile child) p (compile-IsLocal child local single) m))
]

back-IsOneLine : (a b : Text) → IsOneLine (a ++ b) → IsOneLine b
back-IsOneLine [] b h = h
back-IsOneLine (d ∷ a) b (_, h) = back-IsOneLine a b h

-- What the test of one pair of segments says when it is passed.
record Stepped (child parent : Text) (children parents : List Text) : Type 0 where
  here : segment_is_subset child parent ≡ true
  rest : segments_are_subset children parents ≡ true

stepped :
    (child parent : Text) (children parents : List Text)
    → segments_are_subset (child ∷ children) (parent ∷ parents) ≡ true
    → text_eq parent globstar ≡ false
    → Stepped child parent children parents
unfolding segments_are_subset
stepped child parent children parents h ordinary = ground arith

rest_IsGlobstarLast : (s : Text) (r : List Text) → GlobstarLast (s ∷ r) → GlobstarLast r
rest_IsGlobstarLast s [] h = tt
rest_IsGlobstarLast s (t ∷ r) (_, h) = h

-- The segments match whatever the child's do, where the later ones do.
step_sound :
    (child parent : Text) (children parents : List Text) (p : Text)
    → segment_is_subset child parent ≡ true
    → IsSimple child
    → HasNoSlash child
    → IsOneLine p
    → ((q : Text)
        → IsOneLine q
        → matches (compile_rest children) q ≡ true
        → matches (compile_rest parents) q ≡ true)
    → matches (compile_segments (child ∷ children)) p ≡ true
    → matches (compile_segments (parent ∷ parents)) p ≡ true
unfolding compile_segments
step_sound child parent children parents p sub simple local line later m =
    let r = matches-Split (compile child) (compile_rest children) p m in
    let line' : IsOneLine (r.front ++ r.back) = rw r.whole at line in
    rw r.whole (
      matches-join (compile parent) (compile_rest parents) r.front r.back
        (segment_sound child parent r.front sub simple local r.front_matches)
        (later r.back (back-IsOneLine r.front r.back line') r.back_matches))

slash_sound :
    (xs ys : List Atom) (p : Text)
    → IsOneLine p
    → ((q : Text) → IsOneLine q → matches xs q ≡ true → matches ys q ≡ true)
    → matches (literal b'/' ∷ xs) p ≡ true
    → matches (literal b'/' ∷ ys) p ≡ true
unfolding matches
slash_sound xs ys [] line f m = cc
slash_sound xs ys (d ∷ p) (_, line) f m = ground (arith, f p line)

-- A last `**` matches every path in one line.
globstar_sound :
    (q : Text) (qs : List Text) (p : Text)
    → GlobstarLast (q ∷ qs)
    → q ≡ globstar
    → IsOneLine p
    → matches (compile_segments (q ∷ qs)) p ≡ true
unfolding compile_segments compile_rest compile
globstar_sound q [] p g e line = rw e (matches-any p line)
globstar_sound q (t ∷ qs) p (ne, _) e line = absurd (ne e)

rest_sound :
    (children parents : List Text) (p : Text)
    → segments_are_subset children parents ≡ true
    → IsOneLine p
    → ((q : Text)
        → IsOneLine q
        → matches (compile_segments children) q ≡ true
        → matches (compile_segments parents) q ≡ true)
    → matches (compile_rest children) p ≡ true
    → matches (compile_rest parents) p ≡ true
unfolding segments_are_subset compile_rest compile_segments is_empty
rest_sound [] [] p h line f m = m
rest_sound (c ∷ cs) [] p h line f m = cc
rest_sound [] (q ∷ qs) p h line f m = cc
rest_sound (c ∷ cs) (q ∷ qs) p h line f m =
    slash_sound (compile c ++ compile_rest cs) (compile q ++ compile_rest qs) p line f m

segments_sound :
    (children parents : List Text) (p : Text)
    → segments_are_subset children parents ≡ true
    → GlobstarLast parents
    → All IsSimple children
    → All HasNoSlash children
    → IsOneLine p
    → matches (compile_segments children) p ≡ true
    → matches (compile_segments parents) p ≡ true
unfolding segments_are_subset is_empty
segments_sound [] [] p h g simple local line m = m
segments_sound (c ∷ cs) [] p h g simple local line m = cc
segments_sound [] (q ∷ qs) p h g simple local line m = cc
segments_sound (c ∷ cs) (q ∷ qs) p h g (simple, simples) (local, locals) line m =
    elim (Bool-cases (text_eq q globstar)) [
      | inl last ↦ globstar_sound q qs p g ((text_eq_iff q globstar).0 last) line
      | inr ordinary ↦
          let s = stepped c q cs qs h ordinary in
          step_sound c q cs qs p s.here simple local line
            (λ r line' m'.
              rest_sound cs qs r s.rest line'
                (λ t. segments_sound cs qs t s.rest (rest_IsGlobstarLast q qs g) simples locals) m')
            m
    ]

-- If the child's `**` are whole segments and the parent's only one is its last segment, a glob that
-- is taken for a subset matches no one-line path that the parent does not match.
pub path_glob_is_subset_sound :
    (child parent path : Text)
    → path_glob_is_subset child parent ≡ true
    → All IsSimple (split_slash child)
    → GlobstarLast (split_slash parent)
    → IsOneLine path
    → match_glob child path ≡ true
    → match_glob parent path ≡ true
unfolding path_glob_is_subset match_glob
path_glob_is_subset_sound child parent path sub simple last line m =
    rw (compile_segments-split_slash parent) at (
      segments_sound (split_slash child) (split_slash parent) path sub last simple
        (split_slash-HasNoSlash child) line (rw (← compile_segments-split_slash child) at m))
