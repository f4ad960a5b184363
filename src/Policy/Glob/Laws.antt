-- ===== src/Policy/Glob/Laws.antt =====
-- Matching a sequence of atoms: it splits and joins where the sequence does.
use h3_protocol.Prelude.Lists.{All}
use h3_protocol.Prelude.Texts.{Text}
use h3_protocol.Prelude.{
  ℕ, ◌≡◌, ◌⊎◌, inl, inr, refl, ap, Bool, true, false, not, ◌&&◌, ◌||◌, List, [], ◌∷◌, ◌++◌, arith,
}
use h3_protocol.Policy.Glob.{Atom, any, segment, one, literal, is_slash, is_line_end, matches}

-- A text that two sequences of atoms match one after the other.
pub record Split (xs ys : List Atom) (p : Text) : Type 0 where
  pub front : Text
  pub back : Text
  pub whole : p ≡ front ++ back
  pub front_matches : matches xs front ≡ true
  pub back_matches : matches ys back ≡ true

pub segment_skip :
    (ts : List Atom) (p : Text) → matches ts p ≡ true → matches (segment ∷ ts) p ≡ true
unfolding matches
segment_skip ts [] h = h
segment_skip ts (d ∷ s) h = ground arith

pub any_skip : (ts : List Atom) (p : Text) → matches ts p ≡ true → matches (any ∷ ts) p ≡ true
unfolding matches
any_skip ts [] h = h
any_skip ts (d ∷ s) h = ground arith

or-true : (a b : Bool) → (a || b) ≡ true → (a ≡ true) ⊎ (b ≡ true)
or-true a b h = ground arith

Split-skip :
    {xs zs ys : List Atom} {p : Text}
    → ((t : Text) → matches xs t ≡ true → matches zs t ≡ true)
    → Split xs ys p
    → Split zs ys p
Split-skip f r = record {
  front = r.front;
  back = r.back;
  whole = r.whole;
  front_matches = f r.front r.front_matches;
  back_matches = r.back_matches;
}

Split-step :
    {xs zs ys : List Atom} {s : Text} (d : ℕ) (r : Split xs ys s)
    → matches zs (d ∷ r.front) ≡ true
    → Split zs ys (d ∷ s)
Split-step d r h = record {
  front = d ∷ r.front;
  back = r.back;
  whole = ap (λ t. d ∷ t) r.whole;
  front_matches = h;
  back_matches = r.back_matches;
}

pub matches-Split : (xs ys : List Atom) (p : Text) → matches (xs ++ ys) p ≡ true → Split xs ys p
unfolding matches
matches-Split [] ys p h = record {
  front = [];
  back = p;
  whole = refl;
  front_matches = refl;
  back_matches = h;
}
matches-Split (literal c ∷ xs) ys [] h = cc
matches-Split (literal c ∷ xs) ys (d ∷ s) h =
    let r = matches-Split xs ys s (ground arith) in Split-step d r (ground (arith, r.front_matches))
matches-Split (one ∷ xs) ys [] h = cc
matches-Split (one ∷ xs) ys (d ∷ s) h =
    let r = matches-Split xs ys s (ground arith) in Split-step d r (ground (arith, r.front_matches))
matches-Split (segment ∷ xs) ys [] h = Split-skip (segment_skip xs) (matches-Split xs ys [] h)
matches-Split (segment ∷ xs) ys (d ∷ s) h =
    elim (or-true (matches (xs ++ ys) (d ∷ s)) (not (is_slash d) && matches (segment ∷ xs ++ ys) s)
      h) [
        | inl now ↦ Split-skip (segment_skip xs) (matches-Split xs ys (d ∷ s) now)
        | inr later ↦
            let r = matches-Split (segment ∷ xs) ys s (ground arith) in
            Split-step d r (ground (arith, r.front_matches))
      ]
matches-Split (any ∷ xs) ys [] h = Split-skip (any_skip xs) (matches-Split xs ys [] h)
matches-Split (any ∷ xs) ys (d ∷ s) h =
    elim (or-true (matches (xs ++ ys) (d ∷ s)) (not (is_line_end d) && matches (any ∷ xs ++ ys) s)
      h) [
        | inl now ↦ Split-skip (any_skip xs) (matches-Split xs ys (d ∷ s) now)
        | inr later ↦
            let r = matches-Split (any ∷ xs) ys s (ground arith) in
            Split-step d r (ground (arith, r.front_matches))
      ]

pub matches-join :
    (xs ys : List Atom) (a b : Text)
    → matches xs a ≡ true
    → matches ys b ≡ true
    → matches (xs ++ ys) (a ++ b) ≡ true
unfolding matches
matches-join [] ys [] b h k = k
matches-join [] ys (d ∷ a) b h k = cc
matches-join (literal c ∷ xs) ys [] b h k = cc
matches-join (literal c ∷ xs) ys (d ∷ a) b h k = ground (arith, matches-join xs ys a b)
matches-join (one ∷ xs) ys [] b h k = cc
matches-join (one ∷ xs) ys (d ∷ a) b h k = ground (arith, matches-join xs ys a b)
matches-join (segment ∷ xs) ys [] b h k = segment_skip (xs ++ ys) b (matches-join xs ys [] b h k)
matches-join (segment ∷ xs) ys (d ∷ a) b h k =
    ground (arith, matches-join xs ys (d ∷ a) b, matches-join (segment ∷ xs) ys a b)
matches-join (any ∷ xs) ys [] b h k = any_skip (xs ++ ys) b (matches-join xs ys [] b h k)
matches-join (any ∷ xs) ys (d ∷ a) b h k =
    ground (arith, matches-join xs ys (d ∷ a) b, matches-join (any ∷ xs) ys a b)

-- `[^/]*` matches every text without a slash, and `.*` every text without a line terminator.
pub matches-segment : (p : Text) → All (λ d. is_slash d ≡ false) p → matches (segment ∷ []) p ≡ true
unfolding matches
matches-segment [] h = refl
matches-segment (d ∷ p) (hd, h) = ground (arith, matches-segment p h)

pub matches-any : (p : Text) → All (λ d. is_line_end d ≡ false) p → matches (any ∷ []) p ≡ true
unfolding matches
matches-any [] h = refl
matches-any (d ∷ p) (hd, h) = ground (arith, matches-any p h)

-- Atoms that match no slash.
abbrev pub IsLocal : Atom → Type 0
IsLocal any = ⊥
IsLocal (literal c) = is_slash c ≡ false
IsLocal _ = Unit

pub local_no_slash :
    (ts : List Atom) (p : Text)
    → All IsLocal ts
    → matches ts p ≡ true
    → All (λ d. is_slash d ≡ false) p
unfolding matches
local_no_slash ts [] l h = tt
local_no_slash [] (d ∷ p) l h = cc
local_no_slash (literal c ∷ ts) (d ∷ p) (lc, l) h =
    (ground arith, local_no_slash ts p l (ground arith))
local_no_slash (one ∷ ts) (d ∷ p) (lc, l) h = (ground arith, local_no_slash ts p l (ground arith))
local_no_slash (segment ∷ ts) (d ∷ p) (lc, l) h =
    elim (or-true (matches ts (d ∷ p)) (not (is_slash d) && matches (segment ∷ ts) p) h) [
      | inl now ↦ local_no_slash ts (d ∷ p) l now
      | inr later ↦ (ground arith, local_no_slash (segment ∷ ts) p (lc, l) (ground arith))
    ]
local_no_slash (any ∷ ts) (d ∷ p) (lc, l) h = absurd lc
