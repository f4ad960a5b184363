-- ===== src/Policy/Route/Choice.antt =====
-- Which policy governs a path.
use h3_protocol.Policy.Glob.{match_glob}
use h3_protocol.Policy.Route.{RoutePolicy, match_policy}
use h3_protocol.Prelude.Lists.{All}
use h3_protocol.Prelude.Texts.{Text}
use h3_protocol.Prelude.{
  ◌≡◌, refl, ap, inl, inr, true, false, Option, none, some, List, [], ◌∷◌, ◌++◌, Bool-cases,
}

-- No policy before the chosen one matches, and the chosen one does; or none matches.
abbrev pub IsFirst : List RoutePolicy → Text → Option RoutePolicy → Type 0
IsFirst policies path none = All (λ p. match_glob p.path path ≡ false) policies
IsFirst policies path (some q) =
    (before : List RoutePolicy) × (after : List RoutePolicy) × (policies ≡ before ++ q ∷ after)
    × (match_glob q.path path ≡ true)
    × All (λ p. match_glob p.path path ≡ false) before

IsFirst-cons :
    (p : RoutePolicy) (policies : List RoutePolicy) (path : Text) (chosen : Option RoutePolicy)
    → match_glob p.path path ≡ false
    → IsFirst policies path chosen
    → IsFirst (p ∷ policies) path chosen
IsFirst-cons p policies path none h v = (h, v)
IsFirst-cons p policies path (some q) h (before, after, split, matched, unmatched) =
    (p ∷ before, after, ap (λ ps. p ∷ ps) split, matched, (h, unmatched))

-- matchPolicy returns the first policy in the list whose glob matches the path, and null only when
-- none matches.
pub match_policy-IsFirst :
    (policies : List RoutePolicy) (path : Text) → IsFirst policies path (match_policy policies path)
unfolding match_policy
match_policy-IsFirst [] path = tt
match_policy-IsFirst (p ∷ policies) path = elim (Bool-cases (match_glob p.path path)) [
  | inl h ↦ rw h ([], policies, refl, h, tt)
  | inr h ↦ rw h (IsFirst-cons p policies path _ h (match_policy-IsFirst policies path))
]
