-- ===== src/Policy/Scope.antt =====
-- The scopes of capability tokens: `pathGlobIsSubset` and its callers in src/capability.ts.
pub mod Segments
pub mod Subset
mod Tests
use h3_protocol.Prelude.Texts.{Text, codes, text_eq, includes}
use h3_protocol.Prelude.{
  ℕ, Bool, true, false, not, ◌&&◌, ◌||◌, Option, none, some, List, [], ◌∷◌, ◌++◌, ◌-◌, leb, ◌==◌,
  if◌then◌else◌,
}
use h3_protocol.Prelude.Int.{ℤ}
use h3_protocol.Policy.Glob.{match_glob}

pub record CapabilityScope : Type 0 where
  pub path_glob : Text
  pub methods : Option (List Text)
  pub max_delegations : Option ℤ

-- `glob.split('/')`: never empty.
unfoldable pub split_slash_from : Text → Text → List Text
split_slash_from seg [] = seg ∷ []
split_slash_from seg (c ∷ s) =
    let closed = seg ∷ split_slash_from [] s in
    let longer = split_slash_from (seg ++ c ∷ []) s in if c == b'/' then closed else longer

unfoldable pub split_slash : Text → List Text
split_slash glob = split_slash_from [] glob

abbrev pub star : Text
star = b'*' ∷ []

abbrev pub globstar : Text
globstar = b'*' ∷ b'*' ∷ []

unfoldable pub segment_is_subset : Text → Text → Bool
segment_is_subset child parent =
    if text_eq child parent
    then true
    else if text_eq parent star
    then not (text_eq child globstar)
    else false

unfoldable pub is_empty : List Text → Bool
is_empty [] = true
is_empty (_ ∷ _) = false

-- The loop over the parent's segments; the list is what `ci` has not passed of the child's.
unfoldable pub segments_are_subset : List Text → List Text → Bool
segments_are_subset children [] = is_empty children
segments_are_subset [] (parent ∷ parents) = false
segments_are_subset (child ∷ children) (parent ∷ parents) =
    let rest = segments_are_subset children parents in
    if text_eq parent globstar
    then true
    else if text_eq child globstar
    then false
    else if not (segment_is_subset child parent)
    then false
    else rest

unfoldable pub path_glob_is_subset : Text → Text → Bool
path_glob_is_subset child parent = segments_are_subset (split_slash child) (split_slash parent)

unfoldable pub all_included : List Text → List Text → Bool
all_included [] parents = true
all_included (m ∷ ms) parents = includes m parents && all_included ms parents

unfoldable pub methods_are_subset : Option (List Text) → Option (List Text) → Bool
methods_are_subset child none = true
methods_are_subset none (some parent) = false
methods_are_subset (some child) (some parent) = all_included child parent

unfoldable pub scope_is_subset : CapabilityScope → CapabilityScope → Bool
scope_is_subset child parent =
    path_glob_is_subset child.path_glob parent.path_glob
    && methods_are_subset child.methods parent.methods

-- `parentScopes.some((parent) => scopeIsSubset(child, parent))`
unfoldable pub is_covered : CapabilityScope → List CapabilityScope → Bool
is_covered child [] = false
is_covered child (parent ∷ parents) = scope_is_subset child parent || is_covered child parents

unfoldable pub scopes_are_subset : List CapabilityScope → List CapabilityScope → Bool
scopes_are_subset [] parents = true
scopes_are_subset (child ∷ children) parents =
    is_covered child parents && scopes_are_subset children parents

-- `String.prototype.toUpperCase` on ASCII letters; methods are ASCII tokens.
unfoldable pub to_upper : Text → Text
to_upper [] = []
to_upper (c ∷ s) = (if leb b'a' c && leb c b'z' then c - 32 else c) ∷ to_upper s

unfoldable pub method_allowed : Option (List Text) → Option Text → Bool
method_allowed none method = true
method_allowed (some allowed) none = false
method_allowed (some allowed) (some method) = includes (to_upper method) allowed

-- `tokenMatchesScope`, on the token's scopes.
unfoldable pub matches_scope : List CapabilityScope → Text → Option Text → Bool
matches_scope [] path method = false
matches_scope (scope ∷ scopes) path method =
    match_glob scope.path_glob path && method_allowed scope.methods method
    || matches_scope scopes path method
