-- ===== src/Policy/Glob.antt =====
-- `matchGlob` of src/routePolicy.ts. Texts are UTF-16 code units, as the regular expression has no
-- `u` flag. The pattern is compiled to the atoms of the regular expression that the source builds.
pub mod Laws
use h3_protocol.Prelude.Texts.{Text}
use h3_protocol.Prelude.{ℕ, Bool, true, false, not, ◌&&◌, ◌||◌, List, [], ◌∷◌, ◌==◌, if◌then◌else◌}

-- `.*`, `[^/]*`, `[^/]` and one escaped or ordinary character.
pub data Atom : Type 0 where
  any segment one : Atom
  literal : ℕ → Atom

unfoldable pub atom : ℕ → Atom
atom c = if c == b'*' then segment else if c == b'?' then one else literal c

-- The loop of `matchGlob` over the pattern, which reads two stars before one.
unfoldable pub compile : Text → List Atom
compile [] = []
compile (c ∷ []) = atom c ∷ []
compile (c ∷ d ∷ rest) =
    let double = any ∷ compile rest in
    let single = atom c ∷ compile (d ∷ rest) in if c == b'*' && d == b'*' then double else single

-- `.` matches any character but a line terminator.
unfoldable pub is_line_end : ℕ → Bool
is_line_end c = c == 10 || c == 13 || c == 0x2028 || c == 0x2029

unfoldable pub is_slash : ℕ → Bool
is_slash c = c == b'/'

-- `new RegExp('^…$').test(path)`
unfoldable pub matches : List Atom → Text → Bool
matches [] [] = true
matches [] (d ∷ s) = false
matches (literal c ∷ ts) [] = false
matches (literal c ∷ ts) (d ∷ s) = c == d && matches ts s
matches (one ∷ ts) [] = false
matches (one ∷ ts) (d ∷ s) = not (is_slash d) && matches ts s
matches (segment ∷ ts) [] = matches ts []
matches (segment ∷ ts) (d ∷ s) = matches ts (d ∷ s) || not (is_slash d) && matches (segment ∷ ts) s
matches (any ∷ ts) [] = matches ts []
matches (any ∷ ts) (d ∷ s) = matches ts (d ∷ s) || not (is_line_end d) && matches (any ∷ ts) s

unfoldable pub match_glob : Text → Text → Bool
match_glob pattern path = matches (compile pattern) path
