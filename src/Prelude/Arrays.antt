-- ===== src/Prelude/Arrays.antt =====
-- Reading and writing arrays inside their bounds.
use mathlib.Core.List.{Perm, Permᴰ}
use mathlib.Core.Logic.{∥∥₁_elim}
use native.Mathlib.Nat.{ℕ_set}
use mathlib.Core.List.Perm
use Prim.Native.Nat.{ℕ, zero, suc, ◌≤◌, ◌<◌}
use mathlib.Core.Path.{◌≡◌, refl, ap, ◌∙◌}
use mathlib.Core.Option.{none, some}
use mathlib.Core.List.{List, [], ◌∷◌, ◌++◌}
use native.Mathlib.Omega.{arith}
use h3_protocol.Prelude.Tests.{◌==◌, if◌then◌else◌}
use h3_protocol.Prelude.Lists.{length, get_elem?, set}

module _ {ℓ} {A : Type ℓ} where
  -- `d` stands for what is out of bounds.
  unfoldable pub get_or : List A → ℕ → A → A
  get_or [] i d = d
  get_or (x ∷ xs) zero d = x
  get_or (x ∷ xs) (suc i) d = get_or xs i d

  -- `items.pop()` on a non-empty array: the other elements, and the removed one.
  unfoldable pub remove_last : A → List A → List A
  remove_last x [] = []
  remove_last x (y ∷ xs) = x ∷ remove_last y xs

  unfoldable pub last : A → List A → A
  last x [] = x
  last x (y ∷ xs) = last y xs

module _ {ℓ} {A : Type ℓ} (d : A) where
  pub get_elem?_in : (xs : List A) (i : ℕ) → i < length xs → get_elem? xs i ≡ some (get_or xs i d)
  unfolding get_or
  get_elem?_in [] i h = absurd (omega arith)
  get_elem?_in (x ∷ xs) zero h = refl
  get_elem?_in (x ∷ xs) (suc i) h = get_elem?_in xs i (omega arith)

  pub get_or-set :
      (xs : List A) (i j : ℕ) (v : A)
      → i < length xs
      → get_or (set xs i v) j d ≡ (if i == j then v else get_or xs j d)
  unfolding get_or
  get_or-set [] i j v h = absurd (omega arith)
  get_or-set (x ∷ xs) zero zero v h = refl
  get_or-set (x ∷ xs) zero (suc j) v h = ground arith
  get_or-set (x ∷ xs) (suc i) zero v h = ground arith
  get_or-set (x ∷ xs) (suc i) (suc j) v h = ground (arith, get_or-set xs i j v)

  pub get_or-append :
      (xs ys : List A) (i : ℕ) → i < length xs → get_or (xs ++ ys) i d ≡ get_or xs i d
  unfolding get_or
  get_or-append [] ys i h = absurd (omega arith)
  get_or-append (x ∷ xs) ys zero h = refl
  get_or-append (x ∷ xs) ys (suc i) h = get_or-append xs ys i (omega arith)

  pub get_or-remove_last :
      (x : A) (xs : List A) (i : ℕ)
      → i < length xs
      → get_or (remove_last x xs) i d ≡ get_or (x ∷ xs) i d
  unfolding get_or remove_last
  get_or-remove_last x [] i h = absurd (omega arith)
  get_or-remove_last x (y ∷ xs) zero h = refl
  get_or-remove_last x (y ∷ xs) (suc i) h = get_or-remove_last y xs i (omega arith)

  -- Writing trades the old element for the new one.
  pub set-perm :
      (xs : List A) (i : ℕ) (v : A) → i < length xs → Perm (get_or xs i d ∷ set xs i v) (v ∷ xs)
  unfolding get_or
  set-perm [] i v h = absurd (omega arith)
  set-perm (x ∷ xs) zero v h = Perm.swap v x xs
  set-perm (x ∷ xs) (suc i) v h =
      Perm.trans (Perm.swap x (get_or xs i d) (set xs i v))
        (Perm.trans (Perm.cons x (set-perm xs i v (omega arith))) (Perm.swap v x xs))

module _ {ℓ} {A : Type ℓ} where
  pub length-remove_last : (x : A) (xs : List A) → length (remove_last x xs) ≡ length xs
  unfolding remove_last
  length-remove_last x [] = refl
  length-remove_last x (y ∷ xs) = ap suc (length-remove_last y xs)

  pub last-remove_last-perm : (x : A) (xs : List A) → Perm (last x xs ∷ remove_last x xs) (x ∷ xs)
  unfolding remove_last last
  last-remove_last-perm x [] = Perm.refl (x ∷ [])
  last-remove_last-perm x (y ∷ xs) =
      Perm.trans (Perm.swap x (last y xs) (remove_last y xs))
        (Perm.cons x (last-remove_last-perm y xs))

  pub get_elem?_out : (xs : List A) (i : ℕ) → length xs ≤ i → get_elem? xs i ≡ none
  get_elem?_out [] i h = refl
  get_elem?_out (x ∷ xs) zero h = absurd (omega arith)
  get_elem?_out (x ∷ xs) (suc i) h = get_elem?_out xs i (omega arith)

module _ {ℓ} {A : Type ℓ} where
  pub concat-perm : (xs : List A) (x : A) → Perm (xs ++ x ∷ []) (x ∷ xs)
  concat-perm [] x = Perm.refl (x ∷ [])
  concat-perm (y ∷ xs) x = Perm.trans (Perm.cons y (concat-perm xs x)) (Perm.swap x y xs)

  length-Permᴰ : {xs ys : List A} → Permᴰ xs ys → length xs ≡ length ys
  length-Permᴰ (Permᴰ.trans first second) = length-Permᴰ first ∙ length-Permᴰ second
  length-Permᴰ (Permᴰ.swap x y) = refl
  length-Permᴰ (Permᴰ.cons x rest) = omega (arith, length-Permᴰ rest)
  length-Permᴰ Permᴰ.nil = refl

  -- Rearranged arrays have one length.
  pub length-perm : {xs ys : List A} → Perm xs ys → length xs ≡ length ys
  length-perm same = ∥∥₁_elim same (ℕ_set _ _) length-Permᴰ
