-- ===== src/Prelude/Map.antt =====
-- JavaScript's `Map<string, V>`: entries in insertion order; `set` on a present key keeps its place.
-- Meant to be used qualified: `Map.get`.
use Prim.Native.Nat.{ℕ, ◌+◌, ◌≤◌, ◌<◌}
use mathlib.Core.Path.{◌≡◌, refl}
use mathlib.Core.Option.{Option, none, some}
use mathlib.Core.List.{List, [], ◌∷◌}
use native.Mathlib.Omega.{arith}
use h3_protocol.Prelude.Tests.{if◌then◌else◌}
use h3_protocol.Prelude.Lists.{length}
use h3_protocol.Prelude.Texts.{Text, text_eq, text_eq_iff, text_eq_refl}

abbrev pub Map {ℓ} : Type ℓ → Type ℓ
Map V = List (Text × V)

module _ {ℓ} {V : Type ℓ} where
  -- `m.get(k)`, `undefined` as `none`
  unfoldable pub get : Text → Map V → Option V
  get k [] = none
  get k ((j, v) ∷ m) = if text_eq j k then some v else get k m

  -- `m.delete(k)`
  unfoldable pub delete : Text → Map V → Map V
  delete k [] = []
  delete k ((j, v) ∷ m) = let rest = delete k m in if text_eq j k then rest else (j, v) ∷ rest

  -- `m.set(k, v)`
  unfoldable pub set : Text → V → Map V → Map V
  set k v [] = (k, v) ∷ []
  set k v ((j, w) ∷ m) = let rest = set k v m in if text_eq j k then (k, v) ∷ m else (j, w) ∷ rest

  -- `m.size`
  abbrev pub size : Map V → ℕ
  size = length

  pub get-delete :
      (k j : Text) (m : Map V) → get j (delete k m) ≡ (if text_eq k j then none else get j m)
  unfolding get delete
  get-delete k j [] = ground arith
  get-delete k j ((i, v) ∷ m) =
      ground (arith, get-delete k j m, text_eq_iff i k, text_eq_iff i j, text_eq_iff k j)

  pub get-set :
      (k j : Text) (v : V) (m : Map V)
      → get j (set k v m) ≡ (if text_eq k j then some v else get j m)
  unfolding get set
  get-set k j v [] = refl
  get-set k j v ((i, w) ∷ m) =
      ground (arith, get-set k j v m, text_eq_iff i k, text_eq_iff i j, text_eq_iff k j)

  pub size-delete-le : (k : Text) (m : Map V) → size (delete k m) ≤ size m
  unfolding delete
  size-delete-le k [] = omega arith
  size-delete-le k ((i, v) ∷ m) = ground (arith, size-delete-le k m)

  -- Deleting a present key frees an entry.
  pub size-delete-lt :
      (k : Text) (m : Map V) {v : V} → get k m ≡ some v → size (delete k m) < size m
  unfolding get delete
  size-delete-lt k [] h = cc
  size-delete-lt k ((i, w) ∷ m) {v} h =
      ground (arith, size-delete-le k m, size-delete-lt k m {v = v})

  pub size-set-le : (k : Text) (v : V) (m : Map V) → size (set k v m) ≤ size m + 1
  unfolding set
  size-set-le k v [] = omega arith
  size-set-le k v ((i, w) ∷ m) = ground (arith, size-set-le k v m)

  pub get-head : (k : Text) (v : V) (m : Map V) → get k ((k, v) ∷ m) ≡ some v
  unfolding get
  get-head k v m = ground (arith, text_eq_refl k)

pub ruleset map_laws = (get-delete, get-set)
