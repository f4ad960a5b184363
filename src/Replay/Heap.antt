-- ===== src/Replay/Heap.antt =====
-- `ExpiryMinHeap` of src/protocolReplay.ts: a binary heap in an array, least expiry at the root.
-- A method that mutates `this.items` returns the new array.
pub mod Order
pub mod Up
pub mod Down
pub mod Laws
use h3_protocol.Prelude.Arrays.{remove_last, last}
use h3_protocol.Prelude.Int.{ℤ, ltb_ℤ, leb_ℤ}
use h3_protocol.Prelude.Lists.{length, get_elem?, set}
use h3_protocol.Prelude.Texts.{Text}
use h3_protocol.Prelude.{
  ℕ, zero, suc, ◌+◌, ◌-◌, ◌*◌, ◌/◌, Bool, false, not, ◌&&◌, Option, none, some, List, [], ◌∷◌, ◌++◌,
  ltb, ◌==◌, if◌then◌else◌,
}

pub record ExpiryEntry : Type 0 where
  pub key : Text
  pub expires_at : ℤ

abbrev pub parent : ℕ → ℕ
parent c = (c - 1) / 2

-- Exchanges two elements; `none` if one of them is undefined.
unfoldable pub swap : List ExpiryEntry → ℕ → ℕ → Option (List ExpiryEntry)
swap items i j = elim (get_elem? items i) [
  | none ↦ none
  | some x ↦ elim (get_elem? items j) [ none ↦ none | some y ↦ some (set (set items i y) j x) ]
]

-- Both defined, and the first expires strictly before the second.
unfoldable pub earlier : Option ExpiryEntry → Option ExpiryEntry → Bool
earlier (some a) (some b) = ltb_ℤ a.expires_at b.expires_at
earlier (some a) none = false
earlier none b = false

-- Both defined, and not `parentItem.expiresAt <= currentItem.expiresAt`.
unfoldable pub must_rise : Option ExpiryEntry → Option ExpiryEntry → Bool
must_rise (some p) (some c) = not (leb_ℤ p.expires_at c.expires_at)
must_rise (some p) none = false
must_rise none c = false

-- The loop of `bubbleUp`. The index falls each round, so the index is fuel enough; at 0 it stops.
unfoldable pub bubble_up_loop : ℕ → List ExpiryEntry → ℕ → List ExpiryEntry
bubble_up_loop zero items current = items
bubble_up_loop (suc fuel) items current =
    if ltb 0 current && must_rise (get_elem? items (parent current)) (get_elem? items current)
    then elim (swap items (parent current) current) [
      | none ↦ items
      | some items' ↦ bubble_up_loop fuel items' (parent current)
    ]
    else items

unfoldable pub bubble_up : List ExpiryEntry → ℕ → List ExpiryEntry
bubble_up items index = bubble_up_loop index items index

-- `smallest` after the two tests of one round of `bubbleDown`.
unfoldable pub smallest : List ExpiryEntry → ℕ → ℕ
smallest items current =
    let left = current * 2 + 1 in
    let right = current * 2 + 2 in
    let first =
      if earlier (get_elem? items left) (get_elem? items current) then left else current in
    if earlier (get_elem? items right) (get_elem? items first) then right else first

unfoldable pub bubble_down_loop : ℕ → List ExpiryEntry → ℕ → List ExpiryEntry
bubble_down_loop zero items current = items
bubble_down_loop (suc fuel) items current =
    let next = smallest items current in
    if next == current then items else elim (swap items current next) [
      | none ↦ items
      | some items' ↦ bubble_down_loop fuel items' next
    ]

-- The index grows each round and stays inside the array, so its length is fuel enough.
unfoldable pub bubble_down : List ExpiryEntry → ℕ → List ExpiryEntry
bubble_down items index = bubble_down_loop (length items) items index

unfoldable pub peek : List ExpiryEntry → Option ExpiryEntry
peek items = get_elem? items 0

unfoldable pub push : List ExpiryEntry → ExpiryEntry → List ExpiryEntry
push items entry = bubble_up (items ++ entry ∷ []) (length items)

-- `items.pop()` removes the last entry; it goes to the root unless it was the root itself.
unfoldable pub refill : ExpiryEntry → List ExpiryEntry → List ExpiryEntry
refill moved [] = []
refill moved (x ∷ items) = bubble_down (set (x ∷ items) 0 moved) 0

unfoldable pub pop : List ExpiryEntry → Option ExpiryEntry × List ExpiryEntry
pop [] = (none, [])
pop (first ∷ items) = (some first, refill (last first items) (remove_last first items))
