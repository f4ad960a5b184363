-- ===== src/Replay/Heap/Up.antt =====
-- `bubbleUp` repairs a heap whose one entry may expire before its parent.
use mathlib.Core.List.{Perm}
use mathlib.Core.List.Perm
use h3_protocol.Prelude.Int.{◌≤ℤ◌, ◌<ℤ◌}
use h3_protocol.Prelude.Lists.{length, get_elem?}
use h3_protocol.Prelude.{
  ℕ, zero, suc, ◌≤◌, ◌<◌, ◌≡◌, ◌≢◌, inl, inr, List, Bool, true, false, ltb, arith, Bool-cases, ◌&&◌,
}
use h3_protocol.Replay.Heap.{ExpiryEntry, parent, must_rise, bubble_up_loop, bubble_up}
use h3_protocol.Replay.Heap.Order.{
  IsHeap, expiry, swapped, length-swapped, swap-swapped, at-swapped, swapped-perm, must_rise_in,
}

-- Only the edge above `i` may be out of order.
pub record UpInv (items : List ExpiryEntry) (i : ℕ) : Type 0 where
  pub inside : i < length items
  pub edges : (c : ℕ) → 0 < c → c < length items → c ≢ i → expiry items (parent c) ≤ℤ expiry items c
  pub bridged :
      (c : ℕ)
      → 0 < c
      → c < length items
      → parent c ≡ i
      → 0 < i
      → expiry items (parent i) ≤ℤ expiry items c

swapped-UpInv :
    (items : List ExpiryEntry) (i : ℕ)
    → UpInv items i
    → 0 < i
    → expiry items i <ℤ expiry items (parent i)
    → UpInv (swapped items (parent i) i) (parent i)
swapped-UpInv items i v positive below =
    let size = length-swapped items (parent i) i in
    let moved = at-swapped items (parent i) i (omega arith) v.inside in
    record {
      inside = omega (arith, size, v.inside);
      edges = λ c p q r.
          ground (arith, size, moved c, moved (parent c), v.edges c, v.bridged c, v.inside);
      bridged = λ c p q r t. ground (
        arith,
        size,
        moved c,
        moved (parent (parent i)),
        v.edges c,
        v.edges (parent i),
        v.inside,
      );
    }

abbrev climbs : List ExpiryEntry → ℕ → Bool
climbs items i = ltb 0 i && must_rise (get_elem? items (parent i)) (get_elem? items i)

climbs-true :
    (items : List ExpiryEntry) (i : ℕ)
    → i < length items
    → climbs items i ≡ true
    → (0 < i) × (expiry items i <ℤ expiry items (parent i))
climbs-true items i inside go =
    ground (arith, must_rise_in items (parent i) i (omega (arith, inside)) inside)

climbs-false :
    (items : List ExpiryEntry) (i : ℕ)
    → i < length items
    → climbs items i ≡ false
    → 0 < i
    → expiry items (parent i) ≤ℤ expiry items i
climbs-false items i inside stop positive =
    ground (arith, must_rise_in items (parent i) i (omega (arith, inside)) inside)

bubble_up_loop_restores :
    (fuel : ℕ) (items : List ExpiryEntry) (i : ℕ)
    → i ≤ fuel
    → UpInv items i
    → IsHeap (bubble_up_loop fuel items i) × Perm (bubble_up_loop fuel items i) items
unfolding bubble_up_loop
bubble_up_loop_restores zero items i f v = (λ c p q. v.edges c p q (omega arith), Perm.refl items)
bubble_up_loop_restores (suc fuel) items i f v = elim (Bool-cases (climbs items i)) [
  | inl go ↦
      let above : parent i < length items = omega (arith, v.inside) in
      let (positive, below) = climbs-true items i v.inside go in
      let (heap, same) =
        bubble_up_loop_restores fuel (swapped items (parent i) i) (parent i) (omega arith)
          (swapped-UpInv items i v positive below) in
      rw (go, swap-swapped items (parent i) i above v.inside)
        (heap, Perm.trans same (swapped-perm items (parent i) i above v.inside))
  | inr stop ↦
      rw stop
        (λ c p q. ground (arith, v.edges c, climbs-false items i v.inside stop), Perm.refl items)
]

-- `bubbleUp` turns an array with one entry too low in the tree into a heap of the same entries.
pub bubble_up_restores :
    (items : List ExpiryEntry) (i : ℕ)
    → UpInv items i
    → IsHeap (bubble_up items i) × Perm (bubble_up items i) items
unfolding bubble_up
bubble_up_restores items i v = bubble_up_loop_restores i items i (omega arith) v
