-- ===== src/Replay/Heap/Down.antt =====
-- `bubbleDown` repairs a heap whose one entry may expire after its children.
use mathlib.Core.List.{Perm}
use mathlib.Core.List.Perm
use h3_protocol.Prelude.Int.{◌≤ℤ◌, ◌<ℤ◌}
use h3_protocol.Prelude.Lists.{length}
use h3_protocol.Prelude.{
  ℕ, zero, suc, ◌+◌, ◌-◌, ◌*◌, ◌≤◌, ◌<◌, ◌≡◌, ◌≢◌, ◌⊎◌, inl, inr, List, arith, Bool-cases, ◌==◌,
}
use h3_protocol.Replay.Heap.{ExpiryEntry, parent, smallest, bubble_down_loop, bubble_down}
use h3_protocol.Replay.Heap.Order.{
  IsHeap, expiry, swapped, length-swapped, swap-swapped, at-swapped, swapped-perm, earlier_at,
}

-- Only the edges below `i` may be out of order.
pub record DownInv (items : List ExpiryEntry) (i : ℕ) : Type 0 where
  pub inside : i < length items
  pub edges :
      (c : ℕ) → 0 < c → c < length items → parent c ≢ i → expiry items (parent c) ≤ℤ expiry items c
  pub bridged :
      (c : ℕ)
      → 0 < c
      → c < length items
      → parent c ≡ i
      → 0 < i
      → expiry items (parent i) ≤ℤ expiry items c

-- The round of `bubbleDown` at `i` picks `m`: `i` itself if no child expires before it, or the child
-- that expires first.
record Picked (items : List ExpiryEntry) (i m : ℕ) : Type 0 where
  within : m < length items
  place : (m ≡ i) ⊎ ((0 < m) × (parent m ≡ i) × (expiry items m <ℤ expiry items i))
  least : (c : ℕ) → 0 < c → c < length items → parent c ≡ i → expiry items m ≤ℤ expiry items c

smallest-Picked :
    (items : List ExpiryEntry) (i : ℕ) → i < length items → Picked items i (smallest items i)
unfolding smallest
smallest-Picked items i inside =
    let left = earlier_at items (i * 2 + 1) i inside in
    let right = earlier_at items (i * 2 + 2) i inside in
    let between = earlier_at items (i * 2 + 2) (i * 2 + 1) in
    record {
      within = ground (arith, left, right, between);
      place = ground (arith, left, right, between);
      least = λ c p q r. ground (arith, left, right, between);
    }

swapped-DownInv :
    (items : List ExpiryEntry) (i m : ℕ)
    → DownInv items i
    → Picked items i m
    → m ≢ i
    → DownInv (swapped items i m) m
swapped-DownInv items i m v s ne =
    let size = length-swapped items i m in
    let moved = at-swapped items i m v.inside s.within in
    record {
      inside = omega (arith, size, s.within);
      edges = λ c p q r.
          ground
            (arith, size, moved c, moved (parent c), v.edges c, v.bridged m, s.least c, s.place);
      bridged = λ c p q r t. ground (arith, size, moved c, moved (parent m), v.edges c, s.place);
    }

bubble_down_loop_restores :
    (fuel : ℕ) (items : List ExpiryEntry) (i : ℕ)
    → length items - i ≤ fuel
    → DownInv items i
    → IsHeap (bubble_down_loop fuel items i) × Perm (bubble_down_loop fuel items i) items
unfolding bubble_down_loop
bubble_down_loop_restores zero items i f v = absurd (omega (arith, v.inside))
bubble_down_loop_restores (suc fuel) items i f v =
    let s = smallest-Picked items i v.inside in
    elim (Bool-cases (smallest items i == i)) [
      | inl stop ↦ rw stop (λ c p q. ground (arith, v.edges c, s.least c), Perm.refl items)
      | inr go ↦
          let m = smallest items i in
          let (heap, same) =
            bubble_down_loop_restores fuel (swapped items i m) m
              (ground (arith, length-swapped items i m, s.place, s.within))
              (swapped-DownInv items i m v s (ground arith)) in
          rw (go, swap-swapped items i m v.inside s.within)
            (heap, Perm.trans same (swapped-perm items i m v.inside s.within))
    ]

-- `bubbleDown` turns an array with one entry too high in the tree into a heap of the same entries.
pub bubble_down_restores :
    (items : List ExpiryEntry) (i : ℕ)
    → DownInv items i
    → IsHeap (bubble_down items i) × Perm (bubble_down items i) items
unfolding bubble_down
bubble_down_restores items i v = bubble_down_loop_restores (length items) items i (omega arith) v
