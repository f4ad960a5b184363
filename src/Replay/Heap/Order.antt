-- ===== src/Replay/Heap/Order.antt =====
-- The heap order of `ExpiryMinHeap`, and what a swap does to the array.
use mathlib.Core.List.{Perm}
use mathlib.Core.List.Perm
use native.Mathlib.Decide.{dec_lt}
use h3_protocol.Prelude.Arrays.{get_or, get_elem?_in, get_elem?_out, get_or-set, set-perm}
use h3_protocol.Prelude.Int.{ℤ, ◌≤ℤ◌, pos, leb_ℤ, ltb_ℤ}
use h3_protocol.Prelude.Lists.{length, get_elem?, set, length-set}
use h3_protocol.Prelude.{
  ℕ, zero, suc, ◌<◌, ◌≡◌, List, [], some, not, ◌&&◌, arith, ltb, ◌==◌, if◌then◌else◌,
}
use h3_protocol.Replay.Heap.{ExpiryEntry, parent, swap, earlier, must_rise}

abbrev pub absent : ExpiryEntry
absent = record { key = []; expires_at = pos 0 }

abbrev pub at : List ExpiryEntry → ℕ → ExpiryEntry
at items i = get_or items i absent

abbrev pub expiry : List ExpiryEntry → ℕ → ℤ
expiry items i = (at items i).expires_at

-- No entry expires before its parent.
abbrev pub IsHeap : List ExpiryEntry → Type 0
IsHeap items = (c : ℕ) → 0 < c → c < length items → expiry items (parent c) ≤ℤ expiry items c

pub swapped : List ExpiryEntry → ℕ → ℕ → List ExpiryEntry
swapped items i j = set (set items i (at items j)) j (at items i)

module _ (items : List ExpiryEntry) (i j : ℕ) where
  pub length-swapped : length (swapped items i j) ≡ length items
  unfolding swapped
  length-swapped = simp length-set

  module _ (hi : i < length items) (hj : j < length items) where
    pub swap-swapped : swap items i j ≡ some (swapped items i j)
    unfolding swap swapped
    swap-swapped = ground (arith, get_elem?_in absent items i hi, get_elem?_in absent items j hj)

    pub at-swapped :
        (c : ℕ)
        → at (swapped items i j) c
          ≡ (if j == c then at items i else if i == c then at items j else at items c)
    unfolding swapped
    at-swapped c = rw (
      get_or-set absent (set items i (at items j)) j c (at items i) (rw length-set hj),
      get_or-set absent items i c (at items j) hi,
    )

    pub swapped-perm : Perm (swapped items i j) items
    unfolding swapped
    swapped-perm =
        let half = set items i (at items j) in
        let same : at half j ≡ at items j =
          ground (arith, get_or-set absent items i j (at items j)) in
        let second = rw same at (set-perm absent half j (at items i) (rw length-set hj)) in
        Perm.cons_inv (Perm.trans second (set-perm absent items i (at items j) hi))

    pub must_rise_in :
        must_rise (get_elem? items i) (get_elem? items j)
        ≡ not (leb_ℤ (expiry items i) (expiry items j))
    unfolding must_rise
    must_rise_in = rw (get_elem?_in absent items i hi, get_elem?_in absent items j hj)

  -- `earlier` reads the two expiries if both entries are defined.
  pub earlier_at :
      j < length items
      → earlier (get_elem? items i) (get_elem? items j)
        ≡ (ltb i (length items) && ltb_ℤ (expiry items i) (expiry items j))
  unfolding earlier
  earlier_at hj = elim (dec_lt i (length items)) [
    | yes p ↦ ground (arith, get_elem?_in absent items i p, get_elem?_in absent items j hj)
    | no p ↦ ground (arith, get_elem?_out items i (omega arith))
  ]

root_least_below :
    (k : ℕ) (items : List ExpiryEntry) (i : ℕ)
    → IsHeap items
    → i < k
    → i < length items
    → expiry items 0 ≤ℤ expiry items i
root_least_below zero items i h f p = absurd (omega arith)
root_least_below (suc k) items i h f p = ground (arith, h i, root_least_below k items (parent i) h)

pub root_least :
    (items : List ExpiryEntry) (i : ℕ)
    → IsHeap items
    → i < length items
    → expiry items 0 ≤ℤ expiry items i
root_least items i h p = root_least_below (suc i) items i h (omega arith) p
