-- ===== src/Replay/Heap/Laws.antt =====
-- What `push` and `pop` of `ExpiryMinHeap` promise: the same entries, and the least expiry first.
use mathlib.Core.List.{Perm, Mem, mem-cons, not-mem-nil}
use mathlib.Core.List.Perm
use mathlib.Core.Logic.Or
use native.Mathlib.Bridge.{le_prop}
use h3_protocol.Prelude.Arrays.{
  get_or, last, remove_last, get_or-append, get_or-remove_last, get_or-set, length-remove_last,
  last-remove_last-perm, concat-perm,
}
use h3_protocol.Prelude.Int.{ℤ, ◌≤ℤ◌}
use h3_protocol.Prelude.Lists.{length, length-append}
use mathlib.Core.Path.{subst}
use h3_protocol.Prelude.{ℕ, suc, ◌<◌, ◌≡◌, refl, none, some, List, [], ◌∷◌, ◌++◌, arith}
use h3_protocol.Replay.Heap.{ExpiryEntry, parent, peek, push, pop, refill}
use h3_protocol.Replay.Heap.Order.{IsHeap, absent, expiry, root_least}
use h3_protocol.Replay.Heap.Up.{bubble_up_restores}
use h3_protocol.Replay.Heap.Down.{bubble_down_restores}

-- `push` keeps the heap order and adds exactly the entry.
pub push_correct :
    (items : List ExpiryEntry) (entry : ExpiryEntry)
    → IsHeap items
    → IsHeap (push items entry) × Perm (push items entry) (entry ∷ items)
unfolding push
push_correct items entry h =
    let grown = items ++ entry ∷ [] in
    let size = length-append items (entry ∷ []) in
    let (heap, same) = bubble_up_restores grown (length items) (record {
      inside = omega (arith, size);
      edges = λ c p q r. ground (
        arith,
        size,
        h c,
        get_or-append absent items (entry ∷ []) c,
        get_or-append absent items (entry ∷ []) (parent c),
      );
      bridged = omega (arith, size);
    }) in
    (heap, Perm.trans same (concat-perm items entry))

least_of_indices :
    (items : List ExpiryEntry) (z : ℤ)
    → ((i : ℕ) → i < length items → z ≤ℤ expiry items i)
    → (e : ExpiryEntry) → Mem e items
    → z ≤ℤ e.expires_at
unfolding get_or
least_of_indices [] z h e m = absurd (not-mem-nil m)
least_of_indices (x ∷ items) z h e m =
    Or.elim le_prop (mem-cons.0 m) (λ p. rw p (h 0 (omega arith)))
      (least_of_indices items z (λ i q. h (suc i) (omega arith)) e)

-- What is left of a non-empty heap without its first entry: a valid heap of the others, none of which
-- expires earlier.
pub record Popped (items : List ExpiryEntry) (first : ExpiryEntry) (rest : List ExpiryEntry)
    : Type 0 where
  pub heap : IsHeap rest
  pub same : Perm (first ∷ rest) items
  pub least : (e : ExpiryEntry) → Mem e items → first.expires_at ≤ℤ e.expires_at

refill_correct :
    (moved x : ExpiryEntry) (items : List ExpiryEntry)
    → ((c : ℕ)
        → 0 < parent c
        → c < length (x ∷ items)
        → expiry (x ∷ items) (parent c) ≤ℤ expiry (x ∷ items) c)
    → IsHeap (refill moved (x ∷ items)) × Perm (refill moved (x ∷ items)) (moved ∷ items)
unfolding refill
refill_correct moved x items h = bubble_down_restores (moved ∷ items) 0 (record {
  inside = omega arith;
  edges = λ c p q r. ground (
    arith,
    h c,
    get_or-set absent (x ∷ items) 0 c moved,
    get_or-set absent (x ∷ items) 0 (parent c) moved,
  );
  bridged = omega arith;
})

shorter_edges :
    (first y : ExpiryEntry) (ys : List ExpiryEntry)
    → IsHeap (first ∷ y ∷ ys)
    → (c : ℕ) → 0 < parent c
    → c < length (remove_last first (y ∷ ys))
    → expiry (remove_last first (y ∷ ys)) (parent c) ≤ℤ expiry (remove_last first (y ∷ ys)) c
shorter_edges first y ys h c p q = ground (
  arith,
  h c,
  length-remove_last first (y ∷ ys),
  get_or-remove_last absent first (y ∷ ys) c,
  get_or-remove_last absent first (y ∷ ys) (parent c),
)

-- `pop` of a heap returns the root, which expires first, and leaves a heap of the other entries.
pub pop_correct :
    (first : ExpiryEntry) (items : List ExpiryEntry)
    → IsHeap (first ∷ items)
    → ((pop (first ∷ items)).0 ≡ some first) × Popped (first ∷ items) first (pop (first ∷ items)).1
unfolding pop refill remove_last last get_or
pop_correct first [] h = (
  refl,
  record {
    heap = λ c p q. absurd (omega arith);
    same = Perm.refl (first ∷ []);
    least = least_of_indices (first ∷ []) first.expires_at (λ i p. root_least (first ∷ []) i h p);
  },
)
pop_correct first (y ∷ ys) h =
    let (heap, same) =
      refill_correct (last y ys) first (remove_last y ys) (shorter_edges first y ys h) in
    (
      refl,
      record {
        heap = heap;
        same = Perm.cons first (Perm.trans same (last-remove_last-perm y ys));
        least =
            least_of_indices (first ∷ y ∷ ys) first.expires_at
              (λ i p. root_least (first ∷ y ∷ ys) i h p);
      },
    )

-- The forms in which a client meets `peek` and `pop`.
pub peek-pop : (items : List ExpiryEntry) → peek items ≡ (pop items).0
unfolding peek pop
peek-pop [] = refl
peek-pop (x ∷ items) = refl

pub pop-none : (items : List ExpiryEntry) → (pop items).0 ≡ none → items ≡ []
unfolding pop
pop-none [] h = refl
pop-none (x ∷ items) h = cc

pub pop-some :
    (items : List ExpiryEntry) {first : ExpiryEntry}
    → (pop items).0 ≡ some first
    → IsHeap items
    → Popped items first (pop items).1
unfolding pop
pop-some [] e h = cc
pop-some (x ∷ items) {first} e h =
    subst (λ y. Popped (x ∷ items) y (pop (x ∷ items)).1) (cc) (pop_correct x items h).1
