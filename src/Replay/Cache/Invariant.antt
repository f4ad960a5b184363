-- ===== src/Replay/Cache/Invariant.antt =====
-- The invariant of the cache: the heap is in order, and holds every entry of the map with its expiry.
use mathlib.Core.List.{Mem, Mem-prop, mem-cons}
use mathlib.Core.List.Perm
use mathlib.Core.Logic.Or
use h3_protocol.Prelude.Int.{ℤ}
use h3_protocol.Prelude.Map
use h3_protocol.Prelude.Map.{Map}
use h3_protocol.Prelude.Texts.{Text, text_eq, text_eq_refl}
use h3_protocol.Prelude.{◌≡◌, ◌≢◌, ap, false, some, List, arith}
use h3_protocol.Replay.Heap.{ExpiryEntry}
use h3_protocol.Replay.Heap.Order.{IsHeap}
use h3_protocol.Replay.Heap.Laws.{Popped}
use h3_protocol.Replay.Cache.{ReplayCache, is_current}

abbrev pub entry : Text → ℤ → ExpiryEntry
entry k z = record { key = k; expires_at = z }

-- Every entry of the map has its own item in the heap.
abbrev pub Tracks : Map ℤ → List ExpiryEntry → Type 0
Tracks entries items = (k : Text) (z : ℤ) → Map.get k entries ≡ some z → Mem (entry k z) items

pub record IsValid (c : ReplayCache) : Type 0 where
  pub heap : IsHeap c.expiries
  pub tracked : Tracks c.entries c.expiries

survives :
    (entries : Map ℤ) (key k : Text) {z : ℤ}
    → Map.get k (Map.delete key entries) ≡ some z
    → (text_eq key k ≡ false) × (Map.get k entries ≡ some z)
survives entries key k e = ground (arith, Map.get-delete key k entries)

module _ (entries : Map ℤ) {items rest : List ExpiryEntry} {first : ExpiryEntry}
    (p : Popped items first rest) where
  tracked_or_first :
      Tracks entries items
      → (k : Text) (z : ℤ) → Map.get k entries ≡ some z
      → entry k z ≢ first
      → Mem (entry k z) rest
  tracked_or_first t k z e ne =
      Or.elim Mem-prop (mem-cons.0 ((Perm.mem_iff p.same).1 (t k z e))) (λ q. absurd (ne q))
        (λ m. m)

  -- The popped item may go when the map has no such entry.
  pub Tracks-pop : Tracks entries items → is_current entries first ≡ false → Tracks entries rest
  unfolding is_current
  Tracks-pop t stale k z e = tracked_or_first t k z e (λ q. ground (arith, ap ExpiryEntry.key q))

  pub Tracks-delete : Tracks entries items → Tracks (Map.delete first.key entries) rest
  Tracks-delete t k z e =
      let there = survives entries first.key k e in
      tracked_or_first t k z there.1
        (λ q. ground (arith, ap ExpiryEntry.key q, there.0, text_eq_refl k))
