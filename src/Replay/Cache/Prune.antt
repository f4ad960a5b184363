-- ===== src/Replay/Cache/Prune.antt =====
-- `prune` of `InMemoryReplayCache`: exactly the expired entries go.
use mathlib.Core.List.{not-mem-nil}
use h3_protocol.Prelude.Arrays.{length-perm, get_elem?_out}
use h3_protocol.Prelude.Int.{ℤ, leb_ℤ, ltb_ℤ}
use h3_protocol.Prelude.Lists.{length}
use h3_protocol.Prelude.Map
use h3_protocol.Prelude.Map.{Map}
use h3_protocol.Prelude.Texts.{Text, text_eq_iff}
use h3_protocol.Prelude.{
  ℕ, zero, suc, ◌≤◌, ◌<◌, ◌≡◌, refl, sym, ◌∙◌, inl, inr, true, false, Option, none, some, arith,
  if◌then◌else◌, Bool-cases, Option-cases,
}
use h3_protocol.Replay.Heap
use h3_protocol.Replay.Heap.{ExpiryEntry}
use h3_protocol.Replay.Heap.Laws.{pop-some, pop-none, peek-pop}
use h3_protocol.Replay.Cache.{ReplayCache, is_current, is_stale, prune_round, prune_loop, prune}
use h3_protocol.Replay.Cache.Invariant.{entry, IsValid, Tracks-pop, Tracks-delete}

-- What `prune` leaves of an entry at a time: nothing once it has expired.
unfoldable pub kept : ℤ → Option ℤ → Option ℤ
kept now none = none
kept now (some z) = if leb_ℤ z now then none else some z

-- `d` is a valid cache with the entries of `c` that have not expired, and perhaps others of `c`.
pub record Pruning (c d : ReplayCache) (now : ℤ) : Type 0 where
  pub valid : IsValid d
  pub same : (k : Text) → kept now (Map.get k d.entries) ≡ kept now (Map.get k c.entries)
  pub room : d.max_entries ≡ c.max_entries
  pub smaller : Map.size d.entries ≤ Map.size c.entries

module _ (entries : Map ℤ) (next : ExpiryEntry) (now : ℤ) where
  kept-delete :
      is_stale entries next now ≡ true
      → (k : Text)
      → kept now (Map.get k (Map.delete next.key entries)) ≡ kept now (Map.get k entries)
  unfolding is_stale kept
  kept-delete stale k = ground (arith, Map.get-delete next.key k entries, text_eq_iff next.key k)

  not_current :
      ltb_ℤ now next.expires_at ≡ false
      → is_stale entries next now ≡ false
      → is_current entries next ≡ false
  unfolding is_stale is_current
  not_current due fresh = ground arith

prune_round-Pruning :
    (c : ReplayCache) (now : ℤ) {next : ExpiryEntry}
    → IsValid c
    → Heap.peek c.expiries ≡ some next
    → ltb_ℤ now next.expires_at ≡ false
    → Pruning c (prune_round c next now) now
unfolding prune_round kept
prune_round-Pruning c now {next} v e due =
    let p = pop-some c.expiries (sym (peek-pop c.expiries) ∙ e) v.heap in
    elim (Bool-cases (is_stale c.entries next now)) [
      | inl stale ↦ rw stale (record {
        valid = record { heap = p.heap; tracked = Tracks-delete c.entries p v.tracked };
        same = kept-delete c.entries next now stale;
        room = refl;
        smaller = Map.size-delete-le next.key c.entries;
      })
      | inr fresh ↦ rw fresh (record {
        valid = record {
          heap = p.heap;
          tracked = Tracks-pop c.entries p v.tracked (not_current c.entries next now due fresh);
        };
        same = λ k. refl;
        room = refl;
        smaller = omega arith;
      })
    ]

Pruning-trans :
    {c d : ReplayCache} (e : ReplayCache) (now : ℤ)
    → Pruning c d now
    → Pruning d e now
    → Pruning c e now
Pruning-trans e now p q = record {
  valid = q.valid;
  same = λ k. q.same k ∙ p.same k;
  room = q.room ∙ p.room;
  smaller = omega (arith, p.smaller, q.smaller);
}

-- A heap whose root has not expired holds no expired entry, and so does the map that it tracks.
all_fresh :
    (c : ReplayCache) (now : ℤ) {next : ExpiryEntry}
    → IsValid c
    → Heap.peek c.expiries ≡ some next
    → ltb_ℤ now next.expires_at ≡ true
    → (k : Text) → Map.get k c.entries ≡ kept now (Map.get k c.entries)
unfolding kept
all_fresh c now {next} v e fresh k = elim (Option-cases (Map.get k c.entries)) [
  | inl nothing ↦ rw nothing refl
  | inr (z, there) ↦
      let p = pop-some c.expiries (sym (peek-pop c.expiries) ∙ e) v.heap in
      let later = p.least (entry k z) (v.tracked k z there) in rw there (ground (arith, later))
]

none_tracked :
    (c : ReplayCache) (now : ℤ)
    → IsValid c
    → Heap.peek c.expiries ≡ none
    → (k : Text) → Map.get k c.entries ≡ kept now (Map.get k c.entries)
unfolding kept
none_tracked c now v e k = elim (Option-cases (Map.get k c.entries)) [
  | inl nothing ↦ rw nothing refl
  | inr (z, there) ↦
      let bare = pop-none c.expiries (sym (peek-pop c.expiries) ∙ e) in
      absurd (not-mem-nil (rw bare at (v.tracked k z there)))
]

-- What `prune` does: exactly the expired entries go.
pub record Pruned (c d : ReplayCache) (now : ℤ) : Type 0 where
  pub pruning : Pruning c d now
  pub exact : (k : Text) → Map.get k d.entries ≡ kept now (Map.get k c.entries)

Pruned-now :
    (c : ReplayCache) (now : ℤ)
    → IsValid c
    → ((k : Text) → Map.get k c.entries ≡ kept now (Map.get k c.entries))
    → Pruned c c now
Pruned-now c now v h = record {
  pruning = record { valid = v; same = λ k. refl; room = refl; smaller = omega arith };
  exact = h;
}

Pruned-trans :
    {c d : ReplayCache} (e : ReplayCache) (now : ℤ)
    → Pruning c d now
    → Pruned d e now
    → Pruned c e now
Pruned-trans e now p q = record {
  pruning = Pruning-trans e now p q.pruning;
  exact = λ k. q.exact k ∙ p.same k;
}

length-prune_round :
    (c : ReplayCache) (now : ℤ) {next : ExpiryEntry}
    → IsValid c
    → Heap.peek c.expiries ≡ some next
    → length (prune_round c next now).expiries < length c.expiries
unfolding prune_round
length-prune_round c now {next} v e =
    let p = pop-some c.expiries (sym (peek-pop c.expiries) ∙ e) v.heap in
    ground (arith, length-perm p.same)

prune_loop-Pruned :
    (fuel : ℕ) (c : ReplayCache) (now : ℤ)
    → length c.expiries ≤ fuel
    → IsValid c
    → Pruned c (prune_loop fuel c now) now
unfolding prune_loop Heap.peek
prune_loop-Pruned zero c now f v =
    Pruned-now c now v (none_tracked c now v (get_elem?_out c.expiries 0 f))
prune_loop-Pruned (suc fuel) c now f v = elim (Option-cases (Heap.peek c.expiries)) [
  | inl nothing ↦ rw (nothing, prune_loop) (Pruned-now c now v (none_tracked c now v nothing))
  | inr (next, there) ↦ elim (Bool-cases (ltb_ℤ now next.expires_at)) [
    | inl fresh ↦ rw (there, fresh, prune_loop) (Pruned-now c now v (all_fresh c now v there fresh))
    | inr due ↦
        let d = prune_round c next now in
        let step = prune_round-Pruning c now v there due in
        let rest =
          prune_loop-Pruned fuel d now (omega (arith, length-prune_round c now v there))
            step.valid in
        rw (there, due, prune_loop) (Pruned-trans (prune_loop fuel d now) now step rest)
  ]
]

-- `prune` removes exactly the expired entries, and keeps the invariant.
pub prune-Pruned : (c : ReplayCache) (now : ℤ) → IsValid c → Pruned c (prune c now) now
unfolding prune
prune-Pruned c now v = prune_loop-Pruned (length c.expiries) c now (omega arith) v
