-- ===== src/Replay/Cache/Evict.antt =====
-- `evictOne` of `InMemoryReplayCache`: the entry that expires first goes, and no other.
use mathlib.Core.List.{not-mem-nil}
use mathlib.Core.Path.{subst}
use h3_protocol.Prelude.Arrays.{length-perm}
use h3_protocol.Prelude.Int.{ℤ, ◌≤ℤ◌, eq_of_parts}
use h3_protocol.Prelude.Lists.{length}
use h3_protocol.Prelude.Map
use h3_protocol.Prelude.Map.{Map}
use h3_protocol.Prelude.Texts.{Text, text_eq}
use h3_protocol.Prelude.{
  ℕ, zero, suc, ◌≤◌, ◌<◌, ◌≡◌, ◌≢◌, refl, ap, inl, inr, true, none, some, List, [], ◌∷◌, arith, leb,
  if◌then◌else◌, Bool-cases, Option-cases,
}
use h3_protocol.Replay.Heap
use h3_protocol.Replay.Heap.{ExpiryEntry}
use h3_protocol.Replay.Heap.Laws.{pop-some, pop-none}
use h3_protocol.Replay.Cache.{ReplayCache, is_current, popped}
use h3_protocol.Replay.Cache.Invariant.{entry, Tracks, IsValid, Tracks-pop, Tracks-delete}
use h3_protocol.Replay.Cache.{forget, evict_loop, evict_one}

-- `d` is `c` without the one entry at `victim`, which expires no later than any other.
pub record Evicted (c d : ReplayCache) : Type 0 where
  pub valid : IsValid d
  pub room : d.max_entries ≡ c.max_entries
  pub smaller : Map.size d.entries < Map.size c.entries
  pub victim : Text
  pub deadline : ℤ
  pub held : Map.get victim c.entries ≡ some deadline
  pub earliest : (k : Text) (z : ℤ) → Map.get k c.entries ≡ some z → deadline ≤ℤ z
  pub others :
      (k : Text) → Map.get k d.entries ≡ (if text_eq victim k then none else Map.get k c.entries)

-- A heap that tracks a non-empty map is not empty.
some_tracked : (entries : Map ℤ) → 0 < Map.size entries → ¬ Tracks entries []
some_tracked [] h t = elim h [ ]
some_tracked ((k, z) ∷ m) h t = not-mem-nil (t k z (Map.get-head k z m))

current_at :
    (entries : Map ℤ) (next : ExpiryEntry)
    → is_current entries next ≡ true
    → Map.get next.key entries ≡ some next.expires_at
unfolding is_current
current_at entries next h = elim (Option-cases (Map.get next.key entries)) [
  | inl nothing ↦ ground arith
  | inr (z, there) ↦
      let same : z ≡ next.expires_at = eq_of_parts z next.expires_at (ground arith) in
      rw there (ap some same)
]

evict_current :
    (c : ReplayCache) {next : ExpiryEntry}
    → IsValid c
    → (Heap.pop c.expiries).0 ≡ some next
    → is_current c.entries next ≡ true
    → Evicted c (forget next.key (popped c))
evict_current c {next} v e h =
    let p = pop-some c.expiries e v.heap in
    let there = current_at c.entries next h in
    record {
      valid = record { heap = p.heap; tracked = Tracks-delete c.entries p v.tracked };
      room = refl;
      smaller = Map.size-delete-lt next.key c.entries there;
      victim = next.key;
      deadline = next.expires_at;
      held = there;
      earliest = λ k z q. p.least (entry k z) (v.tracked k z q);
      others = λ k. Map.get-delete next.key k c.entries;
    }

nil_of_length : (items : List ExpiryEntry) → length items ≤ 0 → items ≡ []
nil_of_length [] h = refl
nil_of_length (x ∷ items) h = absurd (omega arith)

not_bare :
    (c : ReplayCache)
    → IsValid c
    → 0 < c.max_entries
    → c.max_entries ≤ Map.size c.entries
    → c.expiries ≢ []
not_bare c v positive full bare =
    some_tracked c.entries (omega arith) (subst (Tracks c.entries) bare v.tracked)

evict_loop-Evicted :
    (fuel : ℕ) (c : ReplayCache)
    → length c.expiries ≤ fuel
    → IsValid c
    → 0 < c.max_entries
    → c.max_entries ≤ Map.size c.entries
    → ((evict_loop fuel c).1 ≡ true) × Evicted c (evict_loop fuel c).0
unfolding evict_loop
evict_loop-Evicted zero c f v positive full =
    absurd (not_bare c v positive full (nil_of_length c.expiries f))
evict_loop-Evicted (suc fuel) c f v positive full =
    let at_limit : leb c.max_entries (Map.size c.entries) ≡ true = ground arith in
    elim (Option-cases (Heap.pop c.expiries).0) [
      | inl nothing ↦ absurd (not_bare c v positive full (pop-none c.expiries nothing))
      | inr (next, there) ↦ elim (Bool-cases (is_current c.entries next)) [
        | inl current ↦
            rw (at_limit, there, current, evict_loop) (refl, evict_current c v there current)
        | inr old ↦
            let p = pop-some c.expiries there v.heap in
            let valid : IsValid (popped c) = record {
              heap = p.heap;
              tracked = Tracks-pop c.entries p v.tracked old;
            } in
            let (returned, gone) =
              evict_loop-Evicted fuel (popped c) (omega (arith, length-perm p.same)) valid positive
                full in
            rw (at_limit, there, old, evict_loop)
              (
                returned,
                record {
                  valid = gone.valid;
                  room = gone.room;
                  smaller = gone.smaller;
                  victim = gone.victim;
                  deadline = gone.deadline;
                  held = gone.held;
                  earliest = gone.earliest;
                  others = gone.others;
                },
              )
      ]
    ]

-- On a full cache `evictOne` removes one entry, which no other entry precedes in expiry.
pub evict_one-Evicted :
    (c : ReplayCache)
    → IsValid c
    → 0 < c.max_entries
    → c.max_entries ≤ Map.size c.entries
    → Evicted c (evict_one c)
unfolding evict_one
evict_one-Evicted c v positive full =
    let (returned, gone) = evict_loop-Evicted (length c.expiries) c (omega arith) v positive full in
    rw returned gone
