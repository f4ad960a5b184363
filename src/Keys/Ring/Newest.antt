-- ===== src/Keys/Ring/Newest.antt =====
-- The selected key: one that passes the filter, with the latest `notBeforeMs` of those.
use h3_protocol.Envelope.{Alg}
use h3_protocol.Keys.Ring.{
  KeyRecord, RollingKeyring, insert_newest, sort_newest, head_record, can_sign, select_signing_key,
}
use h3_protocol.Prelude.Int.{ℤ, ◌≤ℤ◌, leb_ℤ}
use h3_protocol.Prelude.Lists.{All, filter}
use h3_protocol.Prelude.Texts.{Text}
use h3_protocol.Prelude.{
  ◌≡◌, refl, ◌⊎◌, inl, inr, Bool, true, false, Option, none, some, List, [], ◌∷◌, arith,
  if◌then◌else◌, Bool-cases,
}

abbrev pub Member : KeyRecord → List KeyRecord → Type 0
Member r [] = ⊥
Member r (s ∷ rs) = (r ≡ s) ⊎ Member r rs

-- The outcome of a selection among the records that pass the test.
abbrev pub IsNewest : (KeyRecord → Bool) → List KeyRecord → Option KeyRecord → Type 0
IsNewest passes rs none = All (λ s. passes s ≡ false) rs
IsNewest passes rs (some r) =
    Member r rs
    × (passes r ≡ true)
    × All (λ s. passes s ≡ true → s.not_before_ms ≤ℤ r.not_before_ms) rs

newer : KeyRecord → Option KeyRecord → Option KeyRecord
newer r none = some r
newer r (some s) = if leb_ℤ s.not_before_ms r.not_before_ms then some r else some s

head-insert_newest :
    (r : KeyRecord) (rs : List KeyRecord)
    → head_record (insert_newest r rs) ≡ newer r (head_record rs)
unfolding head_record insert_newest newer
head-insert_newest r [] = refl
head-insert_newest r (s ∷ rs) = ground arith

All-weaken :
    (passes : KeyRecord → Bool) (r s : KeyRecord) (rs : List KeyRecord)
    → s.not_before_ms ≤ℤ r.not_before_ms
    → All (λ t. passes t ≡ true → t.not_before_ms ≤ℤ s.not_before_ms) rs
    → All (λ t. passes t ≡ true → t.not_before_ms ≤ℤ r.not_before_ms) rs
All-weaken passes r s [] h all = tt
All-weaken passes r s (t ∷ rs) h (first, all) =
    ((λ e. omega (arith, first e, h)), All-weaken passes r s rs h all)

All-none :
    (passes : KeyRecord → Bool) (r : KeyRecord) (rs : List KeyRecord)
    → All (λ s. passes s ≡ false) rs
    → All (λ t. passes t ≡ true → t.not_before_ms ≤ℤ r.not_before_ms) rs
All-none passes r [] all = tt
All-none passes r (t ∷ rs) (first, all) = ((λ e. ground (arith, first)), All-none passes r rs all)

newer-IsNewest :
    (passes : KeyRecord → Bool) (r : KeyRecord) (rs : List KeyRecord) (best : Option KeyRecord)
    → passes r ≡ true
    → IsNewest passes rs best
    → IsNewest passes (r ∷ rs) (newer r best)
unfolding newer
newer-IsNewest passes r rs none h v = (inl refl, h, ((λ e. omega arith), All-none passes r rs v))
newer-IsNewest passes r rs (some s) h (member, passed, all) =
    elim (Bool-cases (leb_ℤ s.not_before_ms r.not_before_ms)) [
      | inl older ↦
          rw older (inl refl, h, ((λ e. omega arith), All-weaken passes r s rs (ground arith) all))
      | inr later ↦ rw later (inr member, passed, ((λ e. ground arith), all))
    ]

skip-IsNewest :
    (passes : KeyRecord → Bool) (r : KeyRecord) (rs : List KeyRecord) (best : Option KeyRecord)
    → passes r ≡ false
    → IsNewest passes rs best
    → IsNewest passes (r ∷ rs) best
skip-IsNewest passes r rs none h v = (h, v)
skip-IsNewest passes r rs (some s) h (member, passed, all) =
    (inr member, passed, ((λ e. ground arith), all))

sort_newest-IsNewest :
    (passes : KeyRecord → Bool) (rs : List KeyRecord)
    → IsNewest passes rs (head_record (sort_newest (filter passes rs)))
unfolding filter sort_newest head_record
sort_newest-IsNewest passes [] = tt
sort_newest-IsNewest passes (r ∷ rs) = elim (Bool-cases (passes r)) [
  | inl h ↦
      rw (h, head-insert_newest r (sort_newest (filter passes rs)))
        (newer-IsNewest passes r rs _ h (sort_newest-IsNewest passes rs))
  | inr h ↦ rw h (skip-IsNewest passes r rs _ h (sort_newest-IsNewest passes rs))
]

-- selectSigningKey returns a record of the sender and algorithm that is active and within its
-- validity, with the latest notBeforeMs of all such records, and null only when there is none.
pub select_signing_key-IsNewest :
    (ring : RollingKeyring) (sender : Text) (alg : Alg) (now : ℤ)
    → IsNewest (can_sign sender alg now) ring.records (select_signing_key ring sender alg now)
unfolding select_signing_key
select_signing_key-IsNewest ring sender alg now =
    sort_newest-IsNewest (can_sign sender alg now) ring.records
