-- ===== src/Mandate/Ledger/Ceiling.antt =====
-- The cumulative ceiling.
use h3_protocol.Mandate.Money.{as_positive}
use h3_protocol.Mandate.Ledger.{
  MemorySpendLedger, Reservation, Payments, ReserveOutcome, sum_payments, payments_of, reserve,
  release, spent,
}
use h3_protocol.Prelude.Lists.{All}
use h3_protocol.Prelude.Map
use h3_protocol.Prelude.Map.{Map}
use h3_protocol.Prelude.Texts.{Text, text_eq_iff}
use h3_protocol.Prelude.{ℕ, ◌+◌, ◌≤◌, ◌≡◌, inl, inr, none, some, List, [], ◌∷◌, arith}
use h3_protocol.Mandate.Ledger.Effects.{
  Reserved, added, refused, reserve_amount-Reserved, reserve-cases, release-payments,
}

pub sum-set :
    (payment : Text) (amount : ℕ) (m : Payments)
    → Map.get payment m ≡ none
    → sum_payments (Map.set payment amount m) ≡ sum_payments m + amount
unfolding sum_payments Map.get Map.set
sum-set payment amount [] h = ground arith
sum-set payment amount ((k, v) ∷ m) h = ground (arith, sum-set payment amount m)

sum-delete-le :
    (payment : Text) (m : Payments) → sum_payments (Map.delete payment m) ≤ sum_payments m
unfolding sum_payments Map.delete
sum-delete-le payment [] = omega arith
sum-delete-le payment ((k, v) ∷ m) = ground (arith, sum-delete-le payment m)

reserve_amount-ceiling :
    (ledger : MemorySpendLedger) (intent payment key : Text) (amount ceiling limit : ℕ)
    {out : MemorySpendLedger × ReserveOutcome}
    → Reserved ledger intent payment amount ceiling out
    → (intent ≡ key → ceiling ≡ limit)
    → spent ledger key ≤ limit
    → spent out.0 key ≤ limit
unfolding spent
reserve_amount-ceiling ledger intent payment key amount ceiling limit (added missing fits after) own
      h =
    ground (
      arith,
      after key,
      sum-set payment amount (payments_of intent ledger) missing,
      text_eq_iff intent key,
      own,
      fits,
    )
reserve_amount-ceiling ledger intent payment key amount ceiling limit (refused _ after) own h =
    rw (after key) h

-- A call on the ledger.
pub data Step : Type 0 where
  reserving : Reservation → Step
  releasing : Text → Text → Step

unfoldable pub step : MemorySpendLedger → Step → MemorySpendLedger
step ledger (reserving r) = (reserve ledger r).0
step ledger (releasing intent payment) = release ledger intent payment

unfoldable pub run : MemorySpendLedger → List Step → MemorySpendLedger
run ledger [] = ledger
run ledger (s ∷ steps) = run (step ledger s) steps

-- Each reservation for the intent states the same ceiling.
abbrev pub HasCeiling : Text → ℕ → Step → Type 0
HasCeiling key limit (reserving r) = r.intent_id ≡ key → as_positive r.ceiling_minor ≡ some limit
HasCeiling key limit (releasing intent payment) = Unit

reserve-ceiling :
    (ledger : MemorySpendLedger) (r : Reservation) (key : Text) (limit : ℕ)
    → (r.intent_id ≡ key → as_positive r.ceiling_minor ≡ some limit)
    → spent ledger key ≤ limit
    → spent (reserve ledger r).0 key ≤ limit
reserve-ceiling ledger r key limit own h = elim (reserve-cases ledger r) [
  | inl thrown ↦ rw thrown h
  | inr (amount, ceiling, is_amount, is_ceiling, done) ↦ rw done (
      reserve_amount-ceiling ledger r.intent_id r.payment_id key amount ceiling limit
        (reserve_amount-Reserved ledger r.intent_id r.payment_id amount ceiling)
        (λ e. ground (arith, own e)) h)
]

release-ceiling :
    (ledger : MemorySpendLedger) (intent payment key : Text) (limit : ℕ)
    → spent ledger key ≤ limit
    → spent (release ledger intent payment) key ≤ limit
unfolding spent
release-ceiling ledger intent payment key limit h = ground (
  arith,
  release-payments ledger intent payment key,
  sum-delete-le payment (payments_of key ledger),
)

-- However reservations and releases follow one another, the spend of an intent never exceeds its
-- ceiling, where each reservation for the intent states that ceiling and the spend starts within it.
pub spend_within_ceiling :
    (ledger : MemorySpendLedger) (steps : List Step) (key : Text) (limit : ℕ)
    → All (HasCeiling key limit) steps
    → spent ledger key ≤ limit
    → spent (run ledger steps) key ≤ limit
unfolding run step
spend_within_ceiling ledger [] key limit own h = h
spend_within_ceiling ledger (reserving r ∷ steps) key limit (own, rest) h =
    spend_within_ceiling (reserve ledger r).0 steps key limit rest
      (reserve-ceiling ledger r key limit own h)
spend_within_ceiling ledger (releasing intent payment ∷ steps) key limit (own, rest) h =
    spend_within_ceiling (release ledger intent payment) steps key limit rest
      (release-ceiling ledger intent payment key limit h)
