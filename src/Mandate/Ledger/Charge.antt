-- ===== src/Mandate/Ledger/Charge.antt =====
-- The spend that a reservation adds and its release takes back.
use h3_protocol.Mandate.Money.Total.{amount}
use h3_protocol.Mandate.Ledger.{
  MemorySpendLedger, Reservation, Payments, ReserveOutcome, reserved, duplicate, exceeds_ceiling,
  payments_of, reserve, release, spent,
}
use h3_protocol.Mandate.Ledger.Effects.{
  Reserved, added, refused, reserve_amount-Reserved, reserve-cases, release-payments,
}
use h3_protocol.Mandate.Ledger.Ceiling.{sum-set}
use h3_protocol.Mandate.Money.Total.{money_sound}
use h3_protocol.Prelude.Map
use h3_protocol.Prelude.Texts.{Text, text_eq, text_eq_iff, text_eq_refl}
use h3_protocol.Prelude.{
  ℕ, ◌+◌, ◌≡◌, ◌≢◌, refl, inl, inr, Option, none, some, [], ◌∷◌, arith, if◌then◌else◌,
}

-- What an outcome adds to the spend of an intent.
abbrev pub charge : Reservation → Option ReserveOutcome → Text → ℕ
charge r (some reserved) other = if text_eq r.intent_id other then amount r.amount_minor else 0
charge r _ other = 0

charge_refused :
    (r : Reservation) (outcome : ReserveOutcome) (other : Text)
    → outcome ≢ reserved
    → charge r (some outcome) other ≡ 0
charge_refused r reserved other differs = elim (differs refl) [ ]
charge_refused r duplicate other differs = refl
charge_refused r exceeds_ceiling other differs = refl

reserve_amount-charge :
    (ledger : MemorySpendLedger) (r : Reservation) (value ceiling : ℕ) (other : Text)
    {out : MemorySpendLedger × ReserveOutcome}
    → Reserved ledger r.intent_id r.payment_id value ceiling out
    → amount r.amount_minor ≡ value
    → spent out.0 other ≡ spent ledger other + charge r (some out.1) other
unfolding spent
reserve_amount-charge ledger r value ceiling other (added missing fits after) is_value = ground (
  arith,
  after other,
  sum-set r.payment_id value (payments_of r.intent_id ledger) missing,
  text_eq_iff r.intent_id other,
)
reserve_amount-charge ledger r value ceiling other (refused differs after) is_value =
    ground (arith, after other, charge_refused r _ other differs)

-- reserve adds its amount to the spend of its intent when it answers reserved; otherwise, and for
-- every other intent, the spend stays.
pub reserve_charges :
    (ledger : MemorySpendLedger) (r : Reservation) (other : Text)
    → spent (reserve ledger r).0 other ≡ spent ledger other + charge r (reserve ledger r).1 other
reserve_charges ledger r other = elim (reserve-cases ledger r) [
  | inl thrown ↦ rw thrown (ground arith)
  | inr (value, ceiling, is_value, is_ceiling, done) ↦ rw done (
      reserve_amount-charge ledger r value ceiling other
        (reserve_amount-Reserved ledger r.intent_id r.payment_id value ceiling)
        (money_sound r.amount_minor is_value).1)
]

delete-set :
    (payment : Text) (value : ℕ) (m : Payments)
    → Map.get payment m ≡ none
    → Map.delete payment (Map.set payment value m) ≡ m
unfolding Map.get Map.set Map.delete
delete-set payment value [] h = ground (arith, text_eq_refl payment)
delete-set payment value ((k, v) ∷ m) h = ground (arith, delete-set payment value m)

pub undo :
    (ledger : MemorySpendLedger) (intent payment other : Text) (value ceiling : ℕ)
    {out : MemorySpendLedger × ReserveOutcome}
    → Reserved ledger intent payment value ceiling out
    → out.1 ≡ reserved
    → payments_of other (release out.0 intent payment) ≡ payments_of other ledger
undo ledger intent payment other value ceiling (added {ledger' = ledger'} missing fits after) h =
    ground (
      arith,
      release-payments ledger' intent payment other,
      after other,
      delete-set payment value (payments_of intent ledger) missing,
      text_eq_iff intent other,
    )
undo ledger intent payment other value ceiling (refused differs after) h = elim (differs h) [ ]

-- Releasing a payment that reserve has just accepted restores the payments of every intent.
pub release_undoes_reserve :
    (ledger : MemorySpendLedger) (r : Reservation) (other : Text)
    → (reserve ledger r).1 ≡ some reserved
    → payments_of other (release (reserve ledger r).0 r.intent_id r.payment_id)
      ≡ payments_of other ledger
release_undoes_reserve ledger r other h = elim (reserve-cases ledger r) [
  | inl thrown ↦ ground (arith, thrown)
  | inr (value, ceiling, is_value, is_ceiling, done) ↦ rw done (
      undo ledger r.intent_id r.payment_id other value ceiling
        (reserve_amount-Reserved ledger r.intent_id r.payment_id value ceiling)
        (ground (arith, done)))
]
