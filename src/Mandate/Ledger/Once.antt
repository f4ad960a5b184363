-- ===== src/Mandate/Ledger/Once.antt =====
-- A payment is reserved once.
use h3_protocol.Mandate.Ledger.{
  MemorySpendLedger, Reservation, ReserveOutcome, reserved, payments_of, reserve,
}
use h3_protocol.Mandate.Ledger.Effects.{
  Reserved, added, refused, reserve_amount-Reserved, reserve-cases, release-payments,
}
use h3_protocol.Mandate.Ledger.Ceiling.{Step, reserving, releasing, step, run}
use h3_protocol.Prelude.Lists.{All}
use h3_protocol.Prelude.Map
use h3_protocol.Prelude.Texts.{Text, text_eq_iff, text_eq_refl}
use h3_protocol.Prelude.{ℕ, ◌≡◌, ◌≢◌, ◌⊎◌, inl, inr, none, some, List, [], ◌∷◌, arith}

-- The intent has the payment.
abbrev Held : Text → Text → MemorySpendLedger → Type 0
Held intent payment ledger = Map.get payment (payments_of intent ledger) ≢ none

added-Held :
    (ledger : MemorySpendLedger) (intent payment : Text) (value ceiling : ℕ)
    {out : MemorySpendLedger × ReserveOutcome}
    → Reserved ledger intent payment value ceiling out
    → out.1 ≡ reserved
    → Held intent payment out.0
added-Held ledger intent payment value ceiling (added missing fits after) h = ground (
  arith,
  after intent,
  Map.get-set payment payment value (payments_of intent ledger),
  text_eq_refl payment,
  text_eq_refl intent,
)
added-Held ledger intent payment value ceiling (refused differs after) h = elim (differs h) [ ]

kept-Held :
    (ledger : MemorySpendLedger) (intent payment intent' payment' : Text) (value ceiling : ℕ)
    {out : MemorySpendLedger × ReserveOutcome}
    → Reserved ledger intent' payment' value ceiling out
    → Held intent payment ledger
    → Held intent payment out.0
kept-Held ledger intent payment intent' payment' value ceiling (added missing fits after) h =
    ground (
      arith,
      after intent,
      Map.get-set payment' payment value (payments_of intent' ledger),
      text_eq_iff payment' payment,
      text_eq_iff intent' intent,
    )
kept-Held ledger intent payment intent' payment' value ceiling (refused differs after) h =
    ground (arith, after intent)

Held-refused :
    (ledger : MemorySpendLedger) (intent payment : Text) (value ceiling : ℕ)
    {out : MemorySpendLedger × ReserveOutcome}
    → Reserved ledger intent payment value ceiling out
    → Held intent payment ledger
    → out.1 ≢ reserved
Held-refused ledger intent payment value ceiling (added missing fits after) h = elim (h missing) [ ]
Held-refused ledger intent payment value ceiling (refused differs after) h = differs

-- Not a release of the payment.
abbrev pub KeepsPayment : Text → Text → Step → Type 0
KeepsPayment intent payment (reserving r) = Unit
KeepsPayment intent payment (releasing i p) = (i ≢ intent) ⊎ (p ≢ payment)

reserve-Held :
    (ledger : MemorySpendLedger) (r : Reservation) (intent payment : Text)
    → Held intent payment ledger
    → Held intent payment (reserve ledger r).0
reserve-Held ledger r intent payment h = elim (reserve-cases ledger r) [
  | inl thrown ↦ rw thrown h
  | inr (value, ceiling, is_value, is_ceiling, done) ↦ rw done (
      kept-Held ledger intent payment r.intent_id r.payment_id value ceiling
        (reserve_amount-Reserved ledger r.intent_id r.payment_id value ceiling) h)
]

step-Held :
    (ledger : MemorySpendLedger) (s : Step) (intent payment : Text)
    → KeepsPayment intent payment s
    → Held intent payment ledger
    → Held intent payment (step ledger s)
unfolding step
step-Held ledger (reserving r) intent payment keeps h = reserve-Held ledger r intent payment h
step-Held ledger (releasing i p) intent payment keeps h = ground (
  arith,
  release-payments ledger i p intent,
  Map.get-delete p payment (payments_of intent ledger),
  text_eq_iff i intent,
  text_eq_iff p payment,
)

run-Held :
    (ledger : MemorySpendLedger) (steps : List Step) (intent payment : Text)
    → All (KeepsPayment intent payment) steps
    → Held intent payment ledger
    → Held intent payment (run ledger steps)
unfolding run
run-Held ledger [] intent payment keeps h = h
run-Held ledger (s ∷ steps) intent payment (keeps, rest) h =
    run-Held (step ledger s) steps intent payment rest (step-Held ledger s intent payment keeps h)

reserved-Held :
    (ledger : MemorySpendLedger) (r : Reservation)
    → (reserve ledger r).1 ≡ some reserved
    → Held r.intent_id r.payment_id (reserve ledger r).0
reserved-Held ledger r h = elim (reserve-cases ledger r) [
  | inl thrown ↦ ground (arith, thrown)
  | inr (value, ceiling, is_value, is_ceiling, done) ↦ rw done (
      added-Held ledger r.intent_id r.payment_id value ceiling
        (reserve_amount-Reserved ledger r.intent_id r.payment_id value ceiling)
        (ground (arith, done)))
]

-- After reserve has accepted a payment, it accepts no payment of the same ids again, at whatever
-- amount and ceiling, and whatever calls lie between other than a release of that payment.
pub reserved_once :
    (ledger : MemorySpendLedger) (r again : Reservation) (steps : List Step)
    → (reserve ledger r).1 ≡ some reserved
    → All (KeepsPayment r.intent_id r.payment_id) steps
    → again.intent_id ≡ r.intent_id
    → again.payment_id ≡ r.payment_id
    → (reserve (run (reserve ledger r).0 steps) again).1 ≢ some reserved
reserved_once ledger r again steps accepted keeps same_intent same_payment =
    let later = run (reserve ledger r).0 steps in
    let held =
      run-Held (reserve ledger r).0 steps r.intent_id r.payment_id keeps
        (reserved-Held ledger r accepted) in
    elim (reserve-cases later again) [
      | inl thrown ↦ ground (arith, thrown)
      | inr (value, ceiling, is_value, is_ceiling, done) ↦
          let no_more =
            Held-refused later again.intent_id again.payment_id value ceiling
              (reserve_amount-Reserved later again.intent_id again.payment_id value ceiling)
              (rw (same_intent, same_payment) held) in
          ground (arith, done)
    ]
