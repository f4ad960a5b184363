-- ===== src/Mandate/Ledger/Effects.antt =====
-- What `reserve` and `release` do to the spend of every intent.
use h3_protocol.Mandate.Money.{as_money, as_positive, max_safe_integer}
use h3_protocol.Mandate.Ledger.{
  MemorySpendLedger, Reservation, Payments, ReserveOutcome, reserved, sum_payments, payments_of,
  open_intent, has_payment, reserve_amount, reserve, release, spent,
}
use h3_protocol.Prelude.Map
use h3_protocol.Prelude.Map.{Map}
use h3_protocol.Prelude.Texts.{Text, text_eq, text_eq_iff}
use h3_protocol.Prelude.{
  ℕ, ◌+◌, ◌≤◌, ◌≡◌, ◌≢◌, ◌||◌, ◌⊎◌, inl, inr, false, none, some, [], arith, if◌then◌else◌, ltb,
  Bool-cases, Option-cases,
}

pub open-payments :
    (intent other : Text) (ledger : MemorySpendLedger)
    → payments_of other (open_intent intent ledger) ≡ payments_of other ledger
unfolding payments_of open_intent
open-payments intent other ledger =
    ground (arith, Map.get-set intent other [] ledger.by_intent, text_eq_iff intent other)

pub put-payments :
    (intent other : Text) (payments : Payments) (ledger : MemorySpendLedger)
    → payments_of other (record ledger { by_intent = Map.set intent payments ledger.by_intent })
      ≡ (if text_eq intent other then payments else payments_of other ledger)
unfolding payments_of
put-payments intent other payments ledger =
    ground (arith, Map.get-set intent other payments ledger.by_intent)

-- What a call of `reserve` with these amounts comes to.
pub data Reserved (ledger : MemorySpendLedger) (intent payment : Text) (amount ceiling : ℕ)
    : MemorySpendLedger × ReserveOutcome → Type 0 where
  added :
      {ledger' : MemorySpendLedger}
      → Map.get payment (payments_of intent ledger) ≡ none
      → amount + spent ledger intent ≤ ceiling
      → ((other : Text)
          → payments_of other ledger' ≡ (
              if text_eq intent other
              then Map.set payment amount (payments_of intent ledger)
              else payments_of other ledger))
      → Reserved ledger intent payment amount ceiling (ledger', reserved)
  refused :
      {ledger' : MemorySpendLedger} {outcome : ReserveOutcome}
      → outcome ≢ reserved
      → ((other : Text) → payments_of other ledger' ≡ payments_of other ledger)
      → Reserved ledger intent payment amount ceiling (ledger', outcome)

absent : (payment : Text) (m : Payments) → has_payment payment m ≡ false → Map.get payment m ≡ none
unfolding has_payment
absent payment m h = ground arith

pub reserve_amount-Reserved :
    (ledger : MemorySpendLedger) (intent payment : Text) (amount ceiling : ℕ)
    → Reserved ledger intent payment amount ceiling
        (reserve_amount ledger intent payment amount ceiling)
unfolding reserve_amount spent
reserve_amount-Reserved ledger intent payment amount ceiling =
    let opened = open_intent intent ledger in
    let payments = payments_of intent opened in
    let total = amount + sum_payments payments in
    let same = open-payments intent intent ledger in
    elim (Bool-cases (has_payment payment payments)) [
      | inl there ↦ rw there (refused (ground arith) (λ other. open-payments intent other ledger))
      | inr missing ↦ elim (Bool-cases (ltb max_safe_integer total || ltb ceiling total)) [
        | inl over ↦
            rw (missing, over) (refused (ground arith) (λ other. open-payments intent other ledger))
        | inr under ↦
            rw (missing, under)
              (added (rw (← same) (absent payment payments missing)) (ground (arith, same))
                (λ other. ground (
                  arith,
                  same,
                  put-payments intent other (Map.set payment amount payments) opened,
                  open-payments intent other ledger,
                )))
      ]
    ]

pub reserve-cases :
    (ledger : MemorySpendLedger) (r : Reservation)
    → (reserve ledger r ≡ (ledger, none))
      ⊎ ((amount ceiling : ℕ) × (as_money r.amount_minor ≡ some amount)
          × (as_positive r.ceiling_minor ≡ some ceiling)
          × (reserve ledger r ≡ (
            (reserve_amount ledger r.intent_id r.payment_id amount ceiling).0,
            some (reserve_amount ledger r.intent_id r.payment_id amount ceiling).1,
          )))
unfolding reserve
reserve-cases ledger r = elim (Option-cases (as_money r.amount_minor)) [
  | inl bad ↦ inl (ground arith)
  | inr (amount, is_amount) ↦ elim (Option-cases (as_positive r.ceiling_minor)) [
    | inl bad ↦ inl (ground arith)
    | inr (ceiling, is_ceiling) ↦ inr (amount, ceiling, is_amount, is_ceiling, ground arith)
  ]
]

pub release-payments :
    (ledger : MemorySpendLedger) (intent payment other : Text)
    → payments_of other (release ledger intent payment) ≡ (
        if text_eq intent other
        then Map.delete payment (payments_of other ledger)
        else payments_of other ledger)
unfolding release payments_of Map.delete
release-payments ledger intent payment other =
    elim (Option-cases (Map.get intent ledger.by_intent)) [
      | inl bare ↦ ground (arith, text_eq_iff intent other)
      | inr (payments, held) ↦ ground (
        arith,
        Map.get-set intent other (Map.delete payment payments) ledger.by_intent,
        text_eq_iff intent other,
      )
    ]
