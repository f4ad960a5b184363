-- ===== src/Mandate/Ledger.antt =====
-- `MemorySpendLedger` of src/mandate.ts: for each intent, the reserved payments and their amounts.
-- The atomicity that `SpendLedger` asks for is that of a method without `await`: one step.
pub mod Effects
pub mod Ceiling
pub mod Charge
pub mod Once
mod Tests
use h3_protocol.Mandate.Money.{max_safe_integer, as_money, as_positive}
use h3_protocol.Prelude.Int.{Number}
use h3_protocol.Prelude.Map
use h3_protocol.Prelude.Map.{Map}
use h3_protocol.Prelude.Texts.{Text}
use h3_protocol.Prelude.{
  ℕ, ◌+◌, Bool, true, false, ◌||◌, Option, none, some, List, [], ◌∷◌, ltb, if◌then◌else◌,
}

pub data ReserveOutcome : Type 0 where
  reserved : ReserveOutcome
  duplicate : ReserveOutcome
  exceeds_ceiling : ReserveOutcome

abbrev pub Payments : Type 0
Payments = Map ℕ

pub record MemorySpendLedger : Type 0 where
  pub by_intent : Map Payments

-- The arguments of `reserve`.
pub record Reservation : Type 0 where
  pub intent_id : Text
  pub payment_id : Text
  pub amount_minor : Number
  pub ceiling_minor : Number

-- `for (const v of payments.values()) total += v`
unfoldable pub sum_payments : Payments → ℕ
sum_payments [] = 0
sum_payments ((k, v) ∷ m) = v + sum_payments m

-- The payments of an intent, none for an intent without an entry.
unfoldable pub payments_of : Text → MemorySpendLedger → Payments
payments_of intent ledger = elim (Map.get intent ledger.by_intent) [ none ↦ [] | some m ↦ m ]

-- `if (!payments) this.byIntent.set(intentId, new Map())`
unfoldable pub open_intent : Text → MemorySpendLedger → MemorySpendLedger
open_intent intent ledger = elim (Map.get intent ledger.by_intent) [
  | none ↦ record ledger { by_intent = Map.set intent [] ledger.by_intent }
  | some m ↦ ledger
]

-- `payments.has(paymentId)`
unfoldable pub has_payment : Text → Payments → Bool
has_payment payment payments = elim (Map.get payment payments) [ none ↦ false | some v ↦ true ]

-- `reserve` after its test of the amounts.
unfoldable pub reserve_amount :
    MemorySpendLedger → Text → Text → ℕ → ℕ → MemorySpendLedger × ReserveOutcome
reserve_amount ledger intent payment amount ceiling =
    let opened = open_intent intent ledger in
    let payments = payments_of intent opened in
    let total = amount + sum_payments payments in
    if has_payment payment payments
    then (opened, duplicate)
    else if ltb max_safe_integer total || ltb ceiling total
    then (opened, exceeds_ceiling)
    else (
      record opened {
        by_intent = Map.set intent (Map.set payment amount payments) opened.by_intent;
      },
      reserved,
    )

-- `none` is the error that `reserve` throws.
unfoldable pub reserve : MemorySpendLedger → Reservation → MemorySpendLedger × Option ReserveOutcome
reserve ledger r = elim (as_money r.amount_minor) [
  | none ↦ (ledger, none)
  | some amount ↦ elim (as_positive r.ceiling_minor) [
    | none ↦ (ledger, none)
    | some ceiling ↦
        let (ledger', outcome) = reserve_amount ledger r.intent_id r.payment_id amount ceiling in
        (ledger', some outcome)
  ]
]

unfoldable pub release : MemorySpendLedger → Text → Text → MemorySpendLedger
release ledger intent payment = elim (Map.get intent ledger.by_intent) [
  | none ↦ ledger
  | some payments ↦ record ledger {
    by_intent = Map.set intent (Map.delete payment payments) ledger.by_intent;
  }
]

unfoldable pub spent : MemorySpendLedger → Text → ℕ
spent ledger intent = sum_payments (payments_of intent ledger)
