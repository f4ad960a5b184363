-- ===== src/Mandate/Ledger/Tests.antt =====
-- Runs of `MemorySpendLedger`, and its theorems at concrete inputs.
use h3_protocol.Mandate.Money.{as_money, as_positive}
use h3_protocol.Mandate.Ledger.{
  MemorySpendLedger, Reservation, reserved, exceeds_ceiling, sum_payments, payments_of, open_intent,
  has_payment, reserve_amount, reserve, release, spent,
}
use h3_protocol.Mandate.Ledger.Ceiling.{Step, reserving, releasing, run, spend_within_ceiling}
use h3_protocol.Mandate.Ledger.Once.{reserved_once}
use h3_protocol.Prelude.Int.{pos, negsuc, finite}
use h3_protocol.Prelude.Map
use h3_protocol.Prelude.Texts.{codes, text_eq}
use h3_protocol.Prelude.{◌≤◌, ◌≡◌, ◌≢◌, refl, inr, none, some, List, [], ◌∷◌, arith}

abbrev bare : MemorySpendLedger
bare = record { by_intent = [] }

-- A payment of the intent `i`, under a ceiling of 100.
abbrev sixty : Reservation
sixty = record {
  intent_id = codes "i";
  payment_id = codes "p";
  amount_minor = finite (pos 60);
  ceiling_minor = finite (pos 100);
}

abbrev fifty : Reservation
fifty = record sixty { payment_id = codes "q"; amount_minor = finite (pos 50) }

abbrev negative : Reservation
negative = record sixty { amount_minor = finite (negsuc 4) }

abbrev steps : List Step
steps = reserving fifty ∷ releasing (codes "i") (codes "q") ∷ []

second_exceeds : (reserve (reserve bare sixty).0 fifty).1 ≡ some exceeds_ceiling
unfolding reserve reserve_amount as_money as_positive open_intent payments_of has_payment
    sum_payments Map.get Map.set text_eq
second_exceeds = refl

released_fits :
    (reserve (release (reserve bare sixty).0 (codes "i") (codes "p")) fifty).1 ≡ some reserved
unfolding reserve release reserve_amount as_money as_positive open_intent payments_of has_payment
    sum_payments Map.get Map.set Map.delete text_eq
released_fits = refl

negative_throws : (reserve bare negative).1 ≡ none
unfolding reserve as_money
negative_throws = refl

first_reserved : (reserve bare sixty).1 ≡ some reserved
unfolding reserve reserve_amount as_money as_positive open_intent payments_of has_payment
    sum_payments Map.get Map.set text_eq
first_reserved = refl

spend_within_ceiling_example : spent (run bare (reserving sixty ∷ steps)) (codes "i") ≤ 100
unfolding spent payments_of sum_payments Map.get as_positive as_money
spend_within_ceiling_example =
    spend_within_ceiling bare (reserving sixty ∷ steps) (codes "i") 100
      ((λ _. refl), ((λ _. refl), (tt, tt))) (omega arith)

p_is_not_q : codes "q" ≢ codes "p"
p_is_not_q = ground arith

reserved_once_example : (reserve (run (reserve bare sixty).0 steps) sixty).1 ≢ some reserved
reserved_once_example =
    reserved_once bare sixty sixty steps first_reserved (tt, (inr p_is_not_q, tt)) refl refl
