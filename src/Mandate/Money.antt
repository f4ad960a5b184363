-- ===== src/Mandate/Money.antt =====
-- Amounts in minor units (`isMoney`, `isPositive`) and `checkedTotal` of src/mandate.ts. A product or
-- sum that leaves the safe integers is a double of at least 2^53 whatever its rounding, so the test
-- on the exact natural number decides alike.
pub mod Total
mod Tests
use h3_protocol.Prelude.Int.{pos, Number, finite}
use h3_protocol.Prelude.Texts.{Text}
use h3_protocol.Prelude.{ℕ, zero, ◌+◌, ◌*◌, Option, none, some, List, [], ◌∷◌, leb, if◌then◌else◌}

-- `Number.MAX_SAFE_INTEGER`, 2^53 - 1
abbrev pub max_safe_integer : ℕ
max_safe_integer = 9007199254740991

-- `isMoney(n)`, with the amount.
unfoldable pub as_money : Number → Option ℕ
as_money (finite (pos n)) = if leb n max_safe_integer then some n else none
as_money _ = none

-- `isPositive(n)`, with the amount.
unfoldable pub as_positive : Number → Option ℕ
as_positive (finite (pos zero)) = none
as_positive n = as_money n

pub record CartItem : Type 0 where
  pub sku : Text
  pub description : Option Text
  pub category : Option Text
  pub quantity : Number
  pub unit_minor : Number

-- `quantity * unitMinor`, where both are amounts and the product is safe.
unfoldable pub line_of : Option ℕ → Option ℕ → Option ℕ
line_of (some quantity) (some unit) =
    if leb (quantity * unit) max_safe_integer then some (quantity * unit) else none
line_of _ _ = none

-- The loop, from the sum so far.
unfoldable pub checked_total_from : ℕ → List CartItem → Option ℕ
checked_total_from total [] = some total
checked_total_from total (item ∷ items) =
    elim (line_of (as_positive item.quantity) (as_money item.unit_minor)) [
      | none ↦ none
      | some line ↦
          let rest = checked_total_from (total + line) items in
          if leb (total + line) max_safe_integer then rest else none
    ]

unfoldable pub checked_total : List CartItem → Option ℕ
checked_total items = checked_total_from 0 items
