-- ===== src/Mandate/Money/Tests.antt =====
-- Runs of `checkedTotal`, and its theorem at a concrete input.
use h3_protocol.Mandate.Money.{
  CartItem, max_safe_integer, as_money, as_positive, line_of, checked_total_from, checked_total,
}
use h3_protocol.Mandate.Money.Total.{IsPriced, exact_total, checked_total_exact}
use h3_protocol.Prelude.Int.{pos, finite}
use h3_protocol.Prelude.Lists.{All}
use h3_protocol.Prelude.Texts.{codes}
use h3_protocol.Prelude.{◌≤◌, ◌≡◌, ◌↔◌, refl, none, some, List, [], ◌∷◌}

-- Three pens at 250 and one stamp at 0.
abbrev cart : List CartItem
cart =
    record {
      sku = codes "pen";
      description = none;
      category = none;
      quantity = finite (pos 3);
      unit_minor = finite (pos 250);
    }
    ∷ record {
      sku = codes "stamp";
      description = none;
      category = none;
      quantity = finite (pos 1);
      unit_minor = finite (pos 0);
    }
    ∷ []

cart_total : checked_total cart ≡ some 750
unfolding checked_total checked_total_from line_of as_money as_positive
cart_total = refl

checked_total_exact_example :
    (checked_total cart ≡ some 750)
    ↔ (All IsPriced cart × (exact_total cart ≡ 750) × (750 ≤ max_safe_integer))
checked_total_exact_example = checked_total_exact cart 750
