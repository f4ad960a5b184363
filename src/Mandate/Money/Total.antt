-- ===== src/Mandate/Money/Total.antt =====
-- `checkedTotal` against the exact sum of quantity times price.
use h3_protocol.Prelude.Int.{pos, negsuc, pos_part, Number, finite, non_finite}
use h3_protocol.Prelude.Lists.{All}
use h3_protocol.Prelude.{
  ℕ, ◌+◌, ◌*◌, ◌≤◌, ◌≡◌, ◌↔◌, inl, inr, Option, some, List, [], ◌∷◌, arith, Option-cases,
}
use h3_protocol.Mandate.Money.{
  CartItem, max_safe_integer, as_money, as_positive, line_of, checked_total_from, checked_total,
}

abbrev pub amount : Number → ℕ
amount (finite z) = pos_part z
amount non_finite = 0

-- A safe integer from the given one on.
abbrev pub IsSafeFrom : ℕ → Number → Type 0
IsSafeFrom low (finite (pos n)) = (low ≤ n) × (n ≤ max_safe_integer)
IsSafeFrom low _ = ⊥

abbrev pub IsPriced : CartItem → Type 0
IsPriced item = IsSafeFrom 1 item.quantity × IsSafeFrom 0 item.unit_minor

-- The sum of the lines, without a bound.
abbrev pub exact_total : List CartItem → ℕ
exact_total [] = 0
exact_total (item ∷ items) = amount item.quantity * amount item.unit_minor + exact_total items

positive_sound : (n : Number) {q : ℕ} → as_positive n ≡ some q → IsSafeFrom 1 n × (amount n ≡ q)
unfolding as_positive as_money
positive_sound (finite (pos n)) {q} h = ground arith
positive_sound (finite (negsuc n)) {q} h = ground arith
positive_sound non_finite {q} h = ground arith

pub money_sound : (n : Number) {u : ℕ} → as_money n ≡ some u → IsSafeFrom 0 n × (amount n ≡ u)
unfolding as_money
money_sound (finite (pos n)) {u} h = ground arith
money_sound (finite (negsuc n)) {u} h = ground arith
money_sound non_finite {u} h = ground arith

positive_complete : (n : Number) → IsSafeFrom 1 n → as_positive n ≡ some (amount n)
unfolding as_positive as_money
positive_complete (finite (pos n)) safe = ground arith
positive_complete (finite (negsuc n)) safe = elim safe [ ]
positive_complete non_finite safe = elim safe [ ]

money_complete : (n : Number) → IsSafeFrom 0 n → as_money n ≡ some (amount n)
unfolding as_money
money_complete (finite (pos n)) safe = ground arith
money_complete (finite (negsuc n)) safe = elim safe [ ]
money_complete non_finite safe = elim safe [ ]

abbrev line : CartItem → Option ℕ
line item = line_of (as_positive item.quantity) (as_money item.unit_minor)

line_sound :
    (item : CartItem) {l : ℕ}
    → line item ≡ some l
    → IsPriced item × (amount item.quantity * amount item.unit_minor ≡ l)
unfolding line_of
line_sound item {l} h = elim (Option-cases (as_positive item.quantity)) [
  | inl q ↦ ground arith
  | inr (q, is_q) ↦ elim (Option-cases (as_money item.unit_minor)) [
    | inl u ↦ ground arith
    | inr (u, is_u) ↦
        let (priced_q, eq_q) = positive_sound item.quantity is_q in
        let (priced_u, eq_u) = money_sound item.unit_minor is_u in
        ((priced_q, priced_u), ground arith)
  ]
]

line_complete :
    (item : CartItem)
    → IsPriced item
    → amount item.quantity * amount item.unit_minor ≤ max_safe_integer
    → line item ≡ some (amount item.quantity * amount item.unit_minor)
unfolding line_of
line_complete item (q, u) small =
    rw (positive_complete item.quantity q, money_complete item.unit_minor u) (ground arith)

total_sound :
    (total : ℕ) (items : List CartItem) {t : ℕ}
    → checked_total_from total items ≡ some t
    → All IsPriced items
      × (total + exact_total items ≡ t)
      × (total ≤ max_safe_integer → t ≤ max_safe_integer)
unfolding checked_total_from
total_sound total [] h = (tt, ground arith, λ s. ground arith)
total_sound total (item ∷ items) {t} h = elim (Option-cases (line item)) [
  | inl missing ↦ ground arith
  | inr (l, is_l) ↦
      let (priced, eq) = line_sound item is_l in
      let fits : total + l ≤ max_safe_integer = ground arith in
      let rest : checked_total_from (total + l) items ≡ some t = ground arith in
      let (others, sum, bound) = total_sound (total + l) items rest in
      ((priced, others), omega (arith, eq, sum), λ _. bound fits)
]

total_complete :
    (total : ℕ) (items : List CartItem)
    → All IsPriced items
    → total + exact_total items ≤ max_safe_integer
    → checked_total_from total items ≡ some (total + exact_total items)
unfolding checked_total_from
total_complete total [] priced small = ground arith
total_complete total (item ∷ items) (priced, rest) small = ground (
  arith,
  line_complete item priced (omega arith),
  total_complete (total + amount item.quantity * amount item.unit_minor) items rest (omega arith),
)

-- checkedTotal returns a total just for the carts whose quantities are positive and prices
-- non-negative safe integers and whose exact sum of quantity times price is a safe integer, and the
-- total is that sum.
pub checked_total_exact :
    (items : List CartItem) (total : ℕ)
    → (checked_total items ≡ some total)
      ↔ (All IsPriced items × (exact_total items ≡ total) × (total ≤ max_safe_integer))
unfolding checked_total
checked_total_exact items total = (
  (λ h.
      let (priced, sum, bound) = total_sound 0 items h in
      (priced, omega (arith, sum), bound (omega arith))),
  (λ p.
      let (priced, sum, bound) = p in
      ground (arith, total_complete 0 items priced (omega (arith, sum, bound)))),
)
