-- ===== src/Json/Tests.antt =====
-- Runs of the printers of JSON.
use h3_protocol.Json.{
  array, object, number, cons, nil, member, end, decimal_digits, decimal, hex_digit, unicode_escape,
  escape, escape_all, quote, integer, text_lt, insert_member, sorted, stringify, stable_stringify,
}
use h3_protocol.Prelude.Int.{pos, negsuc}
use h3_protocol.Prelude.Texts.{codes}
use h3_protocol.Prelude.{◌≡◌, refl, [], ◌∷◌, ◌++◌}

quoted : quote (codes "a" ++ (10 ∷ 1 ∷ [])) ≡ 34 ∷ (codes "a\\n\\u0001" ++ 34 ∷ [])
unfolding quote escape_all escape unicode_escape hex_digit
quoted = refl

-- The keys come in order.
two_members :
    stable_stringify (
      object (
        member
          (codes "b")
          (number (negsuc 1))
          (member (codes "a") (array (cons (number (pos 10)) nil)) end)))
    ≡ 123 ∷ (quote (codes "a") ++ (codes ":[10]," ++ (quote (codes "b") ++ codes ":-2}")))
unfolding stable_stringify sorted insert_member text_lt stringify quote escape_all escape integer
    decimal decimal_digits
two_members = refl
