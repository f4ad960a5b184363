-- ===== src/Json.antt =====
-- JSON as the code prints it: `JSON.stringify` of texts and integers, and `stableStringify` of
-- src/actionBinding.ts. A surrogate in a text is a lone one, since a pair is one code point.
pub mod Decimal
mod Tests
use h3_protocol.Prelude.Int.{ℤ, pos, negsuc}
use h3_protocol.Prelude.Texts.{Text, codes}
use h3_protocol.Prelude.{
  Option, none, some, ℕ, zero, suc, ◌+◌, ◌/◌, ◌%◌, Bool, true, false, ◌&&◌, ◌||◌, List, [], ◌∷◌,
  ◌++◌, ltb, leb, ◌==◌, if◌then◌else◌,
}

-- The decimal digits of a number, on fuel: the number itself suffices.
unfoldable pub decimal_digits : ℕ → ℕ → Text
decimal_digits zero n = (b'0' + n % 10) ∷ []
decimal_digits (suc fuel) n =
    let front = decimal_digits fuel (n / 10) in
    if ltb n 10 then (b'0' + n) ∷ [] else front ++ (b'0' + n % 10) ∷ []

unfoldable pub decimal : ℕ → Text
decimal n = decimal_digits n n

-- An integer as `String` prints it, up to 10^21.
unfoldable pub integer : ℤ → Text
integer (pos n) = decimal n
integer (negsuc n) = b'-' ∷ decimal (suc n)

unfoldable pub hex_digit : ℕ → ℕ
hex_digit d = if ltb d 10 then 48 + d else 87 + d

-- `\\uXXXX`
unfoldable pub unicode_escape : ℕ → Text
unicode_escape c =
    b'\\'
    ∷ b'u'
    ∷ hex_digit (c / 4096 % 16)
    ∷ hex_digit (c / 256 % 16)
    ∷ hex_digit (c / 16 % 16)
    ∷ hex_digit (c % 16)
    ∷ []

unfoldable pub escape : ℕ → Text
escape c =
    if c == 34
    then b'\\' ∷ 34 ∷ []
    else if c == 92
    then b'\\' ∷ 92 ∷ []
    else if c == 8
    then b'\\' ∷ b'b' ∷ []
    else if c == 9
    then b'\\' ∷ b't' ∷ []
    else if c == 10
    then b'\\' ∷ b'n' ∷ []
    else if c == 12
    then b'\\' ∷ b'f' ∷ []
    else if c == 13
    then b'\\' ∷ b'r' ∷ []
    else if ltb c 32 || leb 0xd800 c && leb c 0xdfff
    then unicode_escape c
    else c ∷ []

unfoldable pub escape_all : Text → Text
escape_all [] = []
escape_all (c ∷ s) = escape c ++ escape_all s

-- `JSON.stringify` of a text.
unfoldable pub quote : Text → Text
quote s = 34 ∷ (escape_all s ++ 34 ∷ [])

-- `.join(',')`
unfoldable pub join_commas : List Text → Text
join_commas [] = []
join_commas (x ∷ []) = x
join_commas (x ∷ y ∷ xs) = x ++ (b',' ∷ join_commas (y ∷ xs))

-- `"name":value`
unfoldable pub field : Text → Text → Text
field name value = quote name ++ (b':' ∷ value)

-- `if (value !== undefined) parts.push(…)`
unfoldable pub optional : Text → Option Text → List Text
optional name none = []
optional name (some value) = field name value ∷ []

abbrev pub map_option {ℓ κ} : {A : Type ℓ} {B : Type κ} → (A → B) → Option A → Option B
map_option f none = none
map_option f (some a) = some (f a)

unfoldable pub braces : List Text → Text
braces parts = b'{' ∷ (join_commas parts ++ b'}' ∷ [])

-- The values that the signed statements hold.
mutual
  pub data Value : Type 0 where
    null : Value
    bool : Bool → Value
    number : ℤ → Value
    text : Text → Value
    array : Values → Value
    object : Members → Value

  pub data Values : Type 0 where
    nil : Values
    cons : Value → Values → Values

  -- The own keys of an object are distinct.
  pub data Members : Type 0 where
    end : Members
    member : Text → Value → Members → Members

-- `<` on texts, by code units.
unfoldable pub text_lt : Text → Text → Bool
text_lt s [] = false
text_lt [] (b ∷ t) = true
text_lt (a ∷ s) (b ∷ t) = ltb a b || (a == b && text_lt s t)

unfoldable pub insert_member : Text → Value → Members → Members
insert_member k v end = member k v end
insert_member k v (member j w m) =
    let later = insert_member k v m in
    if text_lt j k then member j w later else member k v (member j w m)

-- The members of each object in the order of `Object.keys(obj).sort()`.
unfoldable mutual
  pub sorted : Value → Value
  sorted null = null
  sorted (bool b) = bool b
  sorted (number n) = number n
  sorted (text s) = text s
  sorted (array vs) = array (sorted_values vs)
  sorted (object m) = object (sorted_members m)

  pub sorted_values : Values → Values
  sorted_values nil = nil
  sorted_values (cons v vs) = cons (sorted v) (sorted_values vs)

  pub sorted_members : Members → Members
  sorted_members end = end
  sorted_members (member k v m) = insert_member k (sorted v) (sorted_members m)

unfoldable mutual
  pub stringify : Value → Text
  stringify null = codes "null"
  stringify (bool true) = codes "true"
  stringify (bool false) = codes "false"
  stringify (number n) = integer n
  stringify (text s) = quote s
  stringify (array vs) = b'[' ∷ (stringify_values vs ++ b']' ∷ [])
  stringify (object m) = b'{' ∷ (stringify_members m ++ b'}' ∷ [])

  pub stringify_values : Values → Text
  stringify_values nil = []
  stringify_values (cons v nil) = stringify v
  stringify_values (cons v (cons w vs)) = stringify v ++ (b',' ∷ stringify_values (cons w vs))

  pub stringify_members : Members → Text
  stringify_members end = []
  stringify_members (member k v end) = quote k ++ (b':' ∷ stringify v)
  stringify_members (member k v (member j w m)) =
      (quote k ++ (b':' ∷ stringify v)) ++ (b',' ∷ stringify_members (member j w m))

unfoldable pub stable_stringify : Value → Text
stable_stringify v = stringify (sorted v)
