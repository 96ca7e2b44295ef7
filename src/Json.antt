-- ===== src/Json.antt =====
-- `JSON.stringify` of the flat objects that src/logs/services/log-hash.ts hashes. A printer puts its
-- text in front of the text that follows it.
pub mod Laws
pub mod Value
use logchain.Prelude.{
  ℕ, zero, suc, ◌+◌, ◌-◌, ◌*◌, ◌/◌, ◌%◌, ◌<◌, ◌≡◌, refl, ap, ap₂, sym, ◌∙◌, ◌≢◌, Bool, true, false,
  ◌&&◌, ◌||◌, Option, none, some, List, [], ◌∷◌, ◌++◌, inl, inr, Text, codes, ltb, leb, ◌==◌,
  if◌then◌else◌, Bool-cases, arith,
}

abbrev pub hex_digit : ℕ → ℕ
hex_digit n = if ltb n 10 then 48 + n else 87 + n

-- Four lower-case hexadecimal digits.
unfoldable pub hex4 : ℕ → Text
hex4 c =
    hex_digit (c / 4096 % 16)
    ∷ hex_digit (c / 256 % 16)
    ∷ hex_digit (c / 16 % 16)
    ∷ hex_digit (c % 16)
    ∷ []

-- The letter of a two-character escape, `\"` to `\r`.
abbrev pub short_escape : ℕ → Option ℕ
short_escape c =
    if c == 34
    then some 34
    else if c == 92
    then some 92
    else if c == 8
    then some 98
    else if c == 9
    then some 116
    else if c == 10
    then some 110
    else if c == 12
    then some 102
    else if c == 13
    then some 114
    else none

-- A control character, or a lone surrogate.
abbrev pub is_unprintable : ℕ → Bool
is_unprintable c = ltb c 32 || (leb 0xd800 c && leb c 0xdfff)

abbrev pub escape_with : Option ℕ → ℕ → Text
escape_with (some e) c = 92 ∷ e ∷ []
escape_with none c = if is_unprintable c then 92 ∷ 117 ∷ hex4 c else c ∷ []

pub escape : ℕ → Text
escape c = escape_with (short_escape c) c

unfoldable pub put_chars : Text → Text → Text
unfolding escape
put_chars [] rest = rest
put_chars (c ∷ s) rest = escape c ++ put_chars s rest

-- A quoted string in front of `rest`.
unfoldable pub put_text : Text → Text → Text
unfolding put_chars
put_text s rest = b'"' ∷ put_chars s (b'"' ∷ rest)

unfoldable pub put_option : Option Text → Text → Text
unfolding put_text
put_option none rest = codes "null" ++ rest
put_option (some s) rest = put_text s rest

unfoldable pub put_bool : Bool → Text → Text
put_bool true rest = codes "true" ++ rest
put_bool false rest = codes "false" ++ rest

unfoldable pub digits : ℕ → ℕ → Text
digits zero n = []
digits (suc f) n =
    let high = digits f (n / 10) in if ltb n 10 then (48 + n) ∷ [] else high ++ (48 + n % 10) ∷ []

-- A number in decimal. A number has at most as many digits as its value plus one.
unfoldable pub decimal : ℕ → Text
unfolding digits
decimal n = digits (suc n) n
