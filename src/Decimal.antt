-- ===== src/Decimal.antt =====
-- src/common/decimal.ts: exact decimal amounts, an integer over a power of ten.
pub mod Digits
pub mod RoundTrip
mod Examples
use logchain.Prelude.{
  ℕ, zero, suc, ◌+◌, ◌-◌, ◌*◌, ◌/◌, ◌^◌, Bool, true, false, not, ◌&&◌, Option, none, some, List, [],
  ◌∷◌, ◌++◌, Text, codes, length, take, drop, all, is_empty, trim, leb, ◌==◌, if◌then◌else◌,
}
use logchain.Json.{decimal}

pub data ℤ : Type 0 where
  pos negsuc : ℕ → ℤ

-- The integer that is opposite to a natural number.
unfoldable pub neg : ℕ → ℤ
neg zero = pos 0
neg (suc k) = negsuc k

unfoldable pub times : ℤ → ℤ → ℤ
unfolding neg
times (pos a) (pos b) = pos (a * b)
times (pos a) (negsuc b) = neg (a * suc b)
times (negsuc a) (pos b) = neg (suc a * b)
times (negsuc a) (negsuc b) = pos (suc a * suc b)

-- The quotient of bigints, which drops the fraction. A divisor is a number of logs, at least one.
unfoldable pub quotient : ℤ → ℕ → ℤ
unfolding neg
quotient (pos a) n = pos (a / n)
quotient (negsuc a) n = neg (suc a / n)

-- `Dec`
pub record Amount : Type 0 where
  pub int : ℤ
  pub scale : ℕ

unfoldable pub is_digit : ℕ → Bool
is_digit c = leb b'0' c && leb c b'9'

-- `\d+`
unfoldable pub is_number : Text → Bool
unfolding is_digit
is_number s = not (is_empty s) && all is_digit s

unfoldable pub read_from : ℕ → Text → ℕ
read_from n [] = n
read_from n (c ∷ s) = read_from (10 * n + (c - b'0')) s

-- `v.split('.')`, cut at the first point: the pattern admits no second one.
unfoldable pub split_dot : Text → Text × Option Text
split_dot [] = ([], none)
split_dot (c ∷ s) =
    let (whole, frac) = split_dot s in if c == b'.' then ([], some s) else (c ∷ whole, frac)

unfoldable pub amount_of : Text → Option Text → Option Amount
unfolding is_number read_from
amount_of whole none =
    if is_number whole then some (record { int = pos (read_from 0 whole); scale = 0 }) else none
amount_of whole (some frac) =
    if is_number whole && is_number frac
    then some (record { int = pos (read_from 0 (whole ++ frac)); scale = length frac })
    else none

unfoldable pub parse_dec : Option Text → Option Amount
unfolding amount_of split_dot trim
parse_dec none = none
parse_dec (some raw) = let (whole, frac) = split_dot (trim raw) in amount_of whole frac

unfoldable pub from_units : ℤ → ℕ → Amount
from_units int scale = record { int = int; scale = scale }

unfoldable pub mul : Amount → Amount → Amount
unfolding times
mul a b = record { int = times a.int b.int; scale = a.scale + b.scale }

unfoldable pub mul_int : Amount → ℤ → Amount
unfolding times
mul_int a n = record { int = times a.int n; scale = a.scale }

-- The default of `extra`
abbrev pub extra_digits : ℕ
extra_digits = 12

unfoldable pub div_int : Amount → ℕ → ℕ → Amount
unfolding times quotient
div_int a n extra = record {
  int = quotient (times a.int (pos (10 ^ extra))) n;
  scale = a.scale + extra;
}

unfoldable pub zeros : ℕ → Text
zeros zero = []
zeros (suc n) = b'0' ∷ zeros n

-- `s.padStart(n, '0')`
unfoldable pub pad_start : ℕ → Text → Text
unfolding zeros
pad_start n s = zeros (n - length s) ++ s

-- `s.replace(/0+$/, '')`
unfoldable pub trim_zeros : Text → Text
trim_zeros [] = []
trim_zeros (c ∷ s) = let rest = trim_zeros s in if is_empty rest && c == b'0' then [] else c ∷ rest

unfoldable pub or_zero : Text → Text
or_zero [] = codes "0"
or_zero (c ∷ s) = c ∷ s

unfoldable pub with_fraction : Text → Text → Text
with_fraction whole [] = whole
with_fraction whole (c ∷ frac) = whole ++ b'.' ∷ c ∷ frac

-- The text of an amount without its sign.
unfoldable pub format_size : ℕ → ℕ → Text
unfolding with_fraction or_zero trim_zeros pad_start decimal
format_size n scale =
    let digits = pad_start (scale + 1) (decimal n) in
    with_fraction (or_zero (take (length digits - scale) digits))
      (trim_zeros (drop (length digits - scale) digits))

unfoldable pub format_int : ℤ → ℕ → Text
unfolding format_size
format_int (pos n) scale = format_size n scale
format_int (negsuc k) scale = b'-' ∷ format_size (suc k) scale

unfoldable pub format_dec : Amount → Text
unfolding format_int
format_dec d = format_int d.int d.scale
