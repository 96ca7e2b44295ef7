-- ===== src/Json/Laws.antt =====
-- Reading a printed JSON string back from the front of a text.
use logchain.Prelude.{
  ℕ, ◌+◌, ◌-◌, ◌*◌, ◌/◌, ◌%◌, ◌<◌, ◌≡◌, refl, ap, ap₂, sym, ◌∙◌, ◌≢◌, Bool, true, false, Option,
  none, some, [], ◌∷◌, ◌++◌, inl, inr, Text, ltb, ◌==◌, if◌then◌else◌, Bool-cases, arith,
}
use logchain.Json.{
  hex_digit, hex4, short_escape, is_unprintable, escape_with, escape, put_chars, put_text,
  put_option, put_bool,
}

-- The inverse of `escape`, for the proofs: the first character of a string's body.
abbrev unhex : ℕ → ℕ
unhex d = if ltb d 58 then d - 48 else d - 87

abbrev unescape : ℕ → ℕ
unescape e =
    if e == 98
    then 8
    else if e == 116
    then 9
    else if e == 110
    then 10
    else if e == 102
    then 12
    else if e == 114
    then 13
    else e

abbrev read_hex : Text → Option (ℕ × Text)
read_hex (a ∷ b ∷ c ∷ d ∷ r) = some (unhex a * 4096 + unhex b * 256 + unhex c * 16 + unhex d, r)
read_hex _ = none

abbrev read_escaped : Text → Option (ℕ × Text)
read_escaped [] = none
read_escaped (e ∷ r) = let h = read_hex r in if e == 117 then h else some (unescape e, r)

read_char : Text → Option (ℕ × Text)
read_char [] = none
read_char (c ∷ r) =
    let e = read_escaped r in if c == 34 then none else if c == 92 then e else some (c, r)

unhex-hex_digit : (n : ℕ) → n < 16 → unhex (hex_digit n) ≡ n
unhex-hex_digit n h = ground arith

hex4_value :
    (c : ℕ)
    → c < 65536
    → unhex (hex_digit (c / 4096 % 16)) * 4096
        + unhex (hex_digit (c / 256 % 16)) * 256
        + unhex (hex_digit (c / 16 % 16)) * 16
        + unhex (hex_digit (c % 16))
      ≡ c
hex4_value c h =
    rw
      (
        unhex-hex_digit (c / 4096 % 16) (omega arith),
        unhex-hex_digit (c / 256 % 16) (omega arith),
        unhex-hex_digit (c / 16 % 16) (omega arith),
        unhex-hex_digit (c % 16) (omega arith),
      )
      (omega arith)

read_hex-hex4 : (c : ℕ) (r : Text) → c < 65536 → read_hex (hex4 c ++ r) ≡ some (c, r)
unfolding hex4
read_hex-hex4 c r h = ap (λ (n : ℕ). some (n, r)) (hex4_value c h)

small_of_unprintable : (c : ℕ) → is_unprintable c ≡ true → c < 65536
small_of_unprintable c h = ground arith

read_char_short :
    (c e : ℕ) (r : Text) → short_escape c ≡ some e → read_char (92 ∷ e ∷ r) ≡ some (c, r)
unfolding read_char
read_char_short c e r h = ground arith

plain_char : (c : ℕ) → short_escape c ≡ none → (c == 34 ≡ false) × (c == 92 ≡ false)
plain_char c h = ground arith

read_char_long :
    (c : ℕ) (r : Text) → short_escape c ≡ none → read_char (escape_with none c ++ r) ≡ some (c, r)
unfolding read_char
read_char_long c r h = elim (Bool-cases (is_unprintable c)) [
  | inl u ↦ rw u (read_hex-hex4 c r (small_of_unprintable c u))
  | inr p ↦ let (q, b) = plain_char c h in rw (p, q, b)
]

read_char-escape : (c : ℕ) (r : Text) → read_char (escape c ++ r) ≡ some (c, r)
unfolding escape
read_char-escape c r = go (short_escape c) refl
  where
    go : (o : Option ℕ) → short_escape c ≡ o → read_char (escape_with o c ++ r) ≡ some (c, r)
    go (some e) h = read_char_short c e r h
    go none h = read_char_long c r h

read_char_end : (r : Text) → read_char (b'"' ∷ r) ≡ none
unfolding read_char
read_char_end r = refl

escape_inj : (c d : ℕ) (x y : Text) → escape c ++ x ≡ escape d ++ y → (c ≡ d) × (x ≡ y)
escape_inj c d x y h =
    let e : ◌≡◌ {A = Option (ℕ × Text)} (some (c, x)) (some (d, y)) =
      sym (read_char-escape c x) ∙ ap read_char h ∙ read_char-escape d y in
    (cc, cc)

escape_ne_end : (c : ℕ) (x r : Text) → escape c ++ x ≢ b'"' ∷ r
escape_ne_end c x r h = cc (ap read_char h, read_char_end r, read_char-escape c x)

put_chars_inj :
    (s t r r' : Text) → put_chars s (b'"' ∷ r) ≡ put_chars t (b'"' ∷ r') → (s ≡ t) × (r ≡ r')
unfolding put_chars
put_chars_inj [] [] r r' h = (refl, cc)
put_chars_inj [] (d ∷ t) r r' h = absurd (escape_ne_end d (put_chars t (b'"' ∷ r')) r (sym h))
put_chars_inj (c ∷ s) [] r r' h = absurd (escape_ne_end c (put_chars s (b'"' ∷ r)) r' h)
put_chars_inj (c ∷ s) (d ∷ t) r r' h =
    let (heads, tails) = escape_inj c d (put_chars s (b'"' ∷ r)) (put_chars t (b'"' ∷ r')) h in
    let (same, rest) = put_chars_inj s t r r' tails in (ap₂ ◌∷◌ heads same, rest)

pub put_text_inj : (s t r r' : Text) → put_text s r ≡ put_text t r' → (s ≡ t) × (r ≡ r')
unfolding put_text
put_text_inj s t r r' h = put_chars_inj s t r r' cc

pub put_option_inj :
    (s t : Option Text) (r r' : Text) → put_option s r ≡ put_option t r' → (s ≡ t) × (r ≡ r')
unfolding put_option
put_option_inj none none r r' h = (refl, cc)
put_option_inj none (some t) r r' h = absurd (grind arith)
put_option_inj (some s) none r r' h = absurd (grind arith)
put_option_inj (some s) (some t) r r' h = let (e, f) = put_text_inj s t r r' h in (ap some e, f)

pub put_bool_inj : (a b : Bool) (r r' : Text) → put_bool a r ≡ put_bool b r' → (a ≡ b) × (r ≡ r')
unfolding put_bool
put_bool_inj true true r r' h = (refl, cc)
put_bool_inj true false r r' h = absurd (grind arith)
put_bool_inj false true r r' h = absurd (grind arith)
put_bool_inj false false r r' h = (refl, cc)

pub append_cancel : (k r r' : Text) → k ++ r ≡ k ++ r' → r ≡ r'
append_cancel [] r r' h = h
append_cancel (a ∷ k) r r' h = append_cancel k r r' cc
