-- ===== src/Decimal/RoundTrip.antt =====
-- An amount that is printed and read again is the same amount.
use logchain.Prelude.{
  ℕ, zero, suc, ◌+◌, ◌-◌, ◌*◌, ◌^◌, ◌≤◌, ◌<◌, ◌≡◌, refl, sym, ap, ◌∙◌, true, false, Option, none,
  some, [], ◌∷◌, ◌++◌, Text, length, take, drop, all, is_empty, append-nil, append_assoc,
  length-append, length-drop, take-drop, arith,
}
use logchain.Json.{decimal}
use logchain.Decimal.{
  ℤ, pos, negsuc, format_size, Amount, is_digit, is_number, read_from, split_dot, amount_of,
  parse_dec, zeros, pad_start, trim_zeros, or_zero, with_fraction, format_dec,
}
use logchain.Decimal.Digits.{
  read_from-append, read_from-digits, read_from-zeros, read_from-zeros_after, trim_zeros-append,
  all-append, all-parts, zeros-digits, digits-digits, split_dot-number, split_dot-fraction, is_dark,
  trim-dark, length-zeros, dark-digits,
}

amount_of-number :
    (whole : Text)
    → is_empty whole ≡ false
    → all is_digit whole ≡ true
    → amount_of whole none ≡ some (record { int = pos (read_from 0 whole); scale = 0 })
unfolding amount_of is_number
amount_of-number whole n h = rw (n, h) refl

amount_of-fraction :
    (whole frac : Text)
    → is_empty whole ≡ false
    → is_empty frac ≡ false
    → all is_digit whole ≡ true
    → all is_digit frac ≡ true
    → amount_of whole (some frac)
      ≡ some (record { int = pos (read_from 0 (whole ++ frac)); scale = length frac })
unfolding amount_of is_number
amount_of-fraction whole frac n m h k = rw (n, m, h, k) refl

-- A whole number and a fraction without the zeros at its end are read as they stand.
parse_dec-with_fraction :
    (whole frac : Text)
    → is_empty whole ≡ false
    → all is_digit whole ≡ true
    → all is_digit frac ≡ true
    → parse_dec (some (with_fraction whole frac))
      ≡ some (record { int = pos (read_from 0 (whole ++ frac)); scale = length frac })
unfolding parse_dec with_fraction
parse_dec-with_fraction whole [] n h k =
    ap (λ (p : Text × Option Text). amount_of p.0 p.1)
      (ap split_dot (trim-dark whole (dark-digits whole h)) ∙ split_dot-number whole h)
    ∙ amount_of-number whole n h
    ∙ ap (λ t. some (record { int = pos (read_from 0 t); scale = 0 })) (sym (append-nil whole))
parse_dec-with_fraction whole (c ∷ f) n h k =
    ap (λ (p : Text × Option Text). amount_of p.0 p.1)
      (ap split_dot (
          trim-dark (whole ++ b'.' ∷ c ∷ f)
            (all-append is_dark whole _ (dark-digits whole h) (dark-digits (c ∷ f) k)))
        ∙ split_dot-fraction whole (c ∷ f) h)
    ∙ amount_of-fraction whole (c ∷ f) n refl h k

take-nonempty : (n : ℕ) (xs : Text) → 0 < n → n ≤ length xs → is_empty (take n xs) ≡ false
take-nonempty zero xs h k = absurd (omega (arith, h))
take-nonempty (suc n) [] h k = absurd (omega (arith, k))
take-nonempty (suc n) (x ∷ xs) h k = refl

or_zero-nonempty : (s : Text) → is_empty s ≡ false → or_zero s ≡ s
unfolding or_zero
or_zero-nonempty [] h = cc
or_zero-nonempty (c ∷ s) h = refl

with_fraction-dark :
    (whole frac : Text)
    → all is_digit whole ≡ true
    → all is_digit frac ≡ true
    → all is_dark (with_fraction whole frac) ≡ true
unfolding with_fraction
with_fraction-dark whole [] h k = dark-digits whole h
with_fraction-dark whole (c ∷ f) h k =
    all-append is_dark whole _ (dark-digits whole h) (dark-digits (c ∷ f) k)

-- The digits that are printed, before the point is put in.
abbrev padded : ℕ → ℕ → Text
padded n scale = pad_start (scale + 1) (decimal n)

module _ (n scale : ℕ) where
  padded-digits : all is_digit (padded n scale) ≡ true
  unfolding pad_start decimal
  padded-digits = all-append is_digit (zeros _) _ (zeros-digits _) (digits-digits (suc n) n)

  read_from-padded : read_from 0 (padded n scale) ≡ n
  unfolding pad_start decimal
  read_from-padded = read_from-zeros _ _ ∙ read_from-digits (suc n) n (omega arith)

  length-padded : scale < length (padded n scale)
  unfolding pad_start
  length-padded = omega (
    arith,
    length-append (zeros (scale + 1 - length (decimal n))) (decimal n),
    length-zeros (scale + 1 - length (decimal n)),
  )

  abbrev whole_part : Text
  whole_part = take (length (padded n scale) - scale) (padded n scale)

  abbrev frac_part : Text
  frac_part = drop (length (padded n scale) - scale) (padded n scale)

  whole_part-nonempty : is_empty whole_part ≡ false
  whole_part-nonempty =
      take-nonempty (length (padded n scale) - scale) (padded n scale)
        (omega (arith, length-padded)) (omega arith)

  abbrev kept_part : Text
  kept_part = trim_zeros frac_part

  abbrev read_back : ℕ
  read_back = read_from 0 (whole_part ++ kept_part)

  parts-digits : (all is_digit whole_part ≡ true) × (all is_digit frac_part ≡ true)
  parts-digits = all-parts is_digit whole_part frac_part (
      ap (all is_digit) (take-drop (length (padded n scale) - scale) (padded n scale))
      ∙ padded-digits)

  module _ (k : ℕ) (kept : kept_part ++ zeros k ≡ frac_part) where
    kept_part-digits : all is_digit kept_part ≡ true
    kept_part-digits =
        (all-parts is_digit kept_part (zeros k) (ap (all is_digit) kept ∙ parts-digits.1)).0

    read_back-int : read_back * 10 ^ k ≡ n
    read_back-int =
        sym (read_from-zeros_after (read_from 0 (whole_part ++ kept_part)) k)
        ∙ sym (read_from-append 0 (whole_part ++ kept_part) (zeros k))
        ∙ ap (read_from 0) (
            append_assoc whole_part kept_part (zeros k)
            ∙ ap (◌++◌ whole_part) kept
            ∙ take-drop (length (padded n scale) - scale) (padded n scale))
        ∙ read_from-padded

    read_back-scale : length kept_part + k ≡ scale
    read_back-scale =
        ap (λ m. length kept_part + m) (sym (length-zeros k))
        ∙ sym (length-append kept_part (zeros k))
        ∙ ap length kept
        ∙ length-drop (length (padded n scale) - scale) (padded n scale)
        ∙ omega (arith, length-padded)

  -- What reading gives for the text of an amount that is not negative.
  pub record ReadsSize (text : Text) : Type 0 where
    pub size : ℕ
    pub digits_left : ℕ
    pub zeros_cut : ℕ
    pub read : parse_dec (some text) ≡ some (record { int = pos size; scale = digits_left })
    pub int : size * 10 ^ zeros_cut ≡ n
    pub scale_left : digits_left + zeros_cut ≡ scale

  format_size-ReadsSize : ReadsSize (format_size n scale)
  unfolding format_size
  format_size-ReadsSize =
      let (k, kept) = trim_zeros-append frac_part in
      record {
        size = read_back;
        digits_left = length kept_part;
        zeros_cut = k;
        read =
            ap (λ w. parse_dec (some (with_fraction w kept_part)))
              (or_zero-nonempty whole_part whole_part-nonempty)
            ∙ parse_dec-with_fraction whole_part kept_part whole_part-nonempty parts-digits.0
                (kept_part-digits k kept);
        int = read_back-int k kept;
        scale_left = read_back-scale k kept;
      }

  format_size-dark : all is_dark (format_size n scale) ≡ true
  unfolding format_size
  format_size-dark =
      let (k, kept) = trim_zeros-append frac_part in
      ap (λ w. all is_dark (with_fraction w kept_part))
        (or_zero-nonempty whole_part whole_part-nonempty)
      ∙ with_fraction-dark whole_part kept_part parts-digits.0 (kept_part-digits k kept)

-- A text that begins with a minus is no positive decimal.
parse_dec-minus : (t : Text) → all is_dark t ≡ true → parse_dec (some (b'-' ∷ t)) ≡ none
unfolding parse_dec
parse_dec-minus t h =
    ap (λ s. amount_of (split_dot s).0 (split_dot s).1) (trim-dark (b'-' ∷ t) h)
    ∙ refused (split_dot t).0 (split_dot t).1
  where
    refused : (w : Text) (f : Option Text) → amount_of (b'-' ∷ w) f ≡ none
    refused w none = refl
    refused w (some f) = refl

-- The text of an amount: of one that is not negative it is read as the amount, up to zeros at the
-- end of its fraction; of a negative one it is refused.
abbrev pub ReadsBack : Amount → Type 0
ReadsBack d = elim d.int [
  | pos n ↦ ReadsSize n d.scale (format_dec d)
  | negsuc k ↦ parse_dec (some (format_dec d)) ≡ none
]

-- An amount that is not negative, printed, is read again as the same amount up to the zeros at the
-- end of its fraction: with them put back, its integer and its scale are those of the amount. The
-- text of a negative amount is refused.
pub format_dec-ReadsBack : (d : Amount) → ReadsBack d
unfolding format_dec
format_dec-ReadsBack d = go d.int d.scale
  where
    go : (i : ℤ) (scale : ℕ) → ReadsBack (record { int = i; scale = scale })
    go (pos n) scale = format_size-ReadsSize n scale
    go (negsuc k) scale =
        parse_dec-minus (format_size (suc k) scale) (format_size-dark (suc k) scale)
