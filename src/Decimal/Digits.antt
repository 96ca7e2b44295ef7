-- ===== src/Decimal/Digits.antt =====
-- Texts of digits: what is printed, padded, cut and read.
use logchain.Prelude.{
  ℕ, zero, suc, ◌+◌, ◌-◌, ◌*◌, ◌/◌, ◌%◌, ◌^◌, ◌<◌, ◌≡◌, refl, sym, ap, ap₂, ◌∙◌, subst, Bool, true,
  false, not, ◌&&◌, none, some, [], ◌∷◌, ◌++◌, Text, length, all, is_empty, trim, trim_start,
  trim_end, is_space, leb, ltb, ◌==◌, if_both, and-true, arith,
}
use native.Mathlib.Numerals.{unary_clauses}
use native.Mathlib.Nat.{mul_assoc, mul_comm}
use logchain.Json.{digits}
use logchain.Decimal.{is_digit, read_from, split_dot, zeros, trim_zeros}

pub read_from-append : (n : ℕ) (s t : Text) → read_from n (s ++ t) ≡ read_from (read_from n s) t
unfolding read_from
read_from-append n [] t = refl
read_from-append n (c ∷ s) t = read_from-append (10 * n + (c - b'0')) s t

pub read_from-digits : (f n : ℕ) → n < f → read_from 0 (digits f n) ≡ n
unfolding read_from digits
read_from-digits zero n h = omega arith
read_from-digits (suc f) n h =
    if_both (λ s. read_from 0 s ≡ n) (ltb n 10) _ _ (λ y. omega arith)
      (λ k.
        read_from-append 0 (digits f (n / 10)) _
        ∙ ap (λ m. 10 * m + (48 + n % 10 - 48)) (read_from-digits f (n / 10) (smaller k))
        ∙ omega arith)
  where
    smaller : ltb n 10 ≡ false → n / 10 < f
    smaller k = grind (arith, h, k)

pub read_from-zeros : (k : ℕ) (s : Text) → read_from 0 (zeros k ++ s) ≡ read_from 0 s
unfolding read_from zeros
read_from-zeros zero s = refl
read_from-zeros (suc k) s = read_from-zeros k s

scaled : (n p : ℕ) → 10 * n * p ≡ n * (p * 10)
scaled n p = ap (λ x. x * p) (mul_comm 10 n) ∙ mul_assoc n 10 p ∙ ap (◌*◌ n) (mul_comm 10 p)

pub read_from-zeros_after : (n k : ℕ) → read_from n (zeros k) ≡ n * 10 ^ k
unfolding read_from zeros
read_from-zeros_after n zero = omega arith
read_from-zeros_after n (suc k) =
    read_from-zeros_after (10 * n + 0) k ∙ simp unary_clauses (scaled n (10 ^ k))

pub trim_zeros-append : (s : Text) → (k : ℕ) × (trim_zeros s ++ zeros k ≡ s)
unfolding trim_zeros zeros
trim_zeros-append [] = (0, refl)
trim_zeros-append (c ∷ s) =
    let (k, e) = trim_zeros-append s in
    if_both (λ t. (j : ℕ) × (t ++ zeros j ≡ c ∷ s)) (is_empty (trim_zeros s) && c == b'0') _ _
      (λ y. (suc k, ap₂ ◌∷◌ (sym (zero_digit y)) (all_zeros k e y))) (λ n. (k, ap (◌∷◌ c) e))
  where
    zero_digit : is_empty (trim_zeros s) && c == b'0' ≡ true → c ≡ b'0'
    zero_digit y = grind (arith, y)

    empty : (t : Text) → is_empty t ≡ true → t ≡ []
    empty [] h = refl
    empty (x ∷ t) h = cc

    all_zeros :
        (k : ℕ)
        → trim_zeros s ++ zeros k ≡ s
        → is_empty (trim_zeros s) && c == b'0' ≡ true
        → zeros k ≡ s
    all_zeros k e y = subst (λ t. t ++ zeros k ≡ s) (empty (trim_zeros s) (and-true _ _ y).0) e

pub all-append :
    (p : ℕ → Bool) (s t : Text) → all p s ≡ true → all p t ≡ true → all p (s ++ t) ≡ true
all-append p [] t h k = k
all-append p (c ∷ s) t h k = let (a, b) = and-true (p c) (all p s) h in rw (a, all-append p s t b k)

pub all-parts :
    (p : ℕ → Bool) (s t : Text) → all p (s ++ t) ≡ true → (all p s ≡ true) × (all p t ≡ true)
all-parts p [] t h = (refl, h)
all-parts p (c ∷ s) t h =
    let (a, b) = and-true (p c) (all p (s ++ t)) h in
    let (q, r) = all-parts p s t b in (rw (a, q), r)

pub zeros-digits : (k : ℕ) → all is_digit (zeros k) ≡ true
unfolding zeros is_digit
zeros-digits zero = refl
zeros-digits (suc k) = zeros-digits k

pub digits-digits : (f n : ℕ) → all is_digit (digits f n) ≡ true
unfolding digits is_digit
digits-digits zero n = refl
digits-digits (suc f) n =
    if_both (λ s. all is_digit s ≡ true) (ltb n 10) _ _ (λ y. grind (arith, y))
      (λ k. all-append is_digit (digits f (n / 10)) _ (digits-digits f (n / 10)) (grind arith))

-- No digit is a point.
no_point : (c : ℕ) → is_digit c ≡ true → (c == b'.') ≡ false
unfolding is_digit
no_point c h = grind (arith, h)

pub split_dot-number : (s : Text) → all is_digit s ≡ true → split_dot s ≡ (s, none)
unfolding split_dot is_digit
split_dot-number [] h = refl
split_dot-number (c ∷ s) h =
    let (a, b) = and-true _ _ h in rw (no_point c a, split_dot-number s b) refl

pub split_dot-fraction :
    (s t : Text) → all is_digit s ≡ true → split_dot (s ++ b'.' ∷ t) ≡ (s, some t)
unfolding split_dot is_digit
split_dot-fraction [] t h = refl
split_dot-fraction (c ∷ s) t h =
    let (a, b) = and-true _ _ h in rw (no_point c a, split_dot-fraction s t b) refl

abbrev pub is_dark : ℕ → Bool
is_dark c = not (is_space c)

not_space : (c : ℕ) → is_dark c ≡ true → is_space c ≡ false
not_space c h = no (is_space c) h
  where
    no : (b : Bool) → not b ≡ true → b ≡ false
    no true h = cc
    no false h = refl

trim_start-dark : (s : Text) → all is_dark s ≡ true → trim_start s ≡ s
unfolding trim_start
trim_start-dark [] h = refl
trim_start-dark (c ∷ s) h = rw (not_space c (and-true _ _ h).0) refl

trim_end-dark : (s : Text) → all is_dark s ≡ true → trim_end s ≡ s
unfolding trim_end
trim_end-dark [] h = refl
trim_end-dark (c ∷ []) h = rw (not_space c (and-true _ _ h).0) refl
trim_end-dark (c ∷ d ∷ s) h =
    rw (trim_end-dark (d ∷ s) (and-true (is_dark c) (all is_dark (d ∷ s)) h).1) refl

pub trim-dark : (s : Text) → all is_dark s ≡ true → trim s ≡ s
unfolding trim
trim-dark s h = ap trim_end (trim_start-dark s h) ∙ trim_end-dark s h

pub length-zeros : (k : ℕ) → length (zeros k) ≡ k
unfolding zeros
length-zeros zero = refl
length-zeros (suc k) = ap suc (length-zeros k)

pub dark-digits : (s : Text) → all is_digit s ≡ true → all is_dark s ≡ true
unfolding is_digit
dark-digits [] h = refl
dark-digits (c ∷ s) h = let (a, b) = and-true _ _ h in rw (dark c a, dark-digits s b)
  where
    dark : (c : ℕ) → leb b'0' c && leb c b'9' ≡ true → is_dark c ≡ true
    dark c h = grind (arith, h)
