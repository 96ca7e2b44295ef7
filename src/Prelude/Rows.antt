-- ===== src/Prelude/Rows.antt =====
-- A row of a table: it is one of the rows, and its id finds it.
use mathlib.Core.Path.{◌≡◌, ap, sym, ◌∙◌, subst}
use native.Mathlib.Omega.{arith}
use mathlib.Core.Logic.{◌⊎◌, inl, inr}
use mathlib.Core.Bool.{Bool, true, false}
use mathlib.Core.Option.{some}
use mathlib.Core.List.{List, [], ◌∷◌, map}
use logchain.Prelude.Tests.{Bool-cases, or-false}
use logchain.Prelude.Lists.{filter, find, is_empty}
use logchain.Prelude.Texts.{Text, text_eq, text_eq_refl}
use logchain.Prelude.Sort.{has_id, IsKeyed}

module _ {A : Type 0} where
  abbrev pub In : A → List A → Type 0
  In x [] = ⊥
  In x (y ∷ ys) = (y ≡ x) ⊎ In x ys

  pub In-filter : (p : A → Bool) (x : A) (xs : List A) → In x xs → p x ≡ true → In x (filter p xs)
  In-filter p x [] m h = m
  In-filter p x (y ∷ ys) (inl e) h = rw (ap p e, h) (inl e)
  In-filter p x (y ∷ ys) (inr m) h = elim (Bool-cases (p y)) [
    | inl k ↦ rw k (inr (In-filter p x ys m h))
    | inr k ↦ rw k (In-filter p x ys m h)
  ]

  pub filter-nonempty :
      (p : A → Bool) (x : A) (xs : List A) → In x xs → p x ≡ true → is_empty (filter p xs) ≡ false
  filter-nonempty p x [] m h = absurd m
  filter-nonempty p x (y ∷ ys) (inl e) h = rw (ap p e, h)
  filter-nonempty p x (y ∷ ys) (inr m) h = elim (Bool-cases (p y)) [
    | inl k ↦ rw k
    | inr k ↦ rw k (filter-nonempty p x ys m h)
  ]

  -- What `find` returns is a row that passes the test.
  pub find-In :
      (p : A → Bool) (w : A) (rows : List A) → find p rows ≡ some w → In w rows × (p w ≡ true)
  find-In p w [] h = cc
  find-In p w (a ∷ rows) h = elim (Bool-cases (p a)) [
    | inl y ↦ (inl (same y), subst (λ x. p x ≡ true) (same y) y)
    | inr n ↦ let (m, q) = find-In p w rows (skip n) in (inr m, q)
  ]
    where
      same : p a ≡ true → a ≡ w
      same y = grind (arith, y, h)

      skip : p a ≡ false → find p rows ≡ some w
      skip n = grind (arith, n, h)

  module _ (id : A → Text) where
    -- A row that is in a table has another id than one that is not.
    pub In-other :
        (i : Text) (x : A) (xs : List A)
        → In x xs
        → has_id id i xs ≡ false
        → text_eq i (id x) ≡ false
    In-other i x [] m h = absurd m
    In-other i x (y ∷ ys) m h =
        let (ne, rest) = or-false (text_eq i (id y)) (has_id id i ys) h in
        elim m [ inl e ↦ ap (λ z. text_eq i (id z)) (sym e) ∙ ne | inr k ↦ In-other i x ys k rest ]

    pub In-find :
        (x : A) (xs : List A)
        → In x xs
        → IsKeyed id xs
        → find (λ y. text_eq (id y) (id x)) xs ≡ some x
    In-find x [] m k = absurd m
    In-find x (y ∷ ys) (inl e) k = rw (ap id e, text_eq_refl (id x)) (ap some e)
    In-find x (y ∷ ys) (inr m) k = rw (In-other (id y) x ys m k.0) (In-find x ys m k.1)

pub In-map : {A B : Type 0} (f : A → B) (x : A) (xs : List A) → In x xs → In (f x) (map f xs)
In-map f x [] m = absurd m
In-map f x (y ∷ ys) (inl e) = inl (ap f e)
In-map f x (y ∷ ys) (inr m) = inr (In-map f x ys m)
