-- ===== src/Prelude/Sort.antt =====
-- `ORDER BY`: insertion sort by a Boolean order, how it meets `WHERE` and `LIMIT`, and selecting
-- the rows of a query once more by their ids.
use Prim.Native.Nat.{ℕ, zero, suc}
use mathlib.Core.Path.{◌≡◌, refl, ap, sym, subst, ◌∙◌}
use mathlib.Core.Logic.{inl, inr}
use mathlib.Core.Bool.{Bool, true, false, ◌||◌}
use mathlib.Core.List.{List, [], ◌∷◌}
use native.Mathlib.Omega.{arith}
use logchain.Prelude.Tests.{if◌then◌else◌, Bool-cases, or-false, or_true}
use logchain.Prelude.Lists.{take, filter, any, All, filter-congr, filter_none, length}
use logchain.Prelude.Texts.{Text, text_eq, text_eq_refl, text_eq_comm}

module _ {ℓ} {A : Type ℓ} (le : A → A → Bool) where
  unfoldable pub insert : A → List A → List A
  insert x [] = x ∷ []
  insert x (y ∷ ys) = let rest = insert x ys in if le x y then x ∷ y ∷ ys else y ∷ rest

  unfoldable pub sort : List A → List A
  unfolding insert
  sort [] = []
  sort (x ∷ xs) = insert x (sort xs)

  -- Each row comes before all that follow it.
  abbrev pub IsSorted : List A → Type 0
  IsSorted [] = Unit
  IsSorted (x ∷ xs) = All (λ y. le x y ≡ true) xs × IsSorted xs

module _ {ℓ} {A : Type ℓ} (le : A → A → Bool) (total : (x y : A) → le x y ≡ false → le y x ≡ true)
    (trans : (x y z : A) → le x y ≡ true → le y z ≡ true → le x z ≡ true) where
  All-below :
      (x y : A) (ys : List A)
      → le x y ≡ true
      → All (λ z. le y z ≡ true) ys
      → All (λ z. le x z ≡ true) ys
  All-below x y [] h k = tt
  All-below x y (z ∷ zs) h k = (trans x y z h k.0, All-below x y zs h k.1)

  All-insert :
      (x y : A) (ys : List A)
      → le y x ≡ true
      → All (λ z. le y z ≡ true) ys
      → All (λ z. le y z ≡ true) (insert le x ys)
  unfolding insert
  All-insert x y [] h k = (h, tt)
  All-insert x y (z ∷ zs) h k = elim (Bool-cases (le x z)) [
    | inl e ↦ rw e (h, k)
    | inr e ↦ rw e (k.0, All-insert x y zs h k.1)
  ]

  insert-IsSorted : (x : A) (ys : List A) → IsSorted le ys → IsSorted le (insert le x ys)
  unfolding insert
  insert-IsSorted x [] s = (tt, tt)
  insert-IsSorted x (y ∷ ys) s = elim (Bool-cases (le x y)) [
    | inl e ↦ rw e ((e, All-below x y ys e s.0), s)
    | inr e ↦ rw e (All-insert x y ys (total x y e) s.0, insert-IsSorted x ys s.1)
  ]

  pub sort-IsSorted : (xs : List A) → IsSorted le (sort le xs)
  unfolding sort
  sort-IsSorted [] = tt
  sort-IsSorted (x ∷ xs) = insert-IsSorted x (sort le xs) (sort-IsSorted xs)

  insert_front : (x : A) (ys : List A) → All (λ z. le x z ≡ true) ys → insert le x ys ≡ x ∷ ys
  unfolding insert
  insert_front x [] h = refl
  insert_front x (y ∷ ys) h = rw h.0

  All-filter_below :
      (x : A) (p : A → Bool) (ys : List A)
      → All (λ z. le x z ≡ true) ys
      → All (λ z. le x z ≡ true) (filter p ys)
  All-filter_below x p [] h = tt
  All-filter_below x p (y ∷ ys) h = elim (Bool-cases (p y)) [
    | inl e ↦ rw e (h.0, All-filter_below x p ys h.1)
    | inr e ↦ rw e (All-filter_below x p ys h.1)
  ]

  filter-insert_in :
      (p : A → Bool) (x : A) (ys : List A)
      → IsSorted le ys
      → p x ≡ true
      → filter p (insert le x ys) ≡ insert le x (filter p ys)
  unfolding insert
  filter-insert_in p x [] s h = rw h
  filter-insert_in p x (y ∷ ys) s h = elim (Bool-cases (le x y)) [
    | inl e ↦ rw (
      e,
      h,
      insert_front x (filter p (y ∷ ys))
          (All-filter_below x p (y ∷ ys) (e, All-below x y ys e s.0)),
    )
    | inr e ↦ elim (Bool-cases (p y)) [
      | inl k ↦ rw (e, k, filter-insert_in p x ys s.1 h, e)
      | inr k ↦ rw (e, k, filter-insert_in p x ys s.1 h)
    ]
  ]

  filter-insert_out :
      (p : A → Bool) (x : A) (ys : List A) → p x ≡ false → filter p (insert le x ys) ≡ filter p ys
  unfolding insert
  filter-insert_out p x [] h = rw h
  filter-insert_out p x (y ∷ ys) h = ground (arith, filter-insert_out p x ys)

  -- `WHERE` and `ORDER BY` commute.
  pub filter-sort : (p : A → Bool) (xs : List A) → filter p (sort le xs) ≡ sort le (filter p xs)
  unfolding sort
  filter-sort p [] = refl
  filter-sort p (x ∷ xs) = elim (Bool-cases (p x)) [
    | inl e ↦ rw (filter-insert_in p x (sort le xs) (sort-IsSorted xs) e, filter-sort p xs, e)
    | inr e ↦ rw (filter-insert_out p x (sort le xs) e, filter-sort p xs, e)
  ]

module _ {ℓ} {A : Type ℓ} (le : A → A → Bool) (p : A → Bool) where
  any-insert : (x : A) (ys : List A) → any p (insert le x ys) ≡ (p x || any p ys)
  unfolding insert
  any-insert x [] = refl
  any-insert x (y ∷ ys) = ground (arith, any-insert x ys)

  pub any-sort : (xs : List A) → any p (sort le xs) ≡ any p xs
  unfolding sort
  any-sort [] = refl
  any-sort (x ∷ xs) = rw (any-insert x (sort le xs), any-sort xs)

module _ {ℓ} {A : Type ℓ} (le : A → A → Bool) where
  length-insert : (x : A) (ys : List A) → length (insert le x ys) ≡ suc (length ys)
  unfolding insert
  length-insert x [] = refl
  length-insert x (y ∷ ys) = ground (arith, length-insert x ys)

  pub length-sort : (xs : List A) → length (sort le xs) ≡ length xs
  unfolding sort
  length-sort [] = refl
  length-sort (x ∷ xs) = rw (length-insert x (sort le xs), length-sort xs)

module _ {ℓ} {A : Type ℓ} (id : A → Text) where
  -- A row with this id is in the list.
  abbrev pub has_id : Text → List A → Bool
  has_id i xs = any (λ x. text_eq i (id x)) xs

  -- A primary key: no two rows have the same id.
  abbrev pub IsKeyed : List A → Type 0
  IsKeyed [] = Unit
  IsKeyed (x ∷ xs) = (has_id (id x) xs ≡ false) × IsKeyed xs

  pub has_id-filter :
      (i : Text) (p : A → Bool) (xs : List A) → has_id i xs ≡ false → has_id i (filter p xs) ≡ false
  has_id-filter i p [] h = refl
  has_id-filter i p (x ∷ xs) h = ground (arith, has_id-filter i p xs)

  pub has_id-take :
      (i : Text) (n : ℕ) (xs : List A) → has_id i xs ≡ false → has_id i (take n xs) ≡ false
  has_id-take i zero xs h = refl
  has_id-take i (suc n) [] h = refl
  has_id-take i (suc n) (x ∷ xs) h = ground (arith, has_id-take i n xs)

  pub filter-IsKeyed : (p : A → Bool) (xs : List A) → IsKeyed xs → IsKeyed (filter p xs)
  filter-IsKeyed p [] h = tt
  filter-IsKeyed p (x ∷ xs) h = elim (Bool-cases (p x)) [
    | inl e ↦ rw e (has_id-filter (id x) p xs h.0, filter-IsKeyed p xs h.1)
    | inr e ↦ rw e (filter-IsKeyed p xs h.1)
  ]

  pub take-IsKeyed : (n : ℕ) (xs : List A) → IsKeyed xs → IsKeyed (take n xs)
  take-IsKeyed zero xs h = tt
  take-IsKeyed (suc n) [] h = tt
  take-IsKeyed (suc n) (x ∷ xs) h = (has_id-take (id x) n xs h.0, take-IsKeyed n xs h.1)

  insert-IsKeyed :
      (le : A → A → Bool) (x : A) (ys : List A)
      → has_id (id x) ys ≡ false
      → IsKeyed ys
      → IsKeyed (insert le x ys)
  unfolding insert
  insert-IsKeyed le x [] h k = (refl, tt)
  insert-IsKeyed le x (y ∷ ys) h k =
      let (ne, rest) = or-false (text_eq (id x) (id y)) (has_id (id x) ys) h in
      elim (Bool-cases (le x y)) [
        | inl e ↦ rw e (h, k)
        | inr e ↦ rw e (
          rw (any-insert le (λ z. text_eq (id y) (id z)) x ys, text_eq_comm (id y) (id x), ne) k.0,
          insert-IsKeyed le x ys rest k.1,
        )
      ]

  pub sort-IsKeyed : (le : A → A → Bool) (xs : List A) → IsKeyed xs → IsKeyed (sort le xs)
  unfolding sort
  sort-IsKeyed le [] h = tt
  sort-IsKeyed le (x ∷ xs) h =
      insert-IsKeyed le x (sort le xs) (rw (any-sort le (λ z. text_eq (id x) (id z)) xs) h.0)
        (sort-IsKeyed le xs h.1)

  -- A row that is not listed does not change which of the others are selected.
  other_ids :
      (x : A) (ids xs : List A)
      → has_id (id x) xs ≡ false
      → All (λ y. has_id (id y) (x ∷ ids) ≡ has_id (id y) ids) xs
  other_ids x ids [] h = tt
  other_ids x ids (y ∷ ys) h =
      let (ne, rest) = or-false (text_eq (id x) (id y)) (has_id (id x) ys) h in
      (rw (text_eq_comm (id y) (id x), ne), other_ids x ids ys rest)

  no_ids : (xs : List A) → All (λ y. has_id (id y) [] ≡ false) xs
  no_ids [] = tt
  no_ids (x ∷ xs) = (refl, no_ids xs)

  reselect_hit :
      (x : A) (sel xs : List A)
      → has_id (id x) xs ≡ false
      → filter (λ y. has_id (id y) sel) xs ≡ sel
      → filter (λ y. has_id (id y) (x ∷ sel)) (x ∷ xs) ≡ x ∷ sel
  reselect_hit x sel xs h ih =
      rw (text_eq_refl (id x)) (ap (◌∷◌ x) (filter-congr _ _ xs (other_ids x sel xs h) ∙ ih))

  reselect_miss :
      (x : A) (sel xs : List A)
      → has_id (id x) sel ≡ false
      → filter (λ y. has_id (id y) sel) xs ≡ sel
      → filter (λ y. has_id (id y) sel) (x ∷ xs) ≡ sel
  reselect_miss x sel xs h ih = rw h ih

  -- Selecting by id the rows that a limited query gave gives those rows, in the same order.
  pub reselect :
      (p : A → Bool) (n : ℕ) (xs : List A)
      → IsKeyed xs
      → filter (λ y. has_id (id y) (take n (filter p xs))) xs ≡ take n (filter p xs)
  reselect p zero xs h = filter_none (λ y. has_id (id y) []) xs (no_ids xs)
  reselect p (suc n) [] h = refl
  reselect p (suc n) (x ∷ xs) h = elim (Bool-cases (p x)) [
    | inl e ↦
        let same : take (suc n) (filter p (x ∷ xs)) ≡ x ∷ take n (filter p xs) = rw e in
        subst (λ s. filter (λ y. has_id (id y) s) (x ∷ xs) ≡ s) (sym same)
          (reselect_hit x (take n (filter p xs)) xs h.0 (reselect p n xs h.1))
    | inr e ↦
        let same : take (suc n) (filter p (x ∷ xs)) ≡ take (suc n) (filter p xs) = rw e in
        subst (λ s. filter (λ y. has_id (id y) s) (x ∷ xs) ≡ s) (sym same)
          (reselect_miss x (take (suc n) (filter p xs)) xs
            (has_id-take (id x) (suc n) (filter p xs) (has_id-filter (id x) p xs h.0))
            (reselect p (suc n) xs h.1))
  ]

  some_more :
      (x : A) (xs ys : List A)
      → All (λ y. has_id (id y) xs ≡ true) ys
      → All (λ y. has_id (id y) (x ∷ xs) ≡ true) ys
  some_more x xs [] h = tt
  some_more x xs (y ∷ ys) h = (rw h.0 (or_true (text_eq (id y) (id x))), some_more x xs ys h.1)

  -- Every row of a list is in it by its id.
  pub All-has_id : (xs : List A) → All (λ y. has_id (id y) xs ≡ true) xs
  All-has_id [] = tt
  All-has_id (x ∷ xs) = (rw (text_eq_refl (id x)), some_more x xs xs (All-has_id xs))
