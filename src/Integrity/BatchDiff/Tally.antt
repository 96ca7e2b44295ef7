-- ===== src/Integrity/BatchDiff/Tally.antt =====
-- The counts of what the comparison finds.
use logchain.Prelude.{
  ℕ, suc, ◌+◌, ◌≡◌, refl, ap, ◌∙◌, Bool, Option, none, some, List, [], ◌∷◌, ◌++◌, filter, sort,
  insert, length, length-append, filter-append, any, is_empty, Bool-cases, inl, inr, if_both,
  if◌then◌else◌, arith, text_eq,
}
use logchain.Entities.{Log, log_id, BatchLogSnapshot, Db}
use logchain.LogHash.{Runtime, raw_hash_canonical}
use logchain.Integrity.BatchDiff.{
  ChangeType, content_modified, hash_modified, deleted, unmapped_or_inserted, FieldChange,
  BatchChange, Base,
}
use logchain.Integrity.BatchDiff.Rows.{
  same_change, count, compare_log, compare_logs, inserted_from, log_of, has_log, field_changes,
  modified, hash_change, change_type_of,
}
use logchain.Integrity.BatchDiff.Compare.{content_changes, content_change}

pub count-append :
    (t : ChangeType) (xs ys : List BatchChange) → count t (xs ++ ys) ≡ count t xs + count t ys
unfolding count
count-append t xs ys =
    ap length (filter-append (λ (c : BatchChange). same_change c.change_type t) xs ys)
    ∙ length-append (filter _ xs) (filter _ ys)

pub length-filter-insert :
    (le : BatchChange → BatchChange → Bool) (p : BatchChange → Bool) (x : BatchChange)
    (ys : List BatchChange)
    → length (filter p (insert le x ys)) ≡ length (filter p (x ∷ ys))
unfolding insert
length-filter-insert le p x [] = refl
length-filter-insert le p x (y ∷ ys) = ground (arith, length-filter-insert le p x ys)

pub length-filter-cons :
    (p : BatchChange → Bool) (x : BatchChange) (xs ys : List BatchChange)
    → length (filter p ys) ≡ length (filter p xs)
    → length (filter p (x ∷ ys)) ≡ length (filter p (x ∷ xs))
length-filter-cons p x xs ys h = ground (arith, h)

pub count-sort :
    (le : BatchChange → BatchChange → Bool) (t : ChangeType) (xs : List BatchChange)
    → count t (sort le xs) ≡ count t xs
unfolding sort count
count-sort le t [] = refl
count-sort le t (x ∷ xs) =
    length-filter-insert le _ x (sort le xs)
    ∙ length-filter-cons _ x xs (sort le xs) (count-sort le t xs)

-- What one log of the snapshot adds: it is unchanged, or it is one change of one of three types.
abbrev pub AddsOne : List BatchChange → Type 0
AddsOne found =
    ((if is_empty found then 1 else 0)
        + count content_modified found
        + count hash_modified found
        + count deleted found
      ≡ 1)
    × (count unmapped_or_inserted found ≡ 0)
    × (count content_modified found + count hash_modified found + count deleted found
        ≡ length found)

pub modified-AddsOne :
    (s : BatchLogSnapshot) (content changed : List FieldChange)
    → AddsOne (modified s content changed ∷ [])
unfolding modified change_type_of count
modified-AddsOne s [] changed = (refl, refl, refl)
modified-AddsOne s (f ∷ fs) changed = (refl, refl, refl)

pub compare_log-AddsOne :
    (rt : Runtime) (there : Bool) (s : BatchLogSnapshot) (now : Option Log)
    → AddsOne (compare_log rt there s now)
unfolding compare_log count
compare_log-AddsOne rt there s none = (refl, refl, refl)
compare_log-AddsOne rt there s (some now) =
    if_both AddsOne
      (is_empty (
        field_changes s.snapshot (raw_hash_canonical rt now.content)
        ++ hash_change s.raw_hash now.raw_hash))
      _ _ (λ y. (refl, refl, refl))
      (λ n. modified-AddsOne s (field_changes s.snapshot (raw_hash_canonical rt now.content)) _)

-- What the loop over the snapshot found.
abbrev pub AddsAll : ℕ → List BatchChange × ℕ → Type 0
AddsAll n (found, unchanged) =
    (unchanged + count content_modified found + count hash_modified found + count deleted found ≡ n)
    × (count unmapped_or_inserted found ≡ 0)
    × (count content_modified found + count hash_modified found + count deleted found
        ≡ length found)

pub both :
    (found rest : List BatchChange) (unchanged n : ℕ)
    → AddsOne found
    → AddsAll n (rest, unchanged)
    → AddsAll (suc n) (found ++ rest, if is_empty found then suc unchanged else unchanged)
both found rest unchanged n a h =
    rw
      (
        count-append content_modified found rest,
        count-append hash_modified found rest,
        count-append deleted found rest,
        count-append unmapped_or_inserted found rest,
        length-append found rest,
      )
      (ground (arith, a.0, h.0), ground (arith, a.1, h.1), ground (arith, a.2, h.2))

pub compare_logs-AddsAll :
    (rt : Runtime) (tables : Db) (current : List Log) (ss : List BatchLogSnapshot)
    → AddsAll (length ss) (compare_logs rt tables current ss)
unfolding compare_logs count
compare_logs-AddsAll rt tables current [] = (refl, refl, refl)
compare_logs-AddsAll rt tables current (s ∷ ss) =
    both (compare_log rt (has_log s.log_id tables.logs) s (log_of s.log_id current))
      (compare_logs rt tables current ss).0 (compare_logs rt tables current ss).1 (length ss)
      (compare_log-AddsOne rt (has_log s.log_id tables.logs) s (log_of s.log_id current))
      (compare_logs-AddsAll rt tables current ss)

pub inserted_from-counts :
    (rt : Runtime) (ss : List BatchLogSnapshot) (index : ℕ) (rows : List Log)
    → (count content_modified (inserted_from rt ss index rows) ≡ 0)
      × (count hash_modified (inserted_from rt ss index rows) ≡ 0)
      × (count deleted (inserted_from rt ss index rows) ≡ 0)
      × (count unmapped_or_inserted (inserted_from rt ss index rows)
          ≡ length (inserted_from rt ss index rows))
unfolding inserted_from count
inserted_from-counts rt ss index [] = (refl, refl, refl, refl)
inserted_from-counts rt ss index (l ∷ rows) =
    let (c, h, d, i) = inserted_from-counts rt ss (suc index) rows in
    elim (Bool-cases (any (λ (s : BatchLogSnapshot). text_eq s.log_id (log_id l)) ss)) [
      | inl y ↦ rw y (c, h, d, i)
      | inr n ↦ rw n (c, h, d, ap suc i)
    ]

pub content_changes-counts :
    (b : Base) (rt : Runtime) (index : ℕ) (rows : List Log)
    → (content_changes b rt index rows).1 + length (content_changes b rt index rows).0 ≡ length rows
unfolding content_changes content_change
content_changes-counts b rt index [] = refl
content_changes-counts b rt index (l ∷ rows) =
    ground (arith, content_changes-counts b rt (suc index) rows)
