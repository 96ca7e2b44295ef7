-- ===== src/Integrity/State/Pending.antt =====
-- The query for the logs of the next batch, and the query for the logs of a batch.
use logchain.Prelude.{
  ℕ, ◌≡◌, refl, sym, ap, subst, ◌∙◌, Bool, true, false, Option, none, List, [], ◌∷◌, filter, take,
  sort, All, All-map, All-take, All-of-filter, Text, text_leb_total, text_leb_trans, arith, has_id,
  IsKeyed, filter-sort, sort-IsKeyed, take-IsKeyed, filter-IsKeyed, reselect, is_empty,
  if◌then◌else◌, zero, suc, min, ◌≤◌, ◌<◌, length, length-take, length-sort,
}
use logchain.Entities.{Log, log_id, LogBatchMapping, Db}
use logchain.Integrity.State.{
  log_leb, is_mapped, is_pending, pending_logs, mapped_to, logs_for_batch,
}

log_leb_total : (a b : Log) → log_leb a b ≡ false → log_leb b a ≡ true
unfolding log_leb
log_leb_total a b h = ground (arith, text_leb_total a.content.id b.content.id)

log_leb_trans : (a b c : Log) → log_leb a b ≡ true → log_leb b c ≡ true → log_leb a c ≡ true
unfolding log_leb
log_leb_trans a b c h k = ground (arith, text_leb_trans a.content.id b.content.id c.content.id)

-- The query filters the sorted table.
pub pending_logs-eq :
    (n : ℕ) (cutoff : Option ℕ) (db : Db)
    → pending_logs n cutoff db
      ≡ take n (filter (is_pending db.mappings cutoff) (sort log_leb db.logs))
unfolding pending_logs
pending_logs-eq n cutoff db =
    ap (take n) (
      sym (filter-sort log_leb log_leb_total log_leb_trans (is_pending db.mappings cutoff) db.logs))

pub sort_by_ids :
    (p : Log → Bool) (db : Db) → sort log_leb (filter p db.logs) ≡ filter p (sort log_leb db.logs)
sort_by_ids p db = sym (filter-sort log_leb log_leb_total log_leb_trans p db.logs)

pub pending_logs-All-is_pending :
    (n : ℕ) (cutoff : Option ℕ) (db : Db)
    → All (λ l. is_pending db.mappings cutoff l ≡ true) (pending_logs n cutoff db)
pending_logs-All-is_pending n cutoff db =
    subst (All (λ l. is_pending db.mappings cutoff l ≡ true)) (sym (pending_logs-eq n cutoff db)) (
      All-take _ n (filter (is_pending db.mappings cutoff) (sort log_leb db.logs))
        (All-of-filter (is_pending db.mappings cutoff) (sort log_leb db.logs)))

is_pending-unmapped :
    (ms : List LogBatchMapping) (cutoff : Option ℕ) (l : Log)
    → is_pending ms cutoff l ≡ true
    → is_mapped ms l.content.id ≡ false
unfolding is_pending
is_pending-unmapped ms cutoff l h = ground arith

pub pending_logs-unmapped :
    (n : ℕ) (cutoff : Option ℕ) (db : Db)
    → All (λ (l : Log). is_mapped db.mappings l.content.id ≡ false) (pending_logs n cutoff db)
pending_logs-unmapped n cutoff db =
    All-map (is_pending-unmapped db.mappings cutoff) (pending_logs n cutoff db)
      (pending_logs-All-is_pending n cutoff db)

pub pending_logs-IsKeyed :
    (n : ℕ) (cutoff : Option ℕ) (db : Db)
    → IsKeyed log_id db.logs
    → IsKeyed log_id (pending_logs n cutoff db)
pending_logs-IsKeyed n cutoff db h = subst (IsKeyed log_id) (sym (pending_logs-eq n cutoff db)) (
    take-IsKeyed log_id n (filter (is_pending db.mappings cutoff) (sort log_leb db.logs)) (
      filter-IsKeyed log_id (is_pending db.mappings cutoff) (sort log_leb db.logs)
        (sort-IsKeyed log_id log_leb db.logs h)))

-- Selecting the logs of a batch by their ids gives the list that was sealed, in its order.
pub pending_logs-reselected :
    (n : ℕ) (cutoff : Option ℕ) (db : Db)
    → IsKeyed log_id db.logs
    → sort log_leb (filter (λ l. has_id log_id l.content.id (pending_logs n cutoff db)) db.logs)
      ≡ pending_logs n cutoff db
pending_logs-reselected n cutoff db h =
    sort_by_ids (λ l. has_id log_id l.content.id (pending_logs n cutoff db)) db
    ∙ subst (λ s. filter (λ l. has_id log_id l.content.id s) (sort log_leb db.logs) ≡ s)
        (sym (pending_logs-eq n cutoff db))
        (reselect log_id (is_pending db.mappings cutoff) n (sort log_leb db.logs)
          (sort-IsKeyed log_id log_leb db.logs h))

-- All rows that wait to be sealed.
abbrev pub pending_rows : Db → List Log
pending_rows db = filter (is_pending db.mappings none) db.logs

length-pending_logs :
    (n : ℕ) (db : Db) → length (pending_logs n none db) ≡ min n (length (pending_rows db))
unfolding pending_logs
length-pending_logs n db =
    length-take n (sort log_leb (pending_rows db))
    ∙ ap (min n) (length-sort log_leb (pending_rows db))

length-zero : (xs : List Log) → length xs ≡ 0 → xs ≡ []
length-zero [] h = refl
length-zero (x ∷ xs) h = ground arith

length-is_empty : (xs : List Log) → is_empty xs ≡ true → length xs ≡ 0
length-is_empty [] h = refl
length-is_empty (x ∷ xs) h = cc

take_all : (n : ℕ) (xs : List Log) → length xs ≤ n → take n xs ≡ xs
take_all zero [] h = refl
take_all zero (x ∷ xs) h = ground arith
take_all (suc n) [] h = refl
take_all (suc n) (x ∷ xs) h = ap (◌∷◌ x) (take_all n xs (omega (arith, h)))

-- A query that finds nothing leaves no row to seal.
pub pending_logs-none :
    (n : ℕ) (db : Db) → 1 ≤ n → is_empty (pending_logs n none db) ≡ true → pending_rows db ≡ []
pending_logs-none n db h e =
    length-zero (pending_rows db)
      (omega (arith, h, length-pending_logs n db, length-is_empty (pending_logs n none db) e))

-- A query that is not cut short finds all rows to seal.
pub pending_logs-whole :
    (n : ℕ) (db : Db)
    → length (pending_logs n none db) < n
    → pending_logs n none db ≡ sort log_leb (pending_rows db)
unfolding pending_logs
pending_logs-whole n db h =
    take_all n (sort log_leb (pending_rows db))
      (omega (arith, h, length-pending_logs n db, length-sort log_leb (pending_rows db)))

-- The logs of a batch depend on its own mapping and on the log rows.
pub logs_for_batch-cong :
    (c : Text) (t d : Db)
    → t.logs ≡ d.logs
    → mapped_to c t.mappings ≡ mapped_to c d.mappings
    → logs_for_batch c t ≡ logs_for_batch c d
unfolding logs_for_batch
logs_for_batch-cong c t d l m = λ i.
    if is_empty (m i) then [] else sort log_leb (filter (λ x. is_mapped (m i) x.content.id) (l i))
