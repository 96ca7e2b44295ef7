-- ===== src/Integrity/BatchDiff/Unchanged.antt =====
-- What it means that the comparison of a snapshot found nothing.
use logchain.Prelude.{
  ℕ, suc, ◌≡◌, refl, Bool, true, false, Option, none, some, some-inj, List, [], ◌∷◌, ◌++◌, sort,
  insert, Text, text_eq, option_eq, option_eq-eq, any, All, is_empty, if◌then◌else◌, arith,
}
use logchain.Entities.{Log, log_id, BatchLogSnapshot, Db}
use logchain.LogHash.{Runtime, RawHashCanonical, raw_hash_canonical}
use logchain.Integrity.BatchDiff.{FieldName, BatchChange}
use logchain.Integrity.BatchDiff.Rows.{
  bool_eq, text_change, flag_change, field_changes, hash_change, compare_log, compare_logs,
  inserted_from, log_of, has_log,
}

-- Two copies of a log agree in every field that is compared.
pub record SameFields (b a : RawHashCanonical) : Type 0 where
  pub source : b.source ≡ a.source
  pub source_ip : b.source_ip ≡ a.source_ip
  pub event_type : b.event_type ≡ a.event_type
  pub severity : b.severity ≡ a.severity
  pub message : b.message ≡ a.message
  pub classification : b.classification ≡ a.classification
  pub cde_scope : b.cde_scope ≡ a.cde_scope
  pub created_at : b.created_at ≡ a.created_at

pub append-empty :
    {A : Type 0} (xs ys : List A)
    → is_empty (xs ++ ys) ≡ true
    → (is_empty xs ≡ true) × (is_empty ys ≡ true)
append-empty [] ys h = (refl, h)
append-empty (x ∷ xs) ys h = cc

pub if-empty :
    {A : Type 0} (c : Bool) (x : A) → is_empty (if c then [] else x ∷ []) ≡ true → c ≡ true
if-empty true x h = refl
if-empty false x h = cc

pub text_change-eq :
    (f : FieldName) (b a : Option Text) → is_empty (text_change f b a) ≡ true → b ≡ a
unfolding text_change
text_change-eq f b a h = option_eq-eq b a (if-empty (option_eq b a) _ h)

pub flag_change-eq : (f : FieldName) (b a : Bool) → is_empty (flag_change f b a) ≡ true → b ≡ a
unfolding flag_change
flag_change-eq f b a h = same b a (if-empty (bool_eq b a) _ h)
  where
    same : (b a : Bool) → bool_eq b a ≡ true → b ≡ a
    same true true e = refl
    same true false e = cc
    same false true e = cc
    same false false e = refl

pub field_changes-SameFields :
    (b a : RawHashCanonical) → is_empty (field_changes b a) ≡ true → SameFields b a
unfolding field_changes
field_changes-SameFields b a h =
    let (source, h1) = append-empty _ _ h in
    let (source_ip, h2) = append-empty _ _ h1 in
    let (event_type, h3) = append-empty _ _ h2 in
    let (severity, h4) = append-empty _ _ h3 in
    let (message, h5) = append-empty _ _ h4 in
    let (classification, h6) = append-empty _ _ h5 in
    let (cde_scope, created_at) = append-empty _ _ h6 in
    record {
      source = some-inj (text_change-eq _ _ _ source);
      source_ip = text_change-eq _ _ _ source_ip;
      event_type = some-inj (text_change-eq _ _ _ event_type);
      severity = some-inj (text_change-eq _ _ _ severity);
      message = some-inj (text_change-eq _ _ _ message);
      classification = some-inj (text_change-eq _ _ _ classification);
      cde_scope = flag_change-eq _ _ _ cde_scope;
      created_at = some-inj (text_change-eq _ _ _ created_at);
    }

-- The log of a snapshot is mapped to the batch, and nothing that is compared changed.
abbrev pub IsUnchanged : Runtime → List Log → BatchLogSnapshot → Type 0
IsUnchanged rt current s =
    (now : Log) × (log_of s.log_id current ≡ some now)
    × SameFields s.snapshot (raw_hash_canonical rt now.content)
    × (s.raw_hash ≡ now.raw_hash)

pub compare_log-IsUnchanged :
    (rt : Runtime) (there : Bool) (s : BatchLogSnapshot) (current : List Log) (o : Option Log)
    → log_of s.log_id current ≡ o
    → is_empty (compare_log rt there s o) ≡ true
    → IsUnchanged rt current s
unfolding compare_log hash_change
compare_log-IsUnchanged rt there s current none e h = cc
compare_log-IsUnchanged rt there s current (some now) e h =
    let (content, hash) = append-empty _ _ (if-empty _ _ h) in
    (now, e, field_changes-SameFields _ _ content, some-inj (text_change-eq _ _ _ hash))

pub compare_logs-IsUnchanged :
    (rt : Runtime) (tables : Db) (current : List Log) (ss : List BatchLogSnapshot)
    → is_empty (compare_logs rt tables current ss).0 ≡ true
    → All (IsUnchanged rt current) ss
unfolding compare_logs
compare_logs-IsUnchanged rt tables current [] h = tt
compare_logs-IsUnchanged rt tables current (s ∷ ss) h =
    let (one, rest) = append-empty _ _ h in
    (
      compare_log-IsUnchanged rt (has_log s.log_id tables.logs) s current _ refl one,
      compare_logs-IsUnchanged rt tables current ss rest,
    )

abbrev pub IsInSnapshot : List BatchLogSnapshot → Log → Type 0
IsInSnapshot ss l = any (λ (s : BatchLogSnapshot). text_eq s.log_id (log_id l)) ss ≡ true

pub if-rest :
    {A : Type 0} (c : Bool) (x : A) (xs : List A)
    → is_empty (if c then xs else x ∷ xs) ≡ true
    → (c ≡ true) × (is_empty xs ≡ true)
if-rest true x xs h = (refl, h)
if-rest false x xs h = cc

pub inserted_from-none :
    (rt : Runtime) (ss : List BatchLogSnapshot) (index : ℕ) (rows : List Log)
    → is_empty (inserted_from rt ss index rows) ≡ true
    → All (IsInSnapshot ss) rows
unfolding inserted_from
inserted_from-none rt ss index [] h = tt
inserted_from-none rt ss index (l ∷ rows) h =
    let (y, rest) =
      if-rest (any (λ (s : BatchLogSnapshot). text_eq s.log_id (log_id l)) ss) _ _ h in
    (y, inserted_from-none rt ss (suc index) rows rest)

pub insert-nonempty :
    (le : BatchChange → BatchChange → Bool) (x : BatchChange) (ys : List BatchChange)
    → is_empty (insert le x ys) ≡ false
unfolding insert
insert-nonempty le x [] = refl
insert-nonempty le x (y ∷ ys) = ground arith

pub sort-empty :
    (le : BatchChange → BatchChange → Bool) (xs : List BatchChange)
    → is_empty (sort le xs) ≡ true
    → is_empty xs ≡ true
unfolding sort
sort-empty le [] h = refl
sort-empty le (x ∷ xs) h = cc (h, insert-nonempty le x (sort le xs))
