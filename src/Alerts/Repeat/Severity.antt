-- ===== src/Alerts/Repeat/Severity.antt =====
-- What a repeat leaves in the row of its alert.
use logchain.Prelude.{
  ℕ, suc, ◌≡◌, refl, ap, ◌∙◌, ◌<◌, ltb, leb, max, Bool, true, false, some, List, [], ◌∷◌, Text,
  text_eq, find, Bool-cases, if_both, inl, inr, arith,
}
use logchain.Alerts.{Alert, AlertDb, AlertInput, Request, Outcome, done, failed}
use logchain.Alerts.Repeat.{
  rank, new_severity, repeated_row, update_alert, has_alert_id, record_repeat, on_row, or_empty,
  int_max, is_now,
}

rank-new_severity :
    (incoming severity : Text)
    → rank (new_severity incoming severity) ≡ max (rank incoming) (rank severity)
unfolding new_severity
rank-new_severity incoming severity = elim (Bool-cases (ltb (rank severity) (rank incoming))) [
  | inl y ↦ rw y (omega (arith, ltb_facts y))
  | inr n ↦ rw n (omega (arith, ltb_facts_not n))
]
  where
    ltb_facts : {a b : ℕ} → ltb a b ≡ true → a < b
    ltb_facts h = ground arith

    ltb_facts_not : {a b : ℕ} → ltb a b ≡ false → b < suc a
    ltb_facts_not h = ground arith

pub not-leb : (n m : ℕ) → m < n → leb n m ≡ false
not-leb n m h = ground arith

abbrev pub is_done : Outcome Alert → Bool
is_done (done a) = true
is_done (failed e) = false

-- `after` is `before`, seen once more at `now` with the severity `incoming`.
pub record IsRepeat (now : ℕ) (incoming : Text) (before after : Alert) : Type 0 where
  pub id : after.id ≡ before.id
  pub status : after.status ≡ before.status
  pub alert_type : after.alert_type ≡ before.alert_type
  pub source : after.source ≡ before.source
  pub batch_id : after.batch_id ≡ before.batch_id
  pub rule_id : after.rule_id ≡ before.rule_id
  pub source_ip : after.source_ip ≡ before.source_ip
  pub count : after.occurrence_count ≡ suc before.occurrence_count
  pub last_seen : after.last_seen_at ≡ now
  pub severity : rank after.severity ≡ max (rank incoming) (rank before.severity)

pub repeated_row-IsRepeat :
    (req : Request) (incoming : Text) (row : Alert)
    → IsRepeat req.now incoming row (repeated_row req incoming row)
unfolding repeated_row
repeated_row-IsRepeat req incoming row = record {
  id = refl;
  status = refl;
  alert_type = refl;
  source = refl;
  batch_id = refl;
  rule_id = refl;
  source_ip = refl;
  count = refl;
  last_seen = refl;
  severity = rank-new_severity incoming row.severity;
}

pub find-update_alert :
    (id : Text) (f : Alert → Alert) (row : Alert) (rows : List Alert)
    → ((a : Alert) → (f a).id ≡ a.id)
    → find (has_alert_id id) rows ≡ some row
    → find (has_alert_id id) (update_alert id f rows) ≡ some (f row)
unfolding update_alert
find-update_alert id f row [] keeps h = cc
find-update_alert id f row (a ∷ rows) keeps h = elim (Bool-cases (has_alert_id id a)) [
  | inl y ↦ rw (y, kept ∙ y) (same y)
  | inr n ↦ rw (n, n) (find-update_alert id f row rows keeps (skip n))
]
  where
    kept : has_alert_id id (f a) ≡ has_alert_id id a
    kept = ap (λ i. text_eq i id) (keeps a)

    same : has_alert_id id a ≡ true → some (f a) ≡ some (f row)
    same y = grind (arith, y, h)

    skip : has_alert_id id a ≡ false → find (has_alert_id id) rows ≡ some row
    skip n = grind (arith, n, h)

-- The alert's row is there and its count can grow.
pub record_repeat_rows :
    (req : Request) (a row : Alert) (incoming : AlertInput) (db : AlertDb)
    → find (has_alert_id a.id) db.alerts ≡ some row
    → row.occurrence_count < int_max
    → (is_done (record_repeat req a incoming db).0 ≡ true)
      × ((record_repeat req a incoming db).1.alerts
          ≡ update_alert a.id (repeated_row req (or_empty incoming.severity)) db.alerts)
unfolding record_repeat on_row
record_repeat_rows req a row incoming db found room =
    rw (found, not-leb int_max row.occurrence_count room)
      (if_both {A = Outcome Alert × AlertDb}
        (λ r.
          (is_done r.0 ≡ true)
          × (r.1.alerts
              ≡ update_alert a.id (repeated_row req (or_empty incoming.severity)) db.alerts))
        (is_now req.now (repeated_row req (or_empty incoming.severity) row).last_notified_at) _ _
        (λ y. (refl, refl)) (λ n. (refl, refl)))

-- Where the row of the alert is in the table and its count is below the column's largest value: a
-- repeat succeeds, and the row counts one more, was last seen now, has the more severe of the two
-- severities, and keeps its id, its status and every field that alerts are deduplicated by.
pub record_repeat-IsRepeat :
    (req : Request) (a row : Alert) (incoming : AlertInput) (db : AlertDb)
    → find (has_alert_id a.id) db.alerts ≡ some row
    → row.occurrence_count < int_max
    → (is_done (record_repeat req a incoming db).0 ≡ true)
      × ((after : Alert) × (find (has_alert_id a.id) (record_repeat req a incoming db).1.alerts
            ≡ some after)
          × IsRepeat req.now (or_empty incoming.severity) row after)
record_repeat-IsRepeat req a row incoming db found room =
    let (ok, rows) = record_repeat_rows req a row incoming db found room in
    (
      ok,
      (
        repeated_row req (or_empty incoming.severity) row,
        rw rows (
            find-update_alert a.id (repeated_row req (or_empty incoming.severity)) row db.alerts
              (λ b. (repeated_row-IsRepeat req (or_empty incoming.severity) b).id) found),
        repeated_row-IsRepeat req (or_empty incoming.severity) row,
      ),
    )
