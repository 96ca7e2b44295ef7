-- ===== src/Alerts/Repeat/Cooldown.antt =====
-- The mails of repeats of one alert, and the time between them.
use logchain.Prelude.{
  ℕ, ◌+◌, ◌*◌, ◌<◌, ◌≤◌, ◌≡◌, refl, ap, ltb, leb, true, false, Option, none, some, List, [], ◌∷◌,
  ◌++◌, map, length, drop, Text, find, Bool-cases, inl, inr, arith, ◌⊎◌, and-true, ltb→lt, leb→le,
  subst,
}
use logchain.Alerts.{Alert, AlertDb, AlertInput, Request, Email}
use logchain.Alerts.Repeat.{
  repeated_row, has_alert_id, record_repeat, on_row, or_empty, int_max, is_now, should_notify,
  is_mail_due, new_severity, is_notified_severity,
}
use logchain.Alerts.Repeat.Severity.{find-update_alert, repeated_row-IsRepeat, record_repeat_rows}

-- When a mail about a repeat was handed over: the time at which its alert was last seen.
abbrev pub mail_time : Email → ℕ
mail_time m = elim m.repeats [ some (count, first_seen, last_seen) ↦ last_seen | none ↦ 0 ]

-- The times of the mails that one call handed over.
abbrev pub mailed : AlertDb → AlertDb → List ℕ
mailed before after = map mail_time (drop (length before.emails) after.emails)

-- Repeats of one alert, one after the other, and the times of their mails.
abbrev pub repeat_mails : List (Request × AlertInput) → Alert → AlertDb → List ℕ
repeat_mails [] a db = []
repeat_mails ((req, incoming) ∷ rest) a db =
    let after = (record_repeat req a incoming db).1 in mailed db after ++ repeat_mails rest a after

-- The times are at least `minutes` apart, from each other and from the one before; without an
-- interval there is one at most.
abbrev pub IsSpaced : ℕ → Option ℕ → List ℕ → Type 0
IsSpaced minutes last [] = Unit
IsSpaced minutes none (t ∷ ts) = IsSpaced minutes (some t) ts
IsSpaced minutes (some s) (t ∷ ts) =
    (0 < minutes) × (s + minutes * 60000 ≤ t) × IsSpaced minutes (some t) ts

-- Requests of one configuration, each later than the one before.
abbrev pub InOrder : ℕ → ℕ → List (Request × AlertInput) → Type 0
InOrder minutes before [] = Unit
InOrder minutes before ((req, incoming) ∷ rest) =
    (req.renotify_minutes ≡ minutes) × (before < req.now) × InOrder minutes req.now rest

-- The last mail was handed over by that time.
abbrev pub NotAfter : ℕ → Option ℕ → Type 0
NotAfter before none = Unit
NotAfter before (some t) = t ≤ before

drop-length : {A : Type 0} (xs ys : List A) → drop (length xs) (xs ++ ys) ≡ ys
drop-length [] ys = refl
drop-length (x ∷ xs) ys = drop-length xs ys

drop-length_all : {A : Type 0} (xs : List A) → drop (length xs) xs ≡ []
drop-length_all [] = refl
drop-length_all (x ∷ xs) = drop-length_all xs

is_now_self : (now : ℕ) → is_now now (some now) ≡ true
unfolding is_now
is_now_self now = ground arith

is_now_earlier :
    (now : ℕ) (last : Option ℕ) (before : ℕ)
    → NotAfter before last
    → before < now
    → is_now now last ≡ false
unfolding is_now
is_now_earlier now none before h k = refl
is_now_earlier now (some t) before h k = ground arith

-- One repeat hands over no mail and leaves the time of the last one, or it hands over one now, which
-- was due.
abbrev Mailing : Request → Alert → Alert → List ℕ → Type 0
Mailing req row after times =
    ((times ≡ []) × (after.last_notified_at ≡ row.last_notified_at))
    ⊎ ((times ≡ req.now ∷ [])
        × (after.last_notified_at ≡ some req.now)
        × (is_mail_due req.renotify_minutes req.now row.last_notified_at ≡ true))

module _ (req : Request) (a row : Alert) (incoming : AlertInput) (db : AlertDb)
    (room : leb int_max row.occurrence_count ≡ false) where
  abbrev raised : Text
  raised = new_severity (or_empty incoming.severity) row.severity

  abbrev row_after : Alert
  row_after = repeated_row req (or_empty incoming.severity) row

  on_row_due :
      should_notify req raised row.last_notified_at ≡ true
      → (mailed db (on_row req a incoming (some row) db).1 ≡ req.now ∷ [])
        × (row_after.last_notified_at ≡ some req.now)
  unfolding on_row repeated_row
  on_row_due due =
      (rw (room, due, is_now_self req.now) (ap (map mail_time) (drop-length db.emails _)), rw due)

  on_row_quiet :
      should_notify req raised row.last_notified_at ≡ false
      → is_now req.now row.last_notified_at ≡ false
      → (mailed db (on_row req a incoming (some row) db).1 ≡ [])
        × (row_after.last_notified_at ≡ row.last_notified_at)
  unfolding on_row repeated_row
  on_row_quiet quiet earlier =
      (rw (room, quiet, earlier) (ap (map mail_time) (drop-length_all db.emails)), rw quiet)

due-IsMailDue :
    (req : Request) (severity : Text) (last : Option ℕ)
    → should_notify req severity last ≡ true
    → is_mail_due req.renotify_minutes req.now last ≡ true
unfolding should_notify
due-IsMailDue req severity last h =
    (and-true (is_notified_severity severity) (is_mail_due req.renotify_minutes req.now last) h).1

record_repeat_full :
    (req : Request) (a row : Alert) (incoming : AlertInput) (db : AlertDb)
    → find (has_alert_id a.id) db.alerts ≡ some row
    → leb int_max row.occurrence_count ≡ true
    → (record_repeat req a incoming db).1 ≡ db
unfolding record_repeat on_row
record_repeat_full req a row incoming db found full = rw (found, full)

record_repeat_found :
    (req : Request) (a row : Alert) (incoming : AlertInput) (db : AlertDb)
    → find (has_alert_id a.id) db.alerts ≡ some row
    → record_repeat req a incoming db ≡ on_row req a incoming (some row) db
unfolding record_repeat
record_repeat_found req a row incoming db found = rw found

leb-not : (n m : ℕ) → leb n m ≡ false → m < n
leb-not n m h = ground arith

record_repeat-Mailing :
    (req : Request) (a row : Alert) (incoming : AlertInput) (db : AlertDb) (before : ℕ)
    → find (has_alert_id a.id) db.alerts ≡ some row
    → NotAfter before row.last_notified_at
    → before < req.now
    → (after : Alert) × (find (has_alert_id a.id) (record_repeat req a incoming db).1.alerts
        ≡ some after)
      × Mailing req row after (mailed db (record_repeat req a incoming db).1)
record_repeat-Mailing req a row incoming db before found last later =
    elim (Bool-cases (leb int_max row.occurrence_count)) [
      | inl full ↦ (
        row,
        rw (record_repeat_full req a row incoming db found full) found,
        inl (
          rw (record_repeat_full req a row incoming db found full)
              (ap (map mail_time) (drop-length_all db.emails)),
          refl,
        ),
      )
      | inr room ↦ (
        row_after req a row incoming db room,
        rw (record_repeat_rows req a row incoming db found (leb-not int_max _ room)).1 (
            find-update_alert a.id (repeated_row req (or_empty incoming.severity)) row db.alerts
              (λ b. (repeated_row-IsRepeat req (or_empty incoming.severity) b).id) found),
        rw (record_repeat_found req a row incoming db found)
            (elim (Bool-cases
              (should_notify req (raised req a row incoming db room) row.last_notified_at)) [
                | inl due ↦
                    let (sent, noted) = on_row_due req a row incoming db room due in
                    inr (sent, noted, due-IsMailDue req _ row.last_notified_at due)
                | inr quiet ↦ inl (
                    on_row_quiet req a row incoming db room quiet
                      (is_now_earlier req.now row.last_notified_at before last later))
              ]),
      )
    ]

IsSpaced-next :
    (minutes now : ℕ) (last : Option ℕ) (ts : List ℕ)
    → is_mail_due minutes now last ≡ true
    → IsSpaced minutes (some now) ts
    → IsSpaced minutes last (now ∷ ts)
unfolding is_mail_due
IsSpaced-next minutes now none ts due rest = rest
IsSpaced-next minutes now (some t) ts due rest =
    let (positive, passed) = and-true (ltb 0 minutes) (leb (t + minutes * 60000) now) due in
    (ltb→lt 0 minutes positive, leb→le (t + minutes * 60000) now passed, rest)

NotAfter-later :
    (before now : ℕ) (last : Option ℕ) → NotAfter before last → before < now → NotAfter now last
NotAfter-later before now none h k = tt
NotAfter-later before now (some t) h k = omega (arith, h, k)

-- However an alert repeats: where its row is in the table, and the requests are of one configuration
-- and one later than the other, the mails about it are at least the configured minutes apart, from
-- each other and from the last one before. Where the configuration is 0 minutes, an alert that was
-- mailed is never mailed again.
pub repeat_mails-IsSpaced :
    (minutes before : ℕ) (a row : Alert) (requests : List (Request × AlertInput)) (db : AlertDb)
    → find (has_alert_id a.id) db.alerts ≡ some row
    → NotAfter before row.last_notified_at
    → InOrder minutes before requests
    → IsSpaced minutes row.last_notified_at (repeat_mails requests a db)
repeat_mails-IsSpaced minutes before a row [] db found last order = tt
repeat_mails-IsSpaced minutes before a row ((req, incoming) ∷ rest) db found last order =
    let (same, later, rest_order) = order in
    let (after, found_after, mailing) =
      record_repeat-Mailing req a row incoming db before found last later in
    let next = (record_repeat req a incoming db).1 in
    elim mailing [
      | inl (none_sent, kept) ↦ rw none_sent (
          subst (λ l. IsSpaced minutes l (repeat_mails rest a next)) kept
            (repeat_mails-IsSpaced minutes req.now a after rest next found_after
              (rw kept (NotAfter-later before req.now row.last_notified_at last later)) rest_order))
      | inr (sent, noted, due) ↦ rw sent (
          IsSpaced-next minutes req.now row.last_notified_at (repeat_mails rest a next)
            (subst (λ m. is_mail_due m req.now row.last_notified_at ≡ true) same due)
            (subst (λ l. IsSpaced minutes l (repeat_mails rest a next)) noted
              (repeat_mails-IsSpaced minutes req.now a after rest next found_after
                (rw noted (omega arith)) rest_order)))
    ]
