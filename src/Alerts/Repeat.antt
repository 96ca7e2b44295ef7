-- ===== src/Alerts/Repeat.antt =====
-- `recordRepeat` of AlertsService: one UPDATE counts a repeat, raises the severity and decides
-- whether a mail is due.
pub mod Severity
pub mod Cooldown
use logchain.Prelude.{
  ℕ, suc, ◌+◌, ◌-◌, ◌*◌, Bool, true, false, ◌&&◌, ◌||◌, Option, none, some, List, [], ◌∷◌, ◌++◌,
  map, find, Text, codes, text_eq, ltb, leb, ◌==◌, if◌then◌else◌,
}
use logchain.Json.Value.{JsonValue, object, end}
use logchain.Alerts.{
  Alert, AlertDb, AlertInput, Request, Outcome, done, failed, database, DbError, Email,
}

-- The position of a severity in SEVERITY_RANK, from 1; 0 for all others.
unfoldable pub rank : Text → ℕ
rank s =
    if text_eq s (codes "INFO")
    then 1
    else if text_eq s (codes "WARNING")
    then 2
    else if text_eq s (codes "HIGH")
    then 3
    else if text_eq s (codes "CRITICAL")
    then 4
    else 0

unfoldable pub is_notified_severity : Text → Bool
is_notified_severity s = text_eq s (codes "HIGH") || text_eq s (codes "CRITICAL")

unfoldable pub or_empty : Option Text → Text
or_empty none = []
or_empty (some t) = t

unfoldable pub new_severity : Text → Text → Text
unfolding rank
new_severity incoming severity = if ltb (rank severity) (rank incoming) then incoming else severity

-- `last_notified_at IS NULL OR (minutes > 0 AND last_notified_at <= now() - minutes)`, where the sum
-- stands for the difference, which may be before 1970.
unfoldable pub is_mail_due : ℕ → ℕ → Option ℕ → Bool
is_mail_due minutes now none = true
is_mail_due minutes now (some t) = ltb 0 minutes && leb (t + minutes * 60000) now

unfoldable pub should_notify : Request → Text → Option ℕ → Bool
unfolding is_notified_severity is_mail_due
should_notify req severity last =
    is_notified_severity severity && is_mail_due req.renotify_minutes req.now last

-- The row that the UPDATE leaves.
unfoldable pub repeated_row : Request → Text → Alert → Alert
unfolding new_severity should_notify
repeated_row req incoming row =
    let severity = new_severity incoming row.severity in
    record row {
      occurrence_count = suc row.occurrence_count;
      last_seen_at = req.now;
      severity = severity;
      last_notified_at =
          if should_notify req severity row.last_notified_at
          then some req.now
          else row.last_notified_at;
    }

pub is_now : ℕ → Option ℕ → Bool
is_now now none = false
is_now now (some t) = t == now

-- The largest value of an int column: one more is error 22003.
abbrev pub int_max : ℕ
int_max = 2147483647

abbrev pub int_out_of_range : DbError
int_out_of_range = record { code = some (codes "22003"); driver_code = some (codes "22003") }

abbrev pub has_alert_id : Text → Alert → Bool
has_alert_id id a = text_eq a.id id

unfoldable pub update_alert : Text → (Alert → Alert) → List Alert → List Alert
update_alert id f [] = []
update_alert id f (a ∷ as_) =
    let rest = update_alert id f as_ in if has_alert_id id a then f a ∷ rest else a ∷ rest

-- `incoming.detail ?? alert.detail ?? {}`
repeat_detail : Option JsonValue → Option JsonValue → JsonValue
repeat_detail (some d) e = d
repeat_detail none (some e) = e
repeat_detail none none = object end

repeat_mail : Alert → AlertInput → Email
unfolding repeat_detail
repeat_mail a incoming = record {
  severity = a.severity;
  title = a.title;
  detail = repeat_detail incoming.detail a.detail;
  repeats = some (a.occurrence_count, a.created_at, a.last_seen_at);
}

-- The fields of the alert that was read, with what the UPDATE returned.
with_returned : Alert → Alert → Alert
with_returned row a = record a {
  occurrence_count = row.occurrence_count;
  last_seen_at = row.last_seen_at;
  severity = row.severity;
  last_notified_at = row.last_notified_at;
}

unfoldable pub on_row :
    Request → Alert → AlertInput → Option Alert → AlertDb → Outcome Alert × AlertDb
unfolding repeated_row is_now update_alert repeat_mail with_returned or_empty
on_row req a incoming none db = (done a, db)
on_row req a incoming (some row) db =
    let sev = or_empty incoming.severity in
    let after = repeated_row req sev row in
    let updated = with_returned after a in
    let saved = record db { alerts = update_alert a.id (repeated_row req sev) db.alerts } in
    if leb int_max row.occurrence_count
    then (failed (database int_out_of_range), db)
    else if is_now req.now after.last_notified_at
    then (done updated, record saved { emails = db.emails ++ repeat_mail updated incoming ∷ [] })
    else (done updated, saved)

unfoldable pub record_repeat : Request → Alert → AlertInput → AlertDb → Outcome Alert × AlertDb
unfolding on_row
record_repeat req a incoming db = on_row req a incoming (find (has_alert_id a.id) db.alerts) db
