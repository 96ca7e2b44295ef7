-- ===== src/Alerts/Create.antt =====
-- `createOrDedup` of AlertsService, with the unique index that the migration
-- src/database/migrations/1790726400000-AlertLogs.ts creates.
pub mod Index
pub mod Complete
pub mod Counted
use logchain.Prelude.{
  option_eq, ℕ, ◌+◌, Bool, true, false, ◌&&◌, Option, none, some, List, [], ◌∷◌, ◌++◌, any, find,
  Text, codes, text_eq, if◌then◌else◌,
}
use logchain.Json.Value.{JsonValue, object, end}
use logchain.Entities.{AlertStatus, open_alert}
use logchain.Alerts.{
  Alert, AlertDb, AlertInput, AlertLogLinks, AlertLogRole, trigger, window, prior, repeated,
  Request, SaveGiven, stored, rejected, Outcome, done, failed, database, DbError, Email, is_open,
}
use logchain.Alerts.Columns.{rule_id_of, clean_ip, fit_to_columns}
use logchain.Alerts.Links.{id_list, link_logs}
use logchain.Alerts.Repeat.{record_repeat, is_notified_severity, or_empty}

-- A condition of `findOne` on a column that is never null: a value that is undefined is no condition.
abbrev pub where_text : Option Text → Text → Bool
where_text none t = true
where_text (some s) t = text_eq s t

unfoldable pub dedup_where : AlertInput → Option Text → Alert → Bool
dedup_where dto rule_id a =
    is_open a.status
    && where_text dto.alert_type a.alert_type
    && where_text dto.source a.source
    && option_eq dto.batch_id a.batch_id
    && option_eq rule_id a.rule_id
    && option_eq dto.source_ip a.source_ip

abbrev pub coalesce : Text → Option Text → Text
coalesce d none = d
coalesce d (some t) = t

abbrev pub no_batch : Text
no_batch = codes "00000000-0000-0000-0000-000000000000"

abbrev pub no_ip : Text
no_ip = codes "0.0.0.0"

-- idx_alerts_open_dedup_ip: two open rows that it takes for the same.
unfoldable pub is_duplicate : Alert → Alert → Bool
is_duplicate a b =
    is_open a.status
    && is_open b.status
    && text_eq a.alert_type b.alert_type
    && text_eq a.source b.source
    && text_eq (coalesce no_batch a.batch_id) (coalesce no_batch b.batch_id)
    && text_eq (coalesce [] a.rule_id) (coalesce [] b.rule_id)
    && text_eq (coalesce no_ip a.source_ip) (coalesce no_ip b.source_ip)

pub query_error : Text → DbError
query_error code = record { code = some code; driver_code = some code }

-- `e?.code ?? e?.driverError?.code`
pub pg_error_code : DbError → Option Text
pg_error_code e = elim e.code [ some c ↦ some c | none ↦ e.driver_code ]

pub is_unique_violation : Option Text → Bool
is_unique_violation none = false
is_unique_violation (some c) = text_eq c (codes "23505")

pub alert_row : Request → AlertInput → Option Text → Bool → Text → Text → Text → Text → Alert
alert_row req dto rule_id notify alert_type severity source title = record {
  id = req.new_id;
  log_id = dto.log_id;
  batch_id = dto.batch_id;
  alert_type = alert_type;
  severity = severity;
  source = source;
  source_ip = dto.source_ip;
  title = title;
  detail = dto.detail;
  status = AlertStatus.open_alert;
  created_at = elim dto.created_at [ some t ↦ t | none ↦ req.now ];
  rule_id = rule_id;
  occurrence_count = 1;
  last_seen_at = req.now;
  last_notified_at = if notify then some req.now else none;
}

-- The new row, unless a column that may not be null has no value.
unfoldable pub new_alert : Request → AlertInput → Option Text → Bool → Option Alert
unfolding alert_row
new_alert req dto rule_id notify = go dto.alert_type dto.severity dto.source dto.title
  where
    go : Option Text → Option Text → Option Text → Option Text → Option Alert
    go (some alert_type) (some severity) (some source) (some title) =
        some (alert_row req dto rule_id notify alert_type severity source title)
    go none severity source title = none
    go (some alert_type) none source title = none
    go (some alert_type) (some severity) none title = none
    go (some alert_type) (some severity) (some source) none = none

pub data Saved : Type 0 where
  saved : Alert → Saved
  refused : DbError → Saved

-- `save` of an entity without an id: the error by which the values are refused, else 23502 for a
-- null, 23505 for a row that the index refuses.
pub save_alert : Option DbError → Option Alert → List Alert → Saved
unfolding is_duplicate query_error
save_alert (some e) row rows = refused e
save_alert none none rows = refused (query_error (codes "23502"))
save_alert none (some a) rows =
    if any (is_duplicate a) rows then refused (query_error (codes "23505")) else saved a

pub repeat_evidence : AlertInput → AlertLogLinks → List (AlertLogRole × List (Option Text))
unfolding id_list
repeat_evidence incoming links = (repeated, incoming.log_id ∷ id_list links.related_log_ids) ∷ []

pub link_repeat :
    Request → Alert → AlertInput → AlertLogLinks → Outcome Alert → AlertDb → Outcome Alert × AlertDb
unfolding link_logs repeat_evidence
link_repeat req a incoming links (failed e) db = (failed e, db)
link_repeat req a incoming links (done b) db =
    (done b, link_logs req a.id (repeat_evidence incoming links) db)

unfoldable pub record_repeat_with_logs :
    Request → Alert → AlertInput → AlertLogLinks → AlertDb → Outcome Alert × AlertDb
unfolding record_repeat link_repeat
record_repeat_with_logs req a incoming links db =
    let (result, updated) = record_repeat req a incoming db in
    link_repeat req a incoming links result updated

new_mail : AlertInput → Email
unfolding or_empty
new_mail dto = record {
  severity = or_empty dto.severity;
  title = elim dto.title [ some t ↦ t | none ↦ codes "Alert" ];
  detail = elim dto.detail [ some d ↦ d | none ↦ object end ];
  repeats = none;
}

pub evidence : AlertInput → AlertLogLinks → List (AlertLogRole × List (Option Text))
unfolding id_list
evidence dto links =
    (trigger, dto.log_id ∷ [])
    ∷ (window, id_list links.related_log_ids)
    ∷ (prior, id_list links.prior_log_ids)
    ∷ []

-- The row is in the table: its logs are linked, and a mail is handed over where one is due.
pub after_insert : Request → Alert → AlertInput → AlertLogLinks → Bool → AlertDb → AlertDb
unfolding link_logs evidence new_mail
after_insert req a dto links notify inserted =
    let linked = link_logs req a.id (evidence dto links) inserted in
    if notify then record linked { emails = linked.emails ++ new_mail dto ∷ [] } else linked

pub after_save : Request → Alert → AlertInput → AlertLogLinks → Bool → AlertDb → AlertDb
unfolding after_insert
after_save req a dto links notify db =
    after_insert req a dto links notify (record db { alerts = db.alerts ++ a ∷ [] })

pub on_winner :
    Request
    → AlertInput
    → AlertLogLinks
    → DbError
    → Option Alert
    → AlertDb
    → Outcome Alert × AlertDb
unfolding record_repeat_with_logs
on_winner req dto links e none db = (failed (database e), db)
on_winner req dto links e (some winner) db = record_repeat_with_logs req winner dto links db

pub on_save :
    Request
    → AlertInput
    → Option Text
    → AlertLogLinks
    → Bool
    → Saved
    → AlertDb
    → Outcome Alert × AlertDb
unfolding after_save on_winner pg_error_code is_unique_violation dedup_where
on_save req dto rule_id links notify (saved a) db = (done a, after_save req a dto links notify db)
on_save req dto rule_id links notify (refused e) db =
    if is_unique_violation (pg_error_code e)
    then (let later = req.before_lookup db in
        on_winner req dto links e (find (dedup_where dto rule_id) later.alerts) later)
    else (failed (database e), db)

on_given :
    Request
    → AlertInput
    → Option Text
    → AlertLogLinks
    → Bool
    → SaveGiven
    → AlertDb
    → Outcome Alert × AlertDb
unfolding after_insert on_save
on_given req dto rule_id links notify (stored a after) db =
    (done a, after_insert req a dto links notify after)
on_given req dto rule_id links notify (rejected e) db =
    on_save req dto rule_id links notify (refused e) db

-- `save` of the new alert, which keeps an id that the payload brings.
pub on_new :
    Request
    → AlertInput
    → Option Text
    → AlertLogLinks
    → Bool
    → Option Text
    → AlertDb
    → Outcome Alert × AlertDb
unfolding new_alert save_alert on_save on_given
on_new req dto rule_id links notify none db =
    on_save req dto rule_id links notify
      (save_alert (req.row_refuses dto rule_id) (new_alert req dto rule_id notify) db.alerts) db
on_new req dto rule_id links notify (some id) db =
    on_given req dto rule_id links notify (req.save_given id dto rule_id notify db) db

pub on_existing :
    Request
    → AlertInput
    → Option Text
    → AlertLogLinks
    → Option Alert
    → AlertDb
    → Outcome Alert × AlertDb
unfolding record_repeat_with_logs is_notified_severity or_empty on_new
on_existing req dto rule_id links (some a) db = record_repeat_with_logs req a dto links db
on_existing req dto rule_id links none db =
    on_new req dto rule_id links (is_notified_severity (or_empty dto.severity)) dto.id
      (req.before_save db)

-- The lookup before anything else, which may be refused.
pub on_lookup :
    Request
    → AlertInput
    → Option Text
    → AlertLogLinks
    → Option DbError
    → AlertDb
    → Outcome Alert × AlertDb
unfolding on_existing dedup_where
on_lookup req dto rule_id links (some e) db = (failed (database e), db)
on_lookup req dto rule_id links none db =
    on_existing req dto rule_id links (find (dedup_where dto rule_id) db.alerts) db

-- The payload and the rule as they are looked up and stored.
unfoldable pub prepared : Request → AlertInput → AlertInput × Option Text
unfolding rule_id_of clean_ip fit_to_columns
prepared req input =
    fit_to_columns (record input { source_ip = clean_ip req input.source_ip }) (rule_id_of input)

unfoldable pub create_or_dedup :
    Request → AlertInput → AlertLogLinks → AlertDb → Outcome Alert × AlertDb
unfolding prepared on_lookup
create_or_dedup req input links db =
    let (dto, rule_id) = prepared req input in
    on_lookup req dto rule_id links (req.lookup_refuses dto rule_id) db
