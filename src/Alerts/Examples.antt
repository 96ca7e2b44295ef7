-- ===== src/Alerts/Examples.antt =====
-- The theorems on alerts at concrete payloads and tables.
use logchain.Prelude.{◌≡◌, refl, true, none, some, [], ◌∷◌, codes, text_eq, find, arith, includes}
use logchain.Json.Value.{number, object, end, field}
use logchain.Entities.{AlertStatus}
use logchain.LogHash.{Runtime}
use logchain.Alerts.{
  rejected, Alert, AlertDb, AlertInput, AlertLogLinks, Request, done, failed, database,
}
use logchain.Alerts.Create.{create_or_dedup, query_error}
use logchain.Alerts.Repeat.{record_repeat, has_alert_id, or_empty}
use logchain.Alerts.Repeat.Severity.{is_done, IsRepeat, record_repeat-IsRepeat}
use logchain.Alerts.Repeat.Cooldown.{IsSpaced, repeat_mails, repeat_mails-IsSpaced}

abbrev host : Runtime
host = record { sha256 = λ s. s; iso = λ n. n ∷ []; parse_date = λ s. none; url_host = λ s. none }

abbrev no_links : AlertLogLinks
no_links = record { related_log_ids = none; prior_log_ids = none }

abbrev brute_force : AlertInput
brute_force = record {
  id = none;
  created_at = none;
  log_id = none;
  batch_id = none;
  alert_type = some (codes "RULE_MATCH");
  severity = some (codes "CRITICAL");
  source = some (codes "web");
  source_ip = some (codes " 10.0.0.9");
  title = some (codes "Brute force");
  detail = some (object (field (codes "rule_id") (number (codes "5710")) end));
  rule_id = none;
}

abbrev open_row : Alert
open_row = record {
  id = codes "a1";
  log_id = none;
  batch_id = none;
  alert_type = codes "RULE_MATCH";
  severity = codes "WARNING";
  source = codes "web";
  source_ip = some (codes "10.0.0.9");
  title = codes "Brute force";
  detail = none;
  status = AlertStatus.open_alert;
  created_at = 5;
  rule_id = some (codes "5710");
  occurrence_count = 1;
  last_seen_at = 5;
  last_notified_at = none;
}

abbrev no_alerts : AlertDb
no_alerts = record { alerts = []; alert_logs = []; log_ids = []; emails = [] }

abbrev one_alert : AlertDb
one_alert = record no_alerts { alerts = open_row ∷ [] }

-- Another request saves the same alert between the lookup and the save of this one.
abbrev raced : Request
raced = record {
  runtime = host;
  is_ip = λ t. true;
  renotify_minutes = 60;
  now = 9;
  new_id = codes "a2";
  before_save = λ d. record d { alerts = open_row ∷ [] };
  before_lookup = λ d. d;
  links_written = true;
  lookup_refuses = λ dto r. none;
  row_refuses = λ dto r. none;
  save_given = λ id dto r n d. rejected (query_error (codes "23505"));
}

abbrev later : Request
later = record raced { now = 3600100 }

create_or_dedup_run :
    (create_or_dedup raced brute_force no_links no_alerts).0
    ≡ done (record open_row {
      occurrence_count = 2;
      last_seen_at = 9;
      severity = codes "CRITICAL";
      last_notified_at = some 9;
    })
unfolding create_or_dedup text_eq includes
create_or_dedup_run = refl

record_repeat-IsRepeat_example :
    (is_done (record_repeat later open_row brute_force one_alert).0 ≡ true)
    × ((after : Alert) × (find
            (has_alert_id open_row.id)
            (record_repeat later open_row brute_force one_alert).1.alerts
          ≡ some after)
        × IsRepeat later.now (or_empty brute_force.severity) open_row after)
unfolding text_eq
record_repeat-IsRepeat_example =
    record_repeat-IsRepeat later open_row open_row brute_force one_alert refl (omega arith)

-- Two mails an hour apart: the first repeat is mailed, the second is not, the third is.
repeat_mails_run :
    repeat_mails
      ((raced, brute_force) ∷ (record raced { now = 10 }, brute_force) ∷ (later, brute_force) ∷ [])
      open_row
      one_alert
    ≡ 9 ∷ 3600100 ∷ []
unfolding record_repeat text_eq
repeat_mails_run = refl

repeat_mails-IsSpaced_example :
    IsSpaced 60 none
      (repeat_mails ((raced, brute_force) ∷ (later, brute_force) ∷ []) open_row one_alert)
unfolding text_eq
repeat_mails-IsSpaced_example =
    repeat_mails-IsSpaced 60 0 open_row open_row ((raced, brute_force) ∷ (later, brute_force) ∷ [])
      one_alert refl tt ((refl, omega arith, (refl, omega arith, tt)))

-- A stored address 0.0.0.0 takes the place in the index of an alert without one, which the lookup
-- does not find: the alert is refused.
unspecified_refused :
    (create_or_dedup
      (record raced { before_save = λ d. d })
      (record brute_force { source_ip = none })
      no_links
      (record no_alerts { alerts = record open_row { source_ip = some (codes "0.0.0.0") } ∷ [] })).0
    ≡ failed (database (query_error (codes "23505")))
unfolding create_or_dedup text_eq
unspecified_refused = refl

-- A batch id that is no uuid: the lookup is refused, and nothing is stored.
not_a_uuid_run :
    create_or_dedup
      (record raced { lookup_refuses = λ dto r. some (query_error (codes "22P02")) })
      (record brute_force { batch_id = some (codes "b1") })
      no_links
      no_alerts
    ≡ (failed (database (query_error (codes "22P02"))), no_alerts)
unfolding create_or_dedup
not_a_uuid_run = refl
