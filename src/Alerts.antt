-- ===== src/Alerts.antt =====
-- src/alerts: the rows of alerts and alert_logs, what a request or a message may bring, and the
-- parts of the world that AlertsService calls.
pub mod Columns
pub mod Links
pub mod Repeat
pub mod Create
pub mod Resolve
mod Examples
use logchain.Prelude.{
  ℕ, Bool, true, false, Option, none, some, List, [], ◌∷◌, Text, codes, text_eq, ◌&&◌,
}
use logchain.Json.Value.{JsonValue}
use logchain.Entities.{AlertStatus, open_alert}
use logchain.LogHash.{Runtime}

pub data AlertLogRole : Type 0 where
  trigger window prior repeated : AlertLogRole

pub record AlertLog : Type 0 where
  pub alert_id : Text
  pub log_id : Text
  pub role : AlertLogRole

-- A uuid and an address are texts in the form in which Postgres prints them, a time is in
-- milliseconds, the severity is any text.
pub record Alert : Type 0 where
  pub id : Text
  pub log_id : Option Text
  pub batch_id : Option Text
  pub alert_type : Text
  pub severity : Text
  pub source : Text
  pub source_ip : Option Text
  pub title : Text
  pub detail : Option JsonValue
  pub status : AlertStatus
  pub created_at : ℕ
  pub rule_id : Option Text
  pub occurrence_count : ℕ
  pub last_seen_at : ℕ
  pub last_notified_at : Option ℕ

-- `Partial<Alert>`: the fields that are read or stored. `none` is a field that is null or not there.
-- Only a body of `POST /alerts` may hold an id or a time of creation.
pub record AlertInput : Type 0 where
  pub id : Option Text
  pub created_at : Option ℕ
  pub log_id : Option Text
  pub batch_id : Option Text
  pub alert_type : Option Text
  pub severity : Option Text
  pub source : Option Text
  pub source_ip : Option Text
  pub title : Option Text
  pub detail : Option JsonValue
  pub rule_id : Option JsonValue

pub record AlertLogLinks : Type 0 where
  pub related_log_ids : Option JsonValue
  pub prior_log_ids : Option JsonValue

-- One call of `sendAlertEmail`; `detail` is the value that is printed into it.
pub record Email : Type 0 where
  pub severity : Text
  pub title : Text
  pub detail : JsonValue
  pub repeats : Option (ℕ × ℕ × ℕ)

-- The tables, the ids of the rows of `logs`, and the mails that were handed over.
pub record AlertDb : Type 0 where
  pub alerts : List Alert
  pub alert_logs : List AlertLog
  pub log_ids : List Text
  pub emails : List Email

-- The error of a query: its own code and the one of the driver's error in it.
pub record DbError : Type 0 where
  pub code : Option Text
  pub driver_code : Option Text

pub data AlertError : Type 0 where
  database : DbError → AlertError
  not_found : AlertError

pub data Outcome (A : Type 0) : Type 0 where
  done : A → Outcome A
  failed : AlertError → Outcome A

-- What the repository's `save` makes of an entity that brings its own id: a row that it changed or
-- put into the table, or an error.
pub data SaveGiven : Type 0 where
  stored : Alert → AlertDb → SaveGiven
  rejected : DbError → SaveGiven

-- One request: the clock, the id of a new row, what other requests do before the new row is saved
-- and before the row that won is looked up, whether links can be written, and `isIP`. The error by
-- which the database refuses the values of a lookup or of a new row (an id that is no uuid, a text
-- with a zero character), if it does, and `save` of an entity with an id.
pub record Request : Type 0 where
  pub runtime : Runtime
  pub is_ip : Text → Bool
  pub renotify_minutes : ℕ
  pub now : ℕ
  pub new_id : Text
  pub before_save : AlertDb → AlertDb
  pub before_lookup : AlertDb → AlertDb
  pub links_written : Bool
  pub lookup_refuses : AlertInput → Option Text → Option DbError
  pub row_refuses : AlertInput → Option Text → Option DbError
  pub save_given : Text → AlertInput → Option Text → Bool → AlertDb → SaveGiven

abbrev pub is_open : AlertStatus → Bool
is_open AlertStatus.open_alert = true
is_open AlertStatus.resolved = false
