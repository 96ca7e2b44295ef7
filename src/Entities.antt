-- ===== src/Entities.antt =====
-- The tables of src/logs/entities, src/integrity/entities and the alerts that src/integrity keeps.
-- A uuid is its text, a time is in milliseconds, a gas amount is a number. Columns that the
-- database fills and the modelled code does not read (`mapped_at`, `sealed_at`) are left out.
use logchain.Prelude.{ℕ, Bool, Option, List, Text}
use logchain.LogHash.{RawHashCanonical, HashedLog}

pub record Log : Type 0 where
  pub hashed : HashedLog
  pub open hashed use *
  pub retention_days : ℕ

abbrev pub log_id : Log → Text
log_id l = l.content.id

pub data BatchStatus : Type 0 where
  pending sealed unverified confirmed tampered failed : BatchStatus

pub data SealReason : Type 0 where
  count age manual cron : SealReason

-- The result of the Isolation Forest. A score is a double, by its bit pattern: it is only stored.
pub record BatchAnomaly : Type 0 where
  pub is_anomaly : Bool
  pub score : ℕ
  pub reason : Text

pub record Scored : Type 0 where
  pub anomaly : BatchAnomaly
  pub scored_at : ℕ

pub record Batch : Type 0 where
  pub id : Text
  pub merkle_root : Text
  pub log_count : ℕ
  pub tx_hash : Option Text
  pub block_number : Option ℕ
  pub status : BatchStatus
  pub confirmed_at : Option ℕ
  pub seal_reason : SealReason
  pub gas_used : Option ℕ
  pub effective_gas_price : Option ℕ
  pub scored : Option Scored

pub record LogBatchMapping : Type 0 where
  pub log_id : Text
  pub batch_id : Text

pub record BatchLogSnapshot : Type 0 where
  pub batch_id : Text
  pub log_id : Text
  pub position : ℕ
  pub snapshot : RawHashCanonical
  pub raw_hash : Text

pub data AlertType : Type 0 where
  integrity_tampered wallet_low_balance : AlertType
  other_type : Text → AlertType

pub data AlertStatus : Type 0 where
  open_alert resolved : AlertStatus

pub data AlertSeverity : Type 0 where
  info warning high critical : AlertSeverity

-- What the detail of an alert of this service says.
pub data AlertDetail : Type 0 where
  tamper : Text → Text → Option Text → List Text → AlertDetail
  low_balance : ℕ → ℕ → AlertDetail
  other_detail : Text → AlertDetail

pub record Alert : Type 0 where
  pub batch_id : Option Text
  pub alert_type : AlertType
  pub severity : AlertSeverity
  pub source : Text
  pub detail : AlertDetail
  pub status : AlertStatus

pub record Db : Type 0 where
  pub logs : List Log
  pub batches : List Batch
  pub mappings : List LogBatchMapping
  pub snapshots : List BatchLogSnapshot
  pub alerts : List Alert
