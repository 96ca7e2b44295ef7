-- ===== src/Kafka.antt =====
-- src/kafka: the events of logs on their way to the broker, and the alerts that come from it.
pub mod Outbox
pub mod Connect
pub mod Consumer
mod Examples
use logchain.Prelude.{Bool, Option, Text}

pub record LogEvent : Type 0 where
  pub id : Text
  pub source : Text
  pub source_ip : Option Text
  pub event_type : Text
  pub severity : Text
  pub message : Text
  pub raw_hash : Text
  pub cde_scope : Bool
  pub created_at : Text

-- A row of kafka_pending_logs. The table is the list of its rows in the order of `queued_at`.
pub record PendingLog : Type 0 where
  pub log_id : Text
  pub payload : LogEvent
