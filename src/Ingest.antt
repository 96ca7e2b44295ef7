-- ===== src/Ingest.antt =====
-- `ingest` of src/logs/logs.service.ts: a log gets its raw hash, its row and its event. The masking of
-- personal data in src/logs/services/pii-masking.service.ts is a function that the call is given.
pub mod Taken
mod Examples
use logchain.Prelude.{ℕ, Bool, false, Option, none, some, List, [], ◌∷◌, ◌++◌, Text}
use logchain.Errors.{Thrown, Result, ok, err}
use logchain.Entities.{Log, Db}
use logchain.LogHash.{Runtime, RawHashInput, normalize_ip, compute_raw_hash}
use logchain.Kafka.{LogEvent}
use logchain.Kafka.Outbox.{Outbox, PublishAnswer, publish_log}

pub record CreateLogDto : Type 0 where
  pub source : Text
  pub source_ip : Option Text
  pub event_type : Text
  pub severity : Text
  pub message : Text
  pub classification : Text
  pub cde_scope : Option Bool
  pub retention_days : Option ℕ

-- One call: the platform, the masking, the id, the clock, how the insert ends (`none` is a commit),
-- and what the producer's calls answer.
pub record IngestCall : Type 0 where
  pub runtime : Runtime
  pub mask : Text → Text
  pub new_id : Text
  pub now : ℕ
  pub insert : Option Thrown
  pub publish : PublishAnswer

-- The tables, and the producer.
pub record Intake : Type 0 where
  pub db : Db
  pub outbox : Outbox

or_else : {A : Type 0} → Option A → A → A
or_else none d = d
or_else (some a) d = a

pub content_of : IngestCall → CreateLogDto → RawHashInput
unfolding normalize_ip or_else
content_of call dto = record {
  id = call.new_id;
  source = dto.source;
  source_ip = normalize_ip call.runtime dto.source_ip;
  event_type = dto.event_type;
  severity = dto.severity;
  message = call.mask dto.message;
  classification = dto.classification;
  cde_scope = or_else dto.cde_scope false;
  created_at = call.now;
}

unfoldable pub new_log : IngestCall → CreateLogDto → Log
unfolding content_of compute_raw_hash or_else
new_log call dto = record {
  hashed = record {
    content = content_of call dto;
    raw_hash = compute_raw_hash call.runtime (content_of call dto);
  };
  retention_days = or_else dto.retention_days 365;
}

unfoldable pub event_of : Runtime → Log → LogEvent
event_of rt l = record {
  id = l.content.id;
  source = l.content.source;
  source_ip = l.content.source_ip;
  event_type = l.content.event_type;
  severity = l.content.severity;
  message = l.content.message;
  raw_hash = l.raw_hash;
  cde_scope = l.content.cde_scope;
  created_at = rt.iso l.content.created_at;
}

insert_log : Option Thrown → IngestCall → Log → Intake → Result Log × Intake
unfolding event_of publish_log
insert_log (some e) call l s = (err e, s)
insert_log none call l s = (
  ok l,
  record {
    db = record s.db { logs = s.db.logs ++ l ∷ [] };
    outbox = publish_log call.publish (event_of call.runtime l) s.outbox;
  },
)

unfoldable pub ingest : IngestCall → CreateLogDto → Intake → Result Log × Intake
unfolding insert_log new_log
ingest call dto s = insert_log call.insert call (new_log call dto) s
