-- ===== src/Ingest/Examples.antt =====
-- A log that is taken while the broker is away.
use logchain.Prelude.{◌≡◌, refl, true, false, none, [], codes, text_eq}
use logchain.Errors.{ok}
use logchain.Entities.{Log}
use logchain.Ingest.{CreateLogDto, IngestCall, Intake, ingest}
use logchain.Ingest.Taken.{IsTaken, ingest-IsTaken}
use logchain.Integrity.State.{is_mapped}
use logchain.Integrity.Fixture.{plain, sealed_db}

abbrev dto : CreateLogDto
dto = record {
  source = codes "web";
  source_ip = none;
  event_type = codes "login";
  severity = codes "INFO";
  message = codes "mail a@b.io";
  classification = codes "INTERNAL";
  cde_scope = none;
  retention_days = none;
}

abbrev call : IngestCall
call = record {
  runtime = plain;
  mask = λ t. codes "mail [EMAIL]";
  new_id = codes "l3";
  now = 9;
  insert = none;
  publish = record { send_ok = false; dlq_ok = false; insert_ok = true };
}

abbrev intake : Intake
intake = record {
  db = sealed_db;
  outbox = record {
    is_connected = true;
    shutting_down = false;
    has_pending = false;
    draining = false;
    queued_warned = false;
    pending = [];
    sent = [];
    dead_letters = [];
    lost = [];
  };
}

ingest-IsTaken_example :
    (l : Log) × ((ingest call dto intake).0 ≡ ok l)
    × IsTaken call dto intake (ingest call dto intake).1 l
unfolding is_mapped text_eq
ingest-IsTaken_example = ingest-IsTaken call dto intake refl refl
