-- ===== src/Ingest/Taken.antt =====
-- Where a log is that `ingest` took.
use logchain.Prelude.{◌≡◌, refl, ap, subst, sym, true, false, none, [], ◌∷◌, ◌++◌}
use logchain.Errors.{ok}
use logchain.Entities.{Log, log_id}
use logchain.LogHash.{is_raw_hash_intact}
use logchain.LogHash.Laws.{is_raw_hash_intact_fresh}
use logchain.Integrity.State.{is_mapped, is_pending}
use logchain.Kafka.Outbox.{publish_log}
use logchain.Kafka.Outbox.Growth.{is_kept, publish_log-Grows}
use logchain.Ingest.{
  CreateLogDto, IngestCall, Intake, content_of, new_log, event_of, insert_log, ingest,
}

-- The log is the row behind the others, holds the masked message and its own hash, waits for a seal,
-- and its event, with the same hash, is kept by the producer.
pub record IsTaken (call : IngestCall) (dto : CreateLogDto) (before after : Intake) (l : Log)
    : Type 0 where
  pub id : log_id l ≡ call.new_id
  pub message : l.content.message ≡ call.mask dto.message
  pub row : after.db.logs ≡ before.db.logs ++ l ∷ []
  pub mappings : after.db.mappings ≡ before.db.mappings
  pub intact : is_raw_hash_intact call.runtime l.hashed ≡ true
  pub waits : is_pending after.db.mappings none l ≡ true
  pub outbox : after.outbox ≡ publish_log call.publish (event_of call.runtime l) before.outbox
  pub hash : (event_of call.runtime l).raw_hash ≡ l.raw_hash
  pub event : is_kept (log_id l) after.outbox ≡ true

-- Whatever the producer's calls answer, where the row could be inserted and the new id has no mapping
-- to a batch: the call returns the log, whose row is behind the others, holds the masked message, is
-- intact and waits for a seal, and whose event carries the same hash and is sent, on the dead letter
-- topic, in the outbox or logged as lost.
pub ingest-IsTaken :
    (call : IngestCall) (dto : CreateLogDto) (s : Intake)
    → call.insert ≡ none
    → is_mapped s.db.mappings call.new_id ≡ false
    → (l : Log) × ((ingest call dto s).0 ≡ ok l) × IsTaken call dto s (ingest call dto s).1 l
unfolding ingest insert_log new_log content_of event_of is_pending
ingest-IsTaken call dto s done unmapped = (
  new_log call dto,
  ap (λ e. (insert_log e call (new_log call dto) s).0) done,
  subst (λ e. IsTaken call dto s (insert_log e call (new_log call dto) s).1 (new_log call dto))
      (sym done) taken,
)
  where
    taken : IsTaken call dto s (insert_log none call (new_log call dto) s).1 (new_log call dto)
    taken = record {
      id = refl;
      message = refl;
      row = refl;
      mappings = refl;
      intact = is_raw_hash_intact_fresh call.runtime (content_of call dto);
      waits = rw unmapped;
      outbox = refl;
      hash = refl;
      event =
          (publish_log-Grows call.publish (event_of call.runtime (new_log call dto)) s.outbox).1;
    }
