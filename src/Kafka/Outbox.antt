-- ===== src/Kafka/Outbox.antt =====
-- `publishLog`, `enqueue` and `drainPending` of src/kafka/kafka-producer.service.ts.
pub mod Growth
pub mod Arrivals
pub mod Replay
pub mod Kept
pub mod Drained
use logchain.Prelude.{
  ℕ, Bool, true, false, not, ◌&&◌, ◌||◌, List, [], ◌∷◌, ◌++◌, map, filter, any, take, is_empty,
  Text, text_eq, if◌then◌else◌,
}
use logchain.Kafka.{LogEvent, PendingLog}

-- The service's flags, the table, the messages on `logs.raw` and on `logs.raw.dlq`, and the events
-- of which it logged that they reach neither the broker nor the table.
pub record Outbox : Type 0 where
  pub is_connected : Bool
  pub shutting_down : Bool
  pub has_pending : Bool
  pub draining : Bool
  pub queued_warned : Bool
  pub pending : List PendingLog
  pub sent : List LogEvent
  pub dead_letters : List LogEvent
  pub lost : List LogEvent

-- Whether the calls that one publish may make succeed.
pub record PublishAnswer : Type 0 where
  pub send_ok : Bool
  pub dlq_ok : Bool
  pub insert_ok : Bool

abbrev pub is_queued : Text → List PendingLog → Bool
is_queued id rows = any (λ (r : PendingLog). text_eq r.log_id id) rows

-- `INSERT ... ON CONFLICT DO NOTHING`
unfoldable pub insert_pending : LogEvent → List PendingLog → List PendingLog
insert_pending e rows =
    if is_queued e.id rows then rows else rows ++ record { log_id = e.id; payload = e } ∷ []

unfoldable pub enqueue : Bool → LogEvent → Outbox → Outbox
unfolding insert_pending
enqueue true e s = record s {
  pending = insert_pending e s.pending;
  has_pending = true;
  queued_warned = true;
}
enqueue false e s = record s { lost = s.lost ++ e ∷ [] }

unfoldable pub send : LogEvent → Outbox → Outbox
send e s = record s { sent = s.sent ++ e ∷ [] }

-- A publish without the replay that it may start in the background, which is `drain_pending`.
unfoldable pub publish_log : PublishAnswer → LogEvent → Outbox → Outbox
unfolding enqueue send
publish_log a e s =
    if not s.is_connected
    then enqueue a.insert_ok e s
    else if a.send_ok
    then send e s
    else if a.dlq_ok
    then record s { dead_letters = s.dead_letters ++ e ∷ [] }
    else enqueue a.insert_ok e s

-- `if (this.hasPending) void this.drainPending()`, after a send that worked.
unfoldable pub starts_drain : PublishAnswer → Outbox → Bool
starts_drain a s = s.is_connected && a.send_ok && s.has_pending

unfoldable pub publish_all : List (PublishAnswer × LogEvent) → Outbox → Outbox
unfolding publish_log
publish_all [] s = s
publish_all ((a, e) ∷ rest) s = publish_all rest (publish_log a e s)

unfoldable pub delete_pending : Text → List PendingLog → List PendingLog
delete_pending id rows = filter (λ (r : PendingLog). not (text_eq r.log_id id)) rows

-- What happens at one row of a replay: the publishes of other requests before it and while it is
-- sent, a shutdown, and whether it is sent and deleted.
pub record RowAnswer : Type 0 where
  pub arrived : List (PublishAnswer × LogEvent)
  pub shutdown : Bool
  pub send_ok : Bool
  pub arrived_sending : List (PublishAnswer × LogEvent)
  pub delete_ok : Bool

-- One round: the publishes of others before the query and between the query and its answer, whether
-- it succeeds, and the rows.
pub record RoundAnswer : Type 0 where
  pub arrived : List (PublishAnswer × LogEvent)
  pub find_ok : Bool
  pub arrived_finding : List (PublishAnswer × LogEvent)
  pub rows : List RowAnswer

-- How far a replay came by the answers that there are: it waits for more, went through its rows, or
-- returned.
pub data Progress : Type 0 where
  waiting completed returned : Progress

abbrev pub drain_batch_size : ℕ
drain_batch_size = 500

-- `finally { this.draining = false }`
abbrev pub leave : Outbox → Outbox × Progress
leave s = (record s { draining = false }, returned)

unfoldable pub drain_rows : List RowAnswer → List PendingLog → Outbox → Outbox × Progress
unfolding publish_all send delete_pending
drain_rows answers [] s = (s, completed)
drain_rows [] (r ∷ rows) s = (s, waiting)
drain_rows (a ∷ answers) (r ∷ rows) s =
    let before = publish_all a.arrived s in
    let now = record before { shutting_down = before.shutting_down || a.shutdown } in
    let after = publish_all a.arrived_sending (send r.payload now) in
    let rest =
      drain_rows answers rows (record after { pending = delete_pending r.log_id after.pending }) in
    if not now.is_connected || now.shutting_down
    then leave now
    else if not a.send_ok
    then leave (publish_all a.arrived_sending now)
    else if not a.delete_ok
    then leave after
    else rest

-- `for (;;)`, as far as the answers go.
unfoldable pub drain_rounds : List RoundAnswer → Outbox → Outbox × Progress
unfolding publish_all drain_rows
drain_rounds [] s = (s, waiting)
drain_rounds (a ∷ answers) s =
    let asked = publish_all a.arrived s in
    let batch = take drain_batch_size asked.pending in
    let now = publish_all a.arrived_finding asked in
    let (after, progress) = drain_rows a.rows batch now in
    let rest = drain_rounds answers after in
    if not a.find_ok
    then leave now
    else if is_empty batch
    then leave (record now { has_pending = false })
    else elim progress [
      | completed ↦ rest
      | waiting ↦ (after, waiting)
      | returned ↦ (after, returned)
    ]

unfoldable pub drain_pending : List RoundAnswer → Outbox → Outbox × Progress
unfolding drain_rounds
drain_pending answers s =
    if s.draining then (s, returned) else drain_rounds answers (record s { draining = true })
