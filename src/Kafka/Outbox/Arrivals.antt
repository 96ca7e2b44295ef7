-- ===== src/Kafka/Outbox/Arrivals.antt =====
-- The events that other requests publish while a replay runs, as far as it runs. This follows the
-- steps of the replay, and reads nothing that it writes but the flags by which it goes on.
use logchain.Prelude.{true, not, ◌||◌, List, [], ◌∷◌, ◌++◌, take, is_empty, if◌then◌else◌}
use logchain.Kafka.{LogEvent, PendingLog}
use logchain.Kafka.Outbox.{
  Outbox, PublishAnswer, RowAnswer, RoundAnswer, Progress, waiting, completed, returned, send,
  publish_all, delete_pending, drain_rows, drain_batch_size,
}

abbrev pub events_of : List (PublishAnswer × LogEvent) → List LogEvent
events_of [] = []
events_of ((a, e) ∷ es) = e ∷ events_of es

unfoldable pub row_arrivals : List RowAnswer → List PendingLog → Outbox → List LogEvent
unfolding publish_all send delete_pending
row_arrivals answers [] s = []
row_arrivals [] (r ∷ rows) s = []
row_arrivals (a ∷ answers) (r ∷ rows) s =
    let before = publish_all a.arrived s in
    let now = record before { shutting_down = before.shutting_down || a.shutdown } in
    let after = publish_all a.arrived_sending (send r.payload now) in
    let rest =
      row_arrivals answers rows
        (record after { pending = delete_pending r.log_id after.pending }) in
    events_of a.arrived
    ++ (if not now.is_connected || now.shutting_down
        then []
        else if not a.send_ok
        then events_of a.arrived_sending
        else if not a.delete_ok
        then events_of a.arrived_sending
        else events_of a.arrived_sending ++ rest)

unfoldable pub after_rows : Progress → List LogEvent → List LogEvent
after_rows completed rest = rest
after_rows waiting rest = []
after_rows returned rest = []

unfoldable pub round_arrivals : List RoundAnswer → Outbox → List LogEvent
unfolding publish_all drain_rows row_arrivals after_rows
round_arrivals [] s = []
round_arrivals (a ∷ answers) s =
    let asked = publish_all a.arrived s in
    let batch = take drain_batch_size asked.pending in
    let now = publish_all a.arrived_finding asked in
    let (after, progress) = drain_rows a.rows batch now in
    let rest = round_arrivals answers after in
    (events_of a.arrived ++ events_of a.arrived_finding)
    ++ (if not a.find_ok
        then []
        else if is_empty batch
        then []
        else row_arrivals a.rows batch now ++ after_rows progress rest)

unfoldable pub arrivals : List RoundAnswer → Outbox → List LogEvent
unfolding round_arrivals
arrivals answers s =
    if s.draining then [] else round_arrivals answers (record s { draining = true })
