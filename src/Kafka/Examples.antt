-- ===== src/Kafka/Examples.antt =====
-- The theorems on the outbox, the connection and the consumer at concrete events.
use logchain.Prelude.{◌≡◌, refl, true, false, none, List, [], ◌∷◌, Text, codes, text_eq, arith}
use logchain.Json.Value.{JsonFields, field, end, string}
use logchain.Alerts.{rejected, AlertDb, Request}
use logchain.Alerts.Create.{query_error}
use logchain.Kafka.{LogEvent, PendingLog}
use logchain.Kafka.Outbox.{
  Outbox, PublishAnswer, RowAnswer, RoundAnswer, publish_log, drain_pending, returned,
}
use logchain.Kafka.Outbox.Arrivals.{arrivals}
use logchain.Kafka.Outbox.Growth.{is_kept}
use logchain.Kafka.Outbox.Kept.{Call, publish, drain, run_calls, run_calls-kept}
use logchain.Kafka.Outbox.Drained.{drained, smooth_round, copies, drain_pending-drained}
use logchain.Kafka.Connect.{ConnectAnswer, connect_loop}

abbrev event_of : Text → LogEvent
event_of id = record {
  id = id;
  source = codes "web";
  source_ip = none;
  event_type = codes "login";
  severity = codes "INFO";
  message = codes "hi";
  raw_hash = codes "00";
  cde_scope = false;
  created_at = codes "t";
}

abbrev queued : Text → PendingLog
queued id = record { log_id = id; payload = event_of id }

-- Connected again, with two events from the time before.
abbrev backlog : Outbox
backlog = record {
  is_connected = true;
  shutting_down = false;
  has_pending = true;
  draining = false;
  queued_warned = true;
  pending = queued (codes "a") ∷ queued (codes "b") ∷ [];
  sent = [];
  dead_letters = [];
  lost = [];
}

abbrev broken : PublishAnswer
broken = record { send_ok = false; dlq_ok = false; insert_ok = true }

abbrev undeleted : RowAnswer
undeleted = record {
  arrived = (broken, event_of (codes "c")) ∷ [];
  shutdown = false;
  send_ok = true;
  arrived_sending = [];
  delete_ok = false;
}

abbrev broken_round : RoundAnswer
broken_round = record {
  arrived = [];
  find_ok = true;
  arrived_finding = (broken, event_of (codes "e")) ∷ [];
  rows = undeleted ∷ [];
}

-- An event that cannot be sent, and a replay that cannot delete the row it has sent.
abbrev calls : List Call
calls = publish broken (event_of (codes "d")) ∷ drain (broken_round ∷ []) ∷ []

run_calls_run :
    ((run_calls calls backlog).sent ≡ event_of (codes "a") ∷ [])
    × ((run_calls calls backlog).pending
        ≡ queued (codes "a")
          ∷ queued (codes "b")
          ∷ queued (codes "d")
          ∷ queued (codes "e")
          ∷ queued (codes "c")
          ∷ [])
unfolding publish_log drain_pending text_eq
run_calls_run = (refl, refl)

run_calls-kept_example : is_kept (codes "e") (run_calls calls backlog) ≡ true
unfolding publish_log drain_pending arrivals text_eq
run_calls-kept_example = run_calls-kept calls backlog (codes "e") (refl, (refl, tt)) refl

drain_pending-drained_example :
    drain_pending (copies 2 smooth_round) backlog ≡ (drained backlog, returned)
unfolding text_eq
drain_pending-drained_example =
    drain_pending-drained 1 backlog (omega arith) (refl, (refl, tt)) (refl, refl) refl

-- A row that was put in between the query of a replay and its answer is left behind with the flag
-- down.
abbrev late_round : RoundAnswer
late_round = record {
  arrived = [];
  find_ok = true;
  arrived_finding = (broken, event_of (codes "e")) ∷ [];
  rows = [];
}

late_run :
    let after = (drain_pending (late_round ∷ []) (record backlog { pending = [] })).0 in
    (after.has_pending ≡ false) × (after.pending ≡ queued (codes "e") ∷ [])
unfolding drain_pending text_eq
late_run = (refl, refl)

abbrev refused : ConnectAnswer
refused = record { shutdown_before = false; connects = false; shutdown_after = false }

connect_loop_run :
    (connect_loop 1000 60000 (refused ∷ refused ∷ refused ∷ []) 1 backlog).0
    ≡ 1000 ∷ 2000 ∷ 4000 ∷ []
unfolding connect_loop
connect_loop_run = refl

abbrev request : Request
request = record {
  runtime = record { sha256 = λ s. s; iso = λ n. []; parse_date = λ s. none; url_host = λ s. none };
  is_ip = λ t. true;
  renotify_minutes = 60;
  now = 9;
  new_id = codes "a2";
  before_save = λ d. d;
  before_lookup = λ d. d;
  links_written = true;
  lookup_refuses = λ dto r. none;
  row_refuses = λ dto r. none;
  save_given = λ id dto r n d. rejected (query_error (codes "23505"));
}

abbrev no_alerts : AlertDb
no_alerts = record { alerts = []; alert_logs = []; log_ids = []; emails = [] }

-- A message without an alert type.
abbrev message : JsonFields
message = field (codes "source") (string (codes "web")) end
