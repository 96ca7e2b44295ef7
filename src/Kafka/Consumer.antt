-- ===== src/Kafka/Consumer.antt =====
-- src/kafka/kafka-consumer.service.ts: what the health check is told, and what becomes of a message.
pub mod Honest
use logchain.Prelude.{
  ℕ, suc, Bool, true, false, not, ◌||◌, ◌&&◌, Option, none, some, List, [], ◌∷◌, Text, codes,
  if_both, if◌then◌else◌,
}
use logchain.Json.Value.{JsonValue, null, string, object, end, field_of}
use logchain.Alerts.{AlertDb, AlertInput, AlertLogLinks, Request}
use logchain.Alerts.Create.{create_or_dedup}

pub record ConsumerState : Type 0 where
  pub connected : Bool
  pub attempts : ℕ
  pub last_error : Option Text
  pub last_connected_at : Option ℕ
  pub shutting_down : Bool
  pub looping : Bool

pub record KafkaConsumerHealth : Type 0 where
  pub connected : Bool
  pub last_error : Option Text
  pub last_connected_at : Option ℕ
  pub reconnect_attempts : ℕ

unfoldable pub get_health : ConsumerState → KafkaConsumerHealth
get_health s = record {
  connected = s.connected;
  last_error = s.last_error;
  last_connected_at = s.last_connected_at;
  reconnect_attempts = s.attempts;
}

-- The events of the consumer, and the steps of `connectLoop` between its awaits: it starts, begins
-- an attempt, and the attempt succeeds or fails; `finished` is the end of the loop.
pub data ConsumerEvent : Type 0 where
  group_join : ℕ → ConsumerEvent
  disconnect : ConsumerEvent
  crash : Option Text → Bool → ConsumerEvent
  attempt : ConsumerEvent
  started : ℕ → ConsumerEvent
  start_failed : Text → ConsumerEvent
  finished : ConsumerEvent
  init destroy : ConsumerEvent

unfoldable pub initial_state : ConsumerState
initial_state = record {
  connected = false;
  attempts = 0;
  last_error = none;
  last_connected_at = none;
  shutting_down = false;
  looping = false;
}

-- `startConnectLoop`, up to the first attempt.
unfoldable pub start_connect_loop : ConsumerState → ConsumerState
start_connect_loop s =
    if s.looping || s.shutting_down then s else record s { looping = true; attempts = 0 }

unfoldable pub crashed : Option Text → ConsumerState → ConsumerState
crashed message s = record s {
  connected = false;
  last_error = some (elim message [ some m ↦ m | none ↦ codes "consumer crashed" ]);
}

unfoldable pub on_crash : Option Text → Bool → ConsumerState → ConsumerState
unfolding start_connect_loop crashed
on_crash message restart s =
    let down = crashed message s in
    if s.shutting_down
    then down
    else if restart
    then record down { attempts = suc s.attempts }
    else start_connect_loop down

unfoldable pub on_event : ConsumerEvent → ConsumerState → ConsumerState
unfolding start_connect_loop on_crash
on_event (group_join now) s = record s {
  connected = true;
  last_error = none;
  last_connected_at = some now;
  attempts = 0;
}
on_event disconnect s =
    if s.shutting_down || not s.connected then s else record s { connected = false }
on_event (crash message restart) s = on_crash message restart s
on_event attempt s = record s { attempts = suc s.attempts }
on_event (started now) s = record s {
  connected = true;
  last_error = none;
  last_connected_at = some now;
  attempts = 0;
}
on_event (start_failed message) s = record s { connected = false; last_error = some message }
on_event finished s = record s { looping = false }
on_event init s = start_connect_loop s
on_event destroy s = record s { shutting_down = true }

abbrev pub run_events : List ConsumerEvent → ConsumerState → ConsumerState
run_events [] s = s
run_events (e ∷ events) s = run_events events (on_event e s)

-- A field that is a text, null or not there.
is_text_field : Text → JsonValue → Bool
unfolding field_of
is_text_field key v = elim (field_of key v) [
  | none ↦ true
  | some null ↦ true
  | some (string s) ↦ true
  | _ ↦ false
]

-- The fields that go into columns of texts are texts, as detection writes them.
unfoldable pub has_texts : JsonValue → Bool
unfolding is_text_field
has_texts v =
    is_text_field (codes "log_id") v
    && is_text_field (codes "alert_type") v
    && is_text_field (codes "severity") v
    && is_text_field (codes "source") v
    && is_text_field (codes "source_ip") v
    && is_text_field (codes "title") v

-- `alert[key] ?? null` of such a field
text_field : Text → JsonValue → Option Text
unfolding field_of
text_field key v = elim (field_of key v) [ some (string s) ↦ some s | _ ↦ none ]

or_default : Option Text → Text → Option Text
or_default none d = some d
or_default (some t) d = some t

detail_of : Option JsonValue → Option JsonValue
detail_of none = some (object end)
detail_of (some null) = some (object end)
detail_of (some v) = some v

-- The payload of `createOrDedup` for a message whose text fields are texts.
unfoldable pub alert_input : JsonValue → AlertInput
unfolding text_field or_default detail_of field_of
alert_input v = record {
  id = none;
  created_at = none;
  log_id = text_field (codes "log_id") v;
  batch_id = none;
  alert_type = or_default (text_field (codes "alert_type") v) (codes "UNKNOWN");
  severity = or_default (text_field (codes "severity") v) (codes "WARNING");
  source = or_default (text_field (codes "source") v) (codes "unknown");
  source_ip = text_field (codes "source_ip") v;
  title = or_default (text_field (codes "title") v) (codes "Alert");
  detail = detail_of (field_of (codes "detail") v);
  rule_id = none;
}

unfoldable pub alert_links : JsonValue → AlertLogLinks
unfolding field_of
alert_links v = record {
  related_log_ids = field_of (codes "related_log_ids") v;
  prior_log_ids = field_of (codes "prior_log_ids") v;
}

-- `handleAlert`: `none` is a message without a value, or one that is no JSON; reading a field of null
-- throws, and what is thrown is logged. Nothing is thrown on. `other` is what the call does with a
-- message that has another value in a text field, which goes to the database driver as it is.
unfoldable pub handle_alert :
    Request → (JsonValue → AlertDb → AlertDb) → Option JsonValue → AlertDb → AlertDb
unfolding has_texts alert_input alert_links create_or_dedup
handle_alert req other none db = db
handle_alert req other (some null) db = db
handle_alert req other (some v) db =
    if has_texts v then (create_or_dedup req (alert_input v) (alert_links v) db).1 else other v db
