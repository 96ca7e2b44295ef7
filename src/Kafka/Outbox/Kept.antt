-- ===== src/Kafka/Outbox/Kept.antt =====
-- Where the events are that were published, over publishes and replays.
use logchain.Prelude.{
  ◌≡◌, subst, true, false, ◌||◌, List, [], ◌∷◌, ◌++◌, All, Text, text_eq, text_eq-eq, Bool-cases,
  inl, inr, arith,
}
use logchain.Kafka.{LogEvent}
use logchain.Kafka.Outbox.{Outbox, PublishAnswer, RoundAnswer, publish_log, drain_pending}
use logchain.Kafka.Outbox.Arrivals.{arrivals}
use logchain.Kafka.Outbox.Growth.{has_event, is_kept, IsPairedTable, Grows-refl, publish_log-Grows}
use logchain.Kafka.Outbox.Replay.{Holds, Holds-trans, drain_pending-Holds}

-- What publishes and replays do with the service, in any order.
pub data Call : Type 0 where
  publish : PublishAnswer → LogEvent → Call
  drain : List RoundAnswer → Call

abbrev pub run_calls : List Call → Outbox → Outbox
run_calls [] s = s
run_calls (publish a e ∷ calls) s = run_calls calls (publish_log a e s)
run_calls (drain answers ∷ calls) s = run_calls calls (drain_pending answers s).0

-- The events that were published, by the calls and by other requests while a replay ran.
abbrev pub published : List Call → Outbox → List LogEvent
published [] s = []
published (publish a e ∷ calls) s = e ∷ published calls (publish_log a e s)
published (drain answers ∷ calls) s =
    arrivals answers s ++ published calls (drain_pending answers s).0

run_calls-Holds :
    (calls : List Call) (s : Outbox)
    → IsPairedTable s
    → Holds s (run_calls calls s) (published calls s)
run_calls-Holds [] s p = (Grows-refl s, tt)
run_calls-Holds (publish a e ∷ calls) s p =
    let (grows, kept) = publish_log-Grows a e s in
    Holds-trans s (publish_log a e s) _ (e ∷ []) _ (grows, (kept, tt))
      (run_calls-Holds calls (publish_log a e s) (grows.paired p))
run_calls-Holds (drain answers ∷ calls) s p =
    let held = drain_pending-Holds answers s p in
    Holds-trans s (drain_pending answers s).0 _ (arrivals answers s) _ held
      (run_calls-Holds calls (drain_pending answers s).0 (held.0.paired p))

All-has_event :
    (id : Text) (s : Outbox) (events : List LogEvent)
    → All (λ (e : LogEvent). is_kept e.id s ≡ true) events
    → has_event id events ≡ true
    → is_kept id s ≡ true
All-has_event id s [] k h = cc
All-has_event id s (e ∷ events) k h = elim (Bool-cases (text_eq e.id id)) [
  | inl y ↦ subst (λ i. is_kept i s ≡ true) (text_eq-eq e.id id y) k.0
  | inr n ↦ All-has_event id s events k.1 (later n)
]
  where
    later : text_eq e.id id ≡ false → has_event id events ≡ true
    later n = grind (arith, n, h)

-- No event disappears: whatever publishes and replays there were, in any order and with any failures
-- in between, the event of every id that was published, by these calls or by other requests at any
-- point of a replay, or was kept before, is on the topic, on the dead letter topic or in the table,
-- or its loss was logged. It is so where each row of the table held the event with its id at the
-- start.
pub run_calls-kept :
    (calls : List Call) (s : Outbox) (id : Text)
    → IsPairedTable s
    → (has_event id (published calls s) || is_kept id s) ≡ true
    → is_kept id (run_calls calls s) ≡ true
run_calls-kept calls s id p h =
    let (grows, kept) = run_calls-Holds calls s p in
    elim (Bool-cases (has_event id (published calls s))) [
      | inl y ↦ All-has_event id (run_calls calls s) (published calls s) kept y
      | inr n ↦ grows.kept id (before n)
    ]
  where
    before : has_event id (published calls s) ≡ false → is_kept id s ≡ true
    before n = grind (arith, n, h)
