-- ===== src/Kafka/Consumer/Honest.antt =====
-- What the health check says of the consumer's connection.
use logchain.Prelude.{◌≡◌, refl, true, false, not, ◌||◌, none, List, [], ◌∷◌, if_both, is_some}
use logchain.Kafka.Consumer.{
  ConsumerState, KafkaConsumerHealth, get_health, ConsumerEvent, group_join, disconnect, crash,
  attempt, started, start_failed, finished, init, destroy, initial_state, start_connect_loop,
  crashed, on_crash, on_event, run_events,
}

-- A consumer that is said to be connected has no error and was connected at some time.
abbrev pub IsHonest : KafkaConsumerHealth → Type 0
IsHonest h = h.connected ≡ true → (h.last_error ≡ none) × (is_some h.last_connected_at ≡ true)

abbrev IsHonestState : ConsumerState → Type 0
IsHonestState s = s.connected ≡ true → (s.last_error ≡ none) × (is_some s.last_connected_at ≡ true)

no_longer : {A : Type 0} → false ≡ true → A
no_longer h = cc

start_connect_loop-IsHonest :
    (s : ConsumerState) → IsHonestState s → IsHonestState (start_connect_loop s)
unfolding start_connect_loop
start_connect_loop-IsHonest s h =
    if_both IsHonestState (s.looping || s.shutting_down) s _ (λ y. h) (λ n. h)

on_event-IsHonest :
    (e : ConsumerEvent) (s : ConsumerState) → IsHonestState s → IsHonestState (on_event e s)
unfolding on_event on_crash crashed
on_event-IsHonest (group_join now) s h = λ c. (refl, refl)
on_event-IsHonest disconnect s h =
    if_both IsHonestState (s.shutting_down || not s.connected) s _ (λ y. h) (λ n c. no_longer c)
on_event-IsHonest (crash message restart) s h =
    if_both IsHonestState s.shutting_down _ _ (λ y c. no_longer c)
      (λ n.
        if_both IsHonestState restart _ _ (λ y c. no_longer c)
          (λ k. start_connect_loop-IsHonest (crashed message s) (λ c. no_longer c)))
on_event-IsHonest attempt s h = h
on_event-IsHonest (started now) s h = λ c. (refl, refl)
on_event-IsHonest (start_failed message) s h = λ c. no_longer c
on_event-IsHonest finished s h = h
on_event-IsHonest init s h = start_connect_loop-IsHonest s h
on_event-IsHonest destroy s h = h

run_events-IsHonest_from :
    (events : List ConsumerEvent) (s : ConsumerState)
    → IsHonestState s
    → IsHonestState (run_events events s)
run_events-IsHonest_from [] s h = h
run_events-IsHonest_from (e ∷ events) s h =
    run_events-IsHonest_from events (on_event e s) (on_event-IsHonest e s h)

-- After any events of the consumer and any steps of its loop, in any order, a health check that says
-- connected shows no error and the time of a connection.
run_events-IsHonest :
    (events : List ConsumerEvent) → IsHonest (get_health (run_events events initial_state))
unfolding get_health initial_state
run_events-IsHonest events = run_events-IsHonest_from events initial_state (λ c. no_longer c)
