-- ===== src/Kafka/Outbox/Replay.antt =====
-- What a replay leaves of the events that were kept, and of those that arrive while it runs.
use logchain.Prelude.{
  ◌≡◌, sym, ap, ◌∙◌, subst, Bool, true, false, not, ◌||◌, List, [], ◌∷◌, ◌++◌, take, is_empty, All,
  All-append, All-take, All-filter, Text, text_eq, text_eq_comm, text_eq-eq, Bool-cases, inl, inr,
  if_both₂, arith,
}
use logchain.Kafka.{LogEvent, PendingLog}
use logchain.Kafka.Outbox.{
  Outbox, PublishAnswer, RowAnswer, RoundAnswer, Progress, waiting, completed, returned, leave,
  is_queued, send, publish_log, publish_all, delete_pending, drain_rows, drain_rounds,
  drain_pending, drain_batch_size,
}
use logchain.Kafka.Outbox.Arrivals.{events_of, row_arrivals, after_rows, round_arrivals, arrivals}
use logchain.Kafka.Outbox.Growth.{
  has_event, is_kept, IsPaired, IsPairedTable, Grows, Grows-refl, Grows-trans, keeps, kept_in,
  has_event-last, send-Grows, publish_log-Grows, publish_all-Grows,
}

leave-Grows : (s : Outbox) → Grows s (leave s).0
leave-Grows s = record { kept = λ id h. h; sent = λ id h. h; paired = λ p. p }

is_queued-delete :
    (i id : Text) (rows : List PendingLog)
    → text_eq i id ≡ false
    → is_queued i rows ≡ true
    → is_queued i (delete_pending id rows) ≡ true
unfolding delete_pending
is_queued-delete i id [] n h = h
is_queued-delete i id (r ∷ rows) n h = elim (Bool-cases (text_eq r.log_id id)) [
  | inl y ↦ rw y (
      is_queued-delete i id rows n
        (skip (text_eq r.log_id i) (is_queued i rows) (other (text_eq-eq r.log_id id y)) h))
  | inr k ↦ rw k (here (text_eq r.log_id i) (is_queued i rows) h (is_queued-delete i id rows n))
]
  where
    other : r.log_id ≡ id → text_eq r.log_id i ≡ false
    other e = ap (λ x. text_eq x i) e ∙ text_eq_comm id i ∙ n

    skip : (a b : Bool) → a ≡ false → (a || b) ≡ true → b ≡ true
    skip a b e k = ground arith

    here : (a b : Bool) {c : Bool} → (a || b) ≡ true → (b ≡ true → c ≡ true) → (a || c) ≡ true
    here a b k f = ground arith

delete-Grows :
    (id : Text) (s : Outbox)
    → has_event id s.sent ≡ true
    → Grows s (record s { pending = delete_pending id s.pending })
unfolding delete_pending
delete-Grows id s sent = record {
  kept = λ i h. elim (Bool-cases (text_eq i id)) [
    | inl y ↦
        kept_in i (deleted s)
          (inl (subst (λ x. has_event x s.sent ≡ true) (sym (text_eq-eq i id y)) sent))
    | inr n ↦ keeps i s (deleted s) (λ k. k) (λ k. k) (is_queued-delete i id s.pending n) (λ k. k) h
  ];
  sent = λ i h. h;
  paired = λ p. All-filter IsPaired _ s.pending p;
}
  where
    deleted : Outbox → Outbox
    deleted t = record t { pending = delete_pending id t.pending }

shutdown-Grows :
    (b : Bool) (s : Outbox) → Grows s (record s { shutting_down = s.shutting_down || b })
shutdown-Grows b s = record { kept = λ id h. h; sent = λ id h. h; paired = λ p. p }

-- Nothing that was kept is lost on the way from one state to another, and these events are kept in the
-- second.
abbrev pub Holds : Outbox → Outbox → List LogEvent → Type 0
Holds s t events = Grows s t × All (λ (e : LogEvent). is_kept e.id t ≡ true) events

All-kept :
    (s t : Outbox) (events : List LogEvent)
    → Grows s t
    → All (λ (e : LogEvent). is_kept e.id s ≡ true) events
    → All (λ (e : LogEvent). is_kept e.id t ≡ true) events
All-kept s t [] g h = tt
All-kept s t (e ∷ events) g h = (g.kept e.id h.0, All-kept s t events g h.1)

pub Holds-trans :
    (r s t : Outbox) (es fs : List LogEvent) → Holds r s es → Holds s t fs → Holds r t (es ++ fs)
Holds-trans r s t es fs g h = (
  Grows-trans r s t g.0 h.0,
  All-append (λ (e : LogEvent). is_kept e.id t ≡ true) es fs (All-kept s t es h.0 g.1) h.1,
)

Holds-then : (r s t : Outbox) (es : List LogEvent) → Holds r s es → Grows s t → Holds r t es
Holds-then r s t es g h = (Grows-trans r s t g.0 h, All-kept s t es h g.1)

pub Holds-after : (r s t : Outbox) (es : List LogEvent) → Grows r s → Holds s t es → Holds r t es
Holds-after r s t es g h = (Grows-trans r s t g h.0, h.1)

publish_all-Holds :
    (es : List (PublishAnswer × LogEvent)) (s : Outbox) → Holds s (publish_all es s) (events_of es)
unfolding publish_all
publish_all-Holds [] s = (Grows-refl s, tt)
publish_all-Holds ((a, e) ∷ es) s =
    let (grows, kept) = publish_log-Grows a e s in
    let (more, rest) = publish_all-Holds es (publish_log a e s) in
    (Grows-trans s (publish_log a e s) _ grows more, (more.kept e.id kept, rest))

drain_rows-Holds :
    (answers : List RowAnswer) (rows : List PendingLog) (s : Outbox)
    → All IsPaired rows
    → Holds s (drain_rows answers rows s).0 (row_arrivals answers rows s)
unfolding drain_rows send row_arrivals
drain_rows-Holds answers [] s p = (Grows-refl s, tt)
drain_rows-Holds [] (r ∷ rows) s p = (Grows-refl s, tt)
drain_rows-Holds (a ∷ answers) (r ∷ rows) s p =
    if_both₂ P (not now.is_connected || now.shutting_down)
      (λ y. after_arrived (leave now).0 [] (leave-Grows now, tt))
      (λ n.
        if_both₂ P (not a.send_ok)
          (λ y. after_arrived (leave unsent).0 (events_of a.arrived_sending) (
            Holds-then now unsent _ _ (publish_all-Holds a.arrived_sending now)
              (leave-Grows unsent)))
          (λ k.
            if_both₂ P (not a.delete_ok)
              (λ y.
                after_arrived (leave after).0 (events_of a.arrived_sending)
                  (Holds-then now after _ _ to_after (leave-Grows after)))
              (λ l. after_arrived _ _ (
                Holds-trans now deleted _ (events_of a.arrived_sending) _
                  (Holds-then now after deleted _ to_after (delete-Grows r.log_id after is_sent))
                  (drain_rows-Holds answers rows deleted p.1)))))
  where
    P : Outbox × Progress → List LogEvent → Type 0
    P t es = Holds s t.0 (events_of a.arrived ++ es)

    before : Outbox
    before = publish_all a.arrived s

    now : Outbox
    now = record before { shutting_down = before.shutting_down || a.shutdown }

    unsent : Outbox
    unsent = publish_all a.arrived_sending now

    after : Outbox
    after = publish_all a.arrived_sending (send r.payload now)

    deleted : Outbox
    deleted = record after { pending = delete_pending r.log_id after.pending }

    after_arrived :
        (t : Outbox) (es : List LogEvent) → Holds now t es → Holds s t (events_of a.arrived ++ es)
    after_arrived t es h =
        Holds-trans s before t (events_of a.arrived) es (publish_all-Holds a.arrived s)
          (Holds-after before now t es (shutdown-Grows a.shutdown before) h)

    to_after : Holds now after (events_of a.arrived_sending)
    to_after =
        Holds-after now (send r.payload now) after _ (send-Grows r.payload now)
          (publish_all-Holds a.arrived_sending (send r.payload now))

    is_sent : has_event r.log_id after.sent ≡ true
    is_sent = (publish_all-Grows a.arrived_sending (send r.payload now)).sent r.log_id (
        subst (λ x. has_event x (now.sent ++ r.payload ∷ []) ≡ true) (sym p.0)
          (has_event-last now.sent r.payload))

drain_rounds-Holds :
    (answers : List RoundAnswer) (s : Outbox)
    → IsPairedTable s
    → Holds s (drain_rounds answers s).0 (round_arrivals answers s)
unfolding drain_rounds round_arrivals after_rows
drain_rounds-Holds [] s p = (Grows-refl s, tt)
drain_rounds-Holds (a ∷ answers) s p =
    if_both₂ P (not a.find_ok) (λ y. after_found (leave now).0 [] (leave-Grows now, tt))
      (λ n.
        if_both₂ P (is_empty batch)
          (λ y.
            after_found _ [] (record { kept = λ id h. h; sent = λ id h. h; paired = λ q. q }, tt))
          (λ k.
            by_progress (drain_rows a.rows batch now).1
              (drain_rounds-Holds answers after (to_after.0.paired (to_now.0.paired p)))))
  where
    P : Outbox × Progress → List LogEvent → Type 0
    P t es = Holds s t.0 ((events_of a.arrived ++ events_of a.arrived_finding) ++ es)

    asked : Outbox
    asked = publish_all a.arrived s

    now : Outbox
    now = publish_all a.arrived_finding asked

    batch : List PendingLog
    batch = take drain_batch_size asked.pending

    after : Outbox
    after = (drain_rows a.rows batch now).0

    to_now : Holds s now (events_of a.arrived ++ events_of a.arrived_finding)
    to_now =
        Holds-trans s asked now _ _ (publish_all-Holds a.arrived s)
          (publish_all-Holds a.arrived_finding asked)

    after_found :
        (t : Outbox) (es : List LogEvent)
        → Holds now t es
        → Holds s t ((events_of a.arrived ++ events_of a.arrived_finding) ++ es)
    after_found t es h = Holds-trans s now t _ es to_now h

    paired_batch : All IsPaired batch
    paired_batch =
        All-take IsPaired drain_batch_size asked.pending ((publish_all-Grows a.arrived s).paired p)

    to_after : Holds now after (row_arrivals a.rows batch now)
    to_after = drain_rows-Holds a.rows batch now paired_batch

    by_progress :
        (q : Progress)
        → Holds after (drain_rounds answers after).0 (round_arrivals answers after)
        → P
            (elim q [
              | completed ↦ drain_rounds answers after
              | waiting ↦ (after, waiting)
              | returned ↦ (after, returned)
            ])
            (row_arrivals a.rows batch now ++ after_rows q (round_arrivals answers after))
    by_progress completed rest =
        after_found _ _ (Holds-trans now after _ (row_arrivals a.rows batch now) _ to_after rest)
    by_progress waiting rest = after_found _ _ (
        Holds-trans now after after (row_arrivals a.rows batch now) [] to_after
          (Grows-refl after, tt))
    by_progress returned rest = after_found _ _ (
        Holds-trans now after after (row_arrivals a.rows batch now) [] to_after
          (Grows-refl after, tt))

pub drain_pending-Holds :
    (answers : List RoundAnswer) (s : Outbox)
    → IsPairedTable s
    → Holds s (drain_pending answers s).0 (arrivals answers s)
unfolding drain_pending arrivals
drain_pending-Holds answers s p =
    if_both₂ (λ (t : Outbox × Progress) es. Holds s t.0 es) s.draining (λ y. (Grows-refl s, tt))
      (λ n.
        Holds-after s started _ _ (record { kept = λ id h. h; sent = λ id h. h; paired = λ q. q })
          (drain_rounds-Holds answers started p))
  where
    started : Outbox
    started = record s { draining = true }
