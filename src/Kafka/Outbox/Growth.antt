-- ===== src/Kafka/Outbox/Growth.antt =====
-- What a publish leaves of the events that were kept.
use logchain.Prelude.{
  ◌≡◌, refl, Bool, true, false, not, ◌||◌, List, [], ◌∷◌, ◌++◌, any, any-append, All, All-append,
  Text, text_eq, text_eq_refl, inl, inr, ◌⊎◌, or_true, if_both, arith,
}
use logchain.Kafka.{LogEvent, PendingLog}
use logchain.Kafka.Outbox.{
  Outbox, PublishAnswer, is_queued, insert_pending, enqueue, send, publish_log, publish_all,
}

abbrev pub has_event : Text → List LogEvent → Bool
has_event id events = any (λ (e : LogEvent). text_eq e.id id) events

-- The event with this id is on a topic, in the table, or was logged as lost.
abbrev pub is_kept : Text → Outbox → Bool
is_kept id s =
    has_event id s.sent
    || has_event id s.dead_letters
    || is_queued id s.pending
    || has_event id s.lost

abbrev pub IsPaired : PendingLog → Type 0
IsPaired r = r.log_id ≡ r.payload.id

-- Each row of the table holds the event with its id.
abbrev pub IsPairedTable : Outbox → Type 0
IsPairedTable s = All IsPaired s.pending

-- Nothing that was kept is kept no more, and nothing that was sent is unsent.
pub record Grows (s t : Outbox) : Type 0 where
  pub kept : (id : Text) → is_kept id s ≡ true → is_kept id t ≡ true
  pub sent : (id : Text) → has_event id s.sent ≡ true → has_event id t.sent ≡ true
  pub paired : IsPairedTable s → IsPairedTable t

pub Grows-refl : (s : Outbox) → Grows s s
Grows-refl s = record { kept = λ id h. h; sent = λ id h. h; paired = λ h. h }

pub Grows-trans : (r s t : Outbox) → Grows r s → Grows s t → Grows r t
Grows-trans r s t g h = record {
  kept = λ id k. h.kept id (g.kept id k);
  sent = λ id k. h.sent id (g.sent id k);
  paired = λ p. h.paired (g.paired p);
}

pub any-more :
    {A : Type 0} (p : A → Bool) (xs ys : List A) → any p xs ≡ true → any p (xs ++ ys) ≡ true
any-more p xs ys h = rw (any-append p xs ys, h)

pub any-last :
    {A : Type 0} (p : A → Bool) (xs : List A) (y : A) → p y ≡ true → any p (xs ++ y ∷ []) ≡ true
any-last p xs y h = rw (any-append p xs (y ∷ []), h) (or_true (any p xs))

-- One of the four places may grow.
pub or4 :
    (a b c d a' b' c' d' : Bool)
    → (a ≡ true → a' ≡ true)
    → (b ≡ true → b' ≡ true)
    → (c ≡ true → c' ≡ true)
    → (d ≡ true → d' ≡ true)
    → (a || b || c || d) ≡ true
    → (a' || b' || c' || d') ≡ true
or4 a b c d a' b' c' d' ha hb hc hd h = ground arith

pub in4 :
    (a b c d : Bool) → (a ≡ true) ⊎ (b ≡ true) ⊎ (c ≡ true) ⊎ (d ≡ true) → (a || b || c || d) ≡ true
in4 a b c d h = ground arith

pub keeps :
    (id : Text) (s t : Outbox)
    → (has_event id s.sent ≡ true → has_event id t.sent ≡ true)
    → (has_event id s.dead_letters ≡ true → has_event id t.dead_letters ≡ true)
    → (is_queued id s.pending ≡ true → is_queued id t.pending ≡ true)
    → (has_event id s.lost ≡ true → has_event id t.lost ≡ true)
    → is_kept id s ≡ true
    → is_kept id t ≡ true
keeps id s t =
    or4 (has_event id s.sent) (has_event id s.dead_letters) (is_queued id s.pending)
      (has_event id s.lost) (has_event id t.sent) (has_event id t.dead_letters)
      (is_queued id t.pending) (has_event id t.lost)

pub kept_in :
    (id : Text) (t : Outbox)
    → (has_event id t.sent ≡ true)
      ⊎ (has_event id t.dead_letters ≡ true)
      ⊎ (is_queued id t.pending ≡ true)
      ⊎ (has_event id t.lost ≡ true)
    → is_kept id t ≡ true
kept_in id t =
    in4 (has_event id t.sent) (has_event id t.dead_letters) (is_queued id t.pending)
      (has_event id t.lost)

pub has_event-more :
    (id : Text) (events : List LogEvent) (e : LogEvent)
    → has_event id events ≡ true
    → has_event id (events ++ e ∷ []) ≡ true
has_event-more id events e = any-more (λ (x : LogEvent). text_eq x.id id) events (e ∷ [])

pub has_event-last :
    (events : List LogEvent) (e : LogEvent) → has_event e.id (events ++ e ∷ []) ≡ true
has_event-last events e =
    any-last (λ (x : LogEvent). text_eq x.id e.id) events e (text_eq_refl e.id)

pub send-Grows : (e : LogEvent) (s : Outbox) → Grows s (send e s)
unfolding send
send-Grows e s = record {
  kept = λ id. keeps id s (send e s) (has_event-more id s.sent e) (λ h. h) (λ h. h) (λ h. h);
  sent = λ id. has_event-more id s.sent e;
  paired = λ p. p;
}

pub insert_pending-more :
    (id : Text) (e : LogEvent) (rows : List PendingLog)
    → is_queued id rows ≡ true
    → is_queued id (insert_pending e rows) ≡ true
unfolding insert_pending
insert_pending-more id e rows h =
    if_both (λ r. is_queued id r ≡ true) (is_queued e.id rows) _ _ (λ y. h)
      (λ n. any-more _ rows _ h)

pub insert_pending-queued :
    (e : LogEvent) (rows : List PendingLog) → is_queued e.id (insert_pending e rows) ≡ true
unfolding insert_pending
insert_pending-queued e rows =
    if_both (λ r. is_queued e.id r ≡ true) (is_queued e.id rows) _ _ (λ y. y)
      (λ n. any-last _ rows _ (text_eq_refl e.id))

pub insert_pending-IsPaired :
    (e : LogEvent) (rows : List PendingLog)
    → All IsPaired rows
    → All IsPaired (insert_pending e rows)
unfolding insert_pending
insert_pending-IsPaired e rows p =
    if_both (All IsPaired) (is_queued e.id rows) _ _ (λ y. p)
      (λ n. All-append IsPaired rows _ p (refl, tt))

pub enqueue-Grows : (ok : Bool) (e : LogEvent) (s : Outbox) → Grows s (enqueue ok e s)
unfolding enqueue
enqueue-Grows true e s = record {
  kept = λ id.
      keeps id s (enqueue true e s) (λ h. h) (λ h. h) (insert_pending-more id e s.pending) (λ h. h);
  sent = λ id h. h;
  paired = insert_pending-IsPaired e s.pending;
}
enqueue-Grows false e s = record {
  kept =
      λ id. keeps id s (enqueue false e s) (λ h. h) (λ h. h) (λ h. h) (has_event-more id s.lost e);
  sent = λ id h. h;
  paired = λ p. p;
}

pub enqueue-kept : (ok : Bool) (e : LogEvent) (s : Outbox) → is_kept e.id (enqueue ok e s) ≡ true
unfolding enqueue
enqueue-kept true e s =
    kept_in e.id (enqueue true e s) (inr (inr (inl (insert_pending-queued e s.pending))))
enqueue-kept false e s =
    kept_in e.id (enqueue false e s) (inr (inr (inr (has_event-last s.lost e))))

abbrev pub dead_letter : LogEvent → Outbox → Outbox
dead_letter e s = record s { dead_letters = s.dead_letters ++ e ∷ [] }

-- A publish keeps what was kept, and the event that it is for.
pub publish_log-Grows :
    (a : PublishAnswer) (e : LogEvent) (s : Outbox)
    → Grows s (publish_log a e s) × (is_kept e.id (publish_log a e s) ≡ true)
unfolding publish_log send
publish_log-Grows a e s =
    if_both P (not s.is_connected) _ _ (λ y. queued)
      (λ n.
        if_both P a.send_ok _ _
          (λ y. (send-Grows e s, kept_in e.id (send e s) (inl (has_event-last s.sent e))))
          (λ k.
            if_both P a.dlq_ok _ _
              (λ y. (
                record {
                  kept = λ id.
                      keeps id s (dead_letter e s) (λ h. h) (has_event-more id s.dead_letters e)
                        (λ h. h) (λ h. h);
                  sent = λ id h. h;
                  paired = λ p. p;
                },
                kept_in e.id (dead_letter e s) (inr (inl (has_event-last s.dead_letters e))),
              ))
              (λ l. queued)))
  where
    P : Outbox → Type 0
    P t = Grows s t × (is_kept e.id t ≡ true)

    queued : P (enqueue a.insert_ok e s)
    queued = (enqueue-Grows a.insert_ok e s, enqueue-kept a.insert_ok e s)

pub publish_all-Grows :
    (es : List (PublishAnswer × LogEvent)) (s : Outbox) → Grows s (publish_all es s)
unfolding publish_all
publish_all-Grows [] s = Grows-refl s
publish_all-Grows ((a, e) ∷ es) s =
    Grows-trans s (publish_log a e s) _ (publish_log-Grows a e s).0
      (publish_all-Grows es (publish_log a e s))
