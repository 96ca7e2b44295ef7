-- ===== src/Kafka/Outbox/Drained.antt =====
-- A replay that nothing stands in the way of.
use logchain.Prelude.{
  take-drop, ℕ, zero, suc, ◌-◌, ◌*◌, ◌≤◌, ◌≡◌, refl, sym, ap, ap₂, ◌∙◌, subst, Bool, true, false,
  not, ◌||◌, List, [], ◌∷◌, ◌++◌, append-nil, append_assoc, map, filter_every, take, drop, length,
  length-take, is_empty, All, IsKeyed, has_id, Text, text_eq, text_eq_refl, text_eq_comm, arith,
  inl, inr, Bool-cases, ◌<◌,
}
use logchain.Kafka.{LogEvent, PendingLog}
use logchain.Kafka.Outbox.{
  Outbox, RowAnswer, RoundAnswer, Progress, completed, returned, publish_all, send, delete_pending,
  drain_rows, drain_rounds, drain_pending, drain_batch_size,
}

abbrev smooth_row : RowAnswer
smooth_row = record {
  arrived = [];
  shutdown = false;
  send_ok = true;
  arrived_sending = [];
  delete_ok = true;
}

abbrev pub copies : {A : Type 0} → ℕ → A → List A
copies zero x = []
copies (suc n) x = x ∷ copies n x

-- A round in which every call works and no other request comes in.
abbrev pub smooth_round : RoundAnswer
smooth_round = record {
  arrived = [];
  find_ok = true;
  arrived_finding = [];
  rows = copies drain_batch_size smooth_row;
}

abbrev pub payloads : List PendingLog → List LogEvent
payloads rows = map (λ (r : PendingLog). r.payload) rows

abbrev pub pending_key : PendingLog → Text
pending_key r = r.log_id

abbrev pub IsRunning : Outbox → Type 0
IsRunning s = (s.is_connected ≡ true) × (s.shutting_down ≡ false)

not_in :
    (id : Text) (rows : List PendingLog)
    → has_id pending_key id rows ≡ false
    → All (λ (r : PendingLog). not (text_eq r.log_id id) ≡ true) rows
not_in id [] h = tt
not_in id (r ∷ rows) h = (
  rw (text_eq_comm r.log_id id, first (text_eq id r.log_id) _ h),
  not_in id rows (rest (text_eq id r.log_id) _ h),
)
  where
    first : (a b : Bool) → (a || b) ≡ false → a ≡ false
    first a b k = ground arith

    rest : (a b : Bool) → (a || b) ≡ false → b ≡ false
    rest a b k = ground arith

delete_head :
    (r : PendingLog) (rows : List PendingLog)
    → has_id pending_key r.log_id rows ≡ false
    → delete_pending r.log_id (r ∷ rows) ≡ rows
unfolding delete_pending
delete_head r rows h = rw (text_eq_refl r.log_id) (filter_every _ rows (not_in r.log_id rows h))

-- The state after these rows were sent and deleted.
abbrev replayed : Outbox → List PendingLog → List PendingLog → Outbox
replayed s rows rest = record s { pending = rest; sent = s.sent ++ payloads rows }

-- The same state, connected and not shutting down.
abbrev up : Outbox → Outbox
up s = record s { is_connected = true; shutting_down = false }

up_same : (s : Outbox) → IsRunning s → up s ≡ s
up_same s run =
    ap₂ (λ c d. record s { is_connected = c; shutting_down = d }) (sym run.0) (sym run.1)

drain_rows-replayed :
    (n : ℕ) (rows rest : List PendingLog) (s : Outbox)
    → length rows ≤ n
    → IsKeyed pending_key (rows ++ rest)
    → s.pending ≡ rows ++ rest
    → drain_rows (copies n smooth_row) rows (up s) ≡ (up (replayed s rows rest), completed)
unfolding drain_rows publish_all send
drain_rows-replayed n [] rest s le key e = rw (append-nil s.sent, sym e) refl
drain_rows-replayed zero (r ∷ rows) rest s le key e = absurd (omega (arith, le))
drain_rows-replayed (suc n) (r ∷ rows) rest s le key e =
    drain_rows-replayed n rows rest sent (omega (arith, le)) key.1
      (ap (delete_pending r.log_id) e ∙ delete_head r (rows ++ rest) key.0)
    ∙ ap (λ (es : List LogEvent). (up (record s { pending = rest; sent = es }), completed))
        (append_assoc s.sent (r.payload ∷ []) (payloads rows))
  where
    sent : Outbox
    sent = record s { pending = delete_pending r.log_id s.pending; sent = s.sent ++ r.payload ∷ [] }

take-empty : {A : Type 0} (n : ℕ) (xs : List A) → 0 < n → is_empty (take n xs) ≡ true → xs ≡ []
take-empty zero xs pos h = absurd (omega (arith, pos))
take-empty (suc n) [] pos h = refl
take-empty (suc n) (x ∷ xs) pos h = cc

length-drop : {A : Type 0} (n : ℕ) (xs : List A) → length (drop n xs) ≡ length xs - n
length-drop zero xs = omega arith
length-drop (suc n) [] = omega arith
length-drop (suc n) (x ∷ xs) = omega (arith, length-drop n xs)

IsKeyed-drop :
    (n : ℕ) (xs : List PendingLog) → IsKeyed pending_key xs → IsKeyed pending_key (drop n xs)
IsKeyed-drop zero xs k = k
IsKeyed-drop (suc n) [] k = tt
IsKeyed-drop (suc n) (x ∷ xs) k = IsKeyed-drop n xs k.1

-- The state after a replay of all rows that are there.
abbrev pub drained : Outbox → Outbox
drained s = record s {
  has_pending = false;
  draining = false;
  pending = [];
  sent = s.sent ++ payloads s.pending;
}

round_step :
    (more : List RoundAnswer) (s t : Outbox)
    → is_empty (take drain_batch_size s.pending) ≡ false
    → drain_rows (copies drain_batch_size smooth_row) (take drain_batch_size s.pending) (up s)
      ≡ (t, completed)
    → drain_rounds (smooth_round ∷ more) (up s) ≡ drain_rounds more t
unfolding drain_rounds publish_all
round_step more s t some_rows rows =
    rw (some_rows, ap (λ (p : Outbox × Progress). p.1) rows)
      (ap (λ (p : Outbox × Progress). drain_rounds more p.0) rows)

round_end :
    (more : List RoundAnswer) (s : Outbox)
    → s.pending ≡ []
    → drain_rounds (smooth_round ∷ more) (up s) ≡ (up (drained s), returned)
unfolding drain_rounds publish_all
round_end more s e = rw (e, append-nil s.sent) refl

payloads-append : (xs ys : List PendingLog) → payloads (xs ++ ys) ≡ payloads xs ++ payloads ys
payloads-append [] ys = refl
payloads-append (x ∷ xs) ys = ap (◌∷◌ x.payload) (payloads-append xs ys)

-- Replaying a first batch and then the rest is replaying all.
drained-replayed :
    (n : ℕ) (s : Outbox) → drained (replayed s (take n s.pending) (drop n s.pending)) ≡ drained s
drained-replayed n s =
    ap
      (λ (es : List LogEvent). record s {
        has_pending = false;
        draining = false;
        pending = [];
        sent = es;
      })
      (append_assoc s.sent (payloads (take n s.pending)) (payloads (drop n s.pending))
        ∙ ap (◌++◌ s.sent) (
            sym (payloads-append (take n s.pending) (drop n s.pending))
            ∙ ap payloads (take-drop n s.pending)))

length-zero : {A : Type 0} (xs : List A) → length xs ≤ 0 → xs ≡ []
length-zero [] h = refl
length-zero (x ∷ xs) h = absurd (omega (arith, h))

drain_rounds-drained :
    (k : ℕ) (s : Outbox)
    → length s.pending ≤ k * drain_batch_size
    → IsKeyed pending_key s.pending
    → drain_rounds (copies (suc k) smooth_round) (up s) ≡ (up (drained s), returned)
drain_rounds-drained zero s le key = round_end [] s (length-zero s.pending (omega (arith, le)))
drain_rounds-drained (suc k) s le key =
    elim (Bool-cases (is_empty (take drain_batch_size s.pending))) [
      | inl none ↦
          round_end (copies (suc k) smooth_round) s
            (take-empty drain_batch_size s.pending (omega arith) none)
      | inr rows ↦
          let batch = take drain_batch_size s.pending in
          let rest = drop drain_batch_size s.pending in
          round_step (copies (suc k) smooth_round) s (up (replayed s batch rest)) rows (
            drain_rows-replayed drain_batch_size batch rest s
              (omega (arith, length-take drain_batch_size s.pending))
              (subst (IsKeyed pending_key) (sym (take-drop drain_batch_size s.pending)) key)
              (sym (take-drop drain_batch_size s.pending)))
          ∙ drain_rounds-drained k (replayed s batch rest)
              (omega (arith, le, length-drop drain_batch_size s.pending))
              (IsKeyed-drop drain_batch_size s.pending key)
          ∙ ap (λ (t : Outbox). (up t, returned)) (drained-replayed drain_batch_size s)
    ]

-- A replay that is not running yet, of a connected service that is not shutting down, where the ids
-- in the table differ, every call works and no other request comes in: with one round more than the
-- table has batches it returns, and it has sent all events of the table in the order in which they
-- were queued, each once, behind what was sent before, and the table is empty.
pub drain_pending-drained :
    (k : ℕ) (s : Outbox)
    → length s.pending ≤ k * drain_batch_size
    → IsKeyed pending_key s.pending
    → IsRunning s
    → s.draining ≡ false
    → drain_pending (copies (suc k) smooth_round) s ≡ (drained s, returned)
unfolding drain_pending
drain_pending-drained k s le key run idle = rw idle (
    ap (drain_rounds (copies (suc k) smooth_round)) (sym (up_same started run))
    ∙ drain_rounds-drained k started le key
    ∙ ap (λ (t : Outbox). (t, returned)) (up_same (drained s) run))
  where
    started : Outbox
    started = record s { draining = true }
