-- ===== src/Integrity/Rounds.antt =====
-- Whole rounds of sealing: `sealBatch` with `recordSealOutcome`, `runScheduledSeal`,
-- `runHybridSealTick` with `getPendingStats`, and `drainPending`. The queue `sealQueue` runs seals
-- one after another; the n-th seal of a round gets the n-th answers of the world.
pub mod Backoff
pub mod Drained
use logchain.Prelude.{
  ℕ, zero, suc, ◌+◌, ◌-◌, ◌*◌, ◌/◌, ◌^◌, min, Bool, true, false, not, ◌||◌, Option, none, some,
  List, [], ◌∷◌, map, filter, sort, length, ltb, leb, ◌==◌, if◌then◌else◌,
}
use logchain.Errors.{Thrown}
use logchain.Entities.{Log, Batch, BatchStatus, failed, SealReason, cron, Db}
use logchain.LogHash.{Runtime}
use logchain.Merkle.{MerkleTree}
use logchain.SealConfig.{
  SealConfig, SealTrigger, SealDecision, SealSkipReason, seal, skip, decide_seal,
}
use logchain.Integrity.State.{Service, World, is_pending}
use logchain.Integrity.Seal.{SealOutcome, nothing, skipped, closed, threw, seal_batch_now}

abbrev pub max_batches_per_tick : ℕ
max_batches_per_tick = 1000

pub data Skipped : Type 0 where
  low_balance in_flight backoff : Skipped

pub record SealRunResult : Type 0 where
  pub batches : List Batch
  pub skipped : Option Skipped

pub data RunOutcome : Type 0 where
  returned : SealRunResult → RunOutcome
  raised : Thrown → RunOutcome

unfoldable pub record_seal_outcome : SealConfig → Bool → Service → Service
record_seal_outcome cfg true s = record s { consecutive_failures = 0; backoff_ticks_left = 0 }
record_seal_outcome cfg false s =
    let k = s.consecutive_failures + 1 in
    let after = cfg.failure_backoff_after in
    if after == 0 || ltb k after then record s { consecutive_failures = k } else record s {
      consecutive_failures = k;
      backoff_ticks_left = min (2 ^ min (k - after) 30) cfg.backoff_max_ticks;
    }

abbrev pub is_failed : Batch → Bool
is_failed b = elim b.status [ failed ↦ true | _ ↦ false ]

record_outcome : SealConfig → SealOutcome × Service → SealOutcome × Service
unfolding record_seal_outcome
record_outcome cfg (nothing, s) = (nothing, s)
record_outcome cfg (skipped, s) = (skipped, s)
record_outcome cfg (closed b, s) = (closed b, record_seal_outcome cfg (not (is_failed b)) s)
record_outcome cfg (threw e, s) = (threw e, record_seal_outcome cfg false s)

push : Batch → RunOutcome × Service → RunOutcome × Service
push b (returned r, s) = (returned (record r { batches = b ∷ r.batches }), s)
push b (raised e, s) = (raised e, s)

-- What a loop over `sealBatch` does with one outcome; `rest` is the run of the following rounds.
after_seal : (Batch → Bool) → SealOutcome × Service → RunOutcome × Service → RunOutcome × Service
unfolding push
after_seal stops (nothing, s) rest = (returned (record { batches = []; skipped = none }), s)
after_seal stops (skipped, s) rest =
    (returned (record { batches = []; skipped = some low_balance }), s)
after_seal stops (threw e, s) rest = (raised e, s)
after_seal stops (closed b, s) rest =
    if stops b then (returned (record { batches = b ∷ []; skipped = none }), s) else push b rest

-- `finally { this.drainInFlight = false }`
release : RunOutcome × Service → RunOutcome × Service
release r = (r.0, record r.1 { drain_in_flight = false })

nothing_sealed : Option Skipped → Service → RunOutcome × Service
nothing_sealed why s = (returned (record { batches = []; skipped = why }), s)

module _ (rt : Runtime) (lib : MerkleTree) (cfg : SealConfig) where
  unfoldable pub seal_batch : SealReason → World → Option ℕ → Service → SealOutcome × Service
  unfolding record_outcome seal_batch_now
  seal_batch reason w cutoff s = record_outcome cfg (seal_batch_now rt lib reason w cfg cutoff s)

  -- The two loops: at most `n` more batches, and none after a batch that `stops` the loop.
  unfoldable pub seal_loop :
      SealReason → Option ℕ → (Batch → Bool) → (ℕ → World) → ℕ → Service → RunOutcome × Service
  unfolding after_seal seal_batch
  seal_loop reason cutoff stops ws zero s = (returned (record { batches = []; skipped = none }), s)
  seal_loop reason cutoff stops ws (suc n) s =
      let r = seal_batch reason (ws 0) cutoff s in
      after_seal stops r (seal_loop reason cutoff stops (λ i. ws (suc i)) n r.1)

  abbrev pub ends_round : Batch → Bool
  ends_round b = is_failed b || ltb b.log_count cfg.batch_size

  unfoldable pub run_scheduled_seal : (ℕ → World) → Service → RunOutcome × Service
  unfolding seal_loop release nothing_sealed
  run_scheduled_seal ws s =
      if s.drain_in_flight
      then nothing_sealed (some in_flight) s
      else if ltb 0 s.backoff_ticks_left
      then nothing_sealed (some backoff)
          (record s { backoff_ticks_left = s.backoff_ticks_left - 1 })
      else release (
          seal_loop cron none ends_round ws max_batches_per_tick
            (record s { drain_in_flight = true }))

pub record PendingStats : Type 0 where
  pub pending_count : ℕ
  pub oldest_age : Option ℕ

abbrev created_before : Log → Log → Bool
created_before a b = leb a.content.created_at b.content.created_at

-- `now() - min(created_at)`, in microseconds.
abbrev oldest : ℕ → List Log → Option ℕ
oldest now [] = none
oldest now (l ∷ ls) = some ((now - l.content.created_at) * 1000)

unfoldable pub get_pending_stats : ℕ → Db → PendingStats
unfolding is_pending
get_pending_stats now db =
    let rows = filter (is_pending db.mappings none) db.logs in
    record { pending_count = length rows; oldest_age = oldest now (sort created_before rows) }

reason_of : SealTrigger → SealReason
reason_of SealTrigger.count = SealReason.count
reason_of SealTrigger.age = SealReason.age

cutoff_of : SealTrigger → ℕ → Option ℕ
cutoff_of SealTrigger.count now = none
cutoff_of SealTrigger.age now = some now

module _ (rt : Runtime) (lib : MerkleTree) (cfg : SealConfig) where
  unfoldable pub drain_pending :
      SealReason → ℕ → Option ℕ → (ℕ → World) → Service → RunOutcome × Service
  unfolding seal_loop
  drain_pending reason max_batches cutoff ws s =
      seal_loop rt lib cfg reason cutoff is_failed ws (min max_batches max_batches_per_tick) s

  -- `now` is the database's clock when the tick decides.
  on_decision : ℕ → (ℕ → World) → ℕ → SealDecision → Service → RunOutcome × Service
  unfolding drain_pending reason_of cutoff_of release nothing_sealed
  on_decision now ws pending_count (skip SealSkipReason.backoff) s =
      nothing_sealed (some backoff) (record s { backoff_ticks_left = s.backoff_ticks_left - 1 })
  on_decision now ws pending_count (skip SealSkipReason.in_flight) s =
      nothing_sealed (some in_flight) s
  on_decision now ws pending_count (skip SealSkipReason.idle) s = nothing_sealed none s
  on_decision now ws pending_count (seal trigger drain_all) s = release (
      drain_pending (reason_of trigger)
        (if drain_all then max_batches_per_tick else pending_count / cfg.batch_size)
        (cutoff_of trigger now) ws (record s { drain_in_flight = true }))

  unfoldable pub run_hybrid_seal_tick : ℕ → (ℕ → World) → Service → RunOutcome × Service
  unfolding get_pending_stats on_decision decide_seal
  run_hybrid_seal_tick now ws s =
      let stats = get_pending_stats now s.db in
      on_decision now ws stats.pending_count
        (decide_seal (record {
          pending_count = stats.pending_count;
          oldest_age = stats.oldest_age;
          in_flight = s.drain_in_flight;
          backoff_ticks_left = s.backoff_ticks_left;
          batch_size = cfg.batch_size;
          max_wait_minutes = cfg.max_wait_minutes;
        }))
        s
