-- ===== src/Integrity/Rounds/Backoff.antt =====
-- How failures of a seal are counted, and how many ticks are skipped for them.
use logchain.Prelude.{
  ℕ, zero, suc, ◌+◌, ◌-◌, ◌^◌, ◌≤◌, min, ◌≡◌, inl, inr, Bool, true, false, not, ◌||◌, Option, none,
  ltb, ◌==◌, if◌then◌else◌, if_both, Bool-cases, arith,
}
use logchain.Entities.{Batch, SealReason, cron}
use logchain.LogHash.{Runtime}
use logchain.Merkle.{MerkleTree}
use logchain.SealConfig.{SealConfig, SealDecision, seal, skip, SealSkipReason, decide_seal}
use logchain.Integrity.State.{Service, World}
use logchain.Integrity.Seal.{SealOutcome, nothing, skipped, closed, threw, seal_batch_now}
use logchain.Integrity.Seal.Counts.{SameCounts, seal_batch_now-SameCounts}
use logchain.Integrity.Rounds.{
  RunOutcome, returned, raised, record_seal_outcome, record_outcome, is_failed, push, after_seal,
  seal_batch, seal_loop, ends_round, max_batches_per_tick, release, nothing_sealed,
  run_scheduled_seal, drain_pending, on_decision, get_pending_stats, run_hybrid_seal_tick,
}

-- The ticks to skip after so many failures in a row.
abbrev pub penalty : SealConfig → ℕ → ℕ
penalty cfg k =
    if cfg.failure_backoff_after == 0 || ltb k cfg.failure_backoff_after
    then 0
    else min (2 ^ min (k - cfg.failure_backoff_after) 30) cfg.backoff_max_ticks

-- Never more ticks are left than the failures in a row stand for.
abbrev pub IsBounded : SealConfig → Service → Type 0
IsBounded cfg s = s.backoff_ticks_left ≤ penalty cfg s.consecutive_failures

quiet_before :
    (after k : ℕ) → (after == 0 || ltb (k + 1) after) ≡ true → (after == 0 || ltb k after) ≡ true
quiet_before after k h = ground arith

record_seal_outcome-IsBounded :
    (cfg : SealConfig) (ok : Bool) (s : Service)
    → IsBounded cfg s
    → IsBounded cfg (record_seal_outcome cfg ok s)
unfolding record_seal_outcome
record_seal_outcome-IsBounded cfg true s h = omega arith
record_seal_outcome-IsBounded cfg false s h =
    let k = s.consecutive_failures in
    let after = cfg.failure_backoff_after in
    elim (Bool-cases (after == 0 || ltb (k + 1) after)) [
      | inl e ↦ let b : s.backoff_ticks_left ≤ 0 = rw (quiet_before after k e) at h in rw (e, e) b
      | inr e ↦ rw (e, e) (omega arith)
    ]

module _ (rt : Runtime) (lib : MerkleTree) (cfg : SealConfig) where
  same_bound : (s t : Service) → SameCounts s t → IsBounded cfg s → IsBounded cfg t
  same_bound s t (k, b) h = rw (k, b) h

  seal_batch-IsBounded :
      (reason : SealReason) (w : World) (cutoff : Option ℕ) (s : Service)
      → IsBounded cfg s
      → IsBounded cfg (seal_batch rt lib cfg reason w cutoff s).1
  unfolding seal_batch record_outcome
  seal_batch-IsBounded reason w cutoff s h = go (seal_batch_now rt lib reason w cfg cutoff s) (
      same_bound s (seal_batch_now rt lib reason w cfg cutoff s).1
        (seal_batch_now-SameCounts rt lib cfg reason w cutoff s) h)
    where
      go : (r : SealOutcome × Service) → IsBounded cfg r.1 → IsBounded cfg (record_outcome cfg r).1
      go (nothing, t) b = b
      go (skipped, t) b = b
      go (closed x, t) b = record_seal_outcome-IsBounded cfg (not (is_failed x)) t b
      go (threw e, t) b = record_seal_outcome-IsBounded cfg false t b

  after_seal-IsBounded :
      (stops : Batch → Bool) (r : SealOutcome × Service) (rest : RunOutcome × Service)
      → IsBounded cfg r.1
      → IsBounded cfg rest.1
      → IsBounded cfg (after_seal stops r rest).1
  unfolding after_seal push
  after_seal-IsBounded stops (nothing, t) rest h k = h
  after_seal-IsBounded stops (skipped, t) rest h k = h
  after_seal-IsBounded stops (threw e, t) rest h k = h
  after_seal-IsBounded stops (closed b, t) rest h k =
      if_both (λ (r : RunOutcome × Service). IsBounded cfg r.1) (stops b) _ _ (λ _. h)
        (λ _. go rest k)
    where
      go : (rest : RunOutcome × Service) → IsBounded cfg rest.1 → IsBounded cfg (push b rest).1
      go (returned r, u) k = k
      go (raised e, u) k = k

  seal_loop-IsBounded :
      (reason : SealReason) (cutoff : Option ℕ) (stops : Batch → Bool) (ws : ℕ → World) (n : ℕ)
      (s : Service)
      → IsBounded cfg s
      → IsBounded cfg (seal_loop rt lib cfg reason cutoff stops ws n s).1
  unfolding seal_loop
  seal_loop-IsBounded reason cutoff stops ws zero s h = h
  seal_loop-IsBounded reason cutoff stops ws (suc n) s h =
      let b = seal_batch-IsBounded reason (ws 0) cutoff s h in
      after_seal-IsBounded stops (seal_batch rt lib cfg reason (ws 0) cutoff s) _ b (
        seal_loop-IsBounded reason cutoff stops (λ i. ws (suc i)) n
          (seal_batch rt lib cfg reason (ws 0) cutoff s).1 b)

  -- A scheduled round that begins with no more ticks to skip than its failures in a row stand for
  -- also ends so, whatever happens in it: none below the limit, then 1, 2, 4 and so on up to the
  -- configured maximum.
  pub run_scheduled_seal-IsBounded :
      (ws : ℕ → World) (s : Service)
      → IsBounded cfg s
      → IsBounded cfg (run_scheduled_seal rt lib cfg ws s).1
  unfolding run_scheduled_seal release nothing_sealed
  run_scheduled_seal-IsBounded ws s h =
      if_both (λ (r : RunOutcome × Service). IsBounded cfg r.1) s.drain_in_flight _ _ (λ _. h)
        (λ _.
          if_both (λ (r : RunOutcome × Service). IsBounded cfg r.1) (ltb 0 s.backoff_ticks_left) _ _
            (λ _. omega (arith, h))
            (λ _.
              seal_loop-IsBounded cron none (ends_round rt lib cfg) ws max_batches_per_tick
                (record s { drain_in_flight = true }) h))

  -- A tick of the hybrid mode that begins with no more ticks to skip than the failures in a row
  -- stand for also ends so.
  pub run_hybrid_seal_tick-IsBounded :
      (now : ℕ) (ws : ℕ → World) (s : Service)
      → IsBounded cfg s
      → IsBounded cfg (run_hybrid_seal_tick rt lib cfg now ws s).1
  unfolding run_hybrid_seal_tick on_decision release nothing_sealed drain_pending
  run_hybrid_seal_tick-IsBounded now ws s h = go (get_pending_stats now s.db).pending_count (
      decide_seal (record {
        pending_count = (get_pending_stats now s.db).pending_count;
        oldest_age = (get_pending_stats now s.db).oldest_age;
        in_flight = s.drain_in_flight;
        backoff_ticks_left = s.backoff_ticks_left;
        batch_size = cfg.batch_size;
        max_wait_minutes = cfg.max_wait_minutes;
      }))
    where
      go : (n : ℕ) (d : SealDecision) → IsBounded cfg (on_decision rt lib cfg now ws n d s).1
      go n (skip SealSkipReason.backoff) = omega (arith, h)
      go n (skip SealSkipReason.in_flight) = h
      go n (skip SealSkipReason.idle) = h
      go n (seal trigger drain_all) =
          seal_loop-IsBounded _ _ _ ws _ (record s { drain_in_flight = true }) h
