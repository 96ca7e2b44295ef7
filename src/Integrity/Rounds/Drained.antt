-- ===== src/Integrity/Rounds/Drained.antt =====
-- What a scheduled round leaves of the backlog.
use logchain.Prelude.{
  ℕ, zero, suc, ◌+◌, ◌≤◌, ◌<◌, ◌≡◌, refl, sym, ap, subst, ◌∙◌, Bool, true, false, not, ◌&&◌, ◌||◌,
  none, some, List, [], filter, sort, ltb, ltb→lt, if_both, ◌==◌, inl, inr, All, All-map,
  All-has_id, any-sort, filter-and, filter_none, length, has_id, text_eq, IsKeyed, arith,
}
use logchain.Entities.{Log, log_id, Batch, failed, cron, Db}
use logchain.LogHash.{Runtime}
use logchain.Merkle.{MerkleTree, IsHexRoot}
use logchain.SealConfig.{SealConfig}
use logchain.Integrity.State.{Service, World, is_pending, pending_logs, log_leb}
use logchain.Integrity.State.Pending.{
  pending_rows, pending_logs-none, pending_logs-whole, pending_logs-unmapped, pending_logs-IsKeyed,
}
use logchain.Integrity.Seal.{SealOutcome, nothing, skipped, closed, threw, seal_batch_now}
use logchain.Integrity.Seal.Covers.{Effect, seal_batch_now-Effect}
use logchain.Integrity.Seal.Batches.{is_pending_saved}
use logchain.Integrity.Rounds.{
  RunOutcome, returned, raised, Skipped, record_seal_outcome, record_outcome, is_failed, push,
  after_seal, seal_batch, seal_loop, ends_round, max_batches_per_tick, release, nothing_sealed,
  run_scheduled_seal,
}

-- After all rows to seal went into a batch, none is left.
none_left :
    (db : Db) (ls : List Log) (t : Db)
    → ls ≡ sort log_leb (pending_rows db)
    → t.logs ≡ db.logs
    → ((l : Log)
        → is_pending t.mappings none l
          ≡ (is_pending db.mappings none l && not (has_id log_id l.content.id ls)))
    → pending_rows t ≡ []
none_left db ls t whole same p =
    (λ i. filter (λ l. p l i) (same i))
    ∙ filter-and (is_pending db.mappings none) (λ l. not (has_id log_id l.content.id ls)) db.logs
    ∙ filter_none (λ l. not (has_id log_id l.content.id ls)) (pending_rows db)
        (All-map
          (λ (l : Log) h. ap not (
            ap (has_id log_id l.content.id) whole
            ∙ any-sort log_leb (λ x. text_eq l.content.id x.content.id) (pending_rows db)
            ∙ h))
          (pending_rows db) (All-has_id log_id (pending_rows db)))

status_failed : (b : Batch) → b.status ≡ failed → is_failed b ≡ false → ⊥
status_failed b f ok = cc (ap {B = Bool} (λ x. elim x [ failed ↦ true | _ ↦ false ]) f)

skipped_run : (x : Skipped) → some x ≡ none → ⊥
skipped_run x h = cc

short_batch : (a b : Bool) → (a || b) ≡ true → a ≡ false → b ≡ true
short_batch a b h k = cc (rw k at h)

record_seal_outcome-db :
    (cfg : SealConfig) (ok : Bool) (s : Service) → (record_seal_outcome cfg ok s).db ≡ s.db
unfolding record_seal_outcome
record_seal_outcome-db cfg true s = refl
record_seal_outcome-db cfg false s =
    if_both (λ (t : Service). t.db ≡ s.db)
      (cfg.failure_backoff_after == 0 || ltb (s.consecutive_failures + 1) cfg.failure_backoff_after)
      _ _ (λ _. refl) (λ _. refl)

module _ (rt : Runtime) (lib : MerkleTree) (hex : IsHexRoot lib) (cfg : SealConfig)
    (positive : 1 ≤ cfg.batch_size) where
  -- What the next seal of the round can rely on.
  abbrev Sealed : Service → Batch → Db → Type 0
  Sealed s b db =
      (db.logs ≡ s.logs) × (ltb b.log_count cfg.batch_size ≡ true → pending_rows db ≡ [])

  abbrev Facts : Service → SealOutcome × Service → Type 0
  Facts s (nothing, t) = pending_rows t.db ≡ []
  Facts s (skipped, t) = Unit
  Facts s (threw e, t) = Unit
  Facts s (closed b, t) = is_failed b ≡ false → Sealed s b t.db

  seal_batch-Facts :
      (w : World) (s : Service)
      → IsKeyed log_id s.logs
      → Facts s (seal_batch rt lib cfg cron w none s)
  unfolding seal_batch record_outcome
  seal_batch-Facts w s keyed =
      go (seal_batch_now rt lib cron w cfg none s)
        (seal_batch_now-Effect rt lib hex cron w cfg none s)
    where
      logs : List Log
      logs = pending_logs cfg.batch_size none s.db

      go :
          (r : SealOutcome × Service)
          → Effect rt lib hex cron w logs s r
          → Facts s (record_outcome cfg r)
      go (nothing, t) (e, (l, m, n)) =
          (λ i. filter (is_pending (m i) none) (l i))
          ∙ pending_logs-none cfg.batch_size s.db positive e
      go (skipped, t) h = tt
      go (threw e, t) h = tt
      go (closed b, t) (e, (i, c, l, inl (f, m, n))) = λ ok. absurd (status_failed b f ok)
      go (closed b, t) (e, (i, c, l, inr (y, m, n))) = λ ok.
          subst (Sealed s b) (sym (record_seal_outcome-db cfg (not (is_failed b)) t)) (
            l,
            (λ short.
                none_left s.db logs t.db
                  (pending_logs-whole cfg.batch_size s.db
                    (rw c.log_count at (ltb→lt b.log_count cfg.batch_size short)))
                  l
                  (λ row.
                    is_pending_saved b.id logs s.mappings t.mappings none row
                      (pending_logs-IsKeyed cfg.batch_size none s.db keyed)
                      (pending_logs-unmapped cfg.batch_size none s.db) m)),
          )

  -- The outcome of a round that went through without a failure.
  abbrev pub Clean : ℕ → RunOutcome → Type 0
  Clean n (raised e) = ⊥
  Clean n (returned r) =
      (r.skipped ≡ none) × All (λ b. is_failed b ≡ false) r.batches × (length r.batches < n)

  seal_loop-drains :
      (ws : ℕ → World) (n : ℕ) (s : Service)
      → IsKeyed log_id s.logs
      → Clean n (seal_loop rt lib cfg cron none (ends_round rt lib cfg) ws n s).0
      → pending_rows (seal_loop rt lib cfg cron none (ends_round rt lib cfg) ws n s).1.db ≡ []
  unfolding seal_loop after_seal push
  seal_loop-drains ws zero s keyed = λ (a, b, c). ground (arith, c)
  seal_loop-drains ws (suc n) s keyed =
      go (seal_batch rt lib cfg cron (ws 0) none s) (seal_batch-Facts (ws 0) s keyed)
        (seal_loop rt lib cfg cron none (ends_round rt lib cfg) (λ i. ws (suc i)) n
          (seal_batch rt lib cfg cron (ws 0) none s).1)
        (λ k. seal_loop-drains (λ i. ws (suc i)) n (seal_batch rt lib cfg cron (ws 0) none s).1 k)
    where
      pushed :
          (b : Batch) (t : Service)
          → Facts s (closed b, t)
          → (rest : RunOutcome × Service)
          → (IsKeyed log_id t.logs → Clean n rest.0 → pending_rows rest.1.db ≡ [])
          → Clean (suc n) (push b rest).0
          → pending_rows (push b rest).1.db ≡ []
      pushed b t f (returned r, u) ih (a, (x, xs), c) =
          ih (subst (IsKeyed log_id) (sym (f x).0) keyed) (a, xs, omega (arith, c))
      pushed b t f (raised e, u) ih k = absurd k

      go :
          (r : SealOutcome × Service)
          → Facts s r
          → (rest : RunOutcome × Service)
          → (IsKeyed log_id r.1.logs → Clean n rest.0 → pending_rows rest.1.db ≡ [])
          → Clean (suc n) (after_seal (ends_round rt lib cfg) r rest).0
          → pending_rows (after_seal (ends_round rt lib cfg) r rest).1.db ≡ []
      go (nothing, t) f rest ih = λ k. f
      go (skipped, t) f rest ih = λ k. absurd (skipped_run _ k.0)
      go (threw e, t) f rest ih = λ k. absurd k
      go (closed b, t) f rest ih =
          if_both (λ (x : RunOutcome × Service). Clean (suc n) x.0 → pending_rows x.1.db ≡ [])
            (ends_round rt lib cfg b) _ _
            (λ stop k.
              (f k.1.0).1 (short_batch (is_failed b) (ltb b.log_count cfg.batch_size) stop k.1.0))
            (λ _. pushed b t f rest ih)

  abbrev Drains : RunOutcome × Service → Type 0
  Drains r = Clean max_batches_per_tick r.0 → pending_rows r.1.db ≡ []

  -- Where log ids are unique and a batch takes at least one log: a scheduled round that was not
  -- skipped, in which no seal failed and which closed fewer batches than its limit, leaves no log
  -- without a batch.
  pub run_scheduled_seal-drains :
      (ws : ℕ → World) (s : Service)
      → IsKeyed log_id s.logs
      → Clean max_batches_per_tick (run_scheduled_seal rt lib cfg ws s).0
      → pending_rows (run_scheduled_seal rt lib cfg ws s).1.db ≡ []
  unfolding run_scheduled_seal release nothing_sealed
  run_scheduled_seal-drains ws s keyed =
      if_both Drains s.drain_in_flight _ _ (λ _ k. absurd (skipped_run _ k.0))
        (λ _.
          if_both Drains (ltb 0 s.backoff_ticks_left) _ _ (λ _ k. absurd (skipped_run _ k.0))
            (λ _.
              seal_loop-drains ws max_batches_per_tick (record s { drain_in_flight = true }) keyed))
