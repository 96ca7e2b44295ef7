-- ===== src/Integrity/Seal/Batches.antt =====
-- `sealBatchNow` as its callers see it: which logs a batch holds, which remain, what others keep.
use logchain.Prelude.{
  ℕ, ◌≡◌, ◌≢◌, sym, ap, subst, ◌∙◌, inl, inr, false, not, ◌&&◌, Option, List, [], ◌++◌, map, filter,
  sort, Text, codes, text_eq, length, is_empty, has_id, IsKeyed, arith,
}
use logchain.Entities.{Log, log_id, Batch, SealReason, LogBatchMapping, failed, Db}
use logchain.LogHash.{Runtime}
use logchain.Merkle.{MerkleTree, IsHexRoot, build_root}
use logchain.SealConfig.{SealConfig}
use logchain.Integrity.State.{
  Service, World, is_pending, save_mappings, pending_logs, mapped_to, logs_for_batch, log_leb,
}
use logchain.Integrity.State.Pending.{
  pending_logs-unmapped, pending_logs-IsKeyed, pending_logs-reselected, logs_for_batch-cong,
}
use logchain.Integrity.Seal.{SealOutcome, nothing, skipped, closed, threw, seal_batch_now}
use logchain.Integrity.Seal.Mapped.{AllUnmapped, mapped_to_new, mapped_to_other, is_mapped_saved}
use logchain.Integrity.Seal.Covers.{Effect, seal_batch_now-Effect, logs_for_batch-new}

pub closed_inj : (a b : Batch) → closed a ≡ closed b → a ≡ b
closed_inj a b h = ap (λ o. elim o [ closed x ↦ x | _ ↦ a ]) h

pub is_pending_saved :
    (b : Text) (ls : List Log) (ms rows : List LogBatchMapping) (until : Option ℕ) (l : Log)
    → IsKeyed log_id ls
    → AllUnmapped ms ls
    → rows ≡ save_mappings b ls ms
    → is_pending rows until l ≡ (is_pending ms until l && not (has_id log_id l.content.id ls))
unfolding is_pending
is_pending_saved b ls ms rows until l k h m =
    rw (m, is_mapped_saved b ls ms l.content.id k h) (ground arith)

module _ (rt : Runtime) (lib : MerkleTree) (hex : IsHexRoot lib) (reason : SealReason) (w : World)
    (cfg : SealConfig) (cutoff : Option ℕ) (s : Service) (keyed : IsKeyed log_id s.logs)
    (fresh : mapped_to w.new_id s.mappings ≡ []) where
  sealed_logs :
      (b : Batch) (t : Db)
      → b.id ≡ w.new_id
      → is_empty (pending_logs cfg.batch_size cutoff s.db) ≡ false
      → t.logs ≡ s.logs
      → t.mappings ≡ save_mappings b.id (pending_logs cfg.batch_size cutoff s.db) s.mappings
      → logs_for_batch b.id t ≡ pending_logs cfg.batch_size cutoff s.db
  sealed_logs b t i e l m =
      let logs = pending_logs cfg.batch_size cutoff s.db in
      logs_for_batch-new b.id logs t e (
        ap (mapped_to b.id) m
        ∙ mapped_to_new b.id logs s.mappings (pending_logs-IsKeyed cfg.batch_size cutoff s.db keyed)
            (pending_logs-unmapped cfg.batch_size cutoff s.db) (rw i fresh))
      ∙ (λ j. sort log_leb (filter (λ x. has_id log_id x.content.id logs) (l j)))
      ∙ pending_logs-reselected cfg.batch_size cutoff s.db keyed

  -- Where log ids are unique and the id of the new batch has no mapping yet: a batch that was closed
  -- and did not fail holds exactly the logs that were pending, oldest first, up to the batch size.
  -- `getLogsForBatch` gives that list, the count is its length, and the root computed again from its
  -- raw hashes is the one that the batch stores.
  pub seal_batch_now-covers :
      (b : Batch)
      → (seal_batch_now rt lib reason w cfg cutoff s).0 ≡ closed b
      → b.status ≢ failed
      → (logs_for_batch b.id (seal_batch_now rt lib reason w cfg cutoff s).1.db
          ≡ pending_logs cfg.batch_size cutoff s.db)
        × (b.log_count ≡ length (pending_logs cfg.batch_size cutoff s.db))
        × (build_root lib (
              map
                (λ (l : Log). l.raw_hash)
                (logs_for_batch b.id (seal_batch_now rt lib reason w cfg cutoff s).1.db))
            ≡ codes "0x" ++ b.merkle_root)
  seal_batch_now-covers b =
      go (seal_batch_now rt lib reason w cfg cutoff s)
        (seal_batch_now-Effect rt lib hex reason w cfg cutoff s)
    where
      logs : List Log
      logs = pending_logs cfg.batch_size cutoff s.db

      go :
          (r : SealOutcome × Service)
          → Effect rt lib hex reason w logs s r
          → r.0 ≡ closed b
          → b.status ≢ failed
          → (logs_for_batch b.id r.1.db ≡ logs)
            × (b.log_count ≡ length logs)
            × (build_root lib (map (λ (l : Log). l.raw_hash) (logs_for_batch b.id r.1.db))
                ≡ codes "0x" ++ b.merkle_root)
      go (nothing, t) h o ne = cc
      go (skipped, t) h o ne = cc
      go (threw x, t) h o ne = cc
      go (closed b', t) (e, (i, c, l, inl (f, _, _))) o ne =
          absurd (ne (ap (λ (x : Batch). x.status) (sym (closed_inj b' b o)) ∙ f))
      go (closed b', t) (e, (i, c, l, inr (y, m, n))) o ne =
          let same = closed_inj b' b o in
          let mine = sealed_logs b' t.db i e l m in
          subst
            (λ (x : Batch).
              (logs_for_batch x.id t.db ≡ logs)
              × (x.log_count ≡ length logs)
              × (build_root lib (map (λ (l : Log). l.raw_hash) (logs_for_batch x.id t.db))
                  ≡ codes "0x" ++ x.merkle_root))
            same
            (
              mine,
              c.log_count,
              ap (λ ls. build_root lib (map (λ (l : Log). l.raw_hash) ls)) mine ∙ sym c.root,
            )

  -- Where log ids are unique and the id of the new batch has no mapping yet: the logs of a batch
  -- that was closed and did not fail are pending no more, and all other rows are pending as before,
  -- whatever the cutoff.
  pub seal_batch_now-is_pending :
      (b : Batch)
      → (seal_batch_now rt lib reason w cfg cutoff s).0 ≡ closed b
      → b.status ≢ failed
      → (until : Option ℕ) (l : Log)
      → is_pending (seal_batch_now rt lib reason w cfg cutoff s).1.mappings until l ≡ (
          is_pending s.mappings until l
          && not (has_id log_id l.content.id (pending_logs cfg.batch_size cutoff s.db)))
  seal_batch_now-is_pending b =
      go (seal_batch_now rt lib reason w cfg cutoff s)
        (seal_batch_now-Effect rt lib hex reason w cfg cutoff s)
    where
      logs : List Log
      logs = pending_logs cfg.batch_size cutoff s.db

      go :
          (r : SealOutcome × Service)
          → Effect rt lib hex reason w logs s r
          → r.0 ≡ closed b
          → b.status ≢ failed
          → (until : Option ℕ) (l : Log)
          → is_pending r.1.mappings until l
            ≡ (is_pending s.mappings until l && not (has_id log_id l.content.id logs))
      go (nothing, t) h o ne = cc
      go (skipped, t) h o ne = cc
      go (threw x, t) h o ne = cc
      go (closed b', t) (e, (i, c, l, inl (f, _, _))) o ne =
          absurd (ne (ap (λ (x : Batch). x.status) (sym (closed_inj b' b o)) ∙ f))
      go (closed b', t) (e, (i, c, l, inr (y, m, n))) o ne = λ until row.
          is_pending_saved b'.id logs s.mappings t.mappings until row
            (pending_logs-IsKeyed cfg.batch_size cutoff s.db keyed)
            (pending_logs-unmapped cfg.batch_size cutoff s.db) m

  -- Where log ids are unique and the id of the new batch has no mapping yet: whatever one call does,
  -- no log row changes, and every other batch keeps its logs.
  pub seal_batch_now-keeps_others :
      (c : Text)
      → text_eq w.new_id c ≡ false
      → ((seal_batch_now rt lib reason w cfg cutoff s).1.logs ≡ s.logs)
        × (logs_for_batch c (seal_batch_now rt lib reason w cfg cutoff s).1.db
            ≡ logs_for_batch c s.db)
  seal_batch_now-keeps_others c =
      go (seal_batch_now rt lib reason w cfg cutoff s)
        (seal_batch_now-Effect rt lib hex reason w cfg cutoff s)
    where
      logs : List Log
      logs = pending_logs cfg.batch_size cutoff s.db

      go :
          (r : SealOutcome × Service)
          → Effect rt lib hex reason w logs s r
          → text_eq w.new_id c ≡ false
          → (r.1.logs ≡ s.logs) × (logs_for_batch c r.1.db ≡ logs_for_batch c s.db)
      go (nothing, t) (_, (l, m, n)) ne =
          (l, logs_for_batch-cong c t.db s.db l (ap (mapped_to c) m))
      go (skipped, t) (l, m, n) ne = (l, logs_for_batch-cong c t.db s.db l (ap (mapped_to c) m))
      go (threw x, t) (l, m, n) ne = (l, logs_for_batch-cong c t.db s.db l (ap (mapped_to c) m))
      go (closed b, t) (e, (i, k, l, inl (f, m, n))) ne =
          (l, logs_for_batch-cong c t.db s.db l (ap (mapped_to c) m))
      go (closed b, t) (e, (i, k, l, inr (y, m, n))) ne = (
        l,
        logs_for_batch-cong c t.db s.db l (
            ap (mapped_to c) m
            ∙ mapped_to_other b.id c logs s.mappings
                (pending_logs-IsKeyed cfg.batch_size cutoff s.db keyed)
                (pending_logs-unmapped cfg.batch_size cutoff s.db) (rw i ne)),
      )
