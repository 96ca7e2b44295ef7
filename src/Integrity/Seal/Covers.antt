-- ===== src/Integrity/Seal/Covers.antt =====
-- What a closed batch holds: `sealBatchNow` seen from `getLogsForBatch`.
use logchain.Prelude.{
  ℕ, ◌≡◌, refl, ap, ◌∙◌, ◌⊎◌, inl, inr, true, false, Option, none, some, List, [], ◌∷◌, ◌++◌, map,
  filter, sort, Text, codes, if_both, length, is_empty, has_id, starts_with,
}
use logchain.Entities.{Log, log_id, Batch, BatchAnomaly, SealReason, failed, Db}
use logchain.LogHash.{Runtime}
use logchain.Merkle.{MerkleTree, IsHexRoot, build_root}
use logchain.SealConfig.{SealConfig}
use logchain.Integrity.State.{
  Service, World, pending_logs, mapped_to, logs_for_batch, log_leb, save_mappings, snapshots_from,
  committed, with_batch,
}
use logchain.Integrity.Wallet.{
  WalletCheck, proceed, too_low, KeepsTables, check_wallet_balance,
  check_wallet_balance-KeepsTables,
}
use logchain.Integrity.Seal.{
  SealOutcome, nothing, skipped, closed, threw, remove_prefix, new_batch, scored_batch, anchor,
  seal_logs, with_db, guarded, seal_batch_now,
}
use logchain.Integrity.Seal.Settled.{SameContents, IsSealed, Settled, anchor-Settled}
use logchain.Integrity.Seal.Mapped.{mapping_row, is_mapped_rows}

-- The logs of a batch right after its mapping was written.
pub logs_for_batch-new :
    (b : Text) (ls : List Log) (db : Db)
    → is_empty ls ≡ false
    → mapped_to b db.mappings ≡ map (mapping_row b) ls
    → logs_for_batch b db ≡ sort log_leb (filter (λ l. has_id log_id l.content.id ls) db.logs)
unfolding logs_for_batch
logs_for_batch-new b [] db e h = cc
logs_for_batch-new b (l ∷ ls) db e h =
    rw h (λ i. sort log_leb (filter (λ x. is_mapped_rows b x.content.id (l ∷ ls) i) db.logs))

-- The root that a batch keeps is the computed one without its prefix.
remove_prefix-digits : (s : Text) → codes "0x" ++ remove_prefix (codes "0x" ++ s) ≡ codes "0x" ++ s
unfolding remove_prefix starts_with
remove_prefix-digits s = refl

new_batch-root :
    (lib : MerkleTree) (hex : IsHexRoot lib) (w : World) (reason : SealReason) (logs : List Log)
    → codes "0x"
        ++ (new_batch w reason
            (build_root lib (map (λ (l : Log). l.raw_hash) logs))
            logs).merkle_root
      ≡ build_root lib (map (λ (l : Log). l.raw_hash) logs)
unfolding new_batch build_root
new_batch-root lib hex w reason logs =
    rw (hex.prefixed (map lib.digest (map (λ (l : Log). l.raw_hash) logs)))
      (remove_prefix-digits (hex.digits (map lib.digest (map (λ (l : Log). l.raw_hash) logs))))

-- The contents of a batch that belong to a list of logs.
pub record Covers (lib : MerkleTree) (logs : List Log) (b : Batch) : Type 0 where
  pub log_count : b.log_count ≡ length logs
  pub root : codes "0x" ++ b.merkle_root ≡ build_root lib (map (λ (l : Log). l.raw_hash) logs)

scored_batch-SameContents :
    (now : ℕ) (r : Option BatchAnomaly) (b : Batch) → SameContents b (scored_batch now r b)
unfolding scored_batch
scored_batch-SameContents now none b = record { id = refl; merkle_root = refl; log_count = refl }
scored_batch-SameContents now (some a) b = record {
  id = refl;
  merkle_root = refl;
  log_count = refl;
}

module _ (rt : Runtime) (lib : MerkleTree) (hex : IsHexRoot lib) (reason : SealReason)
    (w : World) where
  -- What is known of a closed batch and of the tables after it.
  abbrev pub Closed : List Log → Db → Batch → Db → Type 0
  Closed logs db b db' =
      (b.id ≡ w.new_id)
      × Covers lib logs b
      × (db'.logs ≡ db.logs)
      × (((b.status ≡ failed) × (db'.mappings ≡ db.mappings) × (db'.snapshots ≡ db.snapshots))
          ⊎ (IsSealed b.status
              × (db'.mappings ≡ save_mappings b.id logs db.mappings)
              × (db'.snapshots ≡ db.snapshots ++ snapshots_from rt b.id 0 logs)))

  abbrev pub Kept : Db → Db → Type 0
  Kept db db' = (db'.logs ≡ db.logs) × (db'.mappings ≡ db.mappings) × (db'.snapshots ≡ db.snapshots)

  abbrev pub Outcome : List Log → Db → SealOutcome × Db → Type 0
  Outcome logs db (nothing, db') = ⊥
  Outcome logs db (skipped, db') = ⊥
  Outcome logs db (threw e, db') = Kept db db'
  Outcome logs db (closed b, db') = Closed logs db b db'

  seal_logs-Outcome :
      (logs : List Log) (db : Db) → Outcome logs db (seal_logs rt lib reason w logs db)
  unfolding seal_logs with_batch committed new_batch
  seal_logs-Outcome logs db =
      go (anchor rt w logs root b1 db1) (anchor-Settled rt w logs root b1 db1)
    where
      root : Text
      root = build_root lib (map (λ (l : Log). l.raw_hash) logs)

      b0 : Batch
      b0 = new_batch w reason root logs

      b1 : Batch
      b1 = scored_batch w.now w.score b0

      db1 : Db
      db1 = with_batch b1 (with_batch b0 db)

      covers : (b : Batch) → SameContents b1 b → (b.id ≡ w.new_id) × Covers lib logs b
      covers b k =
          let k0 = scored_batch-SameContents w.now w.score b0 in
          (
            k.id ∙ k0.id,
            record {
              log_count = k.log_count ∙ k0.log_count;
              root =
                  ap (◌++◌ (codes "0x")) (k.merkle_root ∙ k0.merkle_root)
                  ∙ new_batch-root lib hex w reason logs;
            },
          )

      go : (r : SealOutcome × Db) → Settled rt w logs root b1 db1 r → Outcome logs db r
      go (nothing, db') h = h
      go (skipped, db') h = h
      go (threw e, db') h =
          (ap (λ (d : Db). d.logs) h, ap (λ (d : Db). d.mappings) h, ap (λ (d : Db). d.snapshots) h)
      go (closed b, db') (k, inl (y, h)) =
          let (id, c) = covers b k in
          (
            id,
            c,
            ap (λ (d : Db). d.logs) h,
            inr (y, ap (λ (d : Db). d.mappings) h, ap (λ (d : Db). d.snapshots) h),
          )
      go (closed b, db') (k, inr (n, h)) =
          let (id, c) = covers b k in
          (
            id,
            c,
            ap (λ (d : Db). d.logs) h,
            inl (n, ap (λ (d : Db). d.mappings) h, ap (λ (d : Db). d.snapshots) h),
          )

  -- The same for the whole call, whose logs come from a query.
  abbrev pub Effect : List Log → Service → SealOutcome × Service → Type 0
  Effect logs s (nothing, t) = (is_empty logs ≡ true) × Kept s.db t.db
  Effect logs s (skipped, t) = Kept s.db t.db
  Effect logs s (threw e, t) = Kept s.db t.db
  Effect logs s (closed b, t) = (is_empty logs ≡ false) × Closed logs s.db b t.db

  guarded-Effect :
      (logs : List Log) (s : Service) (r : WalletCheck × Service)
      → is_empty logs ≡ false
      → KeepsTables s r.1
      → Effect logs s (guarded rt lib reason w logs r)
  unfolding guarded with_db
  guarded-Effect logs s (too_low, t) e k = (k.logs, k.mappings, k.snapshots)
  guarded-Effect logs s (proceed, t) e k =
      go (seal_logs rt lib reason w logs t.db) (seal_logs-Outcome logs t.db)
    where
      go :
          (r : SealOutcome × Db) → Outcome logs t.db r → Effect logs s (with_db rt lib reason w t r)
      go (nothing, db') h = absurd h
      go (skipped, db') h = absurd h
      go (threw x, db') (l, m, n) = (l ∙ k.logs, m ∙ k.mappings, n ∙ k.snapshots)
      go (closed b, db') (i, c, l, inl (f, m, n)) =
          (e, (i, c, l ∙ k.logs, inl (f, m ∙ k.mappings, n ∙ k.snapshots)))
      go (closed b, db') (i, c, l, inr (y, m, n)) = (
        e,
        (
          i,
          c,
          l ∙ k.logs,
          inr (
            y,
            m ∙ ap (save_mappings b.id logs) k.mappings,
            n ∙ ap (λ x. x ++ snapshots_from rt b.id 0 logs) k.snapshots,
          ),
        ),
      )

  pub seal_batch_now-Effect :
      (cfg : SealConfig) (cutoff : Option ℕ) (s : Service)
      → Effect
          (pending_logs cfg.batch_size cutoff s.db)
          s
          (seal_batch_now rt lib reason w cfg cutoff s)
  unfolding seal_batch_now
  seal_batch_now-Effect cfg cutoff s =
      if_both (Effect (pending_logs cfg.batch_size cutoff s.db) s)
        (is_empty (pending_logs cfg.batch_size cutoff s.db)) _ _ (λ e. (e, (refl, refl, refl)))
        (λ e.
          guarded-Effect (pending_logs cfg.batch_size cutoff s.db) s (check_wallet_balance cfg w s)
            e (check_wallet_balance-KeepsTables cfg w s))
