-- ===== src/Integrity/Seal/Row.antt =====
-- The row that one seal leaves in the table of batches.
use logchain.Prelude.{ℕ, ◌≡◌, ap, ◌∙◌, inl, inr, Option, some, List, map, Text, is_empty, if_both}
use logchain.Entities.{Log, Batch, SealReason, Db}
use logchain.LogHash.{Runtime}
use logchain.Merkle.{MerkleTree, build_root}
use logchain.SealConfig.{SealConfig}
use logchain.Integrity.State.{Service, World, pending_logs, committed, with_batch}
use logchain.Integrity.State.Rows.{batch_row, find-save_batch}
use logchain.Integrity.Wallet.{WalletCheck, proceed, too_low, check_wallet_balance}
use logchain.Integrity.Seal.{
  SealOutcome, nothing, skipped, closed, threw, new_batch, scored_batch, anchor, seal_logs, with_db,
  guarded, seal_batch_now,
}
use logchain.Integrity.Seal.Settled.{Settled, anchor-Settled}

abbrev pub HasRow : SealOutcome → Db → Type 0
HasRow nothing d = Unit
HasRow skipped d = Unit
HasRow (threw e) d = Unit
HasRow (closed b) d = batch_row b.id d ≡ some b

module _ (rt : Runtime) (lib : MerkleTree) (reason : SealReason) (w : World) where
  Settled-HasRow :
      (logs : List Log) (root : Text) (b : Batch) (db : Db) (r : SealOutcome × Db)
      → Settled rt w logs root b db r
      → HasRow r.0 r.1
  unfolding committed with_batch
  Settled-HasRow logs root b db (nothing, d) h = tt
  Settled-HasRow logs root b db (skipped, d) h = tt
  Settled-HasRow logs root b db (threw e, d) h = tt
  Settled-HasRow logs root b db (closed b', d) (k, inl (y, h)) =
      ap (batch_row b'.id) h ∙ find-save_batch b' db.batches
  Settled-HasRow logs root b db (closed b', d) (k, inr (n, h)) =
      ap (batch_row b'.id) h ∙ find-save_batch b' db.batches

  seal_logs-HasRow :
      (logs : List Log) (db : Db)
      → HasRow (seal_logs rt lib reason w logs db).0 (seal_logs rt lib reason w logs db).1
  unfolding seal_logs
  seal_logs-HasRow logs db =
      let root = build_root lib (map (λ (l : Log). l.raw_hash) logs) in
      let b0 = new_batch w reason root logs in
      let b1 = scored_batch w.now w.score b0 in
      let db1 = with_batch b1 (with_batch b0 db) in
      Settled-HasRow logs root b1 db1 (anchor rt w logs root b1 db1)
        (anchor-Settled rt w logs root b1 db1)

  -- A closed batch is in the table as it was returned.
  pub seal_batch_now-HasRow :
      (cfg : SealConfig) (cutoff : Option ℕ) (s : Service)
      → HasRow
          (seal_batch_now rt lib reason w cfg cutoff s).0
          (seal_batch_now rt lib reason w cfg cutoff s).1.db
  unfolding seal_batch_now guarded with_db
  seal_batch_now-HasRow cfg cutoff s =
      if_both (λ (r : SealOutcome × Service). HasRow r.0 r.1.db) (is_empty logs) _ _ (λ _. tt)
        (λ _. go (check_wallet_balance cfg w s))
    where
      logs : List Log
      logs = pending_logs cfg.batch_size cutoff s.db

      go :
          (c : WalletCheck × Service)
          → HasRow (guarded rt lib reason w logs c).0 (guarded rt lib reason w logs c).1.db
      go (too_low, t) = tt
      go (proceed, t) = seal_logs-HasRow logs t.db
