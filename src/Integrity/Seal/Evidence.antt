-- ===== src/Integrity/Seal/Evidence.antt =====
-- What the status of a batch that one seal closed rests on.
use logchain.Prelude.{
  ℕ, ◌≡◌, refl, sym, ap, subst, true, false, Option, none, some, List, map, Text, if_both, is_empty,
}
use logchain.Errors.{Thrown, Result, ok, err}
use logchain.Entities.{
  Log, Batch, BatchAnomaly, BatchStatus, SealReason, pending, sealed, unverified, confirmed,
  tampered, failed, Db,
}
use logchain.LogHash.{Runtime}
use logchain.Merkle.{MerkleTree, build_root}
use logchain.SealConfig.{SealConfig}
use logchain.Blockchain.Errors.{
  ChainWriteError, root_exists, not_authorized, other, classify_chain_error,
}
use logchain.Blockchain.Send.{StoreRootResult}
use logchain.Blockchain.Check.{CheckResult, matched, missing, mismatch, RootCheck, check_root}
use logchain.Integrity.State.{Service, World, pending_logs, with_batch}
use logchain.Integrity.Wallet.{WalletCheck, proceed, too_low, check_wallet_balance}
use logchain.Integrity.Seal.{
  SealOutcome, nothing, skipped, closed, threw, new_batch, scored_batch, confirmed_batch,
  with_receipt, fail_batch, adopt_matching, adopt, adopt_existing_root, on_seal_error, finish,
  after_store, without_anchor, anchor, seal_logs, with_db, guarded, seal_batch_now,
}

-- The chain's answers for a batch and its root: a receipt of the transaction, a transaction that
-- was sent and is not known to be mined, and a root in the contract that matches.
module _ (w : World) (i root : Text) where
  pub data Mined : Type 0 where
    receipt : (r : StoreRootResult) → w.store_root i root ≡ ok r → r.confirmed ≡ true → Mined
    anchored :
        (c : RootCheck) → check_root w.ready (w.get_root i) root ≡ ok c → c.result ≡ matched → Mined

  pub data Sent : Type 0 where
    sent : (r : StoreRootResult) → w.store_root i root ≡ ok r → r.confirmed ≡ false → Sent

  -- The evidence behind each status.
  abbrev pub Backed : BatchStatus → Type 0
  Backed pending = ⊥
  Backed tampered = ⊥
  Backed failed = w.ready ≡ true
  Backed sealed = w.ready ≡ false
  Backed unverified = (w.ready ≡ true) × Sent
  Backed confirmed = (w.ready ≡ true) × Mined

  abbrev pub OutcomeBacked : SealOutcome → Type 0
  OutcomeBacked nothing = Unit
  OutcomeBacked skipped = Unit
  OutcomeBacked (closed b) = Backed b.status
  OutcomeBacked (threw e) = w.ready ≡ false

module _ (rt : Runtime) (w : World) (logs : List Log) (i root : Text) (up : w.ready ≡ true) where
  abbrev Ends : SealOutcome × Db → Type 0
  Ends r = OutcomeBacked w i root r.0

  fail_batch-Ends : (b : Batch) (db : Db) → Ends (fail_batch rt w logs root b db)
  unfolding fail_batch
  fail_batch-Ends b db = up

  adopt-Ends :
      (commit : Option Thrown) (r : Result RootCheck) (b : Batch) (db : Db)
      → check_root w.ready (w.get_root i) root ≡ r
      → Ends (adopt rt w logs root commit r b db)
  unfolding adopt adopt_matching confirmed_batch
  adopt-Ends commit (err e) b db h = fail_batch-Ends b db
  adopt-Ends commit (ok c) b db h = go c.result refl commit
    where
      go :
          (v : CheckResult)
          → c.result ≡ v
          → (commit : Option Thrown)
          → Ends (elim v [
            | matched ↦ adopt_matching rt w logs root commit b db
            | _ ↦ fail_batch rt w logs root b db
          ])
      go matched k none = (up, anchored c h k)
      go matched k (some e) = fail_batch-Ends (confirmed_batch w b) db
      go missing k commit = fail_batch-Ends b db
      go mismatch k commit = fail_batch-Ends b db

  on_seal_error-Ends :
      (commit : Option Thrown) (e : Thrown) (b : Batch) (db : Db)
      → b.id ≡ i
      → Ends (on_seal_error rt w logs root commit e b db)
  unfolding on_seal_error adopt_existing_root
  on_seal_error-Ends commit e b db h = go (classify_chain_error e)
    where
      go :
          (v : ChainWriteError)
          → Ends (elim v [
            | root_exists ↦ adopt_existing_root rt w logs root commit b db
            | _ ↦ fail_batch rt w logs root b db
          ])
      go root_exists =
          adopt-Ends commit (check_root w.ready (w.get_root b.id) root) b db
            (ap (λ j. check_root w.ready (w.get_root j) root) (sym h))
      go not_authorized = fail_batch-Ends b db
      go other = fail_batch-Ends b db

  finish-Ends :
      (commit : Option Thrown) (b : Batch) (db : Db)
      → b.id ≡ i
      → Backed w i root b.status
      → Ends (finish rt w logs root commit b db)
  unfolding finish
  finish-Ends none b db h k = k
  finish-Ends (some e) b db h k = on_seal_error-Ends w.commit_again e b db h

  after_store-Ends :
      (r : Result StoreRootResult) (b : Batch) (db : Db)
      → b.id ≡ i
      → w.store_root i root ≡ r
      → Ends (after_store rt w logs root r b db)
  unfolding after_store confirmed_batch with_receipt
  after_store-Ends (err e) b db h k = on_seal_error-Ends w.commit e b db h
  after_store-Ends (ok r) b db h k =
      if_both (λ x. Ends (finish rt w logs root w.commit x db)) r.confirmed _ _
        (λ y. finish-Ends w.commit (confirmed_batch w (with_receipt r b)) db h (up, receipt r k y))
        (λ n.
          finish-Ends w.commit (record (with_receipt r b) { status = unverified }) db h
            (up, sent r k n))

module _ (rt : Runtime) (lib : MerkleTree) (reason : SealReason) (w : World) where
  scored_batch-id :
      (now : ℕ) (r : Option BatchAnomaly) (b : Batch) → (scored_batch now r b).id ≡ b.id
  unfolding scored_batch
  scored_batch-id now none b = refl
  scored_batch-id now (some a) b = refl

  anchor-backed :
      (logs : List Log) (root : Text) (b : Batch) (db : Db)
      → OutcomeBacked w b.id root (anchor rt w logs root b db).0
  unfolding anchor without_anchor
  anchor-backed logs root b db =
      if_both (λ (r : SealOutcome × Db). OutcomeBacked w b.id root r.0) w.ready _ _
        (λ up. after_store-Ends rt w logs b.id root up (w.store_root b.id root) b db refl refl)
        (λ down. go down w.commit)
    where
      go :
          w.ready ≡ false
          → (c : Option Thrown)
          → OutcomeBacked w b.id root
              (without_anchor rt w logs root c (record b { status = sealed }) db).0
      go down none = down
      go down (some e) = down

  -- The status of a closed batch has its evidence: CONFIRMED has a receipt of the transaction that
  -- stored the root of the pending logs under the batch's id, or the same root read back from the
  -- contract; UNVERIFIED has a transaction that was sent; SEALED and thrown errors occur only
  -- without a chain, and FAILED only with one. A batch is never left PENDING.
  pub seal_batch_now-backed :
      (cfg : SealConfig) (cutoff : Option ℕ) (s : Service)
      → OutcomeBacked w w.new_id
          (build_root lib (map (λ (l : Log). l.raw_hash) (pending_logs cfg.batch_size cutoff s.db)))
          (seal_batch_now rt lib reason w cfg cutoff s).0
  unfolding seal_batch_now guarded seal_logs with_db new_batch
  seal_batch_now-backed cfg cutoff s =
      if_both (λ (r : SealOutcome × Service). OutcomeBacked w w.new_id root r.0) (is_empty logs) _ _
        (λ _. tt) (λ _. go (check_wallet_balance cfg w s))
    where
      logs : List Log
      logs = pending_logs cfg.batch_size cutoff s.db

      root : Text
      root = build_root lib (map (λ (l : Log). l.raw_hash) logs)

      go :
          (c : WalletCheck × Service)
          → OutcomeBacked w w.new_id root (guarded rt lib reason w logs c).0
      go (too_low, t) = tt
      go (proceed, t) =
          let b0 = new_batch w reason root logs in
          let b1 = scored_batch w.now w.score b0 in
          subst
            (λ j.
              OutcomeBacked w j root
                (anchor rt w logs root b1 (with_batch b1 (with_batch b0 t.db))).0)
            (scored_batch-id w.now w.score b0)
            (anchor-backed logs root b1 (with_batch b1 (with_batch b0 t.db)))
