-- ===== src/Integrity/Seal/Settled.antt =====
-- The ways in which one seal ends, and what the tables are then.
use logchain.Prelude.{◌≡◌, refl, ◌⊎◌, inl, inr, Option, none, some, List, Text, Bool-cases, if_both}
use logchain.Errors.{Thrown, Result, ok, err}
use logchain.Entities.{
  Log, Batch, BatchStatus, pending, sealed, unverified, confirmed, tampered, failed, Db,
}
use logchain.LogHash.{Runtime}
use logchain.Blockchain.Errors.{
  ChainWriteError, root_exists, not_authorized, other, classify_chain_error,
}
use logchain.Blockchain.Send.{StoreRootResult}
use logchain.Blockchain.Check.{CheckResult, matched, missing, mismatch, RootCheck, check_root}
use logchain.Integrity.State.{World, committed, with_batch}
use logchain.Integrity.Seal.{
  SealOutcome, nothing, skipped, closed, threw, confirmed_batch, with_receipt, fail_batch,
  adopt_matching, adopt, adopt_existing_root, on_seal_error, finish, after_store, without_anchor,
  anchor,
}

-- Closing a batch never changes what was computed when it was made.
pub record SameContents (a b : Batch) : Type 0 where
  pub id : b.id ≡ a.id
  pub merkle_root : b.merkle_root ≡ a.merkle_root
  pub log_count : b.log_count ≡ a.log_count

-- A status of a batch that holds logs.
abbrev pub IsSealed : BatchStatus → Type 0
IsSealed pending = ⊥
IsSealed sealed = Unit
IsSealed unverified = Unit
IsSealed confirmed = Unit
IsSealed tampered = ⊥
IsSealed failed = ⊥

module _ (rt : Runtime) (w : World) (logs : List Log) (root : Text) where
  -- The tables that belong to an outcome: a closed batch is either sealed with its mapping and
  -- snapshot, or failed with neither.
  abbrev pub Settled : Batch → Db → SealOutcome × Db → Type 0
  Settled b db (nothing, db') = ⊥
  Settled b db (skipped, db') = ⊥
  Settled b db (threw e, db') = db' ≡ db
  Settled b db (closed b', db') =
      SameContents b b'
      × ((IsSealed b'.status × (db' ≡ committed rt b' logs db))
          ⊎ ((b'.status ≡ failed) × (db' ≡ with_batch b' db)))

  same : (b : Batch) → SameContents b b
  same b = record { id = refl; merkle_root = refl; log_count = refl }

  fail_batch-Settled :
      (a b : Batch) (db : Db) → SameContents a b → Settled a db (fail_batch rt w logs root b db)
  unfolding fail_batch
  fail_batch-Settled a b db h =
      (record { id = h.id; merkle_root = h.merkle_root; log_count = h.log_count }, inr (refl, refl))

  adopt_matching-Settled :
      (commit : Option Thrown) (a b : Batch) (db : Db)
      → SameContents a b
      → Settled a db (adopt_matching rt w logs root commit b db)
  unfolding adopt_matching confirmed_batch
  adopt_matching-Settled none a b db h =
      (record { id = h.id; merkle_root = h.merkle_root; log_count = h.log_count }, inl (tt, refl))
  adopt_matching-Settled (some e) a b db h =
      fail_batch-Settled a (confirmed_batch w b) db
        (record { id = h.id; merkle_root = h.merkle_root; log_count = h.log_count })

  adopt-Settled :
      (commit : Option Thrown) (r : Result RootCheck) (a b : Batch) (db : Db)
      → SameContents a b
      → Settled a db (adopt rt w logs root commit r b db)
  unfolding adopt
  adopt-Settled commit (err e) a b db h = fail_batch-Settled a b db h
  adopt-Settled commit (ok c) a b db h = go c.result
    where
      go :
          (v : CheckResult)
          → Settled a db (elim v [
            | matched ↦ adopt_matching rt w logs root commit b db
            | _ ↦ fail_batch rt w logs root b db
          ])
      go matched = adopt_matching-Settled commit a b db h
      go missing = fail_batch-Settled a b db h
      go mismatch = fail_batch-Settled a b db h

  on_seal_error-Settled :
      (commit : Option Thrown) (e : Thrown) (a b : Batch) (db : Db)
      → SameContents a b
      → Settled a db (on_seal_error rt w logs root commit e b db)
  unfolding on_seal_error adopt_existing_root
  on_seal_error-Settled commit e a b db h = go (classify_chain_error e)
    where
      go :
          (v : ChainWriteError)
          → Settled a db (elim v [
            | root_exists ↦ adopt_existing_root rt w logs root commit b db
            | _ ↦ fail_batch rt w logs root b db
          ])
      go root_exists = adopt-Settled commit (check_root w.ready (w.get_root b.id) root) a b db h
      go not_authorized = fail_batch-Settled a b db h
      go other = fail_batch-Settled a b db h

  finish-Settled :
      (commit : Option Thrown) (a b : Batch) (db : Db)
      → SameContents a b
      → IsSealed b.status
      → Settled a db (finish rt w logs root commit b db)
  unfolding finish
  finish-Settled none a b db h k = (h, inl (k, refl))
  finish-Settled (some e) a b db h k = on_seal_error-Settled w.commit_again e a b db h

  after_store-Settled :
      (r : Result StoreRootResult) (b : Batch) (db : Db)
      → Settled b db (after_store rt w logs root r b db)
  unfolding after_store confirmed_batch with_receipt
  after_store-Settled (err e) b db = on_seal_error-Settled w.commit e b b db (same b)
  after_store-Settled (ok r) b db = elim (Bool-cases r.confirmed) [
    | inl y ↦ rw y (
        finish-Settled w.commit b (confirmed_batch w (with_receipt r b)) db
          (record { id = refl; merkle_root = refl; log_count = refl }) tt)
    | inr n ↦ rw n (
        finish-Settled w.commit b (record (with_receipt r b) { status = unverified }) db
          (record { id = refl; merkle_root = refl; log_count = refl }) tt)
  ]

  without_anchor-Settled :
      (commit : Option Thrown) (b : Batch) (db : Db)
      → Settled b db (without_anchor rt w logs root commit (record b { status = sealed }) db)
  unfolding without_anchor
  without_anchor-Settled none b db =
      (record { id = refl; merkle_root = refl; log_count = refl }, inl (tt, refl))
  without_anchor-Settled (some e) b db = refl

  pub anchor-Settled : (b : Batch) (db : Db) → Settled b db (anchor rt w logs root b db)
  unfolding anchor
  anchor-Settled b db =
      if_both (Settled b db) w.ready _ _ (λ _. after_store-Settled (w.store_root b.id root) b db)
        (λ _. without_anchor-Settled w.commit b db)
