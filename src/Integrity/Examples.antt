-- ===== src/Integrity/Examples.antt =====
-- The theorems on sealing at concrete tables, and runs of the operations.
use logchain.Prelude.{
  ℕ, ◌≡◌, ◌≢◌, refl, sym, ◌∙◌, ap, not, ◌&&◌, has_id, In, Bool, true, false, Option, none, some,
  List, [], ◌∷◌, ◌++◌, map, Text, codes, text_eq, inl, inr, IsKeyed, length, is_empty, arith, ◌≤◌,
}
use logchain.Errors.{ok, err, plain_error}
use logchain.Entities.{Log, log_id, SealReason, sealed, failed}
use logchain.LogHash.{
  Runtime, RawHashInput, HashedLog, compute_raw_hash, is_raw_hash_intact, canonical_json,
}
use logchain.Merkle.{build_root}
use logchain.SealConfig.{default_seal_config}
use logchain.Blockchain.Check.{mismatch, RootCheck, check_root}
use logchain.Integrity.State.{Service, World, logs_for_batch, pending_logs, is_pending, mapped_to}
use logchain.Integrity.State.Pending.{pending_rows}
use logchain.Integrity.Seal.{closed, seal_batch_now}
use logchain.Integrity.Seal.Batches.{
  seal_batch_now-covers, seal_batch_now-is_pending, seal_batch_now-keeps_others,
}
use logchain.Integrity.Seal.Evidence.{OutcomeBacked, seal_batch_now-backed}
use logchain.Integrity.Rounds.{run_scheduled_seal, run_hybrid_seal_tick}
use logchain.Integrity.Rounds.Drained.{run_scheduled_seal-drains}
use logchain.Integrity.Rounds.Backoff.{
  IsBounded, run_scheduled_seal-IsBounded, run_hybrid_seal_tick-IsBounded,
}
use logchain.Integrity.Verify.{verify_batch, modified_logs}
use logchain.Integrity.Verify.Quiet.{IsQuiet, seal_batch_now-verified}
use logchain.Integrity.Anchoring.{anchor_sealed}
use logchain.Integrity.Anchoring.Safe.{AnchorStep, anchor_sealed-step}
use logchain.Integrity.Fixture.{
  plain, flat, flat_IsHexRoot, early, empty_db, idle_service, offline, online, two_roots,
  offline_batch, sealed_db,
}

abbrev after : Service
after = (seal_batch_now plain flat SealReason.cron offline default_seal_config none idle_service).1

empty_db-IsKeyed : IsKeyed log_id empty_db.logs
unfolding text_eq
empty_db-IsKeyed = (refl, (refl, tt))

seal_batch_now_run :
    (seal_batch_now plain flat SealReason.cron offline default_seal_config none idle_service).0
    ≡ closed offline_batch
unfolding seal_batch_now pending_logs build_root compute_raw_hash logchain.Prelude.sort
    logchain.Integrity.Wallet.check_wallet_balance logchain.Prelude.starts_with
seal_batch_now_run = refl

sealed-ne-failed : sealed ≢ failed
sealed-ne-failed h = cc

-- The facts about the tables of the fixture that the runs below rest on.
intact_logs : is_empty (modified_logs plain (pending_logs 100 none empty_db)) ≡ true
unfolding modified_logs pending_logs logs_for_batch is_raw_hash_intact compute_raw_hash check_root
    build_root verify_batch canonical_json text_eq logchain.Prelude.sort
    logchain.Prelude.starts_with logchain.LogHash.normalize_ip logchain.Json.hex4
intact_logs = refl

offline_check :
    (k : RootCheck)
    → check_root false (err (plain_error [])) (codes "0x" ++ two_roots) ≡ ok k
    → k.result ≢ mismatch
unfolding check_root
offline_check k h = cc

abbrev failing : World
failing = record online { store_root = λ i r. err (plain_error (codes "timeout")) }

abbrev strained : Service
strained = record idle_service { consecutive_failures = 3; backoff_ticks_left = 1 }

seal_batch_now-covers_example :
    (logs_for_batch (codes "b1") after.db ≡ pending_logs 100 none empty_db)
    × (2 ≡ length (pending_logs 100 none empty_db))
    × (build_root flat (map (λ (l : Log). l.raw_hash) (logs_for_batch (codes "b1") after.db))
        ≡ codes "0x" ++ two_roots)
unfolding mapped_to
seal_batch_now-covers_example =
    seal_batch_now-covers plain flat flat_IsHexRoot SealReason.cron offline default_seal_config none
      idle_service empty_db-IsKeyed refl offline_batch seal_batch_now_run sealed-ne-failed

seal_batch_now-is_pending_example : is_pending after.mappings none early ≡ (
    is_pending [] none early && not (has_id log_id (codes "l2") (pending_logs 100 none empty_db)))
unfolding mapped_to
seal_batch_now-is_pending_example =
    seal_batch_now-is_pending plain flat flat_IsHexRoot SealReason.cron offline default_seal_config
      none idle_service empty_db-IsKeyed refl offline_batch seal_batch_now_run sealed-ne-failed none
      early

seal_batch_now-keeps_others_example :
    (after.logs ≡ empty_db.logs)
    × (logs_for_batch (codes "b7") after.db ≡ logs_for_batch (codes "b7") empty_db)
unfolding mapped_to text_eq
seal_batch_now-keeps_others_example =
    seal_batch_now-keeps_others plain flat flat_IsHexRoot SealReason.cron offline
      default_seal_config none idle_service empty_db-IsKeyed refl (codes "b7") refl

seal_batch_now-backed_example :
    OutcomeBacked online
      (codes "b1")
      (build_root flat (map (λ (l : Log). l.raw_hash) (pending_logs 100 none empty_db)))
      (seal_batch_now plain flat SealReason.cron online default_seal_config none idle_service).0
seal_batch_now-backed_example =
    seal_batch_now-backed plain flat SealReason.cron online default_seal_config none idle_service

seal_batch_now-verified_example :
    IsQuiet (codes "b1") after.db (verify_batch plain flat offline offline_batch after.db)
unfolding mapped_to
seal_batch_now-verified_example =
    seal_batch_now-verified plain flat flat_IsHexRoot SealReason.cron offline default_seal_config
      none idle_service empty_db-IsKeyed refl intact_logs offline_batch seal_batch_now_run refl
      offline offline_check

run_scheduled_seal-drains_example :
    pending_rows
      (run_scheduled_seal plain flat default_seal_config (λ i. offline) idle_service).1.db
    ≡ []
unfolding run_scheduled_seal pending_logs logchain.Prelude.sort
    logchain.Integrity.Wallet.check_wallet_balance
run_scheduled_seal-drains_example =
    run_scheduled_seal-drains plain flat flat_IsHexRoot default_seal_config (omega arith)
      (λ i. offline) idle_service empty_db-IsKeyed (refl, (refl, tt), omega arith)

run_scheduled_seal-IsBounded_example :
    IsBounded default_seal_config
      (run_scheduled_seal plain flat default_seal_config (λ i. failing) strained).1
run_scheduled_seal-IsBounded_example =
    run_scheduled_seal-IsBounded plain flat default_seal_config (λ i. failing) strained
      (omega arith)

run_hybrid_seal_tick-IsBounded_example :
    IsBounded default_seal_config
      (run_hybrid_seal_tick plain flat default_seal_config 99999999 (λ i. failing) strained).1
run_hybrid_seal_tick-IsBounded_example =
    run_hybrid_seal_tick-IsBounded plain flat default_seal_config 99999999 (λ i. failing) strained
      (omega arith)

anchor_sealed-step_example :
    AnchorStep online offline_batch sealed_db (anchor_sealed online offline_batch sealed_db)
anchor_sealed-step_example = anchor_sealed-step online offline_batch sealed_db
