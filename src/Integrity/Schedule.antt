-- ===== src/Integrity/Schedule.antt =====
-- src/integrity/integrity.scheduler.ts: the jobs, each of which catches what its service throws.
use logchain.Prelude.{ℕ, Bool}
use logchain.Errors.{Result, ok, err}
use logchain.Entities.{Db}
use logchain.LogHash.{Runtime}
use logchain.Merkle.{MerkleTree}
use logchain.SealConfig.{SealConfig, SealMode, cron, hybrid}
use logchain.Integrity.State.{Service, World}
use logchain.Integrity.Rounds.{run_scheduled_seal, run_hybrid_seal_tick}
use logchain.Integrity.Anchoring.{anchor_sealed_batches, reanchor_unverified}
use logchain.Integrity.Verify.{verify_all_batches}

module _ (rt : Runtime) (lib : MerkleTree) where
  -- The job that `onModuleInit` registers for sealing.
  pub seal_job : SealConfig → SealMode → ℕ → (ℕ → World) → Service → Service
  unfolding run_scheduled_seal run_hybrid_seal_tick
  seal_job cfg cron now ws s = (run_scheduled_seal rt lib cfg ws s).1
  seal_job cfg hybrid now ws s = (run_hybrid_seal_tick rt lib cfg now ws s).1

  after_anchoring : Bool → Bool → (ℕ → World) → (ℕ → World) → Db × Result Bool → Db
  unfolding reanchor_unverified verify_all_batches
  after_anchoring ready auto again ws (db, err e) = db
  after_anchoring ready auto again ws (db, ok done) =
      verify_all_batches rt lib ws (reanchor_unverified ready auto again db)

  -- `handlVerify`: anchoring afterwards, anchoring again, then the checks. Each of the three gets
  -- its own answers of the world, and each reads anew whether the chain is ready.
  unfoldable pub handl_verify :
      Bool → (ℕ → World) → Bool → Bool → (ℕ → World) → (ℕ → World) → Db → Db
  unfolding after_anchoring anchor_sealed_batches
  handl_verify up first ready auto again ws db =
      after_anchoring ready auto again ws (anchor_sealed_batches up first db)
