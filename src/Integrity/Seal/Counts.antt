-- ===== src/Integrity/Seal/Counts.antt =====
-- One seal leaves the count of failures to `recordSealOutcome`.
use logchain.Prelude.{ℕ, ◌≡◌, refl, Option, is_empty, if_both}
use logchain.Entities.{SealReason}
use logchain.LogHash.{Runtime}
use logchain.Merkle.{MerkleTree}
use logchain.SealConfig.{SealConfig}
use logchain.Integrity.State.{Service, World, pending_logs}
use logchain.Integrity.Wallet.{
  WalletCheck, proceed, too_low, KeepsTables, check_wallet_balance,
  check_wallet_balance-KeepsTables,
}
use logchain.Integrity.Seal.{SealOutcome, with_db, guarded, seal_batch_now}

abbrev pub SameCounts : Service → Service → Type 0
SameCounts s t =
    (t.consecutive_failures ≡ s.consecutive_failures)
    × (t.backoff_ticks_left ≡ s.backoff_ticks_left)

module _ (rt : Runtime) (lib : MerkleTree) (cfg : SealConfig) where
  pub seal_batch_now-SameCounts :
      (reason : SealReason) (w : World) (cutoff : Option ℕ) (s : Service)
      → SameCounts s (seal_batch_now rt lib reason w cfg cutoff s).1
  unfolding seal_batch_now guarded with_db
  seal_batch_now-SameCounts reason w cutoff s =
      if_both (λ (r : SealOutcome × Service). SameCounts s r.1)
        (is_empty (pending_logs cfg.batch_size cutoff s.db)) _ _ (λ _. (refl, refl))
        (λ _. go (check_wallet_balance cfg w s) (check_wallet_balance-KeepsTables cfg w s))
    where
      go :
          (c : WalletCheck × Service)
          → KeepsTables s c.1
          → SameCounts s (guarded rt lib reason w (pending_logs cfg.batch_size cutoff s.db) c).1
      go (too_low, t) k = (k.failures, k.ticks)
      go (proceed, t) k = (k.failures, k.ticks)
