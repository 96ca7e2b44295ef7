-- ===== src/Integrity/Wallet/Examples.antt =====
-- The guard at a wallet that pays for one transaction and is asked for two.
use logchain.Prelude.{◌≡◌, refl}
use logchain.Errors.{ok}
use logchain.Blockchain.Send.{CostEstimate}
use logchain.SealConfig.{SealConfig, default_seal_config}
use logchain.Integrity.State.{World}
use logchain.Integrity.Wallet.{too_low, check_wallet_balance}
use logchain.Integrity.Fixture.{online, idle_service}

abbrev guarded_config : SealConfig
guarded_config = record default_seal_config { min_balance_tx = 2 }

abbrev poor : CostEstimate
poor = record { balance_wei = 10; gas = 4; fee_per_gas_wei = 2; cost_wei = 8 }

abbrev poor_world : World
poor_world = record online { now = 9999999; estimate = ok poor }

check_wallet_balance_run : (check_wallet_balance guarded_config poor_world idle_service).0 ≡ too_low
unfolding check_wallet_balance
check_wallet_balance_run = refl
