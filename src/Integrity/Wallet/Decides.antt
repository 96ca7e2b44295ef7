-- ===== src/Integrity/Wallet/Decides.antt =====
-- When the guard lets a seal go on.
use logchain.Prelude.{◌*◌, ◌-◌, ◌≤◌, ◌<◌, ◌≡◌, ◌⊎◌, true, false, any}
use logchain.Blockchain.Send.{CostEstimate}
use logchain.SealConfig.{SealConfig}
use logchain.Integrity.State.{Service, World}
use logchain.Integrity.Wallet.{WalletCheck, proceed, too_low, is_raised}

-- An open alert tells of the low balance, or the last one is too recent.
abbrev pub IsTold : SealConfig → World → Service → Service → Type 0
IsTold cfg w s t =
    (any is_raised t.alerts ≡ true)
    ⊎ (w.now - s.last_low_balance_alert_at < cfg.low_balance_alert_minutes * 60000)

-- The balance covers the configured number of transactions and the seal goes on, or it does not.
abbrev pub Judged : SealConfig → World → CostEstimate → Service → WalletCheck × Service → Type 0
Judged cfg w est s r =
    ((est.cost_wei * cfg.min_balance_tx ≤ est.balance_wei)
      × (r.0 ≡ proceed)
      × (r.1.low_balance ≡ false))
    ⊎ ((est.balance_wei < est.cost_wei * cfg.min_balance_tx)
        × (r.0 ≡ too_low)
        × (r.1.low_balance ≡ true)
        × IsTold cfg w s r.1)
