-- ===== src/Integrity/Wallet.antt =====
-- The guard against a low balance: `checkWalletBalance` and `raiseLowBalanceAlert`.
pub mod Decides
mod Examples
use logchain.Prelude.{
  ◌≡◌, refl, inl, inr, Bool-cases, ℕ, ◌*◌, ◌-◌, Bool, true, false, not, ◌&&◌, ◌||◌, none, [], ◌∷◌,
  ◌++◌, map, any, codes, text_eq, ltb, leb, ◌==◌, if◌then◌else◌,
}
use logchain.Errors.{Result, ok, err}
use logchain.Entities.{Alert, wallet_low_balance, high, open_alert, resolved, low_balance}
use logchain.Blockchain.Send.{CostEstimate}
use logchain.SealConfig.{SealConfig}
use logchain.Integrity.State.{Service, World, same_type, is_open}

pub data WalletCheck : Type 0 where
  proceed too_low : WalletCheck

is_open_low_balance : Alert → Bool
unfolding same_type is_open
is_open_low_balance a = same_type a.alert_type wallet_low_balance && is_open a.status

resolve_low_balance : Alert → Alert
unfolding is_open_low_balance
resolve_low_balance a = if is_open_low_balance a then record a { status = resolved } else a

-- `findOne` with `source: 'INTEGRITY'`
pub is_raised : Alert → Bool
unfolding is_open_low_balance
is_raised a = is_open_low_balance a && text_eq a.source (codes "INTEGRITY")

low_balance_alert : CostEstimate → ℕ → Alert
low_balance_alert est required = record {
  batch_id = none;
  alert_type = wallet_low_balance;
  severity = high;
  source = codes "INTEGRITY";
  detail = low_balance est.balance_wei required;
  status = open_alert;
}

raise_low_balance_alert : SealConfig → ℕ → CostEstimate → ℕ → Service → Service
unfolding is_raised low_balance_alert
raise_low_balance_alert cfg now est required s =
    if ltb (now - s.last_low_balance_alert_at) (cfg.low_balance_alert_minutes * 60000)
    then s
    else if any is_raised s.alerts
    then record s { last_low_balance_alert_at = now }
    else record s {
      last_low_balance_alert_at = now;
      db = record s.db { alerts = s.alerts ++ low_balance_alert est required ∷ [] };
    }

recover : Service → Service
unfolding resolve_low_balance
recover s =
    if s.low_balance
    then record s {
      low_balance = false;
      db = record s.db { alerts = map resolve_low_balance s.alerts };
    }
    else s

judge_balance : SealConfig → ℕ → Result CostEstimate → Service → WalletCheck × Service
unfolding raise_low_balance_alert recover
judge_balance cfg now (err e) s = (proceed, s)
judge_balance cfg now (ok est) s =
    let required = est.cost_wei * cfg.min_balance_tx in
    if leb required est.balance_wei
    then (proceed, recover s)
    else (too_low, raise_low_balance_alert cfg now est required (record s { low_balance = true }))

unfoldable pub check_wallet_balance : SealConfig → World → Service → WalletCheck × Service
unfolding judge_balance
check_wallet_balance cfg w s =
    if cfg.min_balance_tx == 0 || not w.ready
    then (proceed, s)
    else judge_balance cfg w.now w.estimate s

-- The tables and the counts that the guard has no part in.
pub record KeepsTables (s t : Service) : Type 0 where
  pub logs : t.logs ≡ s.logs
  pub batches : t.batches ≡ s.batches
  pub mappings : t.mappings ≡ s.mappings
  pub snapshots : t.snapshots ≡ s.snapshots
  pub failures : t.consecutive_failures ≡ s.consecutive_failures
  pub ticks : t.backoff_ticks_left ≡ s.backoff_ticks_left

recover-KeepsTables : (s : Service) → KeepsTables s (recover s)
unfolding recover
recover-KeepsTables s = elim (Bool-cases s.low_balance) [
  | inl e ↦ rw e (record {
    logs = refl;
    batches = refl;
    mappings = refl;
    snapshots = refl;
    failures = refl;
    ticks = refl;
  })
  | inr e ↦ rw e (record {
    logs = refl;
    batches = refl;
    mappings = refl;
    snapshots = refl;
    failures = refl;
    ticks = refl;
  })
]

raise_low_balance_alert-KeepsTables :
    (cfg : SealConfig) (now : ℕ) (est : CostEstimate) (required : ℕ) (s : Service)
    → KeepsTables s (raise_low_balance_alert cfg now est required s)
unfolding raise_low_balance_alert
raise_low_balance_alert-KeepsTables cfg now est required s =
    elim (Bool-cases
      (ltb (now - s.last_low_balance_alert_at) (cfg.low_balance_alert_minutes * 60000))) [
        | inl e ↦ rw e (record {
          logs = refl;
          batches = refl;
          mappings = refl;
          snapshots = refl;
          failures = refl;
          ticks = refl;
        })
        | inr e ↦ elim (Bool-cases (any is_raised s.alerts)) [
          | inl k ↦
              rw (e, k)
                (record {
                  logs = refl;
                  batches = refl;
                  mappings = refl;
                  snapshots = refl;
                  failures = refl;
                  ticks = refl;
                })
          | inr k ↦
              rw (e, k)
                (record {
                  logs = refl;
                  batches = refl;
                  mappings = refl;
                  snapshots = refl;
                  failures = refl;
                  ticks = refl;
                })
        ]
      ]

judge_balance-KeepsTables :
    (cfg : SealConfig) (now : ℕ) (r : Result CostEstimate) (s : Service)
    → KeepsTables s (judge_balance cfg now r s).1
unfolding judge_balance
judge_balance-KeepsTables cfg now (err e) s = record {
  logs = refl;
  batches = refl;
  mappings = refl;
  snapshots = refl;
  failures = refl;
  ticks = refl;
}
judge_balance-KeepsTables cfg now (ok est) s =
    elim (Bool-cases (leb (est.cost_wei * cfg.min_balance_tx) est.balance_wei)) [
      | inl e ↦ rw e (recover-KeepsTables s)
      | inr e ↦
          let k =
            raise_low_balance_alert-KeepsTables cfg now est (est.cost_wei * cfg.min_balance_tx)
              (record s { low_balance = true }) in
          rw e (record {
            logs = k.logs;
            batches = k.batches;
            mappings = k.mappings;
            snapshots = k.snapshots;
            failures = k.failures;
            ticks = k.ticks;
          })
    ]

same_tables : (s : Service) → KeepsTables s s
same_tables s = record {
  logs = refl;
  batches = refl;
  mappings = refl;
  snapshots = refl;
  failures = refl;
  ticks = refl;
}

pub check_wallet_balance-KeepsTables :
    (cfg : SealConfig) (w : World) (s : Service) → KeepsTables s (check_wallet_balance cfg w s).1
unfolding check_wallet_balance
check_wallet_balance-KeepsTables cfg w s =
    elim (Bool-cases (cfg.min_balance_tx == 0 || not w.ready)) [
      | inl e ↦ rw e (same_tables s)
      | inr e ↦ rw e (judge_balance-KeepsTables cfg w.now w.estimate s)
    ]
