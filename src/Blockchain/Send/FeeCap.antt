-- ===== src/Blockchain/Send/FeeCap.antt =====
-- The fee cap of a send, and the estimate that the wallet guard makes of it.
use logchain.Prelude.{true, ℕ, ◌+◌, ◌*◌, ◌≤◌, ◌≡◌, some, arith}
use logchain.Errors.{ok}
use logchain.Blockchain.Send.{FeeData, Fees, capped_fees, CostEstimate, estimate_store_root_cost}

module _ (ceiling fee suggested : ℕ) (d : FeeData) (f : Fees) (known : d.max_fee_per_gas ≡ some fee)
    (tip : d.max_priority_fee_per_gas ≡ some suggested) (eip1559 : suggested ≤ fee)
    (sent : capped_fees (some ceiling) (ok d) ≡ ok (some f)) where
  -- Where the node suggests a fee that covers the suggested tip: under a cap the tip that is sent is
  -- at most the cap and at most the suggested tip, the most that is paid per gas is at most what the
  -- node suggested, and the part of it that is not the tip stays as it was.
  pub capped_fees_bounds :
      (f.max_priority_fee_per_gas ≤ ceiling)
      × (f.max_priority_fee_per_gas ≤ suggested)
      × (f.max_fee_per_gas ≤ fee)
      × (f.max_fee_per_gas + suggested ≡ fee + f.max_priority_fee_per_gas)
  unfolding capped_fees
  capped_fees_bounds = ground arith

  -- Where a cap is set and the node suggests a fee that covers the suggested tip: the price per gas in
  -- the estimate of the wallet guard is the most that the send would pay, and the estimated cost is the gas at
  -- that price.
  pub estimate-eq-capped_fees :
      (balance gas : ℕ) (e : CostEstimate)
      → estimate_store_root_cost true (some ceiling) (ok balance) (ok gas) (ok d) ≡ ok e
      → (e.fee_per_gas_wei ≡ f.max_fee_per_gas)
        × (e.cost_wei ≡ gas * f.max_fee_per_gas)
        × (e.balance_wei ≡ balance)
  unfolding estimate_store_root_cost capped_fees
  estimate-eq-capped_fees balance gas e h = ground arith
