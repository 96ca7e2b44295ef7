-- ===== src/Blockchain/Send.antt =====
-- Sending a root: `storeRoot`, `sendStoreRoot`, `cappedFees` and `estimateStoreRootCost` of
-- src/blockchain/blockchain.service.ts. The sends are queued, so a state is handed from one to the
-- next. Wei and gas are bigints, nonces and times are numbers.
pub mod Nonces
pub mod FeeCap
pub mod Outcome
use logchain.Prelude.{
  ℕ, ◌+◌, ◌-◌, ◌*◌, Bool, true, false, ◌&&◌, ◌||◌, not, Option, none, some, List, [], ◌∷◌, ◌++◌,
  Text, codes, ltb, max, starts_with, if◌then◌else◌,
}
use logchain.Errors.{Thrown, plain_error, Result, ok, err, ◌>>=◌, is_ethers_error}
use logchain.Blockchain.Errors.{is_outcome_known}

-- `provider.getFeeData()`
pub record FeeData : Type 0 where
  pub max_fee_per_gas : Option ℕ
  pub max_priority_fee_per_gas : Option ℕ
  pub gas_price : Option ℕ

pub record Fees : Type 0 where
  pub max_fee_per_gas : ℕ
  pub max_priority_fee_per_gas : ℕ

abbrev pub nonce_hint_ttl_ms : ℕ
nonce_hint_ttl_ms = 60000

-- The nonce of the last transaction that was sent, and when.
pub record LastSent : Type 0 where
  pub nonce : ℕ
  pub at : ℕ

-- What the node answers to the calls of one send, and the clock when it asks and when it has sent.
pub record SendAnswers : Type 0 where
  pub pending_nonce : Result ℕ
  pub asked_at : ℕ
  pub fee_data : Result FeeData
  pub send : ℕ → Option Fees → Result Text
  pub sent_at : ℕ

-- The tip that the node suggests, cut to the cap; `maxFeePerGas` falls by as much. ethers makes
-- `maxFeePerGas` at least the tip, so that the difference is no negative number.
pub cut_fees : ℕ → Option ℕ → Option ℕ → Option Fees
cut_fees ceiling none tip = none
cut_fees ceiling (some fee) none = none
cut_fees ceiling (some fee) (some suggested) =
    let tip = if ltb ceiling suggested then ceiling else suggested in
    some (record { max_fee_per_gas = (fee - suggested) + tip; max_priority_fee_per_gas = tip })

unfoldable pub capped_fees : Option ℕ → Result FeeData → Result (Option Fees)
unfolding cut_fees
capped_fees none data' = ok none
capped_fees (some ceiling) data' = do
  d ← data'
  ok (cut_fees ceiling d.max_fee_per_gas d.max_priority_fee_per_gas)

pub nonce_hint : Option LastSent → ℕ → ℕ
nonce_hint none now = 0
nonce_hint (some l) now = if ltb (now - l.at) nonce_hint_ttl_ms then l.nonce + 1 else 0

-- The nonce that this send uses, if the node tells the pending one.
unfoldable pub chosen_nonce : Option LastSent → SendAnswers → Result ℕ
unfolding nonce_hint
chosen_nonce last a = do pending ← a.pending_nonce; ok (max pending (nonce_hint last a.asked_at))

-- A transaction that the node has taken.
pub record Sent : Type 0 where
  pub nonce : ℕ
  pub hash : Text

unfoldable pub attempt : Option ℕ → Option LastSent → SendAnswers → Result Sent
unfolding chosen_nonce capped_fees
attempt tip_cap last a = do
  nonce ← chosen_nonce last a
  fees ← capped_fees tip_cap a.fee_data
  hash ← a.send nonce fees
  ok (record { nonce = nonce; hash = hash })

-- `lastSent` changes only after the send succeeded.
abbrev pub remember : Option LastSent → ℕ → Result Sent → Option LastSent
remember last now (ok t) = some (record { nonce = t.nonce; at = now })
remember last now (err e) = last

unfoldable pub send_store_root :
    Option ℕ → Option LastSent → SendAnswers → Result Sent × Option LastSent
unfolding attempt
send_store_root tip_cap last a =
    let sent = attempt tip_cap last a in (sent, remember last a.sent_at sent)

pub record Receipt : Type 0 where
  pub hash : Text
  pub block_number : ℕ
  pub gas_used : ℕ
  pub gas_price : ℕ

pub record StoreRootResult : Type 0 where
  pub tx_hash : Text
  pub block_number : Option ℕ
  pub confirmed : Bool
  pub gas_used : Option ℕ
  pub effective_gas_price : Option ℕ

-- What `tx.wait(1, timeout)` gives: a receipt, `null`, or a thrown value.
abbrev pub Wait : Type 0
Wait = Result (Option Receipt)

pub unconfirmed : Text → StoreRootResult
unconfirmed hash = record {
  tx_hash = hash;
  block_number = none;
  confirmed = false;
  gas_used = none;
  effective_gas_price = none;
}

mined : Receipt → StoreRootResult
mined r = record {
  tx_hash = r.hash;
  block_number = some r.block_number;
  confirmed = true;
  gas_used = some r.gas_used;
  effective_gas_price = some r.gas_price;
}

-- The `catch` of `storeRoot`.
unfoldable pub wait_failed : Text → Thrown → Result StoreRootResult
unfolding unconfirmed
wait_failed hash e =
    if not (is_ethers_error e) || is_outcome_known e then err e else ok (unconfirmed hash)

unfoldable pub settle : Text → Wait → Result StoreRootResult
unfolding wait_failed mined
settle hash (ok (some r)) = ok (mined r)
settle hash (ok none) = wait_failed hash (plain_error (codes "tx returned no receipt"))
settle hash (err e) = wait_failed hash e

unfoldable pub store_root :
    Bool
    → Option ℕ
    → Option LastSent
    → SendAnswers
    → (Text → Wait)
    → Result StoreRootResult × Option LastSent
unfolding send_store_root settle
store_root false tip_cap last a wait = (err (plain_error (codes "Blockchain not ready")), last)
store_root true tip_cap last a wait =
    let (sent, last') = send_store_root tip_cap last a in
    (do t ← sent; settle t.hash (wait t.hash), last')

pub record CostEstimate : Type 0 where
  pub balance_wei : ℕ
  pub gas : ℕ
  pub fee_per_gas_wei : ℕ
  pub cost_wei : ℕ

-- `maxFeePerGas ?? gasPrice ?? 0n`
base_fee : Option ℕ → Option ℕ → ℕ
base_fee (some fee) price = fee
base_fee none (some price) = price
base_fee none none = 0

pub estimated_fee : Option ℕ → Option ℕ → Option ℕ → Option ℕ → ℕ
unfolding base_fee
estimated_fee (some ceiling) (some fee) (some tip) price =
    if ltb ceiling tip then (fee - tip) + ceiling else fee
estimated_fee ceiling fee tip price = base_fee fee price

unfoldable pub estimate_store_root_cost :
    Bool → Option ℕ → Result ℕ → Result ℕ → Result FeeData → Result CostEstimate
unfolding estimated_fee
estimate_store_root_cost false tip_cap balance gas data' =
    err (plain_error (codes "Blockchain not ready"))
estimate_store_root_cost true tip_cap balance gas data' = do
  b ← balance
  g ← gas
  d ← data'
  let fee = estimated_fee tip_cap d.max_fee_per_gas d.max_priority_fee_per_gas d.gas_price
  ok (record { balance_wei = b; gas = g; fee_per_gas_wei = fee; cost_wei = g * fee })
