-- ===== src/Blockchain/Examples.antt =====
-- The theorems on sending and checking roots at concrete answers of a node.
use logchain.Prelude.{
  inl, ℕ, ◌≡◌, ◌≢◌, ◌≤◌, ◌+◌, ◌*◌, refl, true, false, none, some, [], ◌∷◌, codes, text_eq,
  if◌then◌else◌, arith,
}
use logchain.Errors.{Thrown, plain_error, Result, ok, err}
use logchain.LogHash.{to_lower}
use logchain.Contract
use logchain.Contract.{LogIntegrity, zero_root, deploy, done, Step, store, Reach, here, next}
use logchain.Contract.Immutable.{Reach-root}
use logchain.Blockchain.Send.{
  FeeData, Fees, LastSent, SendAnswers, capped_fees, attempt, store_root, CostEstimate,
  estimate_store_root_cost,
}
use logchain.Blockchain.Send.Nonces.{sent_nonces, IsIncreasing, sent_nonces-IsIncreasing}
use logchain.Blockchain.Send.FeeCap.{capped_fees_bounds, estimate-eq-capped_fees}
use logchain.Blockchain.Send.Outcome.{store_root-reports}
use logchain.Blockchain.Check.{matched, mismatch, with_prefix, is_unset_root, check_root}
use logchain.Blockchain.Check.Anchor.{check_root-anchored}

abbrev quote : FeeData
quote = record {
  max_fee_per_gas = some 80;
  max_priority_fee_per_gas = some 30;
  gas_price = some 60;
}

abbrev cut : Fees
cut = record { max_fee_per_gas = 75; max_priority_fee_per_gas = 25 }

capped_fees_run : capped_fees (some 25) (ok quote) ≡ ok (some cut)
unfolding capped_fees
capped_fees_run = refl

capped_fees_bounds_example : (25 ≤ 25) × (25 ≤ 30) × (75 ≤ 80) × (75 + 30 ≡ 80 + 25)
capped_fees_bounds_example =
    capped_fees_bounds 25 80 30 quote cut refl refl (omega arith) capped_fees_run

abbrev estimate : CostEstimate
estimate = record { balance_wei = 9000; gas = 100; fee_per_gas_wei = 75; cost_wei = 7500 }

estimate_run : estimate_store_root_cost true (some 25) (ok 9000) (ok 100) (ok quote) ≡ ok estimate
unfolding estimate_store_root_cost
estimate_run = refl

estimate-eq-capped_fees_example :
    (estimate.fee_per_gas_wei ≡ cut.max_fee_per_gas)
    × (estimate.cost_wei ≡ 100 * cut.max_fee_per_gas)
    × (estimate.balance_wei ≡ 9000)
estimate-eq-capped_fees_example =
    estimate-eq-capped_fees 25 80 30 quote cut refl refl (omega arith) capped_fees_run 9000 100
      estimate estimate_run

-- A node behind a load balancer that tells the same pending nonce twice.
abbrev stale : ℕ → SendAnswers
stale t = record {
  pending_nonce = ok 5;
  asked_at = t;
  fee_data = ok quote;
  send = λ n f. ok (codes "0x01");
  sent_at = t + 1;
}

sent_nonces_run : sent_nonces none none (stale 0 ∷ stale 10 ∷ []) ≡ 5 ∷ 6 ∷ []
unfolding sent_nonces logchain.Blockchain.Send.send_store_root
sent_nonces_run = refl

sent_nonces-IsIncreasing_example : IsIncreasing (sent_nonces none none (stale 0 ∷ stale 10 ∷ []))
sent_nonces-IsIncreasing_example =
    sent_nonces-IsIncreasing none 0 (stale 0 ∷ stale 10 ∷ [])
      ((omega arith, omega arith), ((omega arith, omega arith), tt))

abbrev revert : Thrown
revert = record {
  code = some (codes "CALL_EXCEPTION");
  short_message = some (codes "transaction execution reverted");
  printed = codes "Error: transaction execution reverted";
  reason = none;
  revert_arg = none;
  message = none;
}

sent_once : attempt none none (stale 0) ≡ ok (record { nonce = 5; hash = codes "0x01" })
unfolding attempt
sent_once = refl

store_root-reports_example :
    store_root true none none (stale 0) (λ h. err revert)
    ≡ (err revert, some (record { nonce = 5; at = 1 }))
store_root-reports_example =
    store_root-reports none none (stale 0) (λ h. err revert)
      (record { nonce = 5; hash = codes "0x01" }) revert sent_once (inl (refl, inl refl))

-- A root is stored by the owner; then another account tries to replace it, and the owner too.
abbrev stored : LogIntegrity
stored = record {
  roots = Contract.update (λ _. zero_root) (codes "b1") (codes "0xab");
  timestamp = Contract.update (λ _. 0) (codes "b1") 7;
  owner = codes "owner";
}

store_run :
    Contract.store_root (codes "owner") (codes "b1") (codes "0xab") 7 (deploy (codes "owner"))
    ≡ done stored
unfolding Contract.store_root deploy text_eq
store_run = refl

abbrev twice : LogIntegrity
twice = record {
  roots = Contract.update stored.roots (codes "b2") (codes "0xcd");
  timestamp = Contract.update stored.timestamp (codes "b2") 9;
  owner = codes "owner";
}

store_again_run :
    Contract.store_root (codes "owner") (codes "b2") (codes "0xcd") 9 stored ≡ done twice
unfolding Contract.store_root text_eq
store_again_run = refl

later : Reach stored twice
later = next here (store (codes "owner") (codes "b2") (codes "0xcd") 9 store_again_run)

stored-ne-zero : stored.roots (codes "b1") ≢ zero_root
unfolding Contract.update text_eq
stored-ne-zero h = cc

Reach-root_example : twice.roots (codes "b1") ≡ stored.roots (codes "b1")
Reach-root_example = Reach-root (codes "b1") stored twice stored-ne-zero later

is_set : is_unset_root (codes "0xab") ≡ false
unfolding is_unset_root
is_set = refl

check_root-anchored_example :
    check_root true (ok (Contract.get_root (codes "b1") twice).0) (codes "AB")
    ≡ ok (record {
      result =
          if text_eq (to_lower (codes "0xab")) (to_lower (with_prefix (codes "AB")))
          then matched
          else mismatch;
      on_chain_root = codes "0xab";
    })
check_root-anchored_example =
    check_root-anchored (codes "owner") (codes "b1") (codes "0xab") 7 (deploy (codes "owner"))
      stored twice is_set store_run later (codes "AB")
