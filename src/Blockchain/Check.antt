-- ===== src/Blockchain/Check.antt =====
-- Reading a root back: `checkRoot`, `getRoot` and `verifyRoot` of
-- src/blockchain/blockchain.service.ts, src/blockchain/chain-read.ts and explorer.ts.
pub mod Anchor
use logchain.Prelude.{
  trim, ℕ, Bool, true, false, ◌&&◌, not, Option, none, some, List, [], ◌∷◌, ◌++◌, Text, codes,
  text_eq, starts_with, is_empty, all, take, ◌==◌, if◌then◌else◌,
}
use logchain.Errors.{Thrown, plain_error, Result, ok, err, ◌>>=◌}
use logchain.LogHash.{to_lower}

pub data CheckResult : Type 0 where
  matched missing mismatch : CheckResult

pub record RootCheck : Type 0 where
  pub result : CheckResult
  pub on_chain_root : Text

-- `root.startsWith('0x') ? root : '0x' + root`
unfoldable pub with_prefix : Text → Text
with_prefix root = if starts_with (codes "0x") root then root else codes "0x" ++ root

abbrev is_zero : ℕ → Bool
is_zero c = c == b'0'

-- The digits behind `0x`, if the text begins so.
abbrev digits_of : Text → Option Text
digits_of [] = none
digits_of (a ∷ []) = none
digits_of (a ∷ b ∷ s) = if (a == b'0') && (b == b'x') then some s else none

abbrev all_zeros : Option Text → Bool
all_zeros none = false
all_zeros (some s) = all is_zero s

abbrev some_zeros : Option Text → Bool
some_zeros none = false
some_zeros (some s) = not (is_empty s) && all is_zero s

-- `/^0x0+$/`: a bytes32 that was never set.
unfoldable pub is_unset_root : Text → Bool
is_unset_root root = some_zeros (digits_of root)

-- `/^0x0*$/`
unfoldable pub is_zero_root : Text → Bool
is_zero_root root = all_zeros (digits_of root)

compare_root : Text → Text → RootCheck
unfolding with_prefix is_unset_root to_lower
compare_root root on_chain =
    if is_unset_root on_chain
    then record { result = missing; on_chain_root = on_chain }
    else record {
      result =
          if text_eq (to_lower on_chain) (to_lower (with_prefix root)) then matched else mismatch;
      on_chain_root = on_chain;
    }

-- `answer` is what the contract's `getRoot` gives for the batch.
unfoldable pub check_root : Bool → Result Text → Text → Result RootCheck
unfolding compare_root
check_root false answer root = err (plain_error (codes "Blockchain not ready"))
check_root true answer root = do on_chain ← answer; ok (compare_root root on_chain)

pub data ChainRead : Type 0 where
  root : Text → ChainRead
  error : Text → ChainRead

-- `err?.message ?? String(err)`
message_of : Thrown → Text
message_of e = elim e.message [ none ↦ e.printed | some m ↦ m ]

-- A call that does not answer in time rejects like one that fails.
unfoldable pub read_chain_root : Bool → Result Text → ChainRead
unfolding message_of to_lower
read_chain_root false answer = error (codes "Blockchain not configured")
read_chain_root true (ok r) = root (to_lower r)
read_chain_root true (err e) =
    error (codes "could not read root from chain: " ++ take 200 (message_of e))

abbrev default_explorer_tx_url : Text
default_explorer_tx_url = codes "https://amoy.polygonscan.com/tx/"

-- `env` is the variable BLOCKCHAIN_EXPLORER_TX_URL.
abbrev explorer_base : Option Text → Text
explorer_base none = trim default_explorer_tx_url
explorer_base (some base) = trim base

unfoldable pub explorer_tx_url : Option Text → Option Text → Option Text
explorer_tx_url none env = none
explorer_tx_url (some []) env = none
explorer_tx_url (some (c ∷ s)) env =
    let base = explorer_base env in if is_empty base then none else some (base ++ c ∷ s)
