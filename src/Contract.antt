-- ===== src/Contract.antt =====
-- contracts/LogIntegrity.sol: a root is stored once for each batch. A bytes32 is its text, `0x` and
-- 64 lower-case hexadecimal digits; an address is a text.
pub mod Immutable
use logchain.Prelude.{◌≡◌, ◌&&◌, ℕ, Bool, not, Text, codes, text_eq, if◌then◌else◌}

abbrev pub zero_root : Text
zero_root = codes "0x0000000000000000000000000000000000000000000000000000000000000000"

-- A mapping's value at a key that was never written is zero.
pub record LogIntegrity : Type 0 where
  pub roots : Text → Text
  pub timestamp : Text → ℕ
  pub owner : Text

unfoldable pub update {ℓ} : {V : Type ℓ} → (Text → V) → Text → V → Text → V
update f k v j = if text_eq k j then v else f j

pub data Transaction : Type 0 where
  done : LogIntegrity → Transaction
  reverted : Text → Transaction

unfoldable pub deploy : Text → LogIntegrity
deploy sender = record { roots = λ _. zero_root; timestamp = λ _. 0; owner = sender }

-- `storeRoot`, called by `sender` in a block of time `now`.
unfoldable pub store_root : Text → Text → Text → ℕ → LogIntegrity → Transaction
unfolding update
store_root sender batch root now c =
    if not (text_eq sender c.owner)
    then reverted (codes "Not authorized")
    else if not (text_eq (c.roots batch) zero_root)
    then reverted (codes "Root already exists")
    else done
        (record c { roots = update c.roots batch root; timestamp = update c.timestamp batch now })

unfoldable pub verify_root : Text → Text → LogIntegrity → Bool
verify_root batch root c = text_eq (c.roots batch) root && not (text_eq root zero_root)

unfoldable pub get_root : Text → LogIntegrity → Text × ℕ
get_root batch c = (c.roots batch, c.timestamp batch)

-- One call by anyone, and the states that calls lead to.
pub data Step (c : LogIntegrity) : LogIntegrity → Type 0 where
  store :
      {d : LogIntegrity} (sender batch root : Text) (now : ℕ)
      → store_root sender batch root now c ≡ done d
      → Step c d

pub data Reach (c : LogIntegrity) : LogIntegrity → Type 0 where
  here : Reach c c
  next : {d e : LogIntegrity} → Reach c d → Step d e → Reach c e
