-- ===== src/Blockchain/Errors.antt =====
-- `classifyChainError` and `isWaitDeadline` of src/blockchain/blockchain.service.ts.
use logchain.Prelude.{
  Bool, false, ◌&&◌, ◌||◌, Option, none, some, List, [], ◌∷◌, ◌++◌, Text, codes, text_eq, includes,
  if◌then◌else◌,
}
use logchain.Errors.{Thrown}
use logchain.LogHash.{to_lower}

pub data ChainWriteError : Type 0 where
  root_exists not_authorized other : ChainWriteError

strings : List (Option Text) → List Text
strings [] = []
strings (none ∷ vs) = strings vs
strings (some s ∷ vs) = s ∷ strings vs

-- `join(' | ')`
join : List Text → Text
join [] = []
join (s ∷ []) = s
join (s ∷ t ∷ ss) = s ++ codes " | " ++ join (t ∷ ss)

error_text : Thrown → Text
unfolding strings join to_lower
error_text e =
    to_lower (join (strings (e.reason ∷ e.short_message ∷ e.revert_arg ∷ e.message ∷ [])))

unfoldable pub classify_chain_error : Thrown → ChainWriteError
unfolding error_text
classify_chain_error e =
    if includes (codes "root already exists") (error_text e)
    then root_exists
    else if includes (codes "not authorized") (error_text e)
    then not_authorized
    else other

-- `e?.code === c`
unfoldable pub field_is : Option Text → Text → Bool
field_is none c = false
field_is (some s) c = text_eq s c

unfoldable pub is_wait_deadline : Thrown → Bool
unfolding field_is
is_wait_deadline e =
    field_is e.code (codes "TIMEOUT")
    && field_is e.short_message (codes "wait for transaction timeout")

-- The codes of `tx.wait` after which the transaction's fate is known.
unfoldable pub is_outcome_known : Thrown → Bool
unfolding field_is
is_outcome_known e =
    field_is e.code (codes "CALL_EXCEPTION") || field_is e.code (codes "TRANSACTION_REPLACED")
