-- ===== src/Blockchain/Send/Outcome.antt =====
-- What `storeRoot` reports of a transaction once it was sent.
use logchain.Prelude.{
  text_eq, ◌∙◌, or_true, ◌≡◌, refl, sym, ap, ℕ, Bool, true, false, not, ◌&&◌, ◌||◌, ◌⊎◌, inl, inr,
  Option, none, some, Text, codes, is_some,
}
use logchain.Errors.{Thrown, ok, err, is_ethers_error, plain_error}
use logchain.Blockchain.Errors.{is_outcome_known, field_is}
use logchain.Blockchain.Send.{
  Fees, LastSent, SendAnswers, Sent, chosen_nonce, attempt, Wait, wait_failed, settle, store_root,
  send_store_root,
}

-- An error of the wait that the caller may take for "not anchored": the contract reverted, the
-- transaction was replaced, or it lacks the code or the short message that errors of ethers have.
abbrev pub IsFinal : Thrown → Type 0
IsFinal e =
    (e.code ≡ some (codes "CALL_EXCEPTION"))
    ⊎ (e.code ≡ some (codes "TRANSACTION_REPLACED"))
    ⊎ (e.code ≡ none)
    ⊎ (e.short_message ≡ none)

-- What the wait answered for a transaction that is reported as failed.
abbrev pub WaitFailed : Wait → Thrown → Type 0
WaitFailed w e =
    ((w ≡ err e) × IsFinal e) ⊎ ((w ≡ ok none) × (e ≡ plain_error (codes "tx returned no receipt")))

-- The node answered no transaction hash: the nonce or the fees could not be read, or the call that
-- sends threw.
abbrev pub NoHash : Option LastSent → SendAnswers → Thrown → Type 0
NoHash last a e =
    (a.pending_nonce ≡ err e)
    ⊎ (a.fee_data ≡ err e)
    ⊎ ((nonce : ℕ) × (fees : Option Fees) × (chosen_nonce last a ≡ ok nonce)
        × (a.send nonce fees ≡ err e))

IsFinal-guard : (e : Thrown) → IsFinal e → (not (is_ethers_error e) || is_outcome_known e) ≡ true
unfolding is_outcome_known is_ethers_error field_is text_eq
IsFinal-guard e (inl h) = rw h (or_true _)
IsFinal-guard e (inr (inl h)) = rw h (or_true _)
IsFinal-guard e (inr (inr (inl h))) = rw h refl
IsFinal-guard e (inr (inr (inr h))) = rw h (lacks (is_some e.code) (is_outcome_known e))
  where
    lacks : (a k : Bool) → (not (a && false) || k) ≡ true
    lacks true k = refl
    lacks false k = refl

settle-reports : (hash : Text) (w : Wait) (e : Thrown) → WaitFailed w e → settle hash w ≡ err e
unfolding settle wait_failed is_ethers_error
settle-reports hash w e (inl (answer, final)) =
    ap (settle hash) answer ∙ rw (IsFinal-guard e final) refl
settle-reports hash w e (inr (answer, same)) = ap (settle hash) answer ∙ ap err (sym same)

-- A transaction that was sent and then reverted, was replaced, ended without a receipt or failed by
-- an error that is none of ethers is reported as failed with that error, and its nonce is remembered.
pub store_root-reports :
    (tip_cap : Option ℕ) (last : Option LastSent) (a : SendAnswers) (wait : Text → Wait) (t : Sent)
    (e : Thrown)
    → attempt tip_cap last a ≡ ok t
    → WaitFailed (wait t.hash) e
    → store_root true tip_cap last a wait
      ≡ (err e, some (record { nonce = t.nonce; at = a.sent_at }))
unfolding store_root send_store_root
store_root-reports tip_cap last a wait t e sent failed =
    rw (sent, settle-reports t.hash (wait t.hash) e failed) refl
