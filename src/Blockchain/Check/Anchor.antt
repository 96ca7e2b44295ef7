-- ===== src/Blockchain/Check/Anchor.antt =====
-- What `checkRoot` says of a root that was anchored in the contract, then and ever after.
use logchain.Prelude.{
  ℕ, ◌≡◌, ◌≢◌, sym, ap, ◌∙◌, true, false, Text, text_eq, text_eq_refl, if◌then◌else◌,
}
use logchain.Errors.{ok}
use logchain.LogHash.{to_lower}
use logchain.Contract
use logchain.Contract.{LogIntegrity, zero_root, done, Reach, update}
use logchain.Contract.Immutable.{Reach-root, store_root-done}
use logchain.Blockchain.Check.{
  CheckResult, matched, mismatch, with_prefix, is_unset_root, check_root,
}

abbrev verdict : Text → Text → CheckResult
verdict anchored root =
    if text_eq (to_lower anchored) (to_lower (with_prefix root)) then matched else mismatch

check_root-set :
    (anchored root : Text)
    → is_unset_root anchored ≡ false
    → check_root true (ok anchored) root
      ≡ ok (record { result = verdict anchored root; on_chain_root = anchored })
unfolding check_root
check_root-set anchored root h = rw h

stored_root :
    (sender batch anchored : Text) (now : ℕ) (c d : LogIntegrity)
    → Contract.store_root sender batch anchored now c ≡ done d
    → d.roots batch ≡ anchored
unfolding update
stored_root sender batch anchored now c d h =
    let (auth, free, new) = store_root-done sender batch anchored now c d h in
    rw (new, text_eq_refl batch)

-- After a root that is not zero was stored for a batch, in every later state of the contract,
-- whoever calls it, `checkRoot` of a connected service reports a match for exactly the roots that
-- are spelled like it up to case and prefix, and a mismatch for all others. It never reports the
-- root as missing.
pub check_root-anchored :
    (sender batch anchored : Text) (now : ℕ) (c d e : LogIntegrity)
    → is_unset_root anchored ≡ false
    → Contract.store_root sender batch anchored now c ≡ done d
    → Reach d e
    → (root : Text)
    → check_root true (ok (Contract.get_root batch e).0) root
      ≡ ok (record {
        result =
            if text_eq (to_lower anchored) (to_lower (with_prefix root)) then matched else mismatch;
        on_chain_root = anchored;
      })
unfolding Contract.get_root is_unset_root
check_root-anchored sender batch anchored now c d e set h r root =
    let at_store = stored_root sender batch anchored now c d h in
    let nonzero : anchored ≢ zero_root = λ z. cc (ap is_unset_root z) in
    let still : e.roots batch ≡ anchored =
      Reach-root batch d e (λ z. nonzero (sym at_store ∙ z)) r ∙ at_store in
    rw still (check_root-set anchored root set)
