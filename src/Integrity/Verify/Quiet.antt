-- ===== src/Integrity/Verify/Quiet.antt =====
-- When a check raises nothing: clean batches, batches that were just sealed, and batches whose root
-- is not on the chain.
use logchain.Prelude.{
  ℕ, ◌≡◌, ◌≢◌, refl, sym, ap, subst, ◌∙◌, true, false, not, ◌||◌, Option, none, some, List, [],
  ◌++◌, Text, codes, text_eq_refl, is_empty, if_both, IsKeyed,
}
use logchain.Errors.{Result, ok, err}
use logchain.Entities.{
  Log, log_id, Batch, BatchStatus, SealReason, pending, sealed, unverified, confirmed, tampered,
  failed, Db,
}
use logchain.LogHash.{Runtime}
use logchain.Merkle.{MerkleTree, IsHexRoot}
use logchain.SealConfig.{SealConfig}
use logchain.Blockchain.Check.{CheckResult, matched, missing, mismatch, RootCheck, check_root}
use logchain.Integrity.State.{Service, World, pending_logs, mapped_to, logs_for_batch, with_batch}
use logchain.Integrity.State.Rows.{batch_row}
use logchain.Integrity.Seal.{SealOutcome, closed, seal_batch_now}
use logchain.Integrity.Seal.Batches.{seal_batch_now-covers}
use logchain.Integrity.Seal.Evidence.{Backed, OutcomeBacked, seal_batch_now-backed}
use logchain.Integrity.Seal.Row.{HasRow, seal_batch_now-HasRow}
use logchain.Integrity.Verify.{
  has_tamper_alert, is_status, is_truthy, verify_locally, verify_missing, on_result, on_check,
  modified_logs, recomputed_root, verify_batch,
}
use logchain.Integrity.Verify.Verdict.{row_has, saved, resolve-clears, verify_matched-clean, clash}

-- No alert about the batch is open that was not open before, and it is not marked as tampered.
abbrev pub IsQuiet : Text → Db → Db → Type 0
IsQuiet i d e =
    (row_has tampered (batch_row i e) ≡ false)
    × (has_tamper_alert i e ≡ true → has_tamper_alert i d ≡ true)

confirmed_row : (o : Option Batch) → row_has confirmed o ≡ true → row_has tampered o ≡ false
confirmed_row none h = refl
confirmed_row (some b) h = confirmed_status b.status h
  where
    confirmed_status :
        (v : BatchStatus) → is_status v confirmed ≡ true → is_status v tampered ≡ false
    confirmed_status pending h = refl
    confirmed_status sealed h = refl
    confirmed_status unverified h = refl
    confirmed_status confirmed h = refl
    confirmed_status tampered h = cc
    confirmed_status failed h = refl

not_failed : (b : Batch) → is_status b.status failed ≡ false → b.status ≢ failed
not_failed b h e = clash h (ap (λ v. is_status v failed) e)

-- One seal gives no batch the status TAMPERED.
never_tampered :
    (w : World) (i root : Text) (b : Batch) (o : SealOutcome)
    → o ≡ closed b
    → OutcomeBacked w i root o
    → is_status b.status tampered ≡ false
never_tampered w i root b o e h = backed_status b.status (subst (OutcomeBacked w i root) e h)
  where
    backed_status : (v : BatchStatus) → Backed w i root v → is_status v tampered ≡ false
    backed_status pending k = refl
    backed_status sealed k = refl
    backed_status unverified k = refl
    backed_status confirmed k = refl
    backed_status tampered k = absurd k
    backed_status failed k = refl

closed_row :
    (b : Batch) (o : SealOutcome) (d : Db) → o ≡ closed b → HasRow o d → batch_row b.id d ≡ some b
closed_row b o d e h = subst (λ x. HasRow x d) e h

module _ (b : Batch) (d : Db) (row : batch_row b.id d ≡ some b)
    (clean : is_status b.status tampered ≡ false) where
  unchanged : IsQuiet b.id d d
  unchanged = (ap (row_has tampered) row ∙ clean, λ h. h)

  verify_locally-IsQuiet :
      (r : Text) (m : List Log)
      → r ≡ codes "0x" ++ b.merkle_root
      → is_empty m ≡ true
      → IsQuiet b.id d (verify_locally b r m d)
  unfolding verify_locally
  verify_locally-IsQuiet r m same h =
      rw (same, text_eq_refl (codes "0x" ++ b.merkle_root), h, clean)
        (if_both (IsQuiet b.id d) (is_truthy b.tx_hash) _ _ (λ _. unchanged)
          (λ _.
            let (cleared, kept) = resolve-clears b d in
            (ap (row_has tampered) kept ∙ unchanged.0, λ k. absurd (clash cleared k))))

  on_check-IsQuiet :
      (w : World) (r : Text) (m : List Log) (c : Result RootCheck)
      → r ≡ codes "0x" ++ b.merkle_root
      → is_empty m ≡ true
      → ((k : RootCheck) → c ≡ ok k → k.result ≢ mismatch)
      → IsQuiet b.id d (on_check w b r m c d)
  unfolding on_check on_result verify_missing with_batch has_tamper_alert
  on_check-IsQuiet w r m (err e) same h ne = verify_locally-IsQuiet r m same h
  on_check-IsQuiet w r m (ok k) same h ne = go k.result refl
    where
      go : (v : CheckResult) → k.result ≡ v → IsQuiet b.id d (on_result w b r m k.on_chain_root v d)
      go mismatch e = absurd (ne k refl e)
      go missing e = rw h (
          if_both (IsQuiet b.id d) (is_status b.status unverified) _ _ (λ _. unchanged)
            (λ _. (
              ap (row_has tampered) (saved b.id (record b { status = unverified }) d refl),
              λ a. a,
            )))
      go matched e =
          let (up, cleared) = verify_matched-clean w b d row in
          rw h (confirmed_row _ up, λ a. absurd (clash cleared a))

  -- A check of a batch whose row is in the table and is not marked, whose root is still the stored
  -- one and whose rows match their raw hashes, neither marks the batch nor opens an alert, unless
  -- the chain holds another root for it.
  pub verify_batch-IsQuiet :
      (rt : Runtime) (lib : MerkleTree) (w : World)
      → recomputed_root lib (logs_for_batch b.id d) ≡ codes "0x" ++ b.merkle_root
      → is_empty (modified_logs rt (logs_for_batch b.id d)) ≡ true
      → ((k : RootCheck)
          → check_root w.ready (w.get_root b.id) (recomputed_root lib (logs_for_batch b.id d))
            ≡ ok k
          → k.result ≢ mismatch)
      → IsQuiet b.id d (verify_batch rt lib w b d)
  unfolding verify_batch
  verify_batch-IsQuiet rt lib w same h ne =
      let logs = logs_for_batch b.id d in
      if_both (IsQuiet b.id d) (is_status b.status sealed || not w.ready) _ _
        (λ _. verify_locally-IsQuiet (recomputed_root lib logs) (modified_logs rt logs) same h)
        (λ _. on_check-IsQuiet w (recomputed_root lib logs) (modified_logs rt logs) _ same h ne)

-- Sealing and then verifying raises no false alarm. Where log ids are unique, the id of the new
-- batch has no mapping yet, and the pending logs match their raw hashes: a check right after the
-- seal leaves the new batch, if it did not fail, unmarked and without a new alert, in every state of
-- the chain but one that holds another root under its id.
pub seal_batch_now-verified :
    (rt : Runtime) (lib : MerkleTree) (hex : IsHexRoot lib) (reason : SealReason) (w : World)
    (cfg : SealConfig) (cutoff : Option ℕ) (s : Service)
    → IsKeyed log_id s.logs
    → mapped_to w.new_id s.mappings ≡ []
    → is_empty (modified_logs rt (pending_logs cfg.batch_size cutoff s.db)) ≡ true
    → (b : Batch) → (seal_batch_now rt lib reason w cfg cutoff s).0 ≡ closed b
    → is_status b.status failed ≡ false
    → (later : World)
    → ((k : RootCheck)
        → check_root later.ready (later.get_root b.id) (codes "0x" ++ b.merkle_root) ≡ ok k
        → k.result ≢ mismatch)
    → IsQuiet b.id
        (seal_batch_now rt lib reason w cfg cutoff s).1.db
        (verify_batch rt lib later b (seal_batch_now rt lib reason w cfg cutoff s).1.db)
seal_batch_now-verified rt lib hex reason w cfg cutoff s keyed fresh intact b o nf later ne =
    let d = (seal_batch_now rt lib reason w cfg cutoff s).1.db in
    let (mine, count, root) =
      seal_batch_now-covers rt lib hex reason w cfg cutoff s keyed fresh b o (not_failed b nf) in
    verify_batch-IsQuiet b d
      (closed_row b _ d o (seal_batch_now-HasRow rt lib reason w cfg cutoff s))
      (never_tampered w w.new_id _ b _ o (seal_batch_now-backed rt lib reason w cfg cutoff s)) rt
      lib later root (ap (λ ls. is_empty (modified_logs rt ls)) mine ∙ intact)
      (λ k e. ne k (ap (check_root later.ready (later.get_root b.id)) (sym root) ∙ e))
