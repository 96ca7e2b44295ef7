-- ===== src/Integrity/Verify/Detects.antt =====
-- Changed rows, and the reports of the checks about them.
use logchain.Prelude.{
  ℕ, suc, ◌≡◌, refl, sym, ap, ◌∙◌, Bool, true, false, not, ◌||◌, Option, none, some, List, [], ◌∷◌,
  ◌++◌, find, any, any-append, Text, codes, text_eq, text_eq_refl, text_eq_comm, is_empty, if_both,
  or_true, inl, inr, has_id, IsKeyed, or-false, In, In-other,
}
use logchain.Errors.{Result, ok, err}
use logchain.Entities.{Log, Batch, sealed, tampered, Db}
use logchain.LogHash.{Runtime}
use logchain.Merkle.{MerkleTree}
use logchain.Blockchain.Check.{CheckResult, matched, missing, mismatch, RootCheck, check_root}
use logchain.Integrity.State.{
  World, batch_key, mapped_to, logs_for_batch, with_batch, is_open, same_type,
}
use logchain.Integrity.Verify.{
  is_tamper_alert, has_tamper_alert, tamper_alert, raise_tamper_alert, is_status, verify_locally,
  verify_mismatch, on_result, on_check, modified_logs, recomputed_root, verify_batch, verify_each,
}
use logchain.Integrity.State.Rows.{batch_row, find-save_batch}
use logchain.Integrity.Verify.Frame.{Frame, Frame-refl, Frame-trans, verify_batch-Frame}
use logchain.Integrity.State.Pending.{logs_for_batch-cong}

-- The batch is marked, and an alert about it is open.
abbrev pub is_tampered_row : Option Batch → Bool
is_tampered_row none = false
is_tampered_row (some b) = is_status b.status tampered

abbrev pub IsReported : Text → Db → Type 0
IsReported i d = (is_tampered_row (batch_row i d) ≡ true) × (has_tamper_alert i d ≡ true)

raise-reports :
    (b : Batch) (r : Text) (oc : Option Text) (m : List Log) (d : Db)
    → (has_tamper_alert b.id (raise_tamper_alert b r oc m d) ≡ true)
      × ((raise_tamper_alert b r oc m d).batches ≡ d.batches)
unfolding raise_tamper_alert has_tamper_alert is_tamper_alert tamper_alert is_open same_type
raise-reports b r oc m d =
    if_both (λ (x : Db). (any (is_tamper_alert b.id) x.alerts ≡ true) × (x.batches ≡ d.batches))
      (any (is_tamper_alert b.id) d.alerts) _ _ (λ y. (y, refl))
      (λ n. (
        rw (
          any-append (is_tamper_alert b.id) d.alerts (tamper_alert b r oc m ∷ []),
          n,
          text_eq_refl b.id,
        ),
        refl,
      ))

marked :
    (b : Batch) (d : Db)
    → has_tamper_alert b.id d ≡ true
    → IsReported b.id (with_batch (record b { status = tampered }) d)
unfolding with_batch has_tamper_alert
marked b d h = (rw (find-save_batch (record b { status = tampered }) d.batches), h)

verify_mismatch-reports :
    (b : Batch) (r oc : Text) (m : List Log) (d : Db) → IsReported b.id (verify_mismatch b r oc m d)
unfolding verify_mismatch
verify_mismatch-reports b r oc m d =
    marked b (raise_tamper_alert b r (some oc) m d) (raise-reports b r (some oc) m d).0

module _ (b : Batch) (d : Db) (row : batch_row b.id d ≡ some b) where
  pub verify_locally-reports :
      (r : Text) (m : List Log)
      → (not (text_eq r (codes "0x" ++ b.merkle_root)) || not (is_empty m)) ≡ true
      → IsReported b.id (verify_locally b r m d)
  unfolding verify_locally
  verify_locally-reports r m h =
      let (alert, same) = raise-reports b r none m d in
      rw h (
        if_both (IsReported b.id) (is_status b.status tampered) _ _
          (λ y. (ap is_tampered_row (ap (find (λ c. text_eq c.id b.id)) same ∙ row) ∙ y, alert))
          (λ _. marked b (raise_tamper_alert b r none m d) alert))

  on_check-reports :
      (w : World) (r : Text) (m : List Log) (c : Result RootCheck)
      → is_empty m ≡ false
      → IsReported b.id (on_check w b r m c d)
  unfolding on_check on_result
  on_check-reports w r m (err e) h =
      verify_locally-reports r m (rw h (or_true (not (text_eq r (codes "0x" ++ b.merkle_root)))))
  on_check-reports w r m (ok c) h = go c.result
    where
      go : (v : CheckResult) → IsReported b.id (on_result w b r m c.on_chain_root v d)
      go mismatch = verify_mismatch-reports b r c.on_chain_root m d
      go missing = rw h (verify_mismatch-reports b r c.on_chain_root m d)
      go matched = rw h (verify_mismatch-reports b r c.on_chain_root m d)

  verify_batch-reports :
      (rt : Runtime) (lib : MerkleTree) (w : World)
      → is_empty (modified_logs rt (logs_for_batch b.id d)) ≡ false
      → IsReported b.id (verify_batch rt lib w b d)
  unfolding verify_batch
  verify_batch-reports rt lib w h =
      let logs = logs_for_batch b.id d in
      if_both (IsReported b.id) (is_status b.status sealed || not w.ready) _ _
        (λ _.
          verify_locally-reports (recomputed_root lib logs) (modified_logs rt logs) (
            rw h
              (or_true (not (text_eq (recomputed_root lib logs) (codes "0x" ++ b.merkle_root))))))
        (λ _.
          on_check-reports w (recomputed_root lib logs) (modified_logs rt logs)
            (check_root w.ready (w.get_root b.id) (recomputed_root lib logs)) h)

Frame-reports : (i : Text) (d e : Db) → Frame i d e → IsReported i d → IsReported i e
Frame-reports i d e f (r, a) = (ap is_tampered_row f.row ∙ r, f.alert ∙ a)

module _ (rt : Runtime) (lib : MerkleTree) where
  verify_each-Frame :
      (i : Text) (ws : ℕ → World) (bs : List Batch) (d : Db)
      → has_id batch_key i bs ≡ false
      → Frame i d (verify_each rt lib ws bs d)
  unfolding verify_each
  verify_each-Frame i ws [] d h = Frame-refl i d
  verify_each-Frame i ws (c ∷ bs) d h =
      let (ne, rest) = or-false (text_eq i c.id) (has_id batch_key i bs) h in
      Frame-trans i d (verify_batch rt lib (ws 0) c d) _
        (verify_batch-Frame i c (text_eq_comm c.id i ∙ ne) rt lib (ws 0) d)
        (verify_each-Frame i (λ n. ws (suc n)) bs (verify_batch rt lib (ws 0) c d) rest)

  pub verify_each-reports :
      (ws : ℕ → World) (b : Batch) (bs : List Batch) (d : Db)
      → In b bs
      → IsKeyed batch_key bs
      → batch_row b.id d ≡ some b
      → is_empty (modified_logs rt (logs_for_batch b.id d)) ≡ false
      → IsReported b.id (verify_each rt lib ws bs d)
  unfolding verify_each
  verify_each-reports ws b [] d m k row h = absurd m
  verify_each-reports ws b (c ∷ bs) d (inl same) k row h =
      let here : c.id ≡ b.id = ap (λ (x : Batch). x.id) same in
      Frame-reports b.id (verify_batch rt lib (ws 0) c d) _
        (verify_each-Frame b.id (λ n. ws (suc n)) bs (verify_batch rt lib (ws 0) c d)
          (rw (sym here) k.0))
        (rw same (verify_batch-reports b d row rt lib (ws 0) h))
  verify_each-reports ws b (c ∷ bs) d (inr m) k row h =
      let f = verify_batch-Frame b.id c (In-other batch_key c.id b bs m k.0) rt lib (ws 0) d in
      verify_each-reports (λ n. ws (suc n)) b bs (verify_batch rt lib (ws 0) c d) m k.1
        (f.row ∙ row)
        (rw
          (logs_for_batch-cong b.id (verify_batch rt lib (ws 0) c d) d f.logs
            (ap (mapped_to b.id) f.mappings))
          h)
