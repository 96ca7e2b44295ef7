-- ===== src/Integrity/Verify/Frame.antt =====
-- What the check of one batch leaves alone.
use logchain.Prelude.{
  ℕ, ◌≡◌, refl, ap, ◌∙◌, Bool, true, false, not, ◌&&◌, ◌||◌, Option, none, some, List, [], ◌∷◌,
  ◌++◌, map, find, any, any-append, Text, codes, text_eq, text_eq-eq, is_some, is_empty, if_both,
  Bool-cases, inl, inr,
}
use logchain.Errors.{Result, ok, err}
use logchain.Entities.{
  Log, Batch, sealed, unverified, confirmed, tampered, Alert, integrity_tampered, Db,
}
use logchain.LogHash.{Runtime}
use logchain.Merkle.{MerkleTree}
use logchain.Blockchain.Check.{CheckResult, matched, missing, mismatch, RootCheck, check_root}
use logchain.Integrity.State.{
  World, logs_for_batch, with_batch, save_batch, same_type, is_open, id_is,
}
use logchain.Integrity.State.Rows.{batch_row}
use logchain.Integrity.Verify.{
  is_tamper_alert, has_tamper_alert, tamper_alert, raise_tamper_alert, resolve_if,
  resolve_tamper_alerts, is_status, is_truthy, with_gas, fill_gas_from_receipt, verify_locally,
  verify_mismatch, verify_missing, reverified, verify_matched, on_result, on_check, modified_logs,
  recomputed_root, verify_batch,
}

or-right_false : (a : Bool) → (a || false) ≡ a
or-right_false true = refl
or-right_false false = refl

find-save_batch_other :
    (i : Text) (b : Batch) (bs : List Batch)
    → text_eq b.id i ≡ false
    → find (λ c. text_eq c.id i) (save_batch b bs) ≡ find (λ c. text_eq c.id i) bs
unfolding save_batch
find-save_batch_other i b [] h = rw h
find-save_batch_other i b (c ∷ bs) h = elim (Bool-cases (text_eq c.id b.id)) [
  | inl y ↦ let same : text_eq c.id i ≡ false = rw (text_eq-eq c.id b.id y) h in rw (y, h, same)
  | inr n ↦ rw (n, find-save_batch_other i b bs h)
]

-- The logs of all batches, and the row and the tamper alerts of the batch `i`, are as before.
pub record Frame (i : Text) (d e : Db) : Type 0 where
  pub logs : e.logs ≡ d.logs
  pub mappings : e.mappings ≡ d.mappings
  pub row : batch_row i e ≡ batch_row i d
  pub alert : has_tamper_alert i e ≡ has_tamper_alert i d

pub Frame-refl : (i : Text) (d : Db) → Frame i d d
Frame-refl i d = record { logs = refl; mappings = refl; row = refl; alert = refl }

pub Frame-trans : (i : Text) (c d e : Db) → Frame i c d → Frame i d e → Frame i c e
Frame-trans i c d e f g = record {
  logs = g.logs ∙ f.logs;
  mappings = g.mappings ∙ f.mappings;
  row = g.row ∙ f.row;
  alert = g.alert ∙ f.alert;
}

with_gas-id : (b : Batch) (r : Result (Option (ℕ × ℕ))) → (with_gas b r).id ≡ b.id
unfolding with_gas
with_gas-id b (err e) = refl
with_gas-id b (ok none) = refl
with_gas-id b (ok (some (used, price))) = refl

fill_gas-id :
    (w : World) (hash : Option Text) (b : Batch) → (fill_gas_from_receipt w hash b).id ≡ b.id
unfolding fill_gas_from_receipt
fill_gas-id w none b = refl
fill_gas-id w (some hash) b =
    if_both (λ (c : Batch). c.id ≡ b.id) (not (is_truthy (some hash)) || is_some b.gas_used) _ _
      (λ _. refl) (λ _. with_gas-id b (w.get_tx_gas hash))

pub reverified-id : (w : World) (b : Batch) → (reverified w b).id ≡ b.id
unfolding reverified
reverified-id w b =
    if_both (λ (c : Batch). c.id ≡ b.id) (is_status b.status unverified) _ _
      (λ _. fill_gas-id w b.tx_hash (record b { status = confirmed })) (λ _. refl)

-- For another batch than the one that is checked.
module _ (i : Text) (b : Batch) (other : text_eq b.id i ≡ false) where
  with_batch-Frame : (c : Batch) (d : Db) → c.id ≡ b.id → Frame i d (with_batch c d)
  unfolding with_batch has_tamper_alert
  with_batch-Frame c d h = record {
    logs = refl;
    mappings = refl;
    alert = refl;
    row = find-save_batch_other i c d.batches (ap (λ j. text_eq j i) h ∙ other);
  }

  raise-Frame :
      (r : Text) (oc : Option Text) (m : List Log) (d : Db)
      → Frame i d (raise_tamper_alert b r oc m d)
  unfolding raise_tamper_alert has_tamper_alert is_tamper_alert tamper_alert
  raise-Frame r oc m d =
      if_both (Frame i d) (has_tamper_alert b.id d) _ _ (λ _. Frame-refl i d)
        (λ _. record {
          logs = refl;
          mappings = refl;
          row = refl;
          alert =
              rw (any-append (is_tamper_alert i) d.alerts (tamper_alert b r oc m ∷ []), other)
                (or-right_false (any (is_tamper_alert i) d.alerts));
        })

  id_is_other : (o : Option Text) → id_is o b.id ≡ true → id_is o i ≡ false
  id_is_other none h = refl
  id_is_other (some j) h = ap (λ k. text_eq k i) (text_eq-eq j b.id h) ∙ other

  resolve_if_other : (a : Alert) → is_tamper_alert i (resolve_if b.id a) ≡ is_tamper_alert i a
  unfolding resolve_if is_tamper_alert
  resolve_if_other a = elim (Bool-cases (id_is a.batch_id b.id)) [
    | inl y ↦
        let n = id_is_other a.batch_id y in
        if_both
          (λ (x : Alert).
            (id_is x.batch_id i && same_type x.alert_type integrity_tampered && is_open x.status)
            ≡ (id_is a.batch_id i && same_type a.alert_type integrity_tampered && is_open a.status))
          (id_is a.batch_id b.id && same_type a.alert_type integrity_tampered && is_open a.status) _
          _ (λ _. rw n) (λ _. refl)
    | inr n ↦ rw n
  ]

  same_alert :
      (xs : List Alert)
      → any (is_tamper_alert i) (map (resolve_if b.id) xs) ≡ any (is_tamper_alert i) xs
  same_alert [] = refl
  same_alert (a ∷ xs) = rw (resolve_if_other a, same_alert xs)

  resolve-Frame : (d : Db) → Frame i d (resolve_tamper_alerts b d)
  unfolding resolve_tamper_alerts has_tamper_alert
  resolve-Frame d = record { logs = refl; mappings = refl; row = refl; alert = same_alert d.alerts }

  verify_locally-Frame : (r : Text) (m : List Log) (d : Db) → Frame i d (verify_locally b r m d)
  unfolding verify_locally
  verify_locally-Frame r m d =
      if_both (Frame i d) (not (text_eq r (codes "0x" ++ b.merkle_root)) || not (is_empty m)) _ _
        (λ _. Frame-trans i _ _ _ (raise-Frame r none m d) (
          if_both (Frame i (raise_tamper_alert b r none m d)) (is_status b.status tampered) _ _
            (λ _. Frame-refl i _) (λ _. with_batch-Frame _ _ refl)))
        (λ _.
          if_both (Frame i d) (is_truthy b.tx_hash) _ _ (λ _. Frame-refl i d)
            (λ _.
              Frame-trans i _ _ _
                (if_both (Frame i d) (is_status b.status tampered) _ _
                  (λ _. with_batch-Frame _ _ refl) (λ _. Frame-refl i d))
                (resolve-Frame _)))

  verify_mismatch-Frame :
      (r oc : Text) (m : List Log) (d : Db) → Frame i d (verify_mismatch b r oc m d)
  unfolding verify_mismatch
  verify_mismatch-Frame r oc m d =
      Frame-trans i _ _ _ (raise-Frame r (some oc) m d) (with_batch-Frame _ _ refl)

  verify_missing-Frame : (d : Db) → Frame i d (verify_missing b d)
  unfolding verify_missing
  verify_missing-Frame d =
      if_both (Frame i d) (is_status b.status unverified) _ _ (λ _. Frame-refl i d)
        (λ _. with_batch-Frame _ _ refl)

  verify_matched-Frame : (w : World) (d : Db) → Frame i d (verify_matched w b d)
  unfolding verify_matched
  verify_matched-Frame w d =
      Frame-trans i _ _ _
        (if_both (Frame i d) (is_status b.status confirmed) _ _ (λ _. Frame-refl i d)
          (λ _. with_batch-Frame (reverified w b) d (reverified-id w b)))
        (resolve-Frame _)

  on_check-Frame :
      (w : World) (r : Text) (m : List Log) (c : Result RootCheck) (d : Db)
      → Frame i d (on_check w b r m c d)
  unfolding on_check on_result
  on_check-Frame w r m (err e) d = verify_locally-Frame r m d
  on_check-Frame w r m (ok c) d = go c.result
    where
      go : (v : CheckResult) → Frame i d (on_result w b r m c.on_chain_root v d)
      go mismatch = verify_mismatch-Frame r c.on_chain_root m d
      go missing =
          if_both (Frame i d) (is_empty m) _ _ (λ _. verify_missing-Frame d)
            (λ _. verify_mismatch-Frame r c.on_chain_root m d)
      go matched =
          if_both (Frame i d) (is_empty m) _ _ (λ _. verify_matched-Frame w d)
            (λ _. verify_mismatch-Frame r c.on_chain_root m d)

  pub verify_batch-Frame :
      (rt : Runtime) (lib : MerkleTree) (w : World) (d : Db) → Frame i d (verify_batch rt lib w b d)
  unfolding verify_batch
  verify_batch-Frame rt lib w d =
      if_both (Frame i d) (is_status b.status sealed || not w.ready) _ _
        (λ _.
          verify_locally-Frame (recomputed_root lib (logs_for_batch b.id d))
            (modified_logs rt (logs_for_batch b.id d)) d)
        (λ _.
          on_check-Frame w (recomputed_root lib (logs_for_batch b.id d))
            (modified_logs rt (logs_for_batch b.id d))
            (check_root w.ready (w.get_root b.id) (recomputed_root lib (logs_for_batch b.id d))) d)
