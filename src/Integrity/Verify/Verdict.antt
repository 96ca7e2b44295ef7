-- ===== src/Integrity/Verify/Verdict.antt =====
-- What a verdict other than tampering rests on.
use logchain.Prelude.{
  ℕ, ◌≡◌, refl, sym, ap, subst, ◌∙◌, Bool, true, false, not, ◌||◌, Option, none, some, List, [],
  ◌∷◌, ◌++◌, map, any, Text, codes, text_eq, is_some, is_empty, if◌then◌else◌, if_both, Bool-cases,
  inl, inr, arith,
}
use logchain.Errors.{Result, ok, err}
use logchain.Entities.{
  Log, Batch, BatchStatus, sealed, unverified, confirmed, tampered, Alert, resolved, Db,
}
use logchain.LogHash.{Runtime}
use logchain.Merkle.{MerkleTree}
use logchain.Blockchain.Check.{CheckResult, matched, missing, mismatch, RootCheck, check_root}
use logchain.Integrity.State.{World, logs_for_batch, with_batch, is_open}
use logchain.Integrity.Verify.{
  is_tamper_alert, has_tamper_alert, raise_tamper_alert, resolve_if, resolve_tamper_alerts,
  is_status, is_truthy, with_gas, fill_gas_from_receipt, verify_locally, verify_mismatch,
  verify_missing, reverified, verify_matched, on_result, on_check, modified_logs, recomputed_root,
  verify_batch,
}
use logchain.Integrity.State.Rows.{batch_row, find-save_batch}
use logchain.Integrity.Verify.Frame.{reverified-id}

abbrev pub row_has : BatchStatus → Option Batch → Bool
row_has v none = false
row_has v (some b) = is_status b.status v

-- The chain holds the root computed from the rows, and every row matches its own raw hash.
abbrev pub IsAnchored : Runtime → MerkleTree → World → Batch → Db → Type 0
IsAnchored rt lib w b d =
    (w.ready ≡ true)
    × ((c : RootCheck) × (check_root w.ready (w.get_root b.id)
            (recomputed_root lib (logs_for_batch b.id d))
          ≡ ok c)
        × (c.result ≡ matched))
    × (is_empty (modified_logs rt (logs_for_batch b.id d)) ≡ true)

pub saved : (i : Text) (b : Batch) (d : Db) → b.id ≡ i → batch_row i (with_batch b d) ≡ some b
unfolding with_batch
saved i b d h = subst (λ j. batch_row j (with_batch b d) ≡ some b) h (find-save_batch b d.batches)

pub clash : {x : Bool} → x ≡ false → x ≡ true → ⊥
clash h k = cc

pub not_local : (a r : Bool) → a ≡ false → r ≡ true → (a || not r) ≡ true → ⊥
not_local a r h k l = cc (rw (h, k) at l)

pub is_ready : (a r : Bool) → (a || not r) ≡ false → r ≡ true
is_ready a r h = ground arith

no_longer : (i : Text) (a : Alert) → is_tamper_alert i (record a { status = resolved }) ≡ false
unfolding is_tamper_alert is_open
no_longer i a = ground arith

resolve_if_closed :
    (i : Text) (xs : List Alert) → any (is_tamper_alert i) (map (resolve_if i) xs) ≡ false
unfolding resolve_if
resolve_if_closed i [] = refl
resolve_if_closed i (a ∷ xs) = elim (Bool-cases (is_tamper_alert i a)) [
  | inl y ↦ rw (y, no_longer i a) (resolve_if_closed i xs)
  | inr n ↦ rw (n, n) (resolve_if_closed i xs)
]

-- No alert about the batch is open afterwards, and its row is as it was.
pub resolve-clears :
    (b : Batch) (d : Db)
    → (has_tamper_alert b.id (resolve_tamper_alerts b d) ≡ false)
      × (batch_row b.id (resolve_tamper_alerts b d) ≡ batch_row b.id d)
unfolding resolve_tamper_alerts has_tamper_alert
resolve-clears b d = (resolve_if_closed b.id d.alerts, refl)

raise-row :
    (i : Text) (b : Batch) (r : Text) (oc : Option Text) (m : List Log) (d : Db)
    → batch_row i (raise_tamper_alert b r oc m d) ≡ batch_row i d
unfolding raise_tamper_alert
raise-row i b r oc m d =
    if_both (λ x. batch_row i x ≡ batch_row i d) (has_tamper_alert b.id d) _ _ (λ _. refl)
      (λ _. refl)

with_gas-status : (b : Batch) (r : Result (Option (ℕ × ℕ))) → (with_gas b r).status ≡ b.status
unfolding with_gas
with_gas-status b (err e) = refl
with_gas-status b (ok none) = refl
with_gas-status b (ok (some (used, price))) = refl

fill_gas-status :
    (w : World) (hash : Option Text) (b : Batch)
    → (fill_gas_from_receipt w hash b).status ≡ b.status
unfolding fill_gas_from_receipt
fill_gas-status w none b = refl
fill_gas-status w (some hash) b =
    if_both (λ (c : Batch). c.status ≡ b.status) (not (is_truthy (some hash)) || is_some b.gas_used)
      _ _ (λ _. refl) (λ _. with_gas-status b (w.get_tx_gas hash))

reverified-status : (w : World) (b : Batch) → (reverified w b).status ≡ confirmed
unfolding reverified
reverified-status w b =
    if_both (λ (c : Batch). c.status ≡ confirmed) (is_status b.status unverified) _ _
      (λ _. fill_gas-status w b.tx_hash (record b { status = confirmed })) (λ _. refl)

-- After a check that matched, the batch is confirmed and no alert about it is open.
pub verify_matched-clean :
    (w : World) (b : Batch) (d : Db)
    → batch_row b.id d ≡ some b
    → (row_has confirmed (batch_row b.id (verify_matched w b d)) ≡ true)
      × (has_tamper_alert b.id (verify_matched w b d) ≡ false)
unfolding verify_matched
verify_matched-clean w b d row =
    let d' = if is_status b.status confirmed then d else with_batch (reverified w b) d in
    let (cleared, same) = resolve-clears b d' in
    (
      ap (row_has confirmed) same
          ∙ if_both (λ (x : Db). row_has confirmed (batch_row b.id x) ≡ true)
              (is_status b.status confirmed) _ _ (λ y. ap (row_has confirmed) row ∙ y)
              (λ _.
                ap (row_has confirmed) (saved b.id (reverified w b) d (reverified-id w b))
                ∙ ap (λ v. is_status v confirmed) (reverified-status w b)),
      cleared,
    )

module _ (b : Batch) (d : Db) (row : batch_row b.id d ≡ some b)
    (before : is_status b.status confirmed ≡ false) where
  abbrev NotConfirmed : Db → Type 0
  NotConfirmed e = row_has confirmed (batch_row b.id e) ≡ false

  marked-NotConfirmed :
      (v : BatchStatus) (e : Db)
      → is_status v confirmed ≡ false
      → NotConfirmed (with_batch (record b { status = v }) e)
  marked-NotConfirmed v e h =
      ap (row_has confirmed) (saved b.id (record b { status = v }) e refl) ∙ h

  verify_locally-NotConfirmed : (r : Text) (m : List Log) → NotConfirmed (verify_locally b r m d)
  unfolding verify_locally
  verify_locally-NotConfirmed r m =
      if_both NotConfirmed (not (text_eq r (codes "0x" ++ b.merkle_root)) || not (is_empty m)) _ _
        (λ _.
          if_both NotConfirmed (is_status b.status tampered) _ _
            (λ _. ap (row_has confirmed) (raise-row b.id b r none m d ∙ row) ∙ before)
            (λ _. marked-NotConfirmed tampered (raise_tamper_alert b r none m d) refl))
        (λ _.
          if_both NotConfirmed (is_truthy b.tx_hash) _ _ (λ _. ap (row_has confirmed) row ∙ before)
            (λ _.
              ap (row_has confirmed)
                (resolve-clears b (
                  if is_status b.status tampered
                  then with_batch (record b { status = sealed }) d
                  else d)).1
              ∙ if_both NotConfirmed (is_status b.status tampered) _ _
                  (λ _. marked-NotConfirmed sealed d refl)
                  (λ _. ap (row_has confirmed) row ∙ before)))

  on_check-confirmed :
      (w : World) (r : Text) (m : List Log) (c : Result RootCheck)
      → row_has confirmed (batch_row b.id (on_check w b r m c d)) ≡ true
      → ((k : RootCheck) × (c ≡ ok k) × (k.result ≡ matched)) × (is_empty m ≡ true)
  unfolding on_check on_result verify_mismatch verify_missing
  on_check-confirmed w r m (err e) h = cc (verify_locally-NotConfirmed r m)
  on_check-confirmed w r m (ok k) h = go k.result refl h
    where
      spoilt : (oc : Text) → NotConfirmed (verify_mismatch b r oc m d)
      spoilt oc = marked-NotConfirmed tampered (raise_tamper_alert b r (some oc) m d) refl

      absent : NotConfirmed (verify_missing b d)
      absent =
          if_both NotConfirmed (is_status b.status unverified) _ _
            (λ _. ap (row_has confirmed) row ∙ before) (λ _. marked-NotConfirmed unverified d refl)

      go :
          (v : CheckResult)
          → k.result ≡ v
          → row_has confirmed (batch_row b.id (on_result w b r m k.on_chain_root v d)) ≡ true
          → ((k' : RootCheck) × (ok k ≡ ok k') × (k'.result ≡ matched)) × (is_empty m ≡ true)
      go mismatch e h = cc (spoilt k.on_chain_root)
      go missing e h = absurd (
          clash (if_both NotConfirmed (is_empty m) _ _ (λ _. absent) (λ _. spoilt k.on_chain_root))
            h)
      go matched e h = elim (Bool-cases (is_empty m)) [
        | inl y ↦ ((k, refl, e), y)
        | inr n ↦ absurd (clash (spoilt k.on_chain_root) (rw n at h))
      ]

-- A check makes a batch, whose row is in the table and was not CONFIRMED, CONFIRMED only where the
-- chain holds the root that was computed from the current rows and every row matches its own raw
-- hash.
pub verify_batch-confirmed :
    (rt : Runtime) (lib : MerkleTree) (w : World) (b : Batch) (d : Db)
    → batch_row b.id d ≡ some b
    → is_status b.status confirmed ≡ false
    → row_has confirmed (batch_row b.id (verify_batch rt lib w b d)) ≡ true
    → IsAnchored rt lib w b d
unfolding verify_batch
verify_batch-confirmed rt lib w b d row before =
    let logs = logs_for_batch b.id d in
    if_both (λ (x : Db). row_has confirmed (batch_row b.id x) ≡ true → IsAnchored rt lib w b d)
      (is_status b.status sealed || not w.ready) _ _
      (λ _ h. absurd (
        clash
          (verify_locally-NotConfirmed b d row before (recomputed_root lib logs)
            (modified_logs rt logs))
          h))
      (λ up h.
        let (k, m) =
          on_check-confirmed b d row before w (recomputed_root lib logs) (modified_logs rt logs)
            (check_root w.ready (w.get_root b.id) (recomputed_root lib logs)) h in
        (is_ready (is_status b.status sealed) w.ready up, k, m))

on_check-matched :
    (w : World) (b : Batch) (r : Text) (m : List Log) (c : Result RootCheck) (k : RootCheck)
    (d : Db)
    → c ≡ ok k
    → k.result ≡ matched
    → is_empty m ≡ true
    → on_check w b r m c d ≡ verify_matched w b d
unfolding on_check on_result
on_check-matched w b r m c k d e v h =
    ap (λ x. on_check w b r m x d) e ∙ ap (λ x. on_result w b r m k.on_chain_root x d) v ∙ rw h

-- Where the chain holds the root of the current rows and every row matches its raw hash, a check
-- leaves a batch whose row is in the table and is not SEALED as CONFIRMED and without an open alert,
-- also where it had been reported before.
pub verify_batch-clean :
    (rt : Runtime) (lib : MerkleTree) (w : World) (b : Batch) (d : Db)
    → batch_row b.id d ≡ some b
    → is_status b.status sealed ≡ false
    → IsAnchored rt lib w b d
    → (row_has confirmed (batch_row b.id (verify_batch rt lib w b d)) ≡ true)
      × (has_tamper_alert b.id (verify_batch rt lib w b d) ≡ false)
unfolding verify_batch
verify_batch-clean rt lib w b d row s (up, (k, e, r), m) =
    let logs = logs_for_batch b.id d in
    if_both
      (λ (x : Db).
        (row_has confirmed (batch_row b.id x) ≡ true) × (has_tamper_alert b.id x ≡ false))
      (is_status b.status sealed || not w.ready) _ _
      (λ y. absurd (not_local (is_status b.status sealed) w.ready s up y))
      (λ _.
        subst
          (λ (x : Db).
            (row_has confirmed (batch_row b.id x) ≡ true) × (has_tamper_alert b.id x ≡ false))
          (sym
            (on_check-matched w b (recomputed_root lib logs) (modified_logs rt logs) _ k d e r m))
          (verify_matched-clean w b d row))
