-- ===== src/Integrity/Verify/Examples.antt =====
-- The theorems on verifying at concrete tables.
use logchain.Prelude.{
  ℕ, ◌≡◌, ◌≢◌, refl, sym, ◌∙◌, ap, not, ◌&&◌, has_id, In, Bool, true, false, Option, none, some,
  List, [], ◌∷◌, ◌++◌, map, Text, codes, text_eq, inl, inr, IsKeyed, length, is_empty, arith, ◌≤◌,
}
use logchain.Errors.{Result, ok, err}
use logchain.Entities.{Batch, unverified, confirmed, tampered, Db}
use logchain.LogHash.{
  Runtime, RawHashInput, HashedLog, compute_raw_hash, is_raw_hash_intact, canonical_json,
}
use logchain.LogHash.Laws.{SameEvidence}
use logchain.Merkle.{build_root}
use logchain.Blockchain.Check.{CheckResult, matched, mismatch, RootCheck, check_root}
use logchain.Integrity.State.{World, logs_for_batch, pending_logs}
use logchain.Integrity.State.Rows.{batch_row}
use logchain.Integrity.Verify.{
  verify_batch, verify_all_batches, has_tamper_alert, modified_logs, recomputed_root,
}
use logchain.Integrity.Verify.Detects.{IsReported}
use logchain.Integrity.Verify.Tampering.{verify_all_batches-reports_change}
use logchain.Integrity.Verify.Verdict.{
  row_has, IsAnchored, verify_batch-confirmed, verify_batch-clean,
}
use logchain.Integrity.Verify.Quiet.{IsQuiet, verify_batch-IsQuiet}
use logchain.Integrity.Fixture.{
  plain, flat, offline, online, two_roots, offline_batch, sealed_db, changed_row, changed_db,
  content_of, sent_batch, sent_db,
}

matched-ne-mismatch : matched ≢ mismatch
matched-ne-mismatch h = cc

sent_row : batch_row (codes "b1") sent_db ≡ some sent_batch
unfolding text_eq
sent_row = refl

sent_root : recomputed_root flat (logs_for_batch (codes "b1") sent_db) ≡ codes "0x" ++ two_roots
unfolding modified_logs pending_logs logs_for_batch is_raw_hash_intact compute_raw_hash check_root
    build_root verify_batch canonical_json text_eq logchain.Prelude.sort
    logchain.Prelude.starts_with logchain.LogHash.normalize_ip logchain.Json.hex4
sent_root = refl

sent_intact : is_empty (modified_logs plain (logs_for_batch (codes "b1") sent_db)) ≡ true
unfolding modified_logs pending_logs logs_for_batch is_raw_hash_intact compute_raw_hash check_root
    build_root verify_batch canonical_json text_eq logchain.Prelude.sort
    logchain.Prelude.starts_with logchain.LogHash.normalize_ip logchain.Json.hex4
sent_intact = refl

sent_answer :
    check_root true
      (ok (codes "0x" ++ two_roots))
      (recomputed_root flat (logs_for_batch (codes "b1") sent_db))
    ≡ ok (record { result = matched; on_chain_root = codes "0x" ++ two_roots })
unfolding modified_logs pending_logs logs_for_batch is_raw_hash_intact compute_raw_hash check_root
    build_root verify_batch canonical_json text_eq logchain.Prelude.sort
    logchain.Prelude.starts_with logchain.LogHash.normalize_ip logchain.Json.hex4
sent_answer = refl

sent_check :
    (k : RootCheck)
    → check_root true
        (ok (codes "0x" ++ two_roots))
        (recomputed_root flat (logs_for_batch (codes "b1") sent_db))
      ≡ ok k
    → k.result ≢ mismatch
sent_check k h e = matched-ne-mismatch (ap result_of (sym sent_answer ∙ h) ∙ e)
  where
    result_of : Result RootCheck → CheckResult
    result_of (ok c) = c.result
    result_of (err x) = matched

sent_confirmed :
    row_has confirmed (batch_row (codes "b1") (verify_batch plain flat online sent_batch sent_db))
    ≡ true
unfolding modified_logs pending_logs logs_for_batch is_raw_hash_intact compute_raw_hash check_root
    build_root verify_batch canonical_json text_eq logchain.Prelude.sort
    logchain.Prelude.starts_with logchain.LogHash.normalize_ip logchain.Json.hex4
sent_confirmed = refl

-- A chain that lost its roots, and a batch whose stored root is not the root of its logs.
abbrev forgetful : World
forgetful = record online { get_root = λ i. ok (codes "0x00") }

abbrev lost_batch : Batch
lost_batch = record offline_batch { status = tampered; merkle_root = codes "ff" }

abbrev lost_db : Db
lost_db = record sealed_db { batches = lost_batch ∷ [] }

-- The row of a tampered batch whose logs were changed as a set.
lost_run :
    row_has unverified
      (batch_row (codes "b1") (verify_batch plain flat forgetful lost_batch lost_db))
    ≡ true
unfolding verify_batch text_eq check_root logs_for_batch logchain.Prelude.sort is_raw_hash_intact
    logchain.LogHash.normalize_ip logchain.Json.hex4
lost_run = refl

plain_iso : (m n : ℕ) → plain.iso m ≡ plain.iso n → m ≡ n
plain_iso m n h = cc

changed_mine : In changed_row (logs_for_batch (codes "b1") changed_db)
unfolding modified_logs pending_logs logs_for_batch is_raw_hash_intact compute_raw_hash check_root
    build_root verify_batch canonical_json text_eq logchain.Prelude.sort
    logchain.Prelude.starts_with logchain.LogHash.normalize_ip logchain.Json.hex4
changed_mine = inl refl

changed_evidence : ¬ SameEvidence plain (content_of "l2" 1) changed_row.content
changed_evidence h = ground (arith, h.created_at)

verify_batch-IsQuiet_example :
    IsQuiet (codes "b1") sent_db (verify_batch plain flat online sent_batch sent_db)
verify_batch-IsQuiet_example =
    verify_batch-IsQuiet sent_batch sent_db sent_row refl plain flat online sent_root sent_intact
      sent_check

verify_batch-confirmed_example : IsAnchored plain flat online sent_batch sent_db
verify_batch-confirmed_example =
    verify_batch-confirmed plain flat online sent_batch sent_db sent_row refl sent_confirmed

verify_batch-clean_example :
    (row_has confirmed (batch_row (codes "b1") (verify_batch plain flat online sent_batch sent_db))
      ≡ true)
    × (has_tamper_alert (codes "b1") (verify_batch plain flat online sent_batch sent_db) ≡ false)
verify_batch-clean_example = verify_batch-clean plain flat online sent_batch sent_db sent_row refl (
  refl,
  (record { result = matched; on_chain_root = codes "0x" ++ two_roots }, sent_answer, refl),
  sent_intact,
)

verify_all_batches-reports_change_example :
    IsReported (codes "b1") (verify_all_batches plain flat (λ i. offline) changed_db)
verify_all_batches-reports_change_example =
    verify_all_batches-reports_change plain (λ s t h. h) plain_iso flat (λ i. offline) changed_db
      offline_batch (content_of "l2" 1) changed_row (refl, tt) (inl refl) refl changed_mine refl
      changed_evidence
