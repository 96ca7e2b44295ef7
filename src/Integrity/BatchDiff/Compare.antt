-- ===== src/Integrity/BatchDiff/Compare.antt =====
-- `diff` of BatchDiffService: the branches by which baseline there is.
use logchain.Prelude.{
  ℕ, suc, Bool, true, false, ◌&&◌, Option, none, some, List, [], ◌∷◌, ◌++◌, map, find, all, sort,
  length, Text, text_eq, option_eq, leb, is_empty, if◌then◌else◌,
}
use logchain.Entities.{Log, log_id, Batch, BatchLogSnapshot, Db}
use logchain.LogHash.{Runtime, recompute_content_leaf}
use logchain.Merkle.{MerkleTree}
use logchain.Integrity.State.{World}
use logchain.Integrity.BatchDiff.{
  content_modified, hash_modified, deleted, unmapped_or_inserted, content_hash_field, text, fields,
  BatchChange, Verdict, intact, tampered_verdict, unverifiable, UntrustedReason,
  snapshot_root_mismatch, snapshot_content_mismatch, not_anchored, Baseline, snapshot, raw_hash,
  none_known, TrustBasis, chain_basis, db_basis, Counts, Base, BatchDiff, root_of,
  anchored_on_chain, is_unverifiable, is_not_anchored, base_reference, base_of, snapshot_intact,
}
use logchain.Integrity.BatchDiff.Rows.{compare_logs, count, inserted_from}

module _ (b : Base) where
  -- The three roots are the reference.
  unfoldable pub roots_match : Bool
  unfolding base_reference
  roots_match =
      option_eq b.stored_hash_root (some (base_reference b))
      && option_eq b.content_root (some (base_reference b))
      && text_eq b.db_root (base_reference b)

  unfoldable pub verdict_of : Bool → Verdict
  unfolding is_unverifiable
  verdict_of matches =
      if matches then if is_unverifiable b then unverifiable else intact else tampered_verdict

  unfoldable pub trust_basis_of : TrustBasis
  unfolding anchored_on_chain
  trust_basis_of = if anchored_on_chain b.chain_root then chain_basis else db_basis

  -- Without a snapshot.
  unfoldable pub legacy_diff : BatchDiff
  unfolding roots_match verdict_of
  legacy_diff = record {
    base = b;
    snapshot_root = none;
    snapshot_trusted = none;
    trust_basis = none;
    untrusted_reasons = [];
    legacy = true;
    baseline = none_known;
    summary = record {
      verdict = verdict_of roots_match;
      snapshot_logs = 0;
      mapped_logs = length b.current;
      counts = none;
    };
    changes = [];
  }

  unfoldable pub content_change : Runtime → ℕ → Log → List BatchChange
  unfolding recompute_content_leaf
  content_change rt index l =
      let leaf = recompute_content_leaf rt l.hashed in
      if text_eq leaf l.raw_hash
      then []
      else record {
        position = index;
        log_id = log_id l;
        change_type = content_modified;
        detail = fields (
            record {
              field = content_hash_field;
              before = text (some l.raw_hash);
              after = text (some leaf);
            }
            ∷ []);
      }
        ∷ []

  -- The rows against their own raw hashes: the changes, and how many rows are unchanged.
  unfoldable pub content_changes : Runtime → ℕ → List Log → List BatchChange × ℕ
  unfolding content_change
  content_changes rt index [] = ([], 0)
  content_changes rt index (l ∷ rows) =
      let (changes, unchanged) = content_changes rt (suc index) rows in
      let found = content_change rt index l in
      (found ++ changes, if is_empty found then suc unchanged else unchanged)

  unfoldable pub untrusted :
      Text → List UntrustedReason → Baseline → Option Counts → List BatchChange → BatchDiff
  unfolding trust_basis_of
  untrusted root reasons baseline counts changes = record {
    base = b;
    snapshot_root = some root;
    snapshot_trusted = some false;
    trust_basis = some trust_basis_of;
    untrusted_reasons = reasons;
    legacy = false;
    baseline = baseline;
    summary = record {
      verdict = tampered_verdict;
      snapshot_logs = length b.snapshots;
      mapped_logs = length b.current;
      counts = counts;
    };
    changes = changes;
  }

  -- With a snapshot that is not to be trusted.
  unfoldable pub untrusted_diff : Runtime → Text → List UntrustedReason → BatchDiff
  unfolding untrusted content_changes
  untrusted_diff rt root reasons =
      if option_eq b.stored_hash_root (some (base_reference b))
      then (let (changes, unchanged) = content_changes rt 0 b.current in
          untrusted root reasons raw_hash
            (some (record {
              unchanged = unchanged;
              content_modified = length changes;
              hash_modified = 0;
              deleted = 0;
              unmapped_or_inserted = 0;
            }))
            changes)
      else untrusted root reasons none_known none []

  -- The changes of the trusted branch, in the order in which they are found.
  unfoldable pub found_changes : Runtime → Db → List BatchChange
  unfolding compare_logs inserted_from
  found_changes rt tables =
      (compare_logs rt tables b.current b.snapshots).0 ++ inserted_from rt b.snapshots 0 b.current

  unfoldable pub sorted_changes : Runtime → Db → List BatchChange
  unfolding sort found_changes
  sorted_changes rt tables =
      sort (λ (x y : BatchChange). leb x.position y.position) (found_changes rt tables)

  -- With a snapshot that is what was sealed.
  unfoldable pub trusted_diff : Runtime → Db → Text → BatchDiff
  unfolding sorted_changes compare_logs count roots_match verdict_of trust_basis_of
  trusted_diff rt tables root =
      let changes = sorted_changes rt tables in
      record {
        base = b;
        snapshot_root = some root;
        snapshot_trusted = some true;
        trust_basis = some trust_basis_of;
        untrusted_reasons = [];
        legacy = false;
        baseline = snapshot;
        summary = record {
          verdict = verdict_of (is_empty changes && roots_match);
          snapshot_logs = length b.snapshots;
          mapped_logs = length b.current;
          counts = some (record {
            unchanged = (compare_logs rt tables b.current b.snapshots).1;
            content_modified = count content_modified changes;
            hash_modified = count hash_modified changes;
            deleted = count deleted changes;
            unmapped_or_inserted = count unmapped_or_inserted changes;
          });
        };
        changes = changes;
      }

  -- `untrustedReasons` of a snapshot with this root.
  unfoldable pub snapshot_doubts : Runtime → Text → List UntrustedReason
  unfolding snapshot_intact
  snapshot_doubts rt root =
      (if text_eq root (base_reference b) then [] else snapshot_root_mismatch ∷ [])
      ++ (if all (snapshot_intact rt) b.snapshots then [] else snapshot_content_mismatch ∷ [])

  unfoldable pub snapshot_diff : Runtime → Db → Text → BatchDiff
  unfolding trusted_diff untrusted_diff snapshot_doubts
  snapshot_diff rt tables root =
      if is_empty (snapshot_doubts rt root)
      then trusted_diff rt tables root
      else untrusted_diff rt root (snapshot_doubts rt root)

  unfoldable pub diff_by : Runtime → Db → Option Text → BatchDiff
  unfolding legacy_diff snapshot_diff
  diff_by rt tables none = legacy_diff
  diff_by rt tables (some root) = snapshot_diff rt tables root

  -- `settle`
  unfoldable pub settle : BatchDiff → BatchDiff
  unfolding is_not_anchored
  settle d =
      if is_not_anchored b
      then record d {
        untrusted_reasons = d.untrusted_reasons ++ not_anchored ∷ [];
        summary = record d.summary { verdict = unverifiable };
      }
      else d

unfoldable pub diff_batch : Runtime → MerkleTree → Db → Base → BatchDiff
unfolding settle diff_by root_of
diff_batch rt lib tables b =
    settle b
      (diff_by b rt tables (root_of lib (map (λ (s : BatchLogSnapshot). s.raw_hash) b.snapshots)))

unfoldable pub diff_found :
    Runtime → MerkleTree → Option Text → World → Db → Option Batch → Option BatchDiff
unfolding diff_batch base_of
diff_found rt lib explorer w tables none = none
diff_found rt lib explorer w tables (some b) =
    some (diff_batch rt lib tables (base_of rt lib explorer w tables b))

-- `none` is NotFoundException.
unfoldable pub diff : Runtime → MerkleTree → Option Text → World → Text → Db → Option BatchDiff
unfolding diff_found
diff rt lib explorer w batch_id tables =
    diff_found rt lib explorer w tables (find (λ (b : Batch). text_eq b.id batch_id) tables.batches)
