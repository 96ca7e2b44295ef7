-- ===== src/Integrity/BatchDiff/Counting.antt =====
-- How the counts of a diff add up.
use logchain.Prelude.{
  ℕ, ◌+◌, ◌≡◌, refl, ◌∙◌, Option, none, some, List, [], ◌∷◌, ◌++◌, map, sort, length, length-append,
  length-sort, Text, is_empty, if_both, some-inj, arith, leb, option_eq, subst,
}
use logchain.Entities.{Batch, BatchLogSnapshot, Db}
use logchain.LogHash.{Runtime}
use logchain.Merkle.{MerkleTree}
use logchain.Integrity.State.{World}
use logchain.Integrity.BatchDiff.{
  ChangeType, content_modified, hash_modified, deleted, unmapped_or_inserted, BatchChange, Baseline,
  snapshot, raw_hash, none_known, Counts, Base, BatchDiff, is_not_anchored, not_anchored,
  unverifiable, UntrustedReason, root_of, base_of, base_reference,
}
use logchain.Integrity.BatchDiff.Rows.{count, compare_logs, inserted_from}
use logchain.Integrity.BatchDiff.Compare.{
  found_changes, sorted_changes, legacy_diff, trusted_diff, untrusted_diff, untrusted,
  snapshot_diff, snapshot_doubts, diff_by, settle, diff_batch, diff, diff_found,
}
use logchain.Integrity.BatchDiff.Tally.{
  count-append, count-sort, compare_logs-AddsAll, inserted_from-counts, content_changes-counts,
}

-- `n` logs were compared, and every change that is listed is counted once.
abbrev pub AddUp : ℕ → BatchDiff → Type 0
AddUp n d =
    (c : Counts) × (d.summary.counts ≡ some c)
    × (c.unchanged + c.content_modified + c.hash_modified + c.deleted ≡ n)
    × (c.content_modified + c.hash_modified + c.deleted + c.unmapped_or_inserted ≡ length d.changes)

-- The counts of a diff for its baseline.
abbrev pub Accounts : Baseline → BatchDiff → Type 0
Accounts snapshot d = AddUp d.summary.snapshot_logs d
Accounts raw_hash d = AddUp d.summary.mapped_logs d
Accounts none_known d = (d.summary.counts ≡ none) × (d.changes ≡ [])

abbrev pub AddsUp : BatchDiff → Type 0
AddsUp d = Accounts d.baseline d

-- Sorting two lists of changes by their positions keeps the counts.
count-sorted :
    (t : ChangeType) (xs ys : List BatchChange)
    → count t (sort (λ (x y : BatchChange). leb x.position y.position) (xs ++ ys))
      ≡ count t xs + count t ys
count-sorted t xs ys = count-sort _ t (xs ++ ys) ∙ count-append t xs ys

module _ (b : Base) where
  trusted_diff-AddsUp :
      (rt : Runtime) (tables : Db) (root : Text) → AddsUp (trusted_diff b rt tables root)
  unfolding trusted_diff sorted_changes found_changes
  trusted_diff-AddsUp rt tables root =
      let found = compare_logs rt tables b.current b.snapshots in
      let put_in = inserted_from rt b.snapshots 0 b.current in
      let (n, none_in, all_found) = compare_logs-AddsAll rt tables b.current b.snapshots in
      let (c, h, e, i) = inserted_from-counts rt b.snapshots 0 b.current in
      (
        _,
        refl,
        omega (
          arith,
          count-sorted content_modified found.0 put_in,
          count-sorted hash_modified found.0 put_in,
          count-sorted deleted found.0 put_in,
          n,
          c,
          h,
          e,
        ),
        omega (
          arith,
          count-sorted content_modified found.0 put_in,
          count-sorted hash_modified found.0 put_in,
          count-sorted deleted found.0 put_in,
          count-sorted unmapped_or_inserted found.0 put_in,
          c,
          h,
          e,
          i,
          none_in,
          all_found,
          length-sort (λ (x y : BatchChange). leb x.position y.position) (found.0 ++ put_in),
          length-append found.0 put_in,
        ),
      )

  untrusted_diff-AddsUp :
      (rt : Runtime) (root : Text) (doubts : List UntrustedReason)
      → AddsUp (untrusted_diff b rt root doubts)
  unfolding untrusted_diff untrusted
  untrusted_diff-AddsUp rt root doubts =
      if_both AddsUp (option_eq b.stored_hash_root (some (base_reference b))) _ _
        (λ y. (_, refl, omega (arith, content_changes-counts b rt 0 b.current), omega arith))
        (λ n. (refl, refl))

  diff_by-AddsUp :
      (rt : Runtime) (tables : Db) (root : Option Text) → AddsUp (diff_by b rt tables root)
  unfolding diff_by legacy_diff snapshot_diff
  diff_by-AddsUp rt tables none = (refl, refl)
  diff_by-AddsUp rt tables (some root) =
      if_both AddsUp (is_empty (snapshot_doubts b rt root)) _ _
        (λ y. trusted_diff-AddsUp rt tables root)
        (λ n. untrusted_diff-AddsUp rt root (snapshot_doubts b rt root))

  settle-AddsUp : (d : BatchDiff) → AddsUp d → AddsUp (settle b d)
  unfolding settle
  settle-AddsUp d h = if_both AddsUp (is_not_anchored b) _ d (λ y. same d.baseline h) (λ n. h)
    where
      same :
          (l : Baseline)
          → Accounts l d
          → Accounts l (record d {
            untrusted_reasons = d.untrusted_reasons ++ not_anchored ∷ [];
            summary = record d.summary { verdict = unverifiable };
          })
      same snapshot k = k
      same raw_hash k = k
      same none_known k = k

-- A diff is that of a batch of the table.
pub diff_found-batch :
    (rt : Runtime) (lib : MerkleTree) (explorer : Option Text) (w : World) (tables : Db)
    (o : Option Batch) (d : BatchDiff)
    → diff_found rt lib explorer w tables o ≡ some d
    → (b : Batch) × (o ≡ some b)
      × (diff_batch rt lib tables (base_of rt lib explorer w tables b) ≡ d)
unfolding diff_found
diff_found-batch rt lib explorer w tables none d h = cc
diff_found-batch rt lib explorer w tables (some b) d h = (b, refl, some-inj h)

-- Of every batch that is found: where its logs can be compared, the unchanged, modified, rehashed
-- and deleted ones are as many as the snapshot has, or as are mapped where only raw hashes are
-- known, and every change that is listed is counted once. Where they cannot, nothing is listed.
pub diff-AddsUp :
    (rt : Runtime) (lib : MerkleTree) (explorer : Option Text) (w : World) (id : Text) (tables : Db)
    (d : BatchDiff)
    → diff rt lib explorer w id tables ≡ some d
    → AddsUp d
unfolding diff diff_batch
diff-AddsUp rt lib explorer w id tables d h =
    let (b, found, same) = diff_found-batch rt lib explorer w tables _ d h in
    let base = base_of rt lib explorer w tables b in
    let root = root_of lib (map (λ (s : BatchLogSnapshot). s.raw_hash) base.snapshots) in
    subst AddsUp same
      (settle-AddsUp base (diff_by base rt tables root) (diff_by-AddsUp base rt tables root))
