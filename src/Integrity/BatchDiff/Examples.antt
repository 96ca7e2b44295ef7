-- ===== src/Integrity/BatchDiff/Examples.antt =====
-- The diff of a batch of two logs with its snapshot, as it was sealed and with a row changed.
use logchain.Prelude.{◌≡◌, refl, Option, none, some, codes, text_eq}
use logchain.Entities.{Db}
use logchain.LogHash.{normalize_ip}
use logchain.Json.{hex4}
use logchain.Integrity.State.{snapshots_from}
use logchain.Integrity.BatchDiff.{BatchDiff, base_of, Verdict, intact, tampered_verdict}
use logchain.Integrity.BatchDiff.Compare.{diff, diff_batch}
use logchain.Integrity.BatchDiff.Counting.{AddsUp, diff-AddsUp}
use logchain.Integrity.Fixture.{flat, online, dated, anchored_batch, kept_db, tampered_db}

abbrev verdict_in : Db → Option Verdict
verdict_in tables = elim (diff dated flat none online (codes "b1") tables) [
  | none ↦ none
  | some d ↦ some d.summary.verdict
]

abbrev diff_of : Db → BatchDiff
diff_of tables = diff_batch dated flat tables (base_of dated flat none online tables anchored_batch)

diff_run : (verdict_in kept_db ≡ some intact) × (verdict_in tampered_db ≡ some tampered_verdict)
unfolding diff text_eq snapshots_from normalize_ip hex4
diff_run = (refl, refl)

tampered_found : diff dated flat none online (codes "b1") tampered_db ≡ some (diff_of tampered_db)
unfolding diff text_eq
tampered_found = refl

diff-AddsUp_example : AddsUp (diff_of tampered_db)
diff-AddsUp_example =
    diff-AddsUp dated flat none online (codes "b1") tampered_db (diff_of tampered_db) tampered_found
