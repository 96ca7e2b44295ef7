-- ===== src/Integrity/Proof/Examples.antt =====
-- The proof of a log of a sealed batch, kept and changed.
use logchain.Prelude.{◌≡◌, refl, Option, none, some, codes, text_eq}
use logchain.Entities.{Db}
use logchain.LogHash.{normalize_ip}
use logchain.Json.{hex4}
use logchain.Integrity.State.{snapshots_from}
use logchain.Integrity.Proof.{
  LogIntegrity, intact_log, content_modified_log, LogProof, proof_of, get_proof_for_log,
}
use logchain.Integrity.Proof.Backed.{BackedProof, get_proof_for_log-IsBacked}
use logchain.Integrity.Fixture.{flat, online, early, dated, anchored_batch, kept_db, tampered_db}

abbrev kept_proof : LogProof
kept_proof = proof_of dated flat online kept_db early anchored_batch

abbrev integrity_in : Db → Option LogIntegrity
integrity_in tables = elim (get_proof_for_log dated flat online (codes "l2") tables) [
  | none ↦ none
  | some p ↦ some p.integrity
]

integrity_run :
    (integrity_in kept_db ≡ some intact_log)
    × (integrity_in tampered_db ≡ some content_modified_log)
unfolding get_proof_for_log text_eq snapshots_from normalize_ip hex4 logchain.LogHash.legacy_json
integrity_run = (refl, refl)

kept_proof_found : get_proof_for_log dated flat online (codes "l2") kept_db ≡ some kept_proof
unfolding get_proof_for_log text_eq
kept_proof_found = refl

kept_proof_intact : kept_proof.integrity ≡ intact_log
unfolding proof_of text_eq snapshots_from normalize_ip hex4
kept_proof_intact = refl

get_proof_for_log-IsBacked_example : BackedProof dated flat online kept_db kept_proof
get_proof_for_log-IsBacked_example =
    get_proof_for_log-IsBacked dated flat online (codes "l2") kept_db kept_proof kept_proof_found
      kept_proof_intact
