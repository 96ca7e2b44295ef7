-- ===== src/LogHash/Laws.antt =====
-- What a raw hash binds, and when a row is told from the row that was hashed.
use logchain.Prelude.{
  ℕ, true, false, ◌++◌, ◌≡◌, ◌≢◌, refl, sym, ap, ◌∙◌, Text, codes, text_eq, text_eq-false,
  text_eq_refl, text_eq_comm, arith,
}
use logchain.Json.{put_text, decimal}
use logchain.Json.Laws.{put_text_inj, put_option_inj, put_bool_inj, append_cancel}
use logchain.LogHash.{
  Runtime, RawHashInput, RawHashCanonical, HashedLog, canonical_json, legacy_json,
  raw_hash_canonical, compute_raw_hash, compute_legacy_raw_hash, is_raw_hash_intact,
  recompute_content_leaf, normalize_ip,
}

-- The text of a field's key in front of a printed value and the rest: both are determined.
field_text_inj : (k s t r r' : Text) → k ++ put_text s r ≡ k ++ put_text t r' → (s ≡ t) × (r ≡ r')
field_text_inj k s t r r' h = put_text_inj s t r r' (append_cancel k _ _ h)

-- Canonical objects of one version with the same text are the same object.
canonical_json_inj :
    (a b : RawHashCanonical) → a.v ≡ b.v → canonical_json a ≡ canonical_json b → a ≡ b
unfolding canonical_json
canonical_json_inj a b v h =
    let h1 = append_cancel (codes "{\"v\":") _ _ h in
    let h2 = append_cancel (decimal a.v) _ _ (rw (← v) at h1) in
    let (id, h3) = field_text_inj (codes ",\"id\":") _ _ _ _ h2 in
    let (source, h4) = field_text_inj (codes ",\"source\":") _ _ _ _ h3 in
    let (ip, h5) = put_option_inj _ _ _ _ (append_cancel (codes ",\"sourceIp\":") _ _ h4) in
    let (event_type, h6) = field_text_inj (codes ",\"eventType\":") _ _ _ _ h5 in
    let (severity, h7) = field_text_inj (codes ",\"severity\":") _ _ _ _ h6 in
    let (message, h8) = field_text_inj (codes ",\"message\":") _ _ _ _ h7 in
    let (class, h9) = field_text_inj (codes ",\"classification\":") _ _ _ _ h8 in
    let (scope, h10) = put_bool_inj _ _ _ _ (append_cancel (codes ",\"cdeScope\":") _ _ h9) in
    let (created, h11) = field_text_inj (codes ",\"createdAt\":") _ _ _ _ h10 in
    λ i. record {
      v = v i;
      id = id i;
      source = source i;
      source_ip = ip i;
      event_type = event_type i;
      severity = severity i;
      message = message i;
      classification = class i;
      cde_scope = scope i;
      created_at = created i;
    }

-- The two versions never hash the same text.
legacy-ne-canonical : (i : RawHashInput) (c : RawHashCanonical) → legacy_json i ≢ canonical_json c
unfolding canonical_json legacy_json
legacy-ne-canonical i c h = grind arith

-- The evidence that two logs share: all fields, the address in its normal form.
pub record SameEvidence (rt : Runtime) (a b : RawHashInput) : Type 0 where
  pub id : a.id ≡ b.id
  pub source : a.source ≡ b.source
  pub source_ip : normalize_ip rt a.source_ip ≡ normalize_ip rt b.source_ip
  pub event_type : a.event_type ≡ b.event_type
  pub severity : a.severity ≡ b.severity
  pub message : a.message ≡ b.message
  pub classification : a.classification ≡ b.classification
  pub cde_scope : a.cde_scope ≡ b.cde_scope
  pub created_at : a.created_at ≡ b.created_at

module _ (rt : Runtime) (no_collision : (s t : Text) → rt.sha256 s ≡ rt.sha256 t → s ≡ t)
    (iso_injective : (m n : ℕ) → rt.iso m ≡ rt.iso n → m ≡ n) where
  -- Where `sha256` has no collision and dates are printed apart, logs with the same raw hash have
  -- the same evidence, every field of it.
  pub compute_raw_hash-SameEvidence :
      (a b : RawHashInput) → compute_raw_hash rt a ≡ compute_raw_hash rt b → SameEvidence rt a b
  unfolding compute_raw_hash raw_hash_canonical
  compute_raw_hash-SameEvidence a b h =
      let e =
        canonical_json_inj (raw_hash_canonical rt a) (raw_hash_canonical rt b) refl
          (no_collision _ _ h) in
      record {
        id = ap (λ (c : RawHashCanonical). c.id) e;
        source = ap (λ (c : RawHashCanonical). c.source) e;
        source_ip = ap (λ (c : RawHashCanonical). c.source_ip) e;
        event_type = ap (λ (c : RawHashCanonical). c.event_type) e;
        severity = ap (λ (c : RawHashCanonical). c.severity) e;
        message = ap (λ (c : RawHashCanonical). c.message) e;
        classification = ap (λ (c : RawHashCanonical). c.classification) e;
        cde_scope = ap (λ (c : RawHashCanonical). c.cde_scope) e;
        created_at = iso_injective _ _ (ap (λ (c : RawHashCanonical). c.created_at) e);
      }

  legacy-ne-computed : (a b : RawHashInput) → compute_legacy_raw_hash rt a ≢ compute_raw_hash rt b
  unfolding compute_raw_hash compute_legacy_raw_hash
  legacy-ne-computed a b h = legacy-ne-canonical a (raw_hash_canonical rt b) (no_collision _ _ h)

  -- Where sha256 has no collision and dates print apart: a row that still holds the raw hash bound
  -- at ingest, and whose evidence was changed in any field, is reported as not intact, also by way
  -- of the old hash version.
  pub is_raw_hash_intact_changed :
      (original : RawHashInput) (row : HashedLog)
      → row.raw_hash ≡ compute_raw_hash rt original
      → ¬ SameEvidence rt original row.content
      → is_raw_hash_intact rt row ≡ false
  unfolding is_raw_hash_intact
  is_raw_hash_intact_changed original row bound changed =
      let v2 : text_eq row.raw_hash (compute_raw_hash rt row.content) ≡ false =
        text_eq-false _ _
          (λ e. changed (compute_raw_hash-SameEvidence original row.content (sym bound ∙ e))) in
      let v1 : text_eq row.raw_hash (compute_legacy_raw_hash rt row.content) ≡ false =
        text_eq-false _ _ (λ e. legacy-ne-computed row.content original (sym e ∙ bound)) in
      rw (v2, v1)

-- The recomputed leaf of a row equals its stored raw hash exactly when the row is intact.
pub recompute_content_leaf-eq-raw_hash :
    (rt : Runtime) (row : HashedLog)
    → text_eq (recompute_content_leaf rt row) row.raw_hash ≡ is_raw_hash_intact rt row
unfolding recompute_content_leaf is_raw_hash_intact
recompute_content_leaf-eq-raw_hash rt row =
    ground (
      arith,
      text_eq_refl row.raw_hash,
      text_eq_comm row.raw_hash (compute_raw_hash rt row.content),
    )

-- A freshly hashed row is intact, whatever its fields.
pub is_raw_hash_intact_fresh :
    (rt : Runtime) (a : RawHashInput)
    → is_raw_hash_intact rt (record { content = a; raw_hash = compute_raw_hash rt a }) ≡ true
unfolding is_raw_hash_intact
is_raw_hash_intact_fresh rt a = rw (text_eq_refl (compute_raw_hash rt a))
