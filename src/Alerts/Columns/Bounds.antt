-- ===== src/Alerts/Columns/Bounds.antt =====
-- How long the columns are after `fitToColumns`.
use logchain.Prelude.{
  ℕ, ◌≤◌, ◌≡◌, refl, Option, none, some, Text, length, take, length-take, leb, le→leb, leb→le,
  if_both, arith,
}
use logchain.Alerts.{AlertInput}
use logchain.Alerts.Columns.{
  fit, fit_to_columns, alert_type_length, severity_length, source_length, rule_id_length,
}

-- A value that its column can hold; null is one.
abbrev pub FitsIn : ℕ → Option Text → Type 0
FitsIn max none = Unit
FitsIn max (some v) = length v ≤ max

-- The payload and the rule fit into the columns.
pub record Fits (p : AlertInput × Option Text) : Type 0 where
  pub alert_type : FitsIn alert_type_length p.0.alert_type
  pub severity : FitsIn severity_length p.0.severity
  pub source : FitsIn source_length p.0.source
  pub rule_id : FitsIn rule_id_length p.1

fit-FitsIn : (max : ℕ) (v : Option Text) → FitsIn max (fit max v).0
unfolding fit
fit-FitsIn max none = tt
fit-FitsIn max (some v) =
    if_both {A = Option Text × Option Text} (λ r. FitsIn max r.0) (leb (length v) max)
      (some v, none) (some (take max v), some v) (λ y. leb→le (length v) max y)
      (λ n. rw (length-take max v) (omega arith))

-- A value that fits is not cut.
pub fit_same : (max : ℕ) (v : Option Text) → FitsIn max v → fit max v ≡ (v, none)
unfolding fit
fit_same max none h = refl
fit_same max (some v) h = rw (le→leb (length v) max h)

pub fit_to_columns_same :
    (dto : AlertInput) (rule_id : Option Text)
    → Fits (dto, rule_id)
    → fit_to_columns dto rule_id ≡ (dto, rule_id)
unfolding fit_to_columns
fit_to_columns_same dto rule_id f = rw (
  fit_same alert_type_length dto.alert_type f.alert_type,
  fit_same severity_length dto.severity f.severity,
  fit_same source_length dto.source f.source,
  fit_same rule_id_length rule_id f.rule_id,
)

-- Whatever a payload holds, what is looked up and stored fits into the columns, and a payload that
-- fits is left as it is, its detail included.
pub fit_to_columns-Fits :
    (dto : AlertInput) (rule_id : Option Text)
    → Fits (fit_to_columns dto rule_id)
      × (Fits (dto, rule_id) → fit_to_columns dto rule_id ≡ (dto, rule_id))
unfolding fit_to_columns
fit_to_columns-Fits dto rule_id = (
  record {
    alert_type = fit-FitsIn alert_type_length dto.alert_type;
    severity = fit-FitsIn severity_length dto.severity;
    source = fit-FitsIn source_length dto.source;
    rule_id = fit-FitsIn rule_id_length rule_id;
  },
  fit_to_columns_same dto rule_id,
)
