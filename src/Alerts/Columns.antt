-- ===== src/Alerts/Columns.antt =====
-- What AlertsService does to a payload before it looks for the alert: `ruleIdOf`, `cleanIp` and
-- `fitToColumns`.
pub mod Bounds
use logchain.Prelude.{
  ℕ, ◌≤◌, ◌≡◌, refl, Bool, true, false, Option, none, some, List, [], ◌∷◌, ◌++◌, Text, codes,
  text_eq, trim, length, take, leb, if◌then◌else◌, is_empty,
}
use logchain.Json.Value.{
  JsonValue, null, string, object, JsonFields, end, field, field_of, fields_of, set_field, text_of,
}
use logchain.LogHash.{normalize_ip}
use logchain.Alerts.{AlertInput, Request}

abbrev pub alert_type_length : ℕ
alert_type_length = 64

abbrev pub severity_length : ℕ
severity_length = 16

abbrev pub source_length : ℕ
source_length = 128

abbrev pub rule_id_length : ℕ
rule_id_length = 32

-- `dto.ruleId ?? detail?.rule_id`
raw_rule_id : Option JsonValue → Option JsonValue → Option JsonValue
unfolding field_of
raw_rule_id (some null) none = none
raw_rule_id (some null) (some detail) = field_of (codes "rule_id") detail
raw_rule_id (some v) detail = some v
raw_rule_id none none = none
raw_rule_id none (some detail) = field_of (codes "rule_id") detail

rule_id_text : Option JsonValue → Option Text
unfolding text_of
rule_id_text none = none
rule_id_text (some null) = none
rule_id_text (some (string [])) = none
rule_id_text (some v) = some (text_of v)

unfoldable pub rule_id_of : AlertInput → Option Text
unfolding raw_rule_id rule_id_text
rule_id_of input = rule_id_text (raw_rule_id input.rule_id input.detail)

unfoldable pub clean_ip : Request → Option Text → Option Text
unfolding trim normalize_ip
clean_ip req none = none
clean_ip req (some ip) =
    let v = trim ip in
    if is_empty v then none else if req.is_ip v then normalize_ip req.runtime (some v) else none

-- A column's value cut to its length, and the whole value where it was cut.
unfoldable pub fit : ℕ → Option Text → Option Text × Option Text
fit max none = (none, none)
fit max (some v) = if leb (length v) max then (some v, none) else (some (take max v), some v)

-- `cut[field] = value`
cut_field : Text → Option Text → JsonFields → JsonFields
cut_field key none fs = fs
cut_field key (some v) fs = field key (string v) fs

detail_fields : Option JsonValue → JsonFields
unfolding fields_of
detail_fields none = end
detail_fields (some v) = fields_of v

note_cut : JsonFields → Option JsonValue → Option JsonValue
unfolding detail_fields set_field
note_cut end detail = detail
note_cut (field k v fs) detail =
    some
      (object (set_field (codes "truncated_fields") (object (field k v fs)) (detail_fields detail)))

unfoldable pub fit_to_columns : AlertInput → Option Text → AlertInput × Option Text
unfolding fit cut_field note_cut
fit_to_columns dto rule_id =
    let (alert_type, cut_type) = fit alert_type_length dto.alert_type in
    let (severity, cut_severity) = fit severity_length dto.severity in
    let (source, cut_source) = fit source_length dto.source in
    let (fitted_rule, cut_rule) = fit rule_id_length rule_id in
    let cut = cut_field (codes "alertType") cut_type (
      cut_field (codes "severity") cut_severity
        (cut_field (codes "source") cut_source (cut_field (codes "ruleId") cut_rule end))) in
    (
      record dto {
        alert_type = alert_type;
        severity = severity;
        source = source;
        detail = note_cut cut dto.detail;
      },
      fitted_rule,
    )
