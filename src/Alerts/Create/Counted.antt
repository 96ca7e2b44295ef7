-- ===== src/Alerts/Create/Counted.antt =====
-- An alert that createOrDedup takes is in the table afterwards, also where other requests come in
-- between.
use logchain.Prelude.{
  ◌≡◌, refl, ◌<◌, true, Option, none, some, List, [], ◌∷◌, ◌++◌, Text, In, if_both, ◌⊎◌,
}
use logchain.Alerts.{Alert, AlertLogRole, AlertInput, AlertLogLinks, Request, Outcome, AlertDb}
use logchain.Alerts.Columns.{clean_ip}
use logchain.Alerts.Create.{dedup_where, new_alert, prepared}
use logchain.Alerts.Links.{link_logs}
use logchain.Alerts.Create.Index.{IsPlain}
use logchain.Alerts.Repeat.{repeated_row, update_alert, or_empty, int_max, is_notified_severity}
use logchain.Alerts.Repeat.Severity.{is_done}
use logchain.Alerts.Create.Complete.{IsComplete}

-- The rows after a repeat of one of them that the lookup finds.
abbrev pub Repeated : Request → AlertInput → Option Text → List Alert → List Alert → Type 0
Repeated req dto rule_id before after =
    (w : Alert) × In w before
    × (dedup_where dto rule_id w ≡ true)
    × (after ≡ update_alert w.id (repeated_row req (or_empty dto.severity)) before)

-- The rows with the new one after them.
abbrev pub Inserted : Request → AlertInput → Option Text → List Alert → List Alert → Type 0
Inserted req dto rule_id before after =
    (a : Alert) × (new_alert req dto rule_id (is_notified_severity (or_empty dto.severity))
      ≡ some a)
    × (after ≡ before ++ a ∷ [])

abbrev pub HasRoom : Alert → Type 0
HasRoom a = a.occurrence_count < int_max

pub link_logs-alerts :
    (req : Request) (id : Text) (groups : List (AlertLogRole × List (Option Text))) (db : AlertDb)
    → (link_logs req id groups db).alerts ≡ db.alerts
unfolding link_logs
link_logs-alerts req id groups db =
    if_both {A = AlertDb} (λ d. d.alerts ≡ db.alerts) req.links_written _ _ (λ y. refl) (λ n. refl)

module _ (req : Request) (dto : AlertInput) (rule_id : Option Text) (links : AlertLogLinks) where
  abbrev Recorded : List Alert → Outcome Alert × AlertDb → Type 0
  Recorded before result =
      (is_done result.0 ≡ true)
      × (Repeated req dto rule_id before result.1.alerts
          ⊎ Inserted req dto rule_id before result.1.alerts)

-- Values that a request brings for a new row: no id of its own, every field that may not be null, no
-- value that stands for null in the index, and none that the database refuses.
pub record IsAccepted (req : Request) (input : AlertInput) : Type 0 where
  pub complete : IsComplete input
  pub plain : IsPlain input.batch_id (prepared req input).1 (clean_ip req input.source_ip)
  pub no_id : (prepared req input).0.id ≡ none
  pub lookup_taken : req.lookup_refuses (prepared req input).0 (prepared req input).1 ≡ none
  pub row_taken : req.row_refuses (prepared req input).0 (prepared req input).1 ≡ none
