-- ===== src/Alerts/Resolve.antt =====
-- `resolve` and `findAll` of AlertsService.
use logchain.Prelude.{ℕ, suc, Option, none, some, List, [], ◌∷◌, find, Text, codes, leb, sort}
use logchain.Json.{decimal}
use logchain.Json.Value.{
  JsonValue, null, string, object, array, JsonItems, nil, cons, JsonFields, end, field, get_field,
  set_field,
}
use logchain.Entities.{AlertStatus}
use logchain.Alerts.{Alert, AlertDb, Outcome, done, failed, not_found, Request}
use logchain.Alerts.Repeat.{has_alert_id, update_alert}

-- The keys of an array in `{ ...array }` are its positions.
indexed : ℕ → JsonItems → JsonFields
unfolding decimal
indexed i nil = end
indexed i (cons x xs) = field (decimal i) x (indexed (suc i) xs)

unfoldable pub spread : Option JsonValue → JsonFields
unfolding indexed
spread (some (object fs)) = fs
spread (some (array xs)) = indexed 0 xs
spread d = end

-- `prev?.note ?? null`, where a resolution that is no object has none.
unfoldable pub previous_note : JsonFields → Option JsonValue
unfolding get_field
previous_note fs = go (get_field (codes "resolution") fs)
  where
    go : Option JsonValue → Option JsonValue
    go (some (object r)) = get_field (codes "note") r
    go v = none

-- `nextNote && nextNote.length > 0 ? nextNote : null`; a stored note is a text or null.
kept_note : Option JsonValue → JsonValue
kept_note (some (string [])) = null
kept_note (some (string (c ∷ s))) = string (c ∷ s)
kept_note v = null

unfoldable pub next_note : Option Text → JsonFields → JsonValue
unfolding kept_note previous_note
next_note (some note) fs = kept_note (some (string note))
next_note none fs = kept_note (previous_note fs)

by_value : Option Text → JsonValue
by_value none = null
by_value (some b) = string b

unfoldable pub resolved_row : Request → Option Text → Option Text → Alert → Alert
unfolding spread next_note by_value set_field
resolved_row req note by a =
    let detail = spread a.detail in
    record a {
      status = AlertStatus.resolved;
      detail = some (
          object (
            set_field (codes "resolution")
              (object (
                field (codes "note") (next_note note detail) (
                  field (codes "by") (by_value by)
                    (field (codes "at") (string (req.runtime.iso req.now)) end))))
              detail));
    }

unfoldable pub resolve :
    Request → Text → Option Text → Option Text → AlertDb → Outcome Alert × AlertDb
unfolding resolved_row update_alert
resolve req id note by db = elim (find (has_alert_id id) db.alerts) [
  | none ↦ (failed not_found, db)
  | some a ↦
      let b = resolved_row req note by a in
      (done b, record db { alerts = update_alert id (λ row. b) db.alerts })
]

-- `order: { lastSeenAt: 'DESC' }`
unfoldable pub find_all : AlertDb → List Alert
unfolding sort
find_all db = sort (λ a b. leb b.last_seen_at a.last_seen_at) db.alerts
