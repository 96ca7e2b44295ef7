-- ===== src/Alerts/Links.antt =====
-- `linkLogs` and `idList` of AlertsService: the logs that are evidence for an alert. The statement
-- takes each log once, with the role of the first group that names it, and leaves out logs that are
-- linked already or are no rows; the rows are added here in the order of the groups.
use logchain.Prelude.{
  ℕ, zero, suc, Bool, true, false, ◌&&◌, ◌||◌, Option, none, some, List, [], ◌∷◌, ◌++◌, Text,
  text_eq, any, leb, ◌==◌, if◌then◌else◌,
}
use logchain.Json.Value.{JsonValue, array, strings_of}
use logchain.LogHash.{to_lower}
use logchain.Alerts.{AlertDb, AlertLog, AlertLogRole, Request}

is_hex : ℕ → Bool
is_hex c = (leb 48 c && leb c 57) || (leb 97 c && leb c 102) || (leb 65 c && leb c 70)

-- So many hexadecimal digits, then a dash and the next group.
hex_groups : ℕ → List ℕ → Text → Bool
unfolding is_hex
hex_groups zero [] [] = true
hex_groups zero [] (c ∷ s) = false
hex_groups zero (g ∷ gs) [] = false
hex_groups zero (g ∷ gs) (c ∷ s) = c == b'-' && hex_groups g gs s
hex_groups (suc n) gs [] = false
hex_groups (suc n) gs (c ∷ s) = is_hex c && hex_groups n gs s

unfoldable pub is_uuid : Text → Bool
unfolding hex_groups
is_uuid s = hex_groups 8 (4 ∷ 4 ∷ 4 ∷ 12 ∷ []) s

-- A list of ids in a payload: all that is no array is empty.
unfoldable pub id_list : Option JsonValue → List (Option Text)
unfolding strings_of
id_list none = []
id_list (some (array xs)) = somes (strings_of xs)
  where
    somes : List Text → List (Option Text)
    somes [] = []
    somes (x ∷ xs) = some x ∷ somes xs
id_list (some v) = []

uuids_of : AlertLogRole → List (Option Text) → List (AlertLogRole × Text)
unfolding is_uuid
uuids_of role [] = []
uuids_of role (none ∷ ids) = uuids_of role ids
uuids_of role (some id ∷ ids) =
    let rest = uuids_of role ids in if is_uuid id then (role, to_lower id) ∷ rest else rest

pub candidates : List (AlertLogRole × List (Option Text)) → List (AlertLogRole × Text)
unfolding uuids_of to_lower
candidates [] = []
candidates ((role, ids) ∷ groups) = uuids_of role ids ++ candidates groups

abbrev pub is_linked : Text → Text → List AlertLog → Bool
is_linked alert_id log_id links =
    any (λ l. text_eq l.alert_id alert_id && text_eq l.log_id log_id) links

-- `JOIN logs` and `ON CONFLICT DO NOTHING`
pub insert_links : Text → List Text → List (AlertLogRole × Text) → List AlertLog → List AlertLog
insert_links alert_id log_ids [] links = links
insert_links alert_id log_ids ((role, id) ∷ ids) links = insert_links alert_id log_ids ids (
    if any (text_eq id) log_ids
    then (if is_linked alert_id id links
        then links
        else links ++ record { alert_id = alert_id; log_id = id; role = role } ∷ [])
    else links)

unfoldable pub link_logs :
    Request → Text → List (AlertLogRole × List (Option Text)) → AlertDb → AlertDb
unfolding candidates insert_links
link_logs req alert_id groups db =
    if req.links_written
    then record db {
      alert_logs = insert_links alert_id db.log_ids (candidates groups) db.alert_logs;
    }
    else db
