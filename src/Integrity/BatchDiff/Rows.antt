-- ===== src/Integrity/BatchDiff/Rows.antt =====
-- The comparison of a snapshot with the rows, log by log: `diff` of
-- src/integrity/batch-diff.service.ts from its fourth step on.
use logchain.Prelude.{
  ℕ, suc, Bool, true, false, Option, none, some, List, [], ◌∷◌, ◌++◌, filter, find, any, length,
  Text, text_eq, option_eq, is_empty, if◌then◌else◌,
}
use logchain.Entities.{Log, log_id, BatchLogSnapshot, Db}
use logchain.LogHash.{Runtime, RawHashCanonical, raw_hash_canonical}
use logchain.Integrity.BatchDiff.{
  ChangeType, content_modified, hash_modified, deleted, unmapped_or_inserted, FieldName,
  source_field, source_ip_field, event_type_field, severity_field, message_field,
  classification_field, cde_scope_field, created_at_field, raw_hash_field, text, flag, FieldChange,
  row_missing, mapping_missing, fields, deleted_row, current_row, BatchChange,
}

abbrev pub bool_eq : Bool → Bool → Bool
bool_eq true true = true
bool_eq true false = false
bool_eq false true = false
bool_eq false false = true

-- A change of one field, where the values differ.
unfoldable pub text_change : FieldName → Option Text → Option Text → List FieldChange
text_change f before after =
    if option_eq before after
    then []
    else record { field = f; before = text before; after = text after } ∷ []

unfoldable pub flag_change : FieldName → Bool → Bool → List FieldChange
flag_change f before after =
    if bool_eq before after
    then []
    else record { field = f; before = flag before; after = flag after } ∷ []

-- COMPARED_FIELDS, in their order, and the raw hash.
unfoldable pub field_changes : RawHashCanonical → RawHashCanonical → List FieldChange
unfolding text_change flag_change
field_changes b a =
    text_change source_field (some b.source) (some a.source)
    ++ (text_change source_ip_field b.source_ip a.source_ip
        ++ (text_change event_type_field (some b.event_type) (some a.event_type)
            ++ (text_change severity_field (some b.severity) (some a.severity)
                ++ (text_change message_field (some b.message) (some a.message)
                    ++ (text_change classification_field (some b.classification)
                          (some a.classification)
                        ++ (flag_change cde_scope_field b.cde_scope a.cde_scope
                            ++ text_change created_at_field (some b.created_at)
                                (some a.created_at)))))))

unfoldable pub hash_change : Text → Text → List FieldChange
unfolding text_change
hash_change before after = text_change raw_hash_field (some before) (some after)

-- The type of a change whose fields are these and then, where the hash differs, `rawHash`.
unfoldable pub change_type_of : List FieldChange → ChangeType
change_type_of [] = hash_modified
change_type_of (f ∷ fs) = content_modified

-- A log whose content changed in these fields, and all its changed fields.
unfoldable pub modified : BatchLogSnapshot → List FieldChange → List FieldChange → BatchChange
unfolding change_type_of
modified s content changed = record {
  position = s.position;
  log_id = s.log_id;
  change_type = change_type_of content;
  detail = fields changed;
}

-- One round of the loop over the snapshot: what it adds to the changes, nothing where the log is
-- unchanged.
unfoldable pub compare_log : Runtime → Bool → BatchLogSnapshot → Option Log → List BatchChange
unfolding field_changes hash_change modified raw_hash_canonical
compare_log rt there s none =
    record {
      position = s.position;
      log_id = s.log_id;
      change_type = deleted;
      detail =
          deleted_row (if there then mapping_missing else row_missing)
            (record { canonical = s.snapshot; raw_hash = s.raw_hash });
    }
    ∷ []
compare_log rt there s (some now) =
    let content = field_changes s.snapshot (raw_hash_canonical rt now.content) in
    let changed = content ++ hash_change s.raw_hash now.raw_hash in
    if is_empty changed then [] else modified s content changed ∷ []

abbrev pub log_of : Text → List Log → Option Log
log_of id rows = find (λ l. text_eq (log_id l) id) rows

abbrev pub has_log : Text → List Log → Bool
has_log id rows = any (λ l. text_eq (log_id l) id) rows

-- The loop over the snapshot: the changes, and how many logs are unchanged.
unfoldable pub compare_logs : Runtime → Db → List Log → List BatchLogSnapshot → List BatchChange × ℕ
unfolding compare_log
compare_logs rt tables current [] = ([], 0)
compare_logs rt tables current (s ∷ rest) =
    let (changes, unchanged) = compare_logs rt tables current rest in
    let found = compare_log rt (has_log s.log_id tables.logs) s (log_of s.log_id current) in
    (found ++ changes, if is_empty found then suc unchanged else unchanged)

-- The rows that the snapshot does not have.
unfoldable pub inserted_from : Runtime → List BatchLogSnapshot → ℕ → List Log → List BatchChange
unfolding raw_hash_canonical
inserted_from rt snapshots index [] = []
inserted_from rt snapshots index (l ∷ rows) =
    let rest = inserted_from rt snapshots (suc index) rows in
    if any (λ (s : BatchLogSnapshot). text_eq s.log_id (log_id l)) snapshots
    then rest
    else record {
      position = index;
      log_id = log_id l;
      change_type = unmapped_or_inserted;
      detail =
          current_row
            (record { canonical = raw_hash_canonical rt l.content; raw_hash = l.raw_hash });
    }
      ∷ rest

abbrev pub same_change : ChangeType → ChangeType → Bool
same_change content_modified content_modified = true
same_change hash_modified hash_modified = true
same_change deleted deleted = true
same_change unmapped_or_inserted unmapped_or_inserted = true
same_change _ _ = false

unfoldable pub count : ChangeType → List BatchChange → ℕ
count t changes = length (filter (λ (c : BatchChange). same_change c.change_type t) changes)
