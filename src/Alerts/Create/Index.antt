-- ===== src/Alerts/Create/Index.antt =====
-- The unique index of the open alerts, and the condition by which createOrDedup looks for one.
use logchain.Prelude.{
  option_eq, ◌≡◌, refl, sym, ◌∙◌, Bool, true, false, ◌&&◌, Option, none, some, [], Text, text_eq,
  text_eq_comm, arith,
}
use logchain.Alerts.{Alert, AlertInput, Request, is_open}
use logchain.Alerts.Create.{
  dedup_where, is_duplicate, coalesce, no_batch, no_ip, alert_row, where_text,
}

-- The columns hold none of the values that stand for null in the index.
pub record IsPlain (batch_id rule_id source_ip : Option Text) : Type 0 where
  pub plain_batch : option_eq batch_id (some no_batch) ≡ false
  pub plain_rule : option_eq rule_id (some []) ≡ false
  pub plain_ip : option_eq source_ip (some no_ip) ≡ false

abbrev pub HasPlainKey : Alert → Type 0
HasPlainKey a = IsPlain a.batch_id a.rule_id a.source_ip

-- Columns that are equal for the index are equal, unless one of them holds the value for null.
pub coalesce-eq :
    (d : Text) (s t : Option Text)
    → text_eq (coalesce d s) (coalesce d t) ≡ true
    → option_eq s (some d) ≡ false
    → option_eq t (some d) ≡ false
    → option_eq s t ≡ true
coalesce-eq d none none h p q = refl
coalesce-eq d none (some t) h p q = sym q ∙ text_eq_comm t d ∙ h
coalesce-eq d (some s) none h p q = sym p ∙ h
coalesce-eq d (some s) (some t) h p q = h

and6 :
    (p q r s t u : Bool)
    → p ≡ true
    → q ≡ true
    → r ≡ true
    → s ≡ true
    → t ≡ true
    → u ≡ true
    → (p && q && r && s && t && u) ≡ true
and6 p q r s t u hp hq hr hs ht hu = rw (hp, hq, hr, hs, ht, hu)

all7 :
    (p q r s t u v : Bool)
    → (p && q && r && s && t && u && v) ≡ true
    → (q ≡ true) × (r ≡ true) × (s ≡ true) × (t ≡ true) × (u ≡ true) × (v ≡ true)
all7 true true true true true true true h = (refl, refl, refl, refl, refl, refl)
all7 p q r s t u v h = ground arith

where_text-some :
    (o : Option Text) (s t : Text) → o ≡ some s → text_eq s t ≡ true → where_text o t ≡ true
where_text-some o s t e h = rw (e, h)

-- A row that the index takes for the new one is found by the lookup.
pub is_duplicate-dedup_where :
    (req : Request) (dto : AlertInput) (rule_id : Option Text) (notify : Bool)
    (alert_type severity source title : Text) (r : Alert)
    → dto.alert_type ≡ some alert_type
    → dto.source ≡ some source
    → IsPlain dto.batch_id rule_id dto.source_ip
    → HasPlainKey r
    → is_duplicate (alert_row req dto rule_id notify alert_type severity source title) r ≡ true
    → dedup_where dto rule_id r ≡ true
unfolding is_duplicate alert_row dedup_where
is_duplicate-dedup_where req dto rule_id notify alert_type severity source title r ht hs p k h =
    let (open_r, same_type, same_source, same_batch, same_rule, same_ip) =
      all7 true (is_open r.status) (text_eq alert_type r.alert_type) (text_eq source r.source)
        (text_eq (coalesce no_batch dto.batch_id) (coalesce no_batch r.batch_id))
        (text_eq (coalesce [] rule_id) (coalesce [] r.rule_id))
        (text_eq (coalesce no_ip dto.source_ip) (coalesce no_ip r.source_ip)) h in
    and6 _ _ _ _ _ _ open_r (where_text-some dto.alert_type alert_type r.alert_type ht same_type)
      (where_text-some dto.source source r.source hs same_source)
      (coalesce-eq no_batch dto.batch_id r.batch_id same_batch p.plain_batch k.plain_batch)
      (coalesce-eq [] rule_id r.rule_id same_rule p.plain_rule k.plain_rule)
      (coalesce-eq no_ip dto.source_ip r.source_ip same_ip p.plain_ip k.plain_ip)
