-- ===== src/Alerts/Create/Complete.antt =====
-- Rows that a lookup finds, and payloads that have what a row needs.
use logchain.Prelude.{
  subst, ◌≡◌, refl, sym, ap, ◌∙◌, Bool, true, false, Option, none, some, List, [], ◌∷◌, Text,
  text_eq, text_eq_refl, any, find, All, In, ℕ, is_some, if_both, leb, length, Bool-cases, inl, inr,
  arith,
}
use logchain.Alerts.{Alert, AlertInput, Request}
use logchain.Alerts.Columns.{
  clean_ip, fit, fit_to_columns, alert_type_length, severity_length, source_length,
}
use logchain.Alerts.Create.{prepared}
use logchain.Alerts.Create.Index.{IsPlain}
use logchain.Alerts.Repeat.{has_alert_id}

pub In-found :
    (w : Alert) (rows : List Alert)
    → In w rows
    → (row : Alert) × (find (has_alert_id w.id) rows ≡ some row) × In row rows
In-found w [] m = absurd m
In-found w (a ∷ rows) m = elim (Bool-cases (has_alert_id w.id a)) [
  | inl y ↦ (a, rw y, inl refl)
  | inr n ↦ elim m [
    | inl e ↦ absurd (clash (sym n ∙ ap (λ x. text_eq x.id w.id) e ∙ text_eq_refl w.id))
    | inr k ↦ let (row, f, i) = In-found w rows k in (row, rw n f, inr i)
  ]
]
  where
    clash : false ≡ true → ⊥
    clash e = cc

pub All-In : (P : Alert → Type 0) (w : Alert) (rows : List Alert) → All P rows → In w rows → P w
All-In P w [] h m = absurd m
All-In P w (a ∷ rows) h (inl e) = subst P e h.0
All-In P w (a ∷ rows) h (inr m) = All-In P w rows h.1 m

pub any-found :
    (p q : Alert → Bool) (rows : List Alert)
    → All (λ a. p a ≡ true → q a ≡ true) rows
    → any p rows ≡ true
    → (w : Alert) × (find q rows ≡ some w)
any-found p q [] imp h = cc
any-found p q (a ∷ rows) imp h = elim (Bool-cases (q a)) [
  | inl y ↦ (a, rw y)
  | inr n ↦ let (w, f) = any-found p q rows imp.1 (rest n) in (w, rw n f)
]
  where
    rest : q a ≡ false → any p rows ≡ true
    rest n = elim (Bool-cases (p a)) [
      | inl y ↦ absurd (clash (sym n ∙ imp.0 y))
      | inr k ↦ grind (arith, k, h)
    ]
      where
        clash : false ≡ true → ⊥
        clash e = cc

-- The fields that a new row cannot be without.
pub record IsComplete (input : AlertInput) : Type 0 where
  pub alert_type : is_some input.alert_type ≡ true
  pub severity : is_some input.severity ≡ true
  pub source : is_some input.source ≡ true
  pub title : is_some input.title ≡ true

pub the : {A : Type 0} (o : Option A) → is_some o ≡ true → (a : A) × (o ≡ some a)
the none h = cc
the (some a) h = (a, refl)

pub fit-is_some : (max : ℕ) (v : Option Text) → is_some (fit max v).0 ≡ is_some v
unfolding fit
fit-is_some max none = refl
fit-is_some max (some v) =
    if_both {A = Option Text × Option Text} (λ r. is_some r.0 ≡ true) (leb (length v) max) _ _
      (λ y. refl) (λ n. refl)

pub prepared-IsComplete :
    (req : Request) (input : AlertInput) → IsComplete input → IsComplete (prepared req input).0
unfolding prepared fit_to_columns
prepared-IsComplete req input c = record {
  alert_type = fit-is_some alert_type_length input.alert_type ∙ c.alert_type;
  severity = fit-is_some severity_length input.severity ∙ c.severity;
  source = fit-is_some source_length input.source ∙ c.source;
  title = c.title;
}

pub prepared-IsPlain :
    (req : Request) (input : AlertInput)
    → IsPlain input.batch_id (prepared req input).1 (clean_ip req input.source_ip)
    → IsPlain
        (prepared req input).0.batch_id
        (prepared req input).1
        (prepared req input).0.source_ip
unfolding prepared fit_to_columns
prepared-IsPlain req input p = p
