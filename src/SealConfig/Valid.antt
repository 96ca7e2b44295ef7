-- ===== src/SealConfig/Valid.antt =====
-- What accepted settings satisfy, and the conditions of each decision.
use logchain.Prelude.{
  ◌*◌, ◌<◌, suc, refl, subst, ◌⊎◌, inl, inr, Bool, true, false, Bool-cases, ltb, leb, ltb→lt,
  leb→le, le→leb, ◌==◌, ℕ, ◌≤◌, ◌≡◌, Option, none, some, [], ◌∷◌, Text, codes, arith,
}
use logchain.Errors.{Result, ok, err, ◌>>=◌}
use logchain.SealConfig.{
  SealConfig, Environment, trimmed, read_int, int_env, mode_env, cron_or, default_seal_config,
  read_seal_config, count, age, idle, in_flight, backoff, SealDecisionInput, seal, skip, is_due,
  decide_seal, minute,
}

pub record IsUsable (c : SealConfig) : Type 0 where
  pub batch_size : 1 ≤ c.batch_size
  pub max_wait_minutes : 1 ≤ c.max_wait_minutes
  pub backoff_max_ticks : 1 ≤ c.backoff_max_ticks
  pub low_balance_alert_minutes : 1 ≤ c.low_balance_alert_minutes

read_int-le :
    (integer : Text → Option ℕ) (key raw : Text) (fallback least n : ℕ)
    → least ≤ fallback
    → read_int integer key fallback least raw ≡ ok n
    → least ≤ n
unfolding read_int
read_int-le integer key [] fallback least n f h = ground arith
read_int-le integer key (c ∷ raw) fallback least n f h = ground arith

one_le : {n : ℕ} → 1 ≤ suc n
one_le = omega arith

int_env-le :
    (env : Environment) (key : Text) (fallback least n : ℕ)
    → least ≤ fallback
    → int_env env key fallback least ≡ ok n
    → least ≤ n
unfolding int_env
int_env-le env key fallback least n f h =
    read_int-le env.integer key (trimmed (env.var key)) fallback least n f h

clash : {x : Bool} → x ≡ false → x ≡ true → ⊥
clash h k = cc

ok_inj : {A : Type 0} (x y : A) → ok x ≡ ok y → x ≡ y
ok_inj x y h = cc

module _ (mk : ℕ → ℕ → ℕ → ℕ → ℕ → ℕ → SealConfig) where
  abbrev six : (r q p o n m : Result ℕ) → Result SealConfig
  six r q p o n m = do a ← r; b ← q; c ← p; d ← o; e ← n; f ← m; ok (mk a b c d e f)

  -- Settings that were all read are the values that were read.
  six_ok :
      (r q p o n m : Result ℕ) (y : SealConfig)
      → six r q p o n m ≡ ok y
      → (a b c d e f : ℕ) × (r ≡ ok a) × (q ≡ ok b) × (n ≡ ok e) × (m ≡ ok f) × (mk a b c d e f ≡ y)
  six_ok (ok a) (ok b) (ok c) (ok d) (ok e) (ok f) y h =
      (a, b, c, d, e, f, refl, refl, refl, refl, ok_inj (mk a b c d e f) y h)
  six_ok (err x) q p o n m y h = cc
  six_ok (ok a) (err x) p o n m y h = cc
  six_ok (ok a) (ok b) (err x) o n m y h = cc
  six_ok (ok a) (ok b) (ok c) (err x) n m y h = cc
  six_ok (ok a) (ok b) (ok c) (ok d) (err x) m y h = cc
  six_ok (ok a) (ok b) (ok c) (ok d) (ok e) (err x) y h = cc

abbrev read_as : Environment → ℕ → ℕ → ℕ → ℕ → ℕ → ℕ → SealConfig
read_as env wait size min_tx after ticks minutes = record {
  mode = mode_env env default_seal_config.mode;
  cron = cron_or env (trimmed (env.var (codes "SEAL_CRON"))) default_seal_config.cron;
  max_wait_minutes = wait;
  batch_size = size;
  min_balance_tx = min_tx;
  failure_backoff_after = after;
  backoff_max_ticks = ticks;
  low_balance_alert_minutes = minutes;
}

-- A configuration that is read without an error can be worked with, whatever the environment says:
-- batches of at least one log, a wait of at least one minute, a largest backoff of at least one tick,
-- and at least one minute between two alerts of a low balance. The other two numbers may be zero.
pub read_seal_config-IsUsable :
    (env : Environment) (c : SealConfig) → read_seal_config env ≡ ok c → IsUsable c
unfolding read_seal_config
read_seal_config-IsUsable env c h =
    let (wait, size, min_tx, after, ticks, minutes, is_wait, is_size, is_ticks, is_minutes, same) =
      six_ok (read_as env) (int_env env (codes "SEAL_MAX_WAIT_MINUTES") 60 1)
        (int_env env (codes "SEAL_BATCH_SIZE") 100 1)
        (int_env env (codes "SEAL_MIN_BALANCE_TX") 0 0)
        (int_env env (codes "SEAL_FAILURE_BACKOFF_AFTER") 3 0)
        (int_env env (codes "SEAL_BACKOFF_MAX_TICKS") 60 1)
        (int_env env (codes "SEAL_LOW_BALANCE_ALERT_MINUTES") 60 1) c h in
    subst IsUsable same (record {
      batch_size = int_env-le env (codes "SEAL_BATCH_SIZE") 100 1 size one_le is_size;
      max_wait_minutes = int_env-le env (codes "SEAL_MAX_WAIT_MINUTES") 60 1 wait one_le is_wait;
      backoff_max_ticks =
          int_env-le env (codes "SEAL_BACKOFF_MAX_TICKS") 60 1 ticks one_le is_ticks;
      low_balance_alert_minutes =
          int_env-le env (codes "SEAL_LOW_BALANCE_ALERT_MINUTES") 60 1 minutes one_le is_minutes;
    })

-- No round runs and no tick is to be skipped.
abbrev pub IsFree : SealDecisionInput → Type 0
IsFree i = (i.in_flight ≡ false) × (i.backoff_ticks_left ≡ 0)

-- The oldest log waited for at least the configured minutes.
abbrev pub IsOverdue : Option ℕ → ℕ → Type 0
IsOverdue none wait = ⊥
IsOverdue (some age') wait = wait * minute ≤ age'

IsOverdue-cases :
    (o : Option ℕ) (wait : ℕ)
    → ((is_due o wait ≡ true) × IsOverdue o wait) ⊎ ((is_due o wait ≡ false) × ¬ IsOverdue o wait)
unfolding is_due
IsOverdue-cases none wait = inr (refl, λ h. h)
IsOverdue-cases (some t) wait = elim (Bool-cases (leb (wait * minute) t)) [
  | inl y ↦ inl (y, leb→le (wait * minute) t y)
  | inr n ↦ inr (n, λ h. clash n (le→leb (wait * minute) t h))
]

-- The decision of the hybrid mode, as it is documented: a round that runs or a backoff comes first;
-- then logs that waited too long have all of them sealed; then a full batch.
pub decide_seal-decides :
    (i : SealDecisionInput)
    → ((decide_seal i ≡ skip in_flight) × (i.in_flight ≡ true))
      ⊎ ((decide_seal i ≡ skip backoff) × (i.in_flight ≡ false) × (0 < i.backoff_ticks_left))
      ⊎ ((decide_seal i ≡ seal age true)
          × IsFree i
          × (0 < i.pending_count)
          × IsOverdue i.oldest_age i.max_wait_minutes)
      ⊎ ((decide_seal i ≡ seal count false)
          × IsFree i
          × ¬ IsOverdue i.oldest_age i.max_wait_minutes
          × (i.batch_size ≤ i.pending_count))
      ⊎ ((decide_seal i ≡ skip idle)
          × IsFree i
          × ((i.pending_count ≡ 0)
              ⊎ (¬ IsOverdue i.oldest_age i.max_wait_minutes × (i.pending_count < i.batch_size))))
unfolding decide_seal
decide_seal-decides i = elim (Bool-cases i.in_flight) [
  | inl y ↦ inl (rw y, y)
  | inr n ↦ elim (Bool-cases (ltb 0 i.backoff_ticks_left)) [
    | inl y ↦ inr (inl (rw (n, y), n, ltb→lt 0 i.backoff_ticks_left y))
    | inr free ↦
        let none_left : i.backoff_ticks_left ≡ 0 = ground (arith, free) in
        elim (Bool-cases (i.pending_count == 0)) [
          | inl empty ↦
              inr
                (inr (inr (inr (rw (n, free, empty), (n, none_left), inl (ground (arith, empty))))))
          | inr more ↦
              let positive : 0 < i.pending_count = ground (arith, more) in
              elim (IsOverdue-cases i.oldest_age i.max_wait_minutes) [
                | inl (y, late) ↦
                    inr (inr (inl (rw (n, free, more, y), (n, none_left), positive, late)))
                | inr (y, late) ↦ elim (Bool-cases (leb i.batch_size i.pending_count)) [
                  | inl full ↦ inr (
                      inr (
                        inr (
                          inl (
                            rw (n, free, more, y, full),
                            (n, none_left),
                            late,
                            leb→le i.batch_size i.pending_count full,
                          ))))
                  | inr part ↦ inr (
                      inr (
                        inr (
                          inr (
                            rw (n, free, more, y, part),
                            (n, none_left),
                            inr (late, ground (arith, part)),
                          ))))
                ]
              ]
        ]
  ]
]
