-- ===== src/SealConfig.antt =====
-- src/integrity/seal-config.ts: the settings of the seal rounds, and `decideSeal`.
pub mod Valid
mod Examples
use logchain.Prelude.{
  ℕ, zero, ◌*◌, ◌+◌, Bool, true, false, Option, none, some, List, [], ◌∷◌, ◌++◌, Text, codes,
  text_eq, trim, ltb, leb, ◌==◌, if◌then◌else◌,
}
use logchain.Errors.{Thrown, plain_error, Result, ok, err, ◌>>=◌}
use logchain.LogHash.{to_lower}
use logchain.Json.{decimal}

pub data SealMode : Type 0 where
  cron hybrid : SealMode

pub record SealConfig : Type 0 where
  pub mode : SealMode
  pub cron : Text
  pub max_wait_minutes : ℕ
  pub batch_size : ℕ
  pub min_balance_tx : ℕ
  pub failure_backoff_after : ℕ
  pub backoff_max_ticks : ℕ
  pub low_balance_alert_minutes : ℕ

-- `CronExpression.EVERY_MINUTE`
abbrev every_minute : Text
every_minute = codes "*/1 * * * *"

abbrev pub default_seal_config : SealConfig
default_seal_config = record {
  mode = SealMode.cron;
  cron = every_minute;
  max_wait_minutes = 60;
  batch_size = 100;
  min_balance_tx = 0;
  failure_backoff_after = 3;
  backoff_max_ticks = 60;
  low_balance_alert_minutes = 60;
}

-- The environment: a variable's value, and the integer of at least 0 that `Number` reads from a
-- text (`none` where it reads none).
pub record Environment : Type 0 where
  pub var : Text → Option Text
  pub integer : Text → Option ℕ

-- `env[key]?.trim()`, where the empty text counts as unset.
abbrev trimmed : Option Text → Text
trimmed none = []
trimmed (some v) = trim v

out_of_range : Text → ℕ → Text → Thrown
out_of_range key least raw = plain_error (
    key
    ++ codes " must be an integer >= "
    ++ decimal least
    ++ codes " (got \""
    ++ raw
    ++ codes "\")")

at_least : Text → ℕ → Text → Option ℕ → Result ℕ
at_least key least raw none = err (out_of_range key least raw)
at_least key least raw (some n) = if ltb n least then err (out_of_range key least raw) else ok n

read_int : (Text → Option ℕ) → Text → ℕ → ℕ → Text → Result ℕ
unfolding at_least
read_int integer key fallback least [] = ok fallback
read_int integer key fallback least (c ∷ raw) = at_least key least (c ∷ raw) (integer (c ∷ raw))

module _ (env : Environment) where
  unfoldable pub int_env : Text → ℕ → ℕ → Result ℕ
  unfolding read_int out_of_range
  int_env key fallback least = read_int env.integer key fallback least (trimmed (env.var key))

  mode_env : SealMode → SealMode
  mode_env fallback =
      let raw = to_lower (trimmed (env.var (codes "SEAL_MODE"))) in
      if text_eq raw (codes "cron")
      then SealMode.cron
      else if text_eq raw (codes "hybrid")
      then hybrid
      else fallback

  cron_or : Text → Text → Text
  cron_or [] fallback = fallback
  cron_or (c ∷ raw) fallback = c ∷ raw

  unfoldable pub read_seal_config : Result SealConfig
  unfolding mode_env int_env cron_or
  read_seal_config = do
    let d = default_seal_config
    wait ← int_env (codes "SEAL_MAX_WAIT_MINUTES") d.max_wait_minutes 1
    size ← int_env (codes "SEAL_BATCH_SIZE") d.batch_size 1
    min_tx ← int_env (codes "SEAL_MIN_BALANCE_TX") d.min_balance_tx 0
    after ← int_env (codes "SEAL_FAILURE_BACKOFF_AFTER") d.failure_backoff_after 0
    ticks ← int_env (codes "SEAL_BACKOFF_MAX_TICKS") d.backoff_max_ticks 1
    minutes ← int_env (codes "SEAL_LOW_BALANCE_ALERT_MINUTES") d.low_balance_alert_minutes 1
    ok (record {
      mode = mode_env d.mode;
      cron = cron_or (trimmed (env.var (codes "SEAL_CRON"))) d.cron;
      max_wait_minutes = wait;
      batch_size = size;
      min_balance_tx = min_tx;
      failure_backoff_after = after;
      backoff_max_ticks = ticks;
      low_balance_alert_minutes = minutes;
    })

pub data SealTrigger : Type 0 where
  count age : SealTrigger

pub data SealSkipReason : Type 0 where
  idle in_flight backoff : SealSkipReason

-- An age is in microseconds, the precision of the database's clock; the source compares minutes.
pub record SealDecisionInput : Type 0 where
  pub pending_count : ℕ
  pub oldest_age : Option ℕ
  pub in_flight : Bool
  pub backoff_ticks_left : ℕ
  pub batch_size : ℕ
  pub max_wait_minutes : ℕ

pub data SealDecision : Type 0 where
  seal : SealTrigger → Bool → SealDecision
  skip : SealSkipReason → SealDecision

abbrev pub minute : ℕ
minute = 60000000

is_due : Option ℕ → ℕ → Bool
is_due none wait = false
is_due (some age') wait = leb (wait * minute) age'

unfoldable pub decide_seal : SealDecisionInput → SealDecision
unfolding is_due
decide_seal i =
    if i.in_flight
    then skip in_flight
    else if ltb 0 i.backoff_ticks_left
    then skip backoff
    else if i.pending_count == 0
    then skip idle
    else if is_due i.oldest_age i.max_wait_minutes
    then seal age true
    else if leb i.batch_size i.pending_count
    then seal count false
    else skip idle
