-- ===== src/SealConfig/Examples.antt =====
-- The theorems on the settings at a concrete environment and a concrete decision.
use logchain.Prelude.{
  ◌≡◌, refl, ◌<◌, ◌≤◌, ◌⊎◌, ℕ, true, false, none, some, [], ◌∷◌, Option, Text, codes, text_eq,
  if◌then◌else◌,
}
use logchain.Errors.{ok}
use logchain.SealConfig.{
  default_seal_config, Environment, read_seal_config, count, age, idle, in_flight, backoff,
  SealDecisionInput, seal, skip, decide_seal,
}
use logchain.SealConfig.Valid.{
  IsUsable, read_seal_config-IsUsable, IsOverdue, IsFree, decide_seal-decides,
}

number : Text → Option ℕ
unfolding text_eq
number t = if text_eq t (codes "25") then some 25 else none

-- SEAL_BATCH_SIZE=" 25 "
abbrev env : Environment
env = record {
  var = λ k. if text_eq k (codes "SEAL_BATCH_SIZE") then some (codes " 25 ") else none;
  integer = number;
}

read_seal_config_run : read_seal_config env ≡ ok (record default_seal_config { batch_size = 25 })
unfolding read_seal_config number text_eq logchain.Prelude.trim logchain.LogHash.to_lower
read_seal_config_run = refl

read_seal_config-IsUsable_example : IsUsable (record default_seal_config { batch_size = 25 })
read_seal_config-IsUsable_example =
    read_seal_config-IsUsable env (record default_seal_config { batch_size = 25 })
      read_seal_config_run

abbrev waiting : SealDecisionInput
waiting = record {
  pending_count = 120;
  oldest_age = some 5;
  in_flight = false;
  backoff_ticks_left = 0;
  batch_size = 100;
  max_wait_minutes = 60;
}

decide_seal_run : decide_seal waiting ≡ seal count false
unfolding decide_seal
decide_seal_run = refl

decide_seal-decides_example :
    ((decide_seal waiting ≡ skip in_flight) × (waiting.in_flight ≡ true))
    ⊎ ((decide_seal waiting ≡ skip backoff)
        × (waiting.in_flight ≡ false)
        × (0 < waiting.backoff_ticks_left))
    ⊎ ((decide_seal waiting ≡ seal age true)
        × IsFree waiting
        × (0 < waiting.pending_count)
        × IsOverdue waiting.oldest_age waiting.max_wait_minutes)
    ⊎ ((decide_seal waiting ≡ seal count false)
        × IsFree waiting
        × ¬ IsOverdue waiting.oldest_age waiting.max_wait_minutes
        × (waiting.batch_size ≤ waiting.pending_count))
    ⊎ ((decide_seal waiting ≡ skip idle)
        × IsFree waiting
        × ((waiting.pending_count ≡ 0)
            ⊎ (¬ IsOverdue waiting.oldest_age waiting.max_wait_minutes
                × (waiting.pending_count < waiting.batch_size))))
decide_seal-decides_example = decide_seal-decides waiting
