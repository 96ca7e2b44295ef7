-- ===== src/Errors.antt =====
-- Thrown values and fallible calls, as the service code reads them; src/common/process/
-- unhandled-rejection.ts tells the errors of ethers from others.
use logchain.Prelude.{Bool, true, false, ◌&&◌, Option, none, some, Text, codes, ◌++◌, is_some}

-- The fields of a thrown value that the code looks at. `none` is a field that is no string;
-- `printed` is what `String` makes of the value.
pub record Thrown : Type 0 where
  pub code : Option Text
  pub short_message : Option Text
  pub reason : Option Text
  pub revert_arg : Option Text
  pub message : Option Text
  pub printed : Text

-- `new Error(message)`
abbrev pub plain_error : Text → Thrown
plain_error m = record {
  code = none;
  short_message = none;
  reason = none;
  revert_arg = none;
  message = some m;
  printed = codes "Error: " ++ m;
}

pub data Result {ℓ} (A : Type ℓ) : Type ℓ where
  ok : A → Result A
  err : Thrown → Result A

infixl 5 ◌>>=◌
abbrev pub ◌>>=◌ {ℓ κ} : {A : Type ℓ} {B : Type κ} → Result A → (A → Result B) → Result B
ok a >>= f = f a
err e >>= f = err e

-- `await` on a call that may throw, where the rest cannot: only the value changes.
abbrev pub is_ok {ℓ} : {A : Type ℓ} → Result A → Bool
is_ok (ok a) = true
is_ok (err e) = false

unfoldable pub is_ethers_error : Thrown → Bool
is_ethers_error e = is_some e.code && is_some e.short_message
