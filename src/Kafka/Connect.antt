-- ===== src/Kafka/Connect.antt =====
-- `connectLoop` of src/kafka/kafka-producer.service.ts and the backoff that it shares with
-- src/kafka/kafka-consumer.service.ts.
use logchain.Prelude.{
  ℕ, zero, suc, ◌-◌, ◌*◌, ◌^◌, ◌≤◌, min, Bool, true, false, ◌||◌, List, [], ◌∷◌, if_both,
  if◌then◌else◌, arith,
}
use native.Mathlib.Numerals.{unary_clauses}
use logchain.Kafka.Outbox.{Outbox}

-- `Math.min(base * 2 ** (attempt - 1), max)`
unfoldable pub backoff_ms : ℕ → ℕ → ℕ → ℕ
backoff_ms base limit attempt = min (base * 2 ^ (attempt - 1)) limit

-- One attempt: a shutdown before it, whether it succeeds, and a shutdown while it runs.
pub record ConnectAnswer : Type 0 where
  pub shutdown_before : Bool
  pub connects : Bool
  pub shutdown_after : Bool

-- The delays that are slept, and the service afterwards, as far as the answers go. The replay that a
-- connection starts is `drain_pending`.
unfoldable pub connect_loop : ℕ → ℕ → List ConnectAnswer → ℕ → Outbox → List ℕ × Outbox
unfolding backoff_ms
connect_loop base limit [] attempt s = ([], s)
connect_loop base limit (a ∷ answers) attempt s =
    let entered = record s { shutting_down = s.shutting_down || a.shutdown_before } in
    let failed = record entered { shutting_down = entered.shutting_down || a.shutdown_after } in
    let (delays, after) = connect_loop base limit answers (suc attempt) failed in
    if entered.shutting_down
    then ([], entered)
    else if a.connects
    then ([], record failed { is_connected = true; queued_warned = false })
    else if failed.shutting_down
    then ([], failed)
    else (backoff_ms base limit attempt ∷ delays, after)

-- No delay is above the limit, none is below the one before, and all are at least `least`.
abbrev pub IsBackoff : ℕ → ℕ → List ℕ → Type 0
IsBackoff limit least [] = Unit
IsBackoff limit least (d ∷ ds) = (d ≤ limit) × (least ≤ d) × IsBackoff limit d ds

min-le : (x y l : ℕ) → x ≤ y → min x l ≤ min y l
min-le x y l h = omega (arith, h)

mul-le : (b x y : ℕ) → x ≤ y → b * x ≤ b * y
mul-le zero x y h = omega arith
mul-le (suc b) x y h = omega (arith, h, mul-le b x y h)

backoff_ms-suc :
    (base limit n : ℕ) → backoff_ms base limit (suc n) ≤ backoff_ms base limit (suc (suc n))
unfolding backoff_ms
backoff_ms-suc base limit n = simp unary_clauses (
    min-le (base * 2 ^ n) (base * (2 ^ n * 2)) limit
      (mul-le base (2 ^ n) (2 ^ n * 2) (omega arith)))

backoff_ms-le : (base limit attempt : ℕ) → backoff_ms base limit attempt ≤ limit
unfolding backoff_ms
backoff_ms-le base limit attempt = omega arith

abbrev failed_of : ConnectAnswer → Outbox → Outbox
failed_of a s = record s {
  shutting_down = (s.shutting_down || a.shutdown_before) || a.shutdown_after;
}

lower : (limit m n : ℕ) (ds : List ℕ) → m ≤ n → IsBackoff limit n ds → IsBackoff limit m ds
lower limit m n [] h b = tt
lower limit m n (d ∷ ds) h b = (b.0, omega (arith, h, b.1), b.2)

first_backoff : (base limit : ℕ) → min base limit ≤ backoff_ms base limit 1
unfolding backoff_ms
first_backoff base limit = omega arith

connect_loop-from :
    (base limit n : ℕ) (answers : List ConnectAnswer) (s : Outbox)
    → IsBackoff limit (backoff_ms base limit (suc n)) (connect_loop base limit answers (suc n) s).0
unfolding connect_loop
connect_loop-from base limit n [] s = tt
connect_loop-from base limit n (a ∷ answers) s =
    if_both P entered.shutting_down _ _ (λ y. tt)
      (λ k.
        if_both P a.connects _ _ (λ y. tt)
          (λ l.
            if_both P failed.shutting_down _ _ (λ y. tt)
              (λ m. (
                backoff_ms-le base limit (suc n),
                omega arith,
                lower limit (backoff_ms base limit (suc n)) (backoff_ms base limit (suc (suc n)))
                    (connect_loop base limit answers (suc (suc n)) failed).0
                    (backoff_ms-suc base limit n)
                    (connect_loop-from base limit (suc n) answers (failed_of a s)),
              ))))
  where
    P : List ℕ × Outbox → Type 0
    P r = IsBackoff limit (backoff_ms base limit (suc n)) r.0

    entered : Outbox
    entered = record s { shutting_down = s.shutting_down || a.shutdown_before }

    failed : Outbox
    failed = failed_of a s

-- Whatever the attempts to connect give and whenever the service shuts down: the delays between them
-- never shrink, the first is at least one base or the limit, and none is above the limit.
connect_loop-IsBackoff :
    (base limit : ℕ) (answers : List ConnectAnswer) (s : Outbox)
    → IsBackoff limit (min base limit) (connect_loop base limit answers 1 s).0
connect_loop-IsBackoff base limit answers s =
    lower limit (min base limit) (backoff_ms base limit 1) _ (first_backoff base limit)
      (connect_loop-from base limit 0 answers s)
