-- ===== src/Backoff/Examples.antt =====
-- The theorem on retries at concrete inputs.
use rust_tap.Common.{ℕ, zero, suc, ◌<◌, ◌≡◌, refl, arith, [], ◌∷◌, Result, ok, err}
use rust_tap.Backoff.{BackoffCfg, default_cfg, delay_for_attempt, with_backoff}
use rust_tap.Backoff.Delays.{delays_from, with_backoff-delay_for_attempt}

abbrev cfg : BackoffCfg
cfg = record { initial_backoff = 2; max_backoff = 60; max_retries = 5 }

-- Fails twice.
abbrev op : ℕ → Result ℕ ℕ
op zero = err 1
op (suc zero) = err 2
op (suc (suc n)) = ok 42

fails : (j : ℕ) → j < 2 → (e : ℕ) × (op j ≡ err e)
fails zero h = (1, refl)
fails (suc zero) h = (2, refl)
fails (suc (suc n)) h = absurd (omega (arith, h))

slept : with_backoff cfg op ≡ (ok 42, 2 ∷ 4 ∷ [])
unfolding with_backoff
slept = refl

capped : delay_for_attempt default_cfg 7 ≡ 60_000_000_000
unfolding delay_for_attempt default_cfg
capped = refl

-- Without retries the closure is called once, behind the loop.
no_retries :
    with_backoff (record { initial_backoff = 2; max_backoff = 60; max_retries = 0 }) op
    ≡ (err 1, [])
unfolding with_backoff
no_retries = refl

-- The first delay is not capped.
first_delay :
    delay_for_attempt (record { initial_backoff = 90; max_backoff = 60; max_retries = 3 }) 0 ≡ 90
unfolding delay_for_attempt
first_delay = refl

with_backoff-delay_for_attempt_example : with_backoff cfg op ≡ (ok 42, delays_from cfg 0 2)
with_backoff-delay_for_attempt_example =
    with_backoff-delay_for_attempt cfg op 2 42 (omega arith) fails refl
