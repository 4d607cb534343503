-- ===== src/Backoff/Delays.antt =====
-- The calls and the delays of a retry that succeeds.
use rust_tap.Common.{
  ℕ, zero, suc, ◌+◌, ◌*◌, min, ◌<◌, ◌≤◌, ◌≡◌, refl, sym, ap, ◌∙◌, arith, false, List, [], ◌∷◌,
  Result, ok, err, leb,
}
unfoldable use rust_tap.Backoff.{delay_loop, delay_for_attempt, retry_loop, with_backoff}
use rust_tap.Backoff.{BackoffCfg}

-- The delay after `delay`.
abbrev next_delay : BackoffCfg → ℕ → ℕ
next_delay cfg delay = min (delay * 2) cfg.max_backoff

delay_loop-next :
    (cfg : BackoffCfg) (n delay : ℕ)
    → delay_loop cfg (suc n) delay ≡ next_delay cfg (delay_loop cfg n delay)
unfolding delay_loop
delay_loop-next cfg zero delay = refl
delay_loop-next cfg (suc n) delay = delay_loop-next cfg n (next_delay cfg delay)

delay_for_attempt-next :
    (cfg : BackoffCfg) (n : ℕ)
    → next_delay cfg (delay_for_attempt cfg n) ≡ delay_for_attempt cfg (n + 1)
unfolding delay_for_attempt
delay_for_attempt-next cfg n =
    let up : suc n ≡ n + 1 = omega arith in
    sym (delay_loop-next cfg n cfg.initial_backoff)
    ∙ ap (λ k. delay_loop cfg k cfg.initial_backoff) up

-- The delays for the attempts from `attempt` on.
unfoldable pub delays_from : BackoffCfg → ℕ → ℕ → List ℕ
delays_from cfg attempt zero = []
delays_from cfg attempt (suc n) = delay_for_attempt cfg attempt ∷ delays_from cfg (attempt + 1) n

module _ {A E : Type 0} (cfg : BackoffCfg) (op : ℕ → Result A E) where
  retry_loop-delays :
      (n rounds attempt : ℕ) (val : A)
      → attempt + rounds ≡ cfg.max_retries
      → n < rounds
      → ((j : ℕ) → attempt ≤ j → j < attempt + n → (e : E) × (op j ≡ err e))
      → op (attempt + n) ≡ ok val
      → retry_loop cfg op rounds attempt (delay_for_attempt cfg attempt)
        ≡ (ok val, delays_from cfg attempt n)
  unfolding retry_loop delays_from
  retry_loop-delays n zero attempt val total few fails done = absurd (omega (arith, few))
  retry_loop-delays zero (suc rounds) attempt val total few fails done =
      let here : op attempt ≡ ok val = ap op (omega arith) ∙ done in rw (retry_loop, here) refl
  retry_loop-delays (suc n) (suc rounds) attempt val total few fails done =
      let (e, failed) = fails attempt (omega arith) (omega arith) in
      let more : leb cfg.max_retries (attempt + 1) ≡ false = ground (arith, total, few) in
      let later =
        retry_loop-delays n rounds (attempt + 1) val (omega (arith, total)) (omega (arith, few))
          (λ j low high. fails j (omega (arith, low)) (omega (arith, high)))
          (ap op (omega arith) ∙ done) in
      rw (retry_loop, failed, more, delay_for_attempt-next cfg attempt, later) refl

  -- When the first calls of the closure fail and the call after `n` failures succeeds, with `n` below
  -- the number of retries, `with_backoff` returns that success, after sleeping the delays that
  -- `delay_for_attempt` gives for the attempts 0 to `n - 1`.
  pub with_backoff-delay_for_attempt :
      (n : ℕ) (val : A)
      → n < cfg.max_retries
      → ((j : ℕ) → j < n → (e : E) × (op j ≡ err e))
      → op n ≡ ok val
      → with_backoff cfg op ≡ (ok val, delays_from cfg 0 n)
  unfolding with_backoff delay_for_attempt
  with_backoff-delay_for_attempt n val few fails done =
      retry_loop-delays n cfg.max_retries 0 val (omega arith) few
        (λ j low high. fails j (omega (arith, high))) (ap op (omega arith) ∙ done)
