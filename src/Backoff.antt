-- ===== src/Backoff.antt =====
-- tap-onchain/src/proof/backoff.rs: retries with exponential backoff.
pub mod Delays
mod Examples
use rust_tap.Common.{
  ℕ, zero, suc, ◌+◌, ◌*◌, min, Bool, List, [], ◌∷◌, Result, ok, err, leb, if◌then◌else◌,
}

-- The two durations are numbers of nanoseconds, without the bound of `Duration`, whose overflow panics.
pub record BackoffCfg : Type 0 where
  pub initial_backoff : ℕ
  pub max_backoff : ℕ
  pub max_retries : ℕ

unfoldable pub default_cfg : BackoffCfg
default_cfg = record {
  initial_backoff = 2_000_000_000;
  max_backoff = 60_000_000_000;
  max_retries = 2000;
}

-- `attempt` rounds.
unfoldable pub delay_loop : BackoffCfg → ℕ → ℕ → ℕ
delay_loop cfg zero delay = delay
delay_loop cfg (suc attempt) delay = delay_loop cfg attempt (min (delay * 2) cfg.max_backoff)

unfoldable pub delay_for_attempt : BackoffCfg → ℕ → ℕ
unfolding delay_loop
delay_for_attempt cfg attempt = delay_loop cfg attempt cfg.initial_backoff

module _ {A E : Type 0} (cfg : BackoffCfg) (op : ℕ → Result A E) where
  -- `op j` is what the call `j` of the closure gives. The loop from `attempt` on, with the rounds that
  -- are left: the result, and the delays that were slept.
  unfoldable pub retry_loop : ℕ → ℕ → ℕ → Result A E × List ℕ
  retry_loop zero attempt delay = (op attempt, [])
  retry_loop (suc rounds) attempt delay =
      let later = retry_loop rounds (attempt + 1) (min (delay * 2) cfg.max_backoff) in
      elim (op attempt) [
        | ok val ↦ (ok val, [])
        | err e ↦
            if leb cfg.max_retries (attempt + 1) then (err e, []) else (later.0, delay ∷ later.1)
      ]

  unfoldable pub with_backoff : Result A E × List ℕ
  unfolding retry_loop
  with_backoff = retry_loop cfg.max_retries 0 cfg.initial_backoff
