-- ===== src/Rfq/Intercept/Outcomes.antt =====
-- When an intercepted asset HTLC is forwarded under a quote, when it is failed back, and what stands
-- in the quote manager afterwards.
use rust_tap.Common.{ℕ, ◌+◌, ◌%◌, ◌^◌, ◌≤◌, ◌<◌, ◌≡◌, refl, max, none, some}
use rust_tap.Common.{[], ◌∷◌, inl, inr, ok, err, sum_of}
use rust_tap.Common.{List, Result, Result-cases}
use rust_tap.Rfq.FixedPoint.{FixedPoint, units_to_milli_satoshi}
use rust_tap.Rfq.Keyed.{Key, get}
use rust_tap.Rfq.Manager.{QuoteManager, AcceptedQuote, get_quote}
unfoldable use rust_tap.Rfq.Manager.Tracking.{quote_used_msat}
use rust_tap.Rfq.Manager.Tracking.{track_accepted_htlc}
use rust_tap.Rfq.Intercept.Tracked.{track_entry, track_used, untrack_track}
use rust_tap.Rfq.Intercept.{
  AssetBalance, AssetHtlcData, LdkChannelOps, InterceptFault, Outcome, forward_call, fail_call,
  ldk_failed, default_on_chain_htlc_msat,
}
unfoldable use rust_tap.Rfq.Intercept.{forward_tracked, handle_intercepted_htlc}

-- All units that the HTLC carries, as a `u64`.
abbrev pub units_of : AssetHtlcData → ℕ
units_of d = sum_of (λ (b : AssetBalance). b.balance_amount) d.balances % 2 ^ 64

-- What the units are worth at the rate; no units are worth nothing.
pub data IsValue (units : ℕ) (rate : FixedPoint) (value_msat : ℕ) : Type 0 where
  nothing : units ≡ 0 → value_msat ≡ 0 → IsValue units rate value_msat
  converted :
      0 < units → units_to_milli_satoshi units rate ≡ ok value_msat → IsValue units rate value_msat

-- The HTLC may be forwarded under the quote: it names it, the quote is there and has not expired, and
-- the value of the units and what is in use already are within the maximum.
pub record Admits (m : QuoteManager) (d : AssetHtlcData) (now : ℕ) (id : Key)
    (quote : AcceptedQuote) (value_msat : ℕ) : Type 0 where
  pub named : d.rfq_id ≡ some id
  pub quoted : get_quote m id ≡ some quote
  pub unexpired : now < quote.expiry
  pub value : IsValue (units_of d) quote.rate value_msat
  pub fits : quote_used_msat m id + value_msat ≤ quote.max_amount_msat

-- What the answer of LDK to the forward leaves behind.
pub data Settled (m : QuoteManager) (id htlc : Key) (value_msat : ℕ)
    (reply : Result (Unit {0}) (List ℕ)) (o : Outcome) : Type 0 where
  -- The HTLC is tracked, and its value is in use.
  accepted :
      reply ≡ ok tt
      → o.answer ≡ ok tt
      → get htlc o.rfq.tracked_htlcs ≡ some (id, value_msat)
      → quote_used_msat o.rfq id ≡ quote_used_msat m id + value_msat
      → Settled m id htlc value_msat reply o
  -- The HTLC is not tracked, and what is in use is as before.
  undone :
      (text : List ℕ)
      → reply ≡ err text
      → o.answer ≡ err (ldk_failed text)
      → get htlc o.rfq.tracked_htlcs ≡ none
      → ((k : Key) → quote_used_msat o.rfq k ≡ quote_used_msat m k)
      → Settled m id htlc value_msat reply o

module _ (ldk : LdkChannelOps) (m : QuoteManager) (d : AssetHtlcData) (htlc : Key) (scid : ℕ)
    (node : Key) (amt_msat now : ℕ) where
  abbrev pub forwarded_msat : ℕ → ℕ
  forwarded_msat value_msat = max value_msat default_on_chain_htlc_msat

  -- No quote admits the HTLC; it is failed back, nothing changes, and the answer is an error.
  pub record FailsBack (o : Outcome) : Type 0 where
    pub refused :
        (id : Key) (quote : AcceptedQuote) (value_msat : ℕ) → Admits m d now id quote value_msat → ⊥
    pub called : o.calls ≡ fail_call htlc ∷ []
    pub kept : o.rfq ≡ m
    pub fault : InterceptFault
    pub answered : o.answer ≡ err fault

  -- A quote admits the HTLC; it is forwarded with its value, and settled by the answer.
  pub record Forwards (o : Outcome) : Type 0 where
    pub id : Key
    pub quote : AcceptedQuote
    pub value_msat : ℕ
    pub admits : Admits m d now id quote value_msat
    pub called : o.calls ≡ forward_call htlc scid node (forwarded_msat value_msat) ∷ []
    pub settled :
        Settled m id htlc value_msat
          (ldk.forward_intercepted_htlc htlc scid node (forwarded_msat value_msat))
          o

  abbrev outcome : Outcome
  outcome = handle_intercepted_htlc ldk m (some d) htlc scid node amt_msat now

  settle :
      (id : Key) (v : ℕ)
      → get htlc m.tracked_htlcs ≡ none
      → quote_used_msat m id + v < 2 ^ 64
      → Settled m id htlc v
          (ldk.forward_intercepted_htlc htlc scid node (forwarded_msat v))
          (forward_tracked ldk (track_accepted_htlc m id htlc v) htlc scid node (forwarded_msat v))
  unfolding forward_tracked
  settle id v fresh small =
      elim (Result-cases (ldk.forward_intercepted_htlc htlc scid node (forwarded_msat v))) [
        | inl (u, e) ↦
            accepted e (rw (forward_tracked, e) refl)
              (rw (forward_tracked, e) (track_entry m id htlc v fresh small))
              (rw (forward_tracked, e) (track_used m id htlc v fresh small))
        | inr (text, e) ↦
            let (gone, as_before) = untrack_track m id htlc v fresh small in
            undone text e (rw (forward_tracked, e) refl) (rw (forward_tracked, e) gone)
              (λ k. rw (forward_tracked, e) (as_before k))
      ]
