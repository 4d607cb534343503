-- ===== src/Rfq/Manager/Runs.antt =====
-- Sequences of calls of the quote manager.
use rust_tap.Common.{ℕ, ◌+◌, ◌^◌, ◌<◌, ◌≡◌, Option, none, some, List, Result, ok, err}
use rust_tap.Rfq.Keyed.{Key, get}
use rust_tap.Rfq.Manager.{
  QuoteManager, PriceOracle, RfqBuyRequest, RfqSellRequest, RfqAccept, RfqReject, AcceptWire,
}
use rust_tap.Rfq.Manager.{with_max_quotes_per_peer}
unfoldable use rust_tap.Rfq.Manager.Quotes.{
  create_buy_request, create_sell_request, handle_buy_request, handle_sell_request,
}
unfoldable use rust_tap.Rfq.Manager.Quotes.{handle_buy_accept, handle_sell_accept, handle_reject}
unfoldable use rust_tap.Rfq.Manager.Tracking.{
  quote_used_msat, admit_htlc, untrack_htlc, prune_expired,
}

-- The calls that change the state. The draws are those of the random number generator.
pub data Call : Type 0 where
  create_buy : Key → ℕ → Key → ℕ → List Key → Call
  create_sell : Key → ℕ → Key → ℕ → List Key → Call
  buy_request : RfqBuyRequest → Key → ℕ → ℕ → Call
  sell_request : RfqSellRequest → Key → ℕ → ℕ → Call
  buy_accept : RfqAccept → Key → ℕ → Call
  sell_accept : RfqAccept → Key → ℕ → Call
  reject : RfqReject → Key → Call
  admit : Key → Key → ℕ → Call
  untrack : Key → Call
  prune : ℕ → Call

-- The state after a call that may fail, or give nothing, and then changes nothing.
abbrev pub after_option {ℓ} : {A : Type ℓ} → QuoteManager → Option (QuoteManager × A) → QuoteManager
after_option m none = m
after_option m (some r) = r.0

abbrev pub after_result {ℓ κ} :
    {A : Type ℓ} {E : Type κ} → QuoteManager → Result (QuoteManager × A) E → QuoteManager
after_result m (err e) = m
after_result m (ok r) = r.0

abbrev pub after {κ} : {E : Type κ} → QuoteManager → Result QuoteManager E → QuoteManager
after m (err e) = m
after m (ok m') = m'

module _ (wire : AcceptWire) where
  unfoldable pub run : Call → QuoteManager → QuoteManager
  unfolding create_buy_request create_sell_request handle_buy_request handle_sell_request
      handle_buy_accept handle_sell_accept handle_reject admit_htlc untrack_htlc prune_expired
  run (create_buy asset max peer now draws) m =
      after_option m (create_buy_request m asset max peer now draws)
  run (create_sell asset max peer now draws) m =
      after_option m (create_sell_request m asset max peer now draws)
  run (buy_request request peer now lifetime) m =
      (handle_buy_request wire m request peer now lifetime).0
  run (sell_request request peer now lifetime) m =
      (handle_sell_request wire m request peer now lifetime).0
  run (buy_accept accept peer now) m = after_result m (handle_buy_accept m accept peer now)
  run (sell_accept accept peer now) m = after_result m (handle_sell_accept m accept peer now)
  run (reject r peer) m = after m (handle_reject m r peer)
  run (admit quote_id htlc amt) m = after m (admit_htlc m quote_id htlc amt)
  run (untrack htlc) m = untrack_htlc m htlc
  run (prune now) m = prune_expired m now

  -- What the calls reach from a new manager, where each call meets `P` in the state it is made in.
  pub data Reach (P : QuoteManager → Call → Type 0) : QuoteManager → Type 0 where
    start : (oracle : PriceOracle) (limit : ℕ) → Reach P (with_max_quotes_per_peer oracle limit)
    step : {m : QuoteManager} → Reach P m → (c : Call) → P m c → Reach P (run c m)

-- The amounts in flight against one quote stay below 2 ^ 64.
unfoldable pub IsUnsaturated : QuoteManager → Call → Type 0
IsUnsaturated m (admit quote_id htlc amt) = quote_used_msat m quote_id + amt < 2 ^ 64
IsUnsaturated m _ = Unit {0}

abbrev pub IsFree : QuoteManager → Key → Type 0
IsFree m id = (get id m.buy_quotes ≡ none) × (get id m.sell_quotes ≡ none)

-- A request or an accept has an id under which there is no quote.
unfoldable pub HasFreeId : QuoteManager → Call → Type 0
HasFreeId m (buy_request request peer now lifetime) = IsFree m request.buy_id
HasFreeId m (sell_request request peer now lifetime) = IsFree m request.sell_id
HasFreeId m (buy_accept accept peer now) = IsFree m accept.accept_id
HasFreeId m (sell_accept accept peer now) = IsFree m accept.accept_id
HasFreeId m _ = Unit {0}
