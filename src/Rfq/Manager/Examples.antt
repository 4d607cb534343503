-- ===== src/Rfq/Manager/Examples.antt =====
-- The theorems on the quote manager at concrete inputs.
use rust_tap.Common.{
  ◌≡◌, refl, arith, true, Option, none, some, List, [], ◌∷◌, All, ltb, Result, ok, err, bytes_eq,
}
use mathlib.Core.List.{Memᴰ}
use rust_tap.Rfq.Keyed.{Key, get, kept_of}
use rust_tap.Rfq.FixedPoint.{FixedPoint, units_to_milli_satoshi, pow10, checked_mul, try_u64}
use rust_tap.Rfq.Manager.{
  QuoteManager, PriceOracle, AcceptedQuote, AcceptWire, RfqBuyRequest, RfqAccept, RfqError,
  with_max_quotes_per_peer, get_quote,
}
use rust_tap.Rfq.Manager.{quote_amount_exceeded, next_quote_id}
use rust_tap.Rfq.Manager.Quotes.{handle_buy_accept}
use rust_tap.Rfq.Manager.Tracking.{quote_used_msat, check_htlc_amount, prune_expired}
use rust_tap.Rfq.Manager.Accounting.{IsAccounted}
use rust_tap.Rfq.Manager.Capped.{IsCapped}
use rust_tap.Rfq.Manager.Runs.{
  Reach, run, start, step, IsUnsaturated, HasFreeId, Call, buy_request, admit, create_buy,
  buy_accept, prune,
}
use rust_tap.Rfq.Manager.Reachable.{Reach-IsAccounted, Reach-IsCapped}
use rust_tap.Rfq.Manager.Taken.{TakesBuy, handle_buy_accept-TakesBuy}
use rust_tap.Rfq.Manager.Answered.{
  Unanswerable, DrawsOther, run_all, handle_buy_accept-Unanswerable,
}
use rust_tap.Rfq.Manager.Expiry.{HasNothing, next_quote_id-HasNothing, get_quote-prune_expired}

abbrev rate : FixedPoint
rate = record { coefficient = 100_000; scale = 0 }

abbrev oracle : PriceOracle
oracle = record { ask_price = λ id amount. ok rate; bid_price = λ id amount. ok rate }

abbrev wire : AcceptWire
wire = record { encode_buy_accept = λ a. ok []; encode_sell_accept = λ a. ok [] }

abbrev empty : QuoteManager
empty = with_max_quotes_per_peer oracle 2

abbrev request : Key → RfqBuyRequest
request id = record {
  buy_id = id;
  buy_asset_id = 5 ∷ [];
  asset_max_amount = 3;
  buy_group_key = none;
  buy_expiry = 900;
  buy_rate_hint = none;
}

-- Three units at 100,000 units for a bitcoin are 3,000,000 msat.
abbrev quoted : QuoteManager
quoted = run wire (buy_request (request (1 ∷ [])) (9 ∷ []) 100 600) empty

abbrev busy : QuoteManager
busy = run wire (admit (1 ∷ []) (7 ∷ []) 2_000_000) quoted

used_run : quote_used_msat busy (1 ∷ []) ≡ 2_000_000
unfolding run with_max_quotes_per_peer quote_used_msat bytes_eq units_to_milli_satoshi pow10
    checked_mul try_u64
used_run = refl

over_run :
    check_htlc_amount busy (1 ∷ []) 1_000_001
    ≡ err (quote_amount_exceeded (1 ∷ []) 2_000_000 1_000_001 3_000_000)
unfolding run with_max_quotes_per_peer check_htlc_amount quote_used_msat bytes_eq
    units_to_milli_satoshi pow10 checked_mul try_u64
over_run = refl

-- A request of another peer under the id of a quote takes its place.
abbrev replaced : QuoteManager
replaced = run wire (buy_request (request (1 ∷ [])) (8 ∷ []) 100 600) busy

abbrev peer_of : Option AcceptedQuote → Key
peer_of none = []
peer_of (some q) = q.peer

replaced_run : peer_of (get_quote replaced (1 ∷ [])) ≡ 8 ∷ []
unfolding run with_max_quotes_per_peer get_quote bytes_eq units_to_milli_satoshi pow10 checked_mul
    try_u64
replaced_run = refl

busy-Reach : Reach wire IsUnsaturated busy
unfolding IsUnsaturated run with_max_quotes_per_peer quote_used_msat
busy-Reach =
    step (step (start oracle 2) (buy_request (request (1 ∷ [])) (9 ∷ []) 100 600) tt)
      (admit (1 ∷ []) (7 ∷ []) 2_000_000) (omega arith)

Reach-IsAccounted_example : IsAccounted busy
Reach-IsAccounted_example = Reach-IsAccounted wire busy busy-Reach

busy-Reach_free : Reach wire HasFreeId busy
unfolding HasFreeId with_max_quotes_per_peer get
busy-Reach_free =
    step (step (start oracle 2) (buy_request (request (1 ∷ [])) (9 ∷ []) 100 600) (refl, refl))
      (admit (1 ∷ []) (7 ∷ []) 2_000_000) tt

Reach-IsCapped_example : IsCapped busy
Reach-IsCapped_example = Reach-IsCapped wire busy busy-Reach_free

abbrev asked : QuoteManager
asked = run wire (create_buy (5 ∷ []) 3 (9 ∷ []) 100 ((1 ∷ []) ∷ [])) empty

abbrev answer : RfqAccept
answer = record {
  accept_id = 1 ∷ [];
  asset_rate = rate;
  accept_expiry = 700;
  sig = [];
  max_in_asset = some 2;
}

abbrev value : Result (QuoteManager × AcceptedQuote) RfqError → QuoteManager × AcceptedQuote
value (ok r) = r
value (err e) = (
  empty,
  record {
    id = [];
    asset_id = [];
    rate = rate;
    expiry = 0;
    peer = [];
    is_buy = true;
    max_amount_msat = 0;
  },
)

abbrev taken : QuoteManager × AcceptedQuote
taken = value (handle_buy_accept asked answer (9 ∷ []) 150)

taken_run : handle_buy_accept asked answer (9 ∷ []) 150 ≡ ok taken
unfolding handle_buy_accept run with_max_quotes_per_peer bytes_eq units_to_milli_satoshi pow10
    checked_mul try_u64
taken_run = refl

taken_max : taken.1.max_amount_msat ≡ 2_000_000
unfolding handle_buy_accept run with_max_quotes_per_peer bytes_eq units_to_milli_satoshi pow10
    checked_mul try_u64
taken_max = refl

handle_buy_accept-TakesBuy_example : TakesBuy asked answer (9 ∷ []) 150 taken
handle_buy_accept-TakesBuy_example =
    handle_buy_accept-TakesBuy asked answer (9 ∷ []) 150 taken taken_run

abbrev later_calls : List Call
later_calls =
    create_buy (5 ∷ []) 3 (9 ∷ []) 160 ((2 ∷ []) ∷ [])
    ∷ buy_accept answer (9 ∷ []) 170
    ∷ prune 175
    ∷ []

later_draws : All (DrawsOther (1 ∷ [])) later_calls
unfolding DrawsOther
later_draws = ((λ e. cc e, tt), (tt, (tt, tt)))

handle_buy_accept-Unanswerable_example : Unanswerable (run_all wire later_calls taken.0) (1 ∷ [])
handle_buy_accept-Unanswerable_example =
    handle_buy_accept-Unanswerable wire asked answer (9 ∷ []) 150 taken later_calls taken_run
      later_draws

two_is_free : HasNothing busy (2 ∷ [])
unfolding run with_max_quotes_per_peer get bytes_eq units_to_milli_satoshi pow10 checked_mul try_u64
two_is_free = record { no_buy = refl; no_sell = refl; no_request = refl }

next_quote_id-HasNothing_example :
    (found : Key) × (next_quote_id busy ((1 ∷ []) ∷ (2 ∷ []) ∷ []) ≡ some found)
    × Memᴰ found ((1 ∷ []) ∷ (2 ∷ []) ∷ [])
    × HasNothing busy found
next_quote_id-HasNothing_example =
    next_quote_id-HasNothing busy ((1 ∷ []) ∷ []) (2 ∷ []) [] two_is_free

get_quote-prune_expired_example :
    get_quote (prune_expired busy 800) (1 ∷ [])
    ≡ kept_of (λ k q. ltb 800 q.expiry) (1 ∷ []) (get_quote busy (1 ∷ []))
get_quote-prune_expired_example = get_quote-prune_expired busy 800 (1 ∷ []) Reach-IsCapped_example
