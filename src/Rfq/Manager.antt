-- ===== src/Rfq/Manager.antt =====
-- tap-ldk/src/rfq/manager.rs: the quote manager, its state and its helpers; and the messages of
-- tap-ldk/src/wire that it reads and writes.
pub mod Quotes
pub mod Tracking
pub mod Runs
pub mod Accepts
pub mod Taken
pub mod Accounting
pub mod Capped
pub mod Calls
pub mod Reachable
pub mod Answered
pub mod Expiry
mod Examples
use rust_tap.Common.{
  ℕ, ◌+◌, ◌-◌, ◌%◌, ◌^◌, min, Bool, true, false, not, ◌&&◌, ◌||◌, Option, none, some,
}
use rust_tap.Common.{
  List, [], ◌∷◌, Result, ok, err, ensure, ok_or, ◌>>=◌, ◌>>◌, unwrap_or, map_option,
}
use rust_tap.Common.{ltb, leb, ◌==◌, if◌then◌else◌, length, bytes_eq, replicate}
use rust_tap.Rfq.FixedPoint.{FixedPoint, FixedPointError}
unfoldable use rust_tap.Rfq.FixedPoint.{units_to_milli_satoshi}
use rust_tap.Rfq.Keyed.{Key, Keyed}
unfoldable use rust_tap.Rfq.Keyed.{get, has_key, insert_key, remove_key, retain}

abbrev pub default_quote_lifetime_secs : ℕ
default_quote_lifetime_secs = 600

abbrev pub max_pending_quotes_per_peer : ℕ
max_pending_quotes_per_peer = 100

-- A string of the oracle or of the signer, as its bytes.
pub data RfqError : Type 0 where
  quote_not_found : Key → RfqError
  quote_expired : Key → ℕ → ℕ → RfqError
  -- With the amount in use, the amount of the HTLC and the maximum.
  quote_amount_exceeded : Key → ℕ → ℕ → ℕ → RfqError
  request_not_found : Key → RfqError
  -- With the peer that was asked, and the one that answered.
  peer_mismatch : Key → Key → Key → RfqError
  request_type_mismatch : Key → RfqError
  oracle_error : List ℕ → RfqError
  unsupported_asset : Key → RfqError
  peer_quote_limit_exceeded : Key → ℕ → RfqError
  signing_error : List ℕ → RfqError

-- The trait `PriceOracle`.
pub record PriceOracle : Type 0 where
  pub ask_price : Key → ℕ → Result FixedPoint RfqError
  pub bid_price : Key → ℕ → Result FixedPoint RfqError

-- The trait `AcceptSigner`: its one method.
abbrev pub AcceptSigner : Type 0
AcceptSigner = List ℕ → Result (List ℕ) RfqError

pub record AcceptedQuote : Type 0 where
  pub id : Key
  pub asset_id : Key
  pub rate : FixedPoint
  pub expiry : ℕ
  pub peer : Key
  pub is_buy : Bool
  pub max_amount_msat : ℕ

pub record PendingRequest : Type 0 where
  pub request_id : Key
  pub request_asset_id : Key
  pub request_peer : Key
  pub request_is_buy : Bool
  pub max_amount : ℕ
  pub created_at : ℕ

pub record RfqBuyRequest : Type 0 where
  pub buy_id : Key
  pub buy_asset_id : Key
  pub asset_max_amount : ℕ
  pub buy_group_key : Option (List ℕ)
  pub buy_expiry : ℕ
  pub buy_rate_hint : Option FixedPoint

pub record RfqSellRequest : Type 0 where
  pub sell_id : Key
  pub sell_asset_id : Key
  pub payment_max_amt_msat : ℕ
  pub sell_group_key : Option (List ℕ)
  pub sell_expiry : ℕ
  pub sell_rate_hint : Option FixedPoint

-- `RfqBuyAccept` and `RfqSellAccept`, which have the same fields.
pub record RfqAccept : Type 0 where
  pub accept_id : Key
  pub asset_rate : FixedPoint
  pub accept_expiry : ℕ
  pub sig : List ℕ
  pub max_in_asset : Option ℕ

pub data RejectCode : Type 0 where
  price_oracle_unspecified : RejectCode
  price_oracle_unavailable : RejectCode
  min_fill_not_met : RejectCode
  price_bound_miss : RejectCode
  fok_not_viable : RejectCode
  fill_exceeds_max : RejectCode

-- What the message of a reject says.
pub data RejectMessage : Type 0 where
  limit_exceeded : ℕ → RejectMessage
  price_failed : RfqError → RejectMessage
  other : List ℕ → RejectMessage

pub record RfqReject : Type 0 where
  pub reject_id : Key
  pub code : RejectCode
  pub message : RejectMessage

-- `to_wire().encode()` of tap-ldk/src/wire, for the two accepts.
pub record AcceptWire : Type 0 where
  pub encode_buy_accept : RfqAccept → Result (List ℕ) (Unit {0})
  pub encode_sell_accept : RfqAccept → Result (List ℕ) (Unit {0})

unfoldable pub is_valid : AcceptedQuote → ℕ → Bool
is_valid q now = ltb now q.expiry

unfoldable pub unit_max_to_msat_cap : ℕ → FixedPoint → ℕ
unit_max_to_msat_cap max_units rate = elim (units_to_milli_satoshi max_units rate) [
  | ok amt ↦ amt
  | err e ↦ 0
]

unfoldable pub effective_max : ℕ → Option ℕ → ℕ
effective_max requested_max none = requested_max
effective_max requested_max (some fill) = min fill requested_max

-- `saturating_add` on `u64`.
abbrev pub saturating_add : ℕ → ℕ → ℕ
saturating_add a b = min (a + b) (2 ^ 64 - 1)

-- `+` on `u64`.
abbrev pub add_wrapping : ℕ → ℕ → ℕ
add_wrapping a b = (a + b) % 2 ^ 64

pub record QuoteManager : Type 0 where
  pub oracle : PriceOracle
  pub buy_quotes : Keyed AcceptedQuote
  pub sell_quotes : Keyed AcceptedQuote
  pub pending_requests : Keyed PendingRequest
  pub max_quotes_per_peer : ℕ
  pub signer : Option AcceptSigner
  -- Under the id of the HTLC: the id of its quote, and its amount.
  pub tracked_htlcs : Keyed (Key × ℕ)
  pub used_msat : Keyed ℕ

unfoldable pub new : PriceOracle → QuoteManager
new oracle = record {
  oracle = oracle;
  buy_quotes = [];
  sell_quotes = [];
  pending_requests = [];
  max_quotes_per_peer = max_pending_quotes_per_peer;
  signer = none;
  tracked_htlcs = [];
  used_msat = [];
}

unfoldable pub with_max_quotes_per_peer : PriceOracle → ℕ → QuoteManager
unfolding new
with_max_quotes_per_peer oracle limit = record (new oracle) { max_quotes_per_peer = limit }

unfoldable pub set_accept_signer : QuoteManager → AcceptSigner → QuoteManager
set_accept_signer m signer = record m { signer = some signer }

abbrev pub is_unused : QuoteManager → Key → Bool
is_unused m id =
    not (has_key id m.buy_quotes)
    && not (has_key id m.sell_quotes)
    && not (has_key id m.pending_requests)

-- The loop over the draws of the random number generator, as far as `draws` goes.
unfoldable pub next_quote_id : QuoteManager → List Key → Option Key
unfolding has_key
next_quote_id m [] = none
next_quote_id m (id ∷ draws) =
    let later = next_quote_id m draws in if is_unused m id then some id else later

abbrev count_of_peer : Key → Keyed AcceptedQuote → ℕ
count_of_peer peer [] = 0
count_of_peer peer ((k, q) ∷ rest) =
    (if bytes_eq q.peer peer then 1 else 0) + count_of_peer peer rest

unfoldable pub peer_quote_count : QuoteManager → Key → ℕ
peer_quote_count m peer = count_of_peer peer m.buy_quotes + count_of_peer peer m.sell_quotes

unfoldable pub sign_accept_payload : QuoteManager → List ℕ → Result (List ℕ) RfqError
sign_accept_payload m payload = elim m.signer [
  | some sign ↦ sign payload
  | none ↦ ok (replicate 64 0)
]

unfoldable pub get_quote : QuoteManager → Key → Option AcceptedQuote
unfolding get
get_quote m id = elim (get id m.buy_quotes) [ some q ↦ some q | none ↦ get id m.sell_quotes ]

unfoldable pub get_pending_request : QuoteManager → Key → Option PendingRequest
unfolding get
get_pending_request m id = get id m.pending_requests

unfoldable pub pending_request_is_buy : QuoteManager → Key → Option Bool
unfolding get
pending_request_is_buy m id =
    map_option (λ (p : PendingRequest). p.request_is_buy) (get id m.pending_requests)
