-- ===== src/Rfq/Manager/Quotes.antt =====
-- tap-ldk/src/rfq/manager.rs: requests, and what answers them.
use rust_tap.Common.{ℕ, Bool, true, false, not, Option, none, some}
use rust_tap.Common.{List, Result, ok, err, ensure, ok_or, ◌>>=◌, ◌>>◌}
use rust_tap.Common.{leb, if◌then◌else◌, bytes_eq, replicate}
use rust_tap.Rfq.FixedPoint.{FixedPoint}
use rust_tap.Rfq.Keyed.{Key}
unfoldable use rust_tap.Rfq.Keyed.{get, insert_key, remove_key}
use rust_tap.Rfq.Manager.{QuoteManager, AcceptedQuote, RfqBuyRequest, RfqSellRequest, RfqAccept}
use rust_tap.Rfq.Manager.{
  RfqReject, RfqError, AcceptWire, price_oracle_unspecified, price_oracle_unavailable,
}
use rust_tap.Rfq.Manager.{
  limit_exceeded, price_failed, request_not_found, request_type_mismatch, peer_mismatch,
  quote_expired,
}
use rust_tap.Rfq.Manager.{default_quote_lifetime_secs, add_wrapping}
unfoldable use rust_tap.Rfq.Manager.{
  next_quote_id, peer_quote_count, sign_accept_payload, effective_max, unit_max_to_msat_cap,
}

abbrev pub add_pending : QuoteManager → Key → Key → Key → Bool → ℕ → ℕ → QuoteManager
add_pending m id asset_id peer is_buy max_amount now = record m {
  pending_requests =
      insert_key id
        (record {
          request_id = id;
          request_asset_id = asset_id;
          request_peer = peer;
          request_is_buy = is_buy;
          max_amount = max_amount;
          created_at = now;
        })
        m.pending_requests;
}

-- `draws` is what the random number generator gives; nothing if no draw is unused.
unfoldable pub create_buy_request :
    QuoteManager → Key → ℕ → Key → ℕ → List Key → Option (QuoteManager × RfqBuyRequest)
unfolding next_quote_id insert_key
create_buy_request m asset_id max_amount peer now draws = elim (next_quote_id m draws) [
  | none ↦ none
  | some id ↦ some (
    add_pending m id asset_id peer true max_amount now,
    record {
      buy_id = id;
      buy_asset_id = asset_id;
      asset_max_amount = max_amount;
      buy_group_key = none;
      buy_expiry = add_wrapping now default_quote_lifetime_secs;
      buy_rate_hint = none;
    },
  )
]

unfoldable pub create_sell_request :
    QuoteManager → Key → ℕ → Key → ℕ → List Key → Option (QuoteManager × RfqSellRequest)
unfolding next_quote_id insert_key
create_sell_request m asset_id max_msat peer now draws = elim (next_quote_id m draws) [
  | none ↦ none
  | some id ↦ some (
    add_pending m id asset_id peer false max_msat now,
    record {
      sell_id = id;
      sell_asset_id = asset_id;
      payment_max_amt_msat = max_msat;
      sell_group_key = none;
      sell_expiry = add_wrapping now default_quote_lifetime_secs;
      sell_rate_hint = none;
    },
  )
]

abbrev reject_limit : Key → ℕ → RfqReject
reject_limit id count = record {
  reject_id = id;
  code = price_oracle_unspecified;
  message = limit_exceeded count;
}

abbrev reject_price : Key → RfqError → RfqReject
reject_price id e = record {
  reject_id = id;
  code = price_oracle_unavailable;
  message = price_failed e;
}

-- The signature that the accept gets: the zeros stay if the encoding or the signer fails.
abbrev sig_for : QuoteManager → Result (List ℕ) (Unit {0}) → List ℕ
sig_for m (err e) = replicate 64 0
sig_for m (ok payload) = elim (sign_accept_payload m payload) [
  | err e ↦ replicate 64 0
  | ok sig ↦ sig
]

abbrev unsigned : Key → FixedPoint → ℕ → RfqAccept
unsigned id rate expiry = record {
  accept_id = id;
  asset_rate = rate;
  accept_expiry = expiry;
  sig = replicate 64 0;
  max_in_asset = none;
}

module _ (wire : AcceptWire) where
  unfoldable pub handle_buy_request :
      QuoteManager → RfqBuyRequest → Key → ℕ → ℕ → QuoteManager × Result RfqAccept RfqReject
  unfolding peer_quote_count sign_accept_payload effective_max unit_max_to_msat_cap insert_key
  handle_buy_request m request peer now quote_lifetime_secs =
      if leb m.max_quotes_per_peer (peer_quote_count m peer)
      then (m, err (reject_limit request.buy_id (peer_quote_count m peer)))
      else elim (m.oracle.ask_price request.buy_asset_id request.asset_max_amount) [
        | err e ↦ (m, err (reject_price request.buy_id e))
        | ok rate ↦
            let expiry = add_wrapping now quote_lifetime_secs in
            let accept = unsigned request.buy_id rate expiry in
            let signed = record accept { sig = sig_for m (wire.encode_buy_accept accept) } in
            let max_units = effective_max request.asset_max_amount signed.max_in_asset in
            (
              record m {
                sell_quotes =
                    insert_key request.buy_id
                      (record {
                        id = request.buy_id;
                        asset_id = request.buy_asset_id;
                        rate = rate;
                        expiry = expiry;
                        peer = peer;
                        is_buy = false;
                        max_amount_msat = unit_max_to_msat_cap max_units rate;
                      })
                      m.sell_quotes;
              },
              ok signed,
            )
      ]

  unfoldable pub handle_sell_request :
      QuoteManager → RfqSellRequest → Key → ℕ → ℕ → QuoteManager × Result RfqAccept RfqReject
  unfolding peer_quote_count sign_accept_payload effective_max insert_key
  handle_sell_request m request peer now quote_lifetime_secs =
      if leb m.max_quotes_per_peer (peer_quote_count m peer)
      then (m, err (reject_limit request.sell_id (peer_quote_count m peer)))
      else elim (m.oracle.bid_price request.sell_asset_id request.payment_max_amt_msat) [
        | err e ↦ (m, err (reject_price request.sell_id e))
        | ok rate ↦
            let expiry = add_wrapping now quote_lifetime_secs in
            let accept = unsigned request.sell_id rate expiry in
            let signed = record accept { sig = sig_for m (wire.encode_sell_accept accept) } in
            (
              record m {
                buy_quotes =
                    insert_key request.sell_id
                      (record {
                        id = request.sell_id;
                        asset_id = request.sell_asset_id;
                        rate = rate;
                        expiry = expiry;
                        peer = peer;
                        is_buy = true;
                        max_amount_msat =
                            effective_max request.payment_max_amt_msat signed.max_in_asset;
                      })
                      m.buy_quotes;
              },
              ok signed,
            )
      ]

-- An error leaves the state as it is.
unfoldable pub handle_buy_accept :
    QuoteManager → RfqAccept → Key → ℕ → Result (QuoteManager × AcceptedQuote) RfqError
unfolding get remove_key insert_key effective_max unit_max_to_msat_cap
handle_buy_accept m accept peer now = do
  pending ← ok_or (get accept.accept_id m.pending_requests) (request_not_found accept.accept_id)
  ensure pending.request_is_buy (request_type_mismatch accept.accept_id)
  ensure (bytes_eq pending.request_peer peer)
      (peer_mismatch accept.accept_id pending.request_peer peer)
  ensure (not (leb accept.accept_expiry now))
      (quote_expired accept.accept_id accept.accept_expiry now)
  let max_units = effective_max pending.max_amount accept.max_in_asset
  let quote : AcceptedQuote = record {
    id = accept.accept_id;
    asset_id = pending.request_asset_id;
    rate = accept.asset_rate;
    expiry = accept.accept_expiry;
    peer = peer;
    is_buy = true;
    max_amount_msat = unit_max_to_msat_cap max_units accept.asset_rate;
  }
  ok (
    record m {
      pending_requests = remove_key accept.accept_id m.pending_requests;
      buy_quotes = insert_key accept.accept_id quote m.buy_quotes;
    },
    quote,
  )

unfoldable pub handle_sell_accept :
    QuoteManager → RfqAccept → Key → ℕ → Result (QuoteManager × AcceptedQuote) RfqError
unfolding get remove_key insert_key effective_max
handle_sell_accept m accept peer now = do
  pending ← ok_or (get accept.accept_id m.pending_requests) (request_not_found accept.accept_id)
  ensure (not pending.request_is_buy) (request_type_mismatch accept.accept_id)
  ensure (bytes_eq pending.request_peer peer)
      (peer_mismatch accept.accept_id pending.request_peer peer)
  ensure (not (leb accept.accept_expiry now))
      (quote_expired accept.accept_id accept.accept_expiry now)
  let quote : AcceptedQuote = record {
    id = accept.accept_id;
    asset_id = pending.request_asset_id;
    rate = accept.asset_rate;
    expiry = accept.accept_expiry;
    peer = peer;
    is_buy = false;
    max_amount_msat = effective_max pending.max_amount accept.max_in_asset;
  }
  ok (
    record m {
      pending_requests = remove_key accept.accept_id m.pending_requests;
      sell_quotes = insert_key accept.accept_id quote m.sell_quotes;
    },
    quote,
  )

unfoldable pub handle_reject : QuoteManager → RfqReject → Key → Result QuoteManager RfqError
unfolding get remove_key
handle_reject m reject peer = do
  pending ← ok_or (get reject.reject_id m.pending_requests) (request_not_found reject.reject_id)
  ensure (bytes_eq pending.request_peer peer)
      (peer_mismatch reject.reject_id pending.request_peer peer)
  ok (record m { pending_requests = remove_key reject.reject_id m.pending_requests })
